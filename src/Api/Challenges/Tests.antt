-- ===== src/Api/Challenges/Tests.antt =====
-- Runs of the calls on challenges of backend/app/api/backend.py.
use continuous_auth.Decisions.Challenge.Prompts.{respond, expire_overdue}
use continuous_auth.Common.{
  ℕ, ◌+◌, ◌<◌, ◌≡◌, refl, true, false, Option, none, some, [], ◌∷◌, String, lookup, text_length,
}
use continuous_auth.Contracts.{reauth, soft_challenge}
use continuous_auth.Decisions.Posture.{
  observe_challenge_outcome, SessionState, EnforcementPosture, new_state, reauth_required,
}
use continuous_auth.Decisions.Challenge.Credential.{
  compare_digest, Crypto, ChallengeCredential, verify,
}
use continuous_auth.Decisions.Challenge.Registry.{PendingChallenge}
use continuous_auth.Decisions.Challenge.Service.{ChallengeService}
use continuous_auth.Decisions.Challenge.Ready.{IsReady}
use continuous_auth.Api.Challenges.{Wiring, Backend, respond_to_challenge, sweep_expired_challenges}
use continuous_auth.Api.Challenges.Unblocking.{respond_unblocks, IsPassed}

-- A derivation that knows one answer, and no codec.
abbrev knows_blue : Crypto
knows_blue = record {
  derive = λ answer salt iterations. some (text_length answer ∷ []);
  to_hex = λ bytes. "";
  from_hex = λ s. some (4 ∷ []);
  dumps = λ d. "";
  loads = λ s. none;
}

abbrev k : ChallengeCredential
k = record { question = "Which colour?"; salt_hex = ""; digest_hex = ""; iterations = 2 }

abbrev wall : PendingChallenge
wall = record {
  decision_id = "recovery:1";
  user_id = "u";
  session_id = "s";
  segment_id = "g";
  action = reauth;
  question = "Which colour?";
  opened_at = 5;
  expires_at = 105;
  response_token = "t";
}

abbrev soft : PendingChallenge
soft = record wall { decision_id = "e"; action = reauth; expires_at = 6 }

abbrev service : ChallengeService
service = record {
  document = none;
  pending = ("recovery:1", wall) ∷ ("e", soft) ∷ [];
  credential = some k;
  loaded = true;
}

ready : IsReady k service
ready = record { loaded = refl; credential = refl; keyed = (refl, refl, (refl, refl, tt)) }

abbrev session : SessionState
session = record (new_state true) { posture = reauth_required; decision_id = some "d" }

abbrev backend : Backend ℕ
backend = record {
  challenges = service;
  coordinator = record { session_state = some session; issued = 0; world = 0 };
}

abbrev wiring : Wiring ℕ ℕ
wiring = record {
  enforcement = none;
  recovery_anchor_sink = some (λ r w. (true, w + 1));
  scheduled_anchor_sink = none;
}

abbrev digest : String → String
digest s = s

abbrev make_id : ℕ → String
make_id n = "anchor"

-- Another challenge was overdue and locks the session out first; the right answer unlocks it.
respond_unblocks_example :
    (p : PendingChallenge) × (lookup "recovery:1" service.pending ≡ some p)
    × (8 < p.expires_at)
    × IsPassed knows_blue k "blue" (some "t") 9 p
unfolding respond_to_challenge expire_overdue respond verify compare_digest
    observe_challenge_outcome new_state
respond_unblocks_example =
    respond_unblocks digest make_id wiring knows_blue k "recovery:1" "blue" (some "t") 8 9 10 "n"
      backend ready refl refl

-- An overdue soft challenge whose record fails, and an overdue REAUTH behind it.
abbrev missed : Backend ℕ
missed = record {
  challenges = record service {
    pending =
        ("e", record wall { decision_id = "e"; action = soft_challenge; expires_at = 6 })
        ∷ ("d", record wall { decision_id = "d"; expires_at = 7 })
        ∷ [];
  };
  coordinator = record { session_state = some (new_state true); issued = 0; world = 0 };
}

abbrev failing : Wiring ℕ ℕ
failing = record wiring {
  enforcement = some (record {
    adapters = λ action. none;
    record_action_outcome = some (λ o w. (false, w));
    record_verification = none;
    notice_sink = none;
  });
}

abbrev posture_of : Option SessionState → Option EnforcementPosture
posture_of none = none
posture_of (some s) = some s.posture

-- The REAUTH is taken out of the registry, but does not lock the session out.
sweep_stops_at_failure :
    let r = sweep_expired_challenges digest make_id failing 8 9 missed in
    (r.1.0 ≡ false)
    × (r.1.1.challenges.pending ≡ [])
    × (posture_of r.1.1.coordinator.session_state ≡ some reauth_required)
unfolding sweep_expired_challenges expire_overdue observe_challenge_outcome new_state
sweep_stops_at_failure = (refl, refl, refl)
