-- ===== src/Decisions/Challenge/Tests.antt =====
-- Runs of the challenge service of backend/app/decisions/challenge.py.
use continuous_auth.Common.{
  ◌≤◌, ◌≡◌, refl, ◌⊎◌, true, false, none, some, List, [], ◌∷◌, String, is_blank, is_empty, lookup,
}
use continuous_auth.Contracts.{soft_challenge, reauth}
use continuous_auth.Decisions.Posture.{rejected}
use continuous_auth.Decisions.Challenge.Credential.{
  Reply, wrong_current_answer, ChallengeCredential, compare_digest, serialise, returned, raised,
  verify, unknown_challenge,
}
use continuous_auth.Decisions.Challenge.Registry.{
  PendingChallenge, active_challenge, is_scheduled_challenge, is_open, is_enforcement,
}
use continuous_auth.Decisions.Challenge.Service.{
  EnforcementSettings, ChallengeService, Result, configure_checks, configure_credential,
  new_service, configure, require_credential, credential_or_none,
}
use continuous_auth.Decisions.Challenge.Prompts.{Subject, open_reauthentication, respond}
use continuous_auth.Decisions.Challenge.Ready.{IsReady}
use continuous_auth.Decisions.Challenge.Answers.{respond_once}
use continuous_auth.Decisions.Challenge.Setup.{configure_guarded, configure_restart}
use continuous_auth.Decisions.Challenge.Openings.{
  active_challenge_first, open_reauthentication_keeps,
}
use continuous_auth.Decisions.Challenge.Refinement.{
  Call, opened, answered, discarded, swept, book, run, run_spec, run_refines,
}
use continuous_auth.Decisions.Challenge.Codec.{plain, plain_unhexed, plain_decoded}

abbrev settings : EnforcementSettings
settings = record { challenge_timeout = 100; answer_hash_iterations = 2 }

abbrev who : Subject
who = record { user_id = "u"; session_id = "s"; segment_id = "g" }

-- The credential with the answer "blue", without a salt.
abbrev k : ChallengeCredential
k = record {
  question = "Which colour?";
  salt_hex = "";
  digest_hex = plain.to_hex (98 ∷ 108 ∷ 117 ∷ 101 ∷ []);
  iterations = 2;
}

abbrev prompt : PendingChallenge
prompt = record {
  decision_id = "scheduled-anchor:1";
  user_id = "u";
  session_id = "s";
  segment_id = "g";
  action = soft_challenge;
  question = "Which colour?";
  opened_at = 7;
  expires_at = 107;
  response_token = "t";
}

abbrev wall : PendingChallenge
wall = record prompt { decision_id = "d"; action = reauth; opened_at = 5; expires_at = 105 }

abbrev service : ChallengeService
service = record {
  document = none;
  pending = ("scheduled-anchor:1", prompt) ∷ ("d", wall) ∷ [];
  credential = some k;
  loaded = true;
}

ready : IsReady k service
ready = record { loaded = refl; credential = refl; keyed = (refl, refl, (refl, refl, tt)) }

right : verify plain k "blue" ≡ some true
unfolding verify compare_digest
right = refl

wrong : verify plain k "red" ≡ some false
unfolding verify compare_digest
wrong = refl

abbrev outcomes : List Call
outcomes =
    opened wall
    ∷ answered "d" "blue" (some "t") 105 "n"
    ∷ answered "d" "blue" none 9 "n"
    ∷ swept 107
    ∷ discarded "d"
    ∷ []

run_refines_example :
    ((run plain outcomes service).0, book (run plain outcomes service).1)
    ≡ run_spec plain k outcomes (book service)
run_refines_example = run_refines plain k outcomes service ready

-- The answer at the deadline itself still counts, where the sweep has not been.
abbrev after : ChallengeService
after = (respond plain "d" "blue" (some "t") 105 "n" service).1

respond_once_example :
    respond plain "d" "blue" none 9 "m" (respond plain "d" "red" none 8 "n" service).1
    ≡ (raised unknown_challenge, (respond plain "d" "red" none 8 "n" service).1)
unfolding respond verify compare_digest
respond_once_example =
    respond_once plain k "d" "red" "blue" none none 8 9 "n" "m" service
      (record { outcome = rejected; challenge = wall; evidence_reference = none }) ready refl

abbrev rotated : ChallengeService
rotated = (configure plain settings " Which town? " "Rome" "Rome" (some "blue") [] service).1

rotates :
    configure plain settings " Which town? " "Rome" "Rome" (some "blue") [] service
    ≡ (returned tt, rotated)
unfolding configure is_empty verify compare_digest is_blank serialise
rotates = refl

configure_guarded_example :
    (current : String) × (some "blue" ≡ some current) × (verify plain k current ≡ some true)
unfolding credential_or_none
configure_guarded_example =
    configure_guarded plain settings " Which town? " "Rome" "Rome" (some "blue") [] service rotated
      k refl rotates

configure_restart_example :
    (k' : ChallengeCredential) × (rotated.credential ≡ some k')
    × (verify plain k' "Rome" ≡ some true)
    × ((require_credential plain (new_service rotated.document)).0 ≡ returned k')
configure_restart_example =
    configure_restart plain plain_unhexed plain_decoded settings " Which town? " "Rome" "Rome"
      (some "blue") [] service rotated rotates

-- The scheduled prompt is newer, and yet the enforcement challenge is the active one.
active_challenge_first_example :
    (lookup "d" service.pending ≡ some wall)
    × (is_open 9 wall ≡ true)
    × (((is_scheduled_challenge "d" ≡ false) × (is_scheduled_challenge "scheduled-anchor:1" ≡ true))
        ⊎ ((is_scheduled_challenge "d" ≡ is_scheduled_challenge "scheduled-anchor:1") × (7 ≤ 5)))
unfolding active_challenge
active_challenge_first_example =
    active_challenge_first 9 service.pending wall prompt "scheduled-anchor:1" ready.keyed refl refl
      refl

open_reauthentication_keeps_example :
    (p : PendingChallenge) × (open_reauthentication plain settings who 9 "r" "t" service
      ≡ (returned p, service))
    × (lookup p.decision_id service.pending ≡ some p)
    × (is_enforcement 9 p ≡ true)
    × (5 ≤ p.opened_at)
unfolding is_enforcement
open_reauthentication_keeps_example =
    open_reauthentication_keeps plain settings k who 9 "r" "t" service wall "d" ready refl refl

-- Two calls of `configure` check the same credential, whose answer they are given. The first one puts
-- its credential in the place of it, and then the second one puts its own there.
abbrev checked : Result Unit
checked = configure_checks plain "Which day?" "monday" "monday" (some "blue") service

abbrev both_checked : Result Unit
both_checked = configure_checks plain "Which town?" "london" "london" (some "blue") checked.1

abbrev first_rotation : Result Unit
first_rotation = configure_credential plain settings "Which day?" "monday" [] both_checked.1

stale_rotation :
    ◌≡◌ {A = Reply Unit × Reply Unit}
      (
        both_checked.0,
        (configure_credential plain settings "Which town?" "london" [] first_rotation.1).0,
      )
      (returned tt, returned tt)
unfolding configure_checks configure_credential is_empty verify compare_digest is_blank serialise
stale_rotation = refl

-- In a row, the second call is refused.
rotation_refused :
    (configure plain settings "Which town?" "london" "london" (some "blue") [] first_rotation.1).0
    ≡ raised wrong_current_answer
unfolding configure is_empty is_blank serialise verify compare_digest
rotation_refused = refl
