-- ===== src/Decisions/Enforcement/Tests.antt =====
-- Runs of the coordinator of backend/app/decisions/adapters.py. The world counts the store's calls.
use continuous_auth.Common.{
  ℕ, ◌+◌, ◌≡◌, refl, subst, List, [], ◌∷◌, All, arith, Bool, true, false, Option, none, some,
  String, if◌then◌else◌,
}
use continuous_auth.Contracts.{RiskDecision, full, high, active, empirical, reauth}
use continuous_auth.Decisions.Posture.{new_state, is_reauth}
use continuous_auth.Decisions.Enforcement.{
  succeeded, Adapter, adapter_for, AdapterResult, a2_reauth, VerificationRecord, ActionOutcome,
  Environment, EnforcementCoordinator,
}
use continuous_auth.Decisions.Enforcement.Actions.{observe_decision, execute}
use continuous_auth.Decisions.Enforcement.Persistence.{execute-session_state}
use continuous_auth.Decisions.Enforcement.Stored.{execute_stores}

abbrev Write : Type 0 → Type 0
Write A = A → List VerificationRecord → Bool × List VerificationRecord

-- The call, if there is one.
abbrev unwrapped : {A : Type 0} → Option (Write A) → Write A
unwrapped none a w = (true, w)
unwrapped (some write) a w = write a w

abbrev digest : String → String
digest s = s

abbrev make_id : ℕ → String
make_id n = "anchor"

abbrev answering : Option AdapterResult → Bool → Environment ℕ ℕ
answering result stores = record {
  adapters = λ action. if is_reauth action then some (λ d w. (result, w)) else none;
  record_action_outcome = some (λ o w. (stores, w + 1));
  record_verification = some (λ v w. (stores, w + 1));
  notice_sink = some (λ n w. (true, w + 10));
}

abbrev proved : Environment ℕ ℕ
proved =
    answering
      (some
        (record { status = succeeded; code = "REAUTHENTICATED"; evidence_reference = some "e" }))
      true

-- The adapter raises, and so does the store.
abbrev broken : Environment ℕ ℕ
broken = answering none false

abbrev coordinator : EnforcementCoordinator ℕ
coordinator = record { session_state = some (new_state true); issued = 0; world = 0 }

abbrev decision : RiskDecision ℕ
decision = record {
  decision_id = "d";
  user_id = "u";
  session_id = "s";
  segment_id = "g";
  window_id = "w";
  t_decision_us = 5;
  quality_label = full;
  fused_score = some 90;
  context_confidence = 100;
  confidence_source = empirical;
  smoothed_score = some 90;
  risk_level = high;
  user_state = active;
  action = reauth;
  reason_code = "RISK_ESCALATION";
  threshold_config_version = "v";
  config_checksum = "c";
  shadow_mode = false;
  enforcement_applied = true;
}

execute-session_state_example :
    (execute digest make_id broken decision 7 8 coordinator).1.session_state
    ≡ (observe_decision decision 8 coordinator).session_state
execute-session_state_example = execute-session_state digest make_id broken decision 7 8 coordinator

-- A world that holds the verifications that were stored.
abbrev recording : Environment ℕ (List VerificationRecord)
recording = record {
  adapters = λ action. some (λ d w.
      (some (record { status = succeeded; code = "DONE"; evidence_reference = some "e" }), w));
  record_action_outcome = some (λ o w. (true, w));
  record_verification = some (λ v w. (true, v ∷ w));
  notice_sink = none;
}

abbrev OnlyReauth : List VerificationRecord → Type 0
OnlyReauth = All (λ v. v.anchor_type ≡ a2_reauth)

abbrev without_records : EnforcementCoordinator (List VerificationRecord)
without_records = record { session_state = some (new_state true); issued = 0; world = [] }

-- The world after a call of the adapter, if there is one.
abbrev moved : Option (Adapter ℕ (List VerificationRecord)) → List VerificationRecord
moved none = []
moved (some adapter) = (adapter decision []).1

outcomes-keep :
    (o : ActionOutcome) (write : Write ActionOutcome)
    → recording.record_action_outcome ≡ some write
    → (w : List VerificationRecord) → OnlyReauth w
    → OnlyReauth (write o w).1
outcomes-keep o write e w h = subst (λ r. OnlyReauth (unwrapped r o w).1) e h

verifications-keep :
    (v : VerificationRecord) (write : Write VerificationRecord)
    → v.anchor_type ≡ a2_reauth
    → recording.record_verification ≡ some write
    → (w : List VerificationRecord) → OnlyReauth w
    → OnlyReauth (write v w).1
verifications-keep v write t e w h = subst (λ r. OnlyReauth (unwrapped r v w).1) e (t, h)

adapters-keep :
    (adapter : Adapter ℕ (List VerificationRecord))
    → adapter_for recording reauth ≡ some adapter
    → OnlyReauth (adapter decision []).1
unfolding adapter_for
adapters-keep adapter e = subst (λ a. OnlyReauth (moved a)) e tt

execute_stores_example :
    OnlyReauth (execute digest make_id recording decision 7 8 without_records).1.world
execute_stores_example =
    execute_stores digest make_id recording OnlyReauth decision 7 8 without_records
      (λ adapter e h. adapters-keep adapter e) (λ sink n e w h. absurd (ground (arith, e)))
      (λ o n. outcomes-keep o)
      (λ v p. ((λ write. verifications-keep v write p.3), (λ o q. outcomes-keep o))) tt

-- An exception of the store is not kept back.
store_failure_raises : (execute digest make_id broken decision 7 8 coordinator).0 ≡ none
unfolding execute
store_failure_raises = refl
