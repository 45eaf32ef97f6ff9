-- ===== src/Decisions/Enforcement.antt =====
-- backend/app/decisions/adapters.py: `EnforcementCoordinator`. The adapters, the store and the sink of
-- notices are the environment: functions on a world `W` of their own. The digest of evidence is the
-- parameter `digest`, and `make_id` the n-th answer of the factory of anchor ids.
pub mod Actions
pub mod Persistence
pub mod Anchors
pub mod Stored
mod Tests
use continuous_auth.Common.{
  ℕ, ◌+◌, Bool, true, false, not, ◌&&◌, ◌||◌, Option, none, some, String, is_blank, is_empty,
  is_some, if◌then◌else◌,
}
use continuous_auth.Contracts.{DecisionAction, continue, RiskDecision, is_active, same_action}
use continuous_auth.Decisions.Posture
use continuous_auth.Decisions.Posture.{SessionState, is_reauth}

pub data ActionStatus : Type 0 where
  succeeded failed_open cancelled skipped : ActionStatus

abbrev pub is_succeeded : ActionStatus → Bool
is_succeeded succeeded = true
is_succeeded failed_open = false
is_succeeded cancelled = false
is_succeeded skipped = false

pub record AdapterResult : Type 0 where
  pub status : ActionStatus
  pub code : String
  pub evidence_reference : Option String

-- protocol/generated/python/contracts.py
pub data VerificationAnchor : Type 0 where
  a1_login_unlock a2_reauth a3_scheduled_prompt : VerificationAnchor

pub record VerificationRecord : Type 0 where
  pub anchor_id : String
  pub user_id : String
  pub session_id : String
  pub segment_id : Option String
  pub anchor_type : VerificationAnchor
  pub evidence_reference : String
  pub authenticated_at : ℕ

pub record ActionOutcome : Type 0 where
  pub decision_id : String
  pub requested_action : DecisionAction
  pub status : ActionStatus
  pub code : String
  pub occurred_at : ℕ
  pub verification : Option VerificationRecord

-- The severity is always HIGH.
pub record EnforcementNotice : Type 0 where
  pub code : String
  pub decision_id : String

-- An adapter's answer; none is an exception.
abbrev pub Adapter : Type 0 → Type 0 → Type 0
Adapter F W = RiskDecision F → W → Option AdapterResult × W

-- What a coordinator is built of. A call of the store or of the sink answers false where it raises.
pub record Environment (F W : Type 0) : Type 0 where
  pub adapters : DecisionAction → Option (Adapter F W)
  pub record_action_outcome : Option (ActionOutcome → W → Bool × W)
  pub record_verification : Option (VerificationRecord → W → Bool × W)
  pub notice_sink : Option (EnforcementNotice → W → Bool × W)

-- The posture is shared with the backend.
pub record EnforcementCoordinator (W : Type 0) : Type 0 where
  pub session_state : Option SessionState
  -- how many ids of anchors have been made
  pub issued : ℕ
  pub world : W

-- `ContinueAdapter`, which stands in where no other adapter does
unfoldable pub continue_adapter : {F W : Type 0} → Adapter F W
continue_adapter d w =
    (some (record { status = succeeded; code = "CONTINUE_OBSERVED"; evidence_reference = none }), w)

-- `setdefault` of the constructor
unfoldable pub adapter_for :
    {F W : Type 0} → Environment F W → DecisionAction → Option (Adapter F W)
unfolding continue_adapter
adapter_for env action = elim (env.adapters action) [
  | some adapter ↦ some adapter
  | none ↦ if same_action action continue then some continue_adapter else none
]

unfoldable pub attach_session_state :
    {W : Type 0} → SessionState → EnforcementCoordinator W → EnforcementCoordinator W
attach_session_state s c = record c { session_state = some s }

module _ {W : Type 0} where
  -- A call of the store or of the sink, if there is one; false is an exception.
  abbrev pub call_store :
      {A : Type 0}
      → Option (A → W → Bool × W)
      → A
      → EnforcementCoordinator W
      → Bool × EnforcementCoordinator W
  call_store none a c = (true, c)
  call_store (some write) a c = let (done, w) = write a c.world in (done, record c { world = w })

  -- The value of a call, unless the store raised.
  abbrev pub unless_raised :
      {A : Type 0} → A → Bool × EnforcementCoordinator W → Option A × EnforcementCoordinator W
  unless_raised a (true, c) = (some a, c)
  unless_raised a (false, c) = (none, c)

-- An outcome of a decision, without a verification.
unfoldable pub outcome_of :
    {F : Type 0} → RiskDecision F → ActionStatus → String → ℕ → ActionOutcome
outcome_of d status code now = record {
  decision_id = d.decision_id;
  requested_action = d.action;
  status = status;
  code = code;
  occurred_at = now;
  verification = none;
}

module _ {F W : Type 0} (env : Environment F W) where
  -- `_record`, after the store has been given the verification
  unfoldable pub record_after :
      ActionOutcome
      → Bool × EnforcementCoordinator W
      → Option ActionOutcome × EnforcementCoordinator W
  record_after outcome (true, c) =
      unless_raised outcome (call_store env.record_action_outcome outcome c)
  record_after outcome (false, c) = (none, c)

  -- `_record` of an outcome with this verification
  unfoldable pub record_with :
      Option VerificationRecord
      → ActionOutcome
      → EnforcementCoordinator W
      → Option ActionOutcome × EnforcementCoordinator W
  unfolding record_after
  record_with none outcome c = record_after outcome (true, c)
  record_with (some v) outcome c = record_after outcome (call_store env.record_verification v c)

  -- `_record`
  unfoldable pub record_outcome :
      ActionOutcome → EnforcementCoordinator W → Option ActionOutcome × EnforcementCoordinator W
  unfolding record_with
  record_outcome outcome c = record_with outcome.verification outcome c

  -- What follows the call of the sink.
  unfoldable pub record_unless_raised :
      ActionOutcome
      → Bool × EnforcementCoordinator W
      → Option ActionOutcome × EnforcementCoordinator W
  unfolding record_outcome
  record_unless_raised outcome (true, c) = record_outcome outcome c
  record_unless_raised outcome (false, c) = (none, c)

  -- `_fail_open`
  unfoldable pub fail_open :
      RiskDecision F
      → String
      → ℕ
      → EnforcementCoordinator W
      → Option ActionOutcome × EnforcementCoordinator W
  unfolding record_unless_raised outcome_of
  fail_open d code occurred_at c =
      record_unless_raised (outcome_of d failed_open code occurred_at)
        (call_store env.notice_sink (record { code = code; decision_id = d.decision_id }) c)
