-- ===== src/Decisions/Enforcement/Actions.antt =====
-- backend/app/decisions/adapters.py: what `EnforcementCoordinator` does with decisions and answers.
use continuous_auth.Common.{
  ℕ, ◌+◌, Bool, not, ◌&&◌, ◌||◌, Option, none, some, String, is_blank, is_empty, if◌then◌else◌,
}
use continuous_auth.Contracts.{DecisionAction, continue, RiskDecision, is_active, same_action}
use continuous_auth.Decisions.Posture
use continuous_auth.Decisions.Posture.{SessionState, is_reauth}
use continuous_auth.Decisions.Enforcement.{
  succeeded, cancelled, skipped, is_succeeded, AdapterResult, Adapter, VerificationAnchor,
  a1_login_unlock, a2_reauth, a3_scheduled_prompt, VerificationRecord, ActionOutcome, Environment,
  EnforcementCoordinator, adapter_for, call_store, unless_raised, record_outcome, outcome_of,
  fail_open,
}

-- The arguments that a verification record is made of; a missing time is a clock reading.
pub record Evidence : Type 0 where
  pub user_id : String
  pub session_id : String
  pub segment_id : Option String
  pub evidence_reference : String
  pub authenticated_at : ℕ

-- The state gate of `execute`.
abbrev pub is_gated : {F : Type 0} → RiskDecision F → Bool
is_gated d =
    not (is_active d.user_state)
    || (not d.enforcement_applied && not (same_action d.action continue))

-- The evidence of an adapter's result that creates an anchor.
abbrev pub proof_of : DecisionAction → AdapterResult → Option String
proof_of action result =
    if is_reauth action && is_succeeded result.status then result.evidence_reference else none

-- The subject of a decision, still without a proof.
abbrev pub evidence_of : {F : Type 0} → RiskDecision F → ℕ → Evidence
evidence_of d now = record {
  user_id = d.user_id;
  session_id = d.session_id;
  segment_id = some d.segment_id;
  evidence_reference = "";
  authenticated_at = now;
}

observe : Option SessionState → String → DecisionAction → Bool → ℕ → Option SessionState
observe none decision_id action applied now = none
observe (some s) decision_id action applied now =
    some (Posture.observe_decision decision_id action applied now s).1

-- The call of the posture's `observe_decision`, if there is a posture.
unfoldable pub observe_decision :
    {F W : Type 0} → RiskDecision F → ℕ → EnforcementCoordinator W → EnforcementCoordinator W
unfolding observe
observe_decision d now c = record c {
  session_state = observe c.session_state d.decision_id d.action d.enforcement_applied now;
}

module _ {W : Type 0} (digest : String → String) (make_id : ℕ → String) where
  -- A record of this type, with a new id; a blank evidence is a `ValueError`.
  unfoldable pub verify :
      VerificationAnchor
      → Evidence
      → EnforcementCoordinator W
      → Option VerificationRecord × EnforcementCoordinator W
  verify anchor_type e c =
      let c' = record c { issued = c.issued + 1 } in
      if is_blank e.evidence_reference then (none, c') else (
        some (record {
          anchor_id = make_id c.issued;
          user_id = e.user_id;
          session_id = e.session_id;
          segment_id = e.segment_id;
          anchor_type = anchor_type;
          evidence_reference = digest e.evidence_reference;
          authenticated_at = e.authenticated_at;
        }),
        c',
      )

abbrev pub response_outcome : String → DecisionAction → Bool → String → Evidence → ActionOutcome
response_outcome decision_id action accepted code e = record {
  decision_id = decision_id;
  requested_action = action;
  status = if accepted then succeeded else cancelled;
  code = code;
  occurred_at = e.authenticated_at;
  verification = none;
}

-- `accepted and requested_action is REAUTH and evidence_reference`: the evidence, if so
abbrev pub answer_proof : DecisionAction → Bool → Option String → Option String
answer_proof action accepted none = none
answer_proof action accepted (some proof) =
    if accepted && is_reauth action && not (is_empty proof) then some proof else none

module _ {F W : Type 0} (digest : String → String) (make_id : ℕ → String)
    (env : Environment F W) where
  keep_record :
      Option VerificationRecord × EnforcementCoordinator W
      → Option VerificationRecord × EnforcementCoordinator W
  keep_record (none, c) = (none, c)
  keep_record (some v, c) = unless_raised v (call_store env.record_verification v c)

  unfoldable pub record_authenticated_entry :
      Evidence → EnforcementCoordinator W → Option VerificationRecord × EnforcementCoordinator W
  unfolding keep_record verify
  record_authenticated_entry e c = keep_record (verify digest make_id a1_login_unlock e c)

  unfoldable pub record_recovery_reauthentication :
      Evidence → EnforcementCoordinator W → Option VerificationRecord × EnforcementCoordinator W
  unfolding keep_record verify
  record_recovery_reauthentication e c = keep_record (verify digest make_id a2_reauth e c)

  lift :
      Option VerificationRecord × EnforcementCoordinator W
      → Option (Option VerificationRecord) × EnforcementCoordinator W
  lift (none, c) = (none, c)
  lift (some v, c) = (some (some v), c)

  schedule :
      Option String
      → Evidence
      → EnforcementCoordinator W
      → Option (Option VerificationRecord) × EnforcementCoordinator W
  unfolding keep_record lift verify
  schedule none e c = (some none, c)
  schedule (some proof) e c = lift (
      keep_record
        (verify digest make_id a3_scheduled_prompt (record e { evidence_reference = proof }) c))

  -- The evidence is the result's; it answers without a record where the prompt did not succeed.
  unfoldable pub record_scheduled_verification :
      AdapterResult
      → Evidence
      → EnforcementCoordinator W
      → Option (Option VerificationRecord) × EnforcementCoordinator W
  unfolding schedule
  record_scheduled_verification result e c =
      schedule (if is_succeeded result.status then result.evidence_reference else none) e c

  -- The outcome with the verification that was made, or the exception.
  unfoldable pub conclude :
      ActionOutcome
      → Option VerificationRecord × EnforcementCoordinator W
      → Option ActionOutcome × EnforcementCoordinator W
  unfolding record_outcome
  conclude outcome (none, c) = (none, c)
  conclude outcome (some v, c) = record_outcome env (record outcome { verification = some v }) c

  -- The end of a method: an A2 anchor where there is a proof, and the outcome.
  unfoldable pub anchor_and_record :
      Option String
      → Evidence
      → ActionOutcome
      → EnforcementCoordinator W
      → Option ActionOutcome × EnforcementCoordinator W
  unfolding conclude record_outcome verify
  anchor_and_record none e outcome c = record_outcome env outcome c
  anchor_and_record (some proof) e outcome c =
      conclude outcome (verify digest make_id a2_reauth (record e { evidence_reference = proof }) c)

  -- What `execute` does with the adapter's answer.
  unfoldable pub finish :
      RiskDecision F
      → ℕ
      → EnforcementCoordinator W
      → Option AdapterResult × W
      → Option ActionOutcome × EnforcementCoordinator W
  unfolding fail_open anchor_and_record outcome_of
  finish d now c (none, w) =
      fail_open env d "ENFORCEMENT_ADAPTER_FAILED" now (record c { world = w })
  finish d now c (some result, w) =
      anchor_and_record (proof_of d.action result) (evidence_of d now)
        (outcome_of d result.status result.code now) (record c { world = w })

  -- What `execute` does with the adapter of the action.
  unfoldable pub dispatch :
      Option (Adapter F W)
      → RiskDecision F
      → ℕ
      → EnforcementCoordinator W
      → Option ActionOutcome × EnforcementCoordinator W
  unfolding finish fail_open
  dispatch none d now c = fail_open env d "ENFORCEMENT_ADAPTER_UNAVAILABLE" now c
  dispatch (some adapter) d now c = finish d now c (adapter d c.world)

  -- `execute`, with its own clock reading and that of the posture
  unfoldable pub execute :
      RiskDecision F
      → ℕ
      → ℕ
      → EnforcementCoordinator W
      → Option ActionOutcome × EnforcementCoordinator W
  unfolding dispatch observe_decision record_outcome outcome_of adapter_for
  execute d now posture_now c =
      let gated = record_outcome env (outcome_of d skipped "STATE_GATED_NO_ENFORCEMENT" now) c in
      let executed = dispatch (adapter_for env d.action) d now (observe_decision d posture_now c) in
      if is_gated d then gated else executed

  unfoldable pub record_challenge_response :
      String
      → DecisionAction
      → Bool
      → String
      → Option String
      → Evidence
      → EnforcementCoordinator W
      → Option ActionOutcome × EnforcementCoordinator W
  unfolding anchor_and_record record_outcome
  record_challenge_response decision_id action accepted code evidence e c =
      anchor_and_record (answer_proof action accepted evidence) e
        (response_outcome decision_id action accepted code e) c
