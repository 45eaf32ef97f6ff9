-- ===== src/Decisions/Enforcement/Persistence.antt =====
-- What backend/app/decisions/adapters.py guarantees of the posture, whatever the adapters, the store and the sink of
-- notices do.
use continuous_auth.Common.{
  ℕ, ◌≡◌, refl, ap, ◌∙◌, not, ◌&&◌, ◌||◌, inl, inr, Bool, true, false, Option, none, some, String,
  arith, Bool-cases, if◌then◌else◌,
}
use continuous_auth.Contracts.{RiskDecision, DecisionAction, continue, is_active, same_action}
use continuous_auth.Decisions.Enforcement.{
  failed_open, skipped, AdapterResult, Adapter, VerificationAnchor, a2_reauth, VerificationRecord,
  ActionOutcome, EnforcementNotice, Environment, EnforcementCoordinator, adapter_for, call_store,
  unless_raised, record_outcome, record_after, record_with, outcome_of, record_unless_raised,
  fail_open,
}
use continuous_auth.Decisions.Enforcement.Actions.{
  Evidence, evidence_of, record_challenge_response, response_outcome, answer_proof, is_gated,
  proof_of, observe_decision, verify, anchor_and_record, execute, conclude, finish, dispatch,
}

module _ {W : Type 0} where
  call_store-session_state :
      {A : Type 0} (o : Option (A → W → Bool × W)) (a : A) (c : EnforcementCoordinator W)
      → (call_store o a c).1.session_state ≡ c.session_state
  call_store-session_state none a c = refl
  call_store-session_state (some write) a c = refl

  unless_raised-session_state :
      {A : Type 0} (a : A) (r : Bool × EnforcementCoordinator W)
      → (unless_raised a r).1.session_state ≡ r.1.session_state
  unless_raised-session_state a (true, c) = refl
  unless_raised-session_state a (false, c) = refl

  unless_raised-some :
      {A : Type 0} (a b : A) (r : Bool × EnforcementCoordinator W)
      → (unless_raised a r).0 ≡ some b
      → a ≡ b
  unless_raised-some a b (true, c) h = ground (arith, h)
  unless_raised-some a b (false, c) h = absurd (ground (arith, h))

module _ {F W : Type 0} (env : Environment F W) where
  record_after-session_state :
      (outcome : ActionOutcome) (r : Bool × EnforcementCoordinator W)
      → (record_after env outcome r).1.session_state ≡ r.1.session_state
  unfolding record_after
  record_after-session_state outcome (false, c) = refl
  record_after-session_state outcome (true, c) =
      unless_raised-session_state outcome (call_store env.record_action_outcome outcome c)
      ∙ call_store-session_state env.record_action_outcome outcome c

  record_with-session_state :
      (v : Option VerificationRecord) (outcome : ActionOutcome) (c : EnforcementCoordinator W)
      → (record_with env v outcome c).1.session_state ≡ c.session_state
  unfolding record_with
  record_with-session_state none outcome c = record_after-session_state outcome (true, c)
  record_with-session_state (some v) outcome c =
      record_after-session_state outcome (call_store env.record_verification v c)
      ∙ call_store-session_state env.record_verification v c

  record_outcome-session_state :
      (outcome : ActionOutcome) (c : EnforcementCoordinator W)
      → (record_outcome env outcome c).1.session_state ≡ c.session_state
  unfolding record_outcome
  record_outcome-session_state outcome c = record_with-session_state outcome.verification outcome c

  record_after-some :
      (outcome o : ActionOutcome) (r : Bool × EnforcementCoordinator W)
      → (record_after env outcome r).0 ≡ some o
      → outcome ≡ o
  unfolding record_after
  record_after-some outcome o (false, c) h = absurd (ground (arith, h))
  record_after-some outcome o (true, c) h =
      unless_raised-some outcome o (call_store env.record_action_outcome outcome c) h

  record_with-some :
      (v : Option VerificationRecord) (outcome o : ActionOutcome) (c : EnforcementCoordinator W)
      → (record_with env v outcome c).0 ≡ some o
      → outcome ≡ o
  unfolding record_with
  record_with-some none outcome o c h = record_after-some outcome o (true, c) h
  record_with-some (some v) outcome o c h =
      record_after-some outcome o (call_store env.record_verification v c) h

  -- The outcome that is recorded is the one that is answered.
  pub record_outcome-some :
      (outcome o : ActionOutcome) (c : EnforcementCoordinator W)
      → (record_outcome env outcome c).0 ≡ some o
      → outcome ≡ o
  unfolding record_outcome
  record_outcome-some outcome o c h = record_with-some outcome.verification outcome o c h

  record_unless_raised-session_state :
      (outcome : ActionOutcome) (r : Bool × EnforcementCoordinator W)
      → (record_unless_raised env outcome r).1.session_state ≡ r.1.session_state
  unfolding record_unless_raised
  record_unless_raised-session_state outcome (true, c) = record_outcome-session_state outcome c
  record_unless_raised-session_state outcome (false, c) = refl

  pub record_unless_raised-some :
      (outcome o : ActionOutcome) (r : Bool × EnforcementCoordinator W)
      → (record_unless_raised env outcome r).0 ≡ some o
      → outcome ≡ o
  unfolding record_unless_raised
  record_unless_raised-some outcome o (true, c) h = record_outcome-some outcome o c h
  record_unless_raised-some outcome o (false, c) h = absurd (ground (arith, h))

  fail_open-session_state :
      (d : RiskDecision F) (code : String) (now : ℕ) (c : EnforcementCoordinator W)
      → (fail_open env d code now c).1.session_state ≡ c.session_state
  unfolding fail_open
  fail_open-session_state d code now c =
      let notice : EnforcementNotice = record { code = code; decision_id = d.decision_id } in
      record_unless_raised-session_state (outcome_of d failed_open code now)
        (call_store env.notice_sink notice c)
      ∙ call_store-session_state env.notice_sink notice c

gate :
    {F : Type 0} (d : RiskDecision F)
    → (is_active d.user_state && (d.enforcement_applied || same_action d.action continue))
      ≡ not (is_gated d)
gate d = ground arith

module _ {F W : Type 0} (digest : String → String) (make_id : ℕ → String)
    (env : Environment F W) where
  verify-session_state :
      (t : VerificationAnchor) (e : Evidence) (c : EnforcementCoordinator W)
      → (verify digest make_id t e c).1.session_state ≡ c.session_state
  unfolding verify
  verify-session_state t e c = ground arith

  conclude-session_state :
      (outcome : ActionOutcome) (r : Option VerificationRecord × EnforcementCoordinator W)
      → (conclude digest make_id env outcome r).1.session_state ≡ r.1.session_state
  unfolding conclude
  conclude-session_state outcome (none, c) = refl
  conclude-session_state outcome (some v, c) =
      record_outcome-session_state env (record outcome { verification = some v }) c

  pub anchor_and_record-session_state :
      (proof : Option String) (e : Evidence) (outcome : ActionOutcome)
      (c : EnforcementCoordinator W)
      → (anchor_and_record digest make_id env proof e outcome c).1.session_state ≡ c.session_state
  unfolding anchor_and_record
  anchor_and_record-session_state none e outcome c = record_outcome-session_state env outcome c
  anchor_and_record-session_state (some proof) e outcome c =
      let e' = record e { evidence_reference = proof } in
      conclude-session_state outcome (verify digest make_id a2_reauth e' c)
      ∙ verify-session_state a2_reauth e' c

  finish-session_state :
      (d : RiskDecision F) (now : ℕ) (c : EnforcementCoordinator W) (r : Option AdapterResult × W)
      → (finish digest make_id env d now c r).1.session_state ≡ c.session_state
  unfolding finish
  finish-session_state d now c (none, w) =
      fail_open-session_state env d "ENFORCEMENT_ADAPTER_FAILED" now (record c { world = w })
  finish-session_state d now c (some result, w) =
      anchor_and_record-session_state (proof_of d.action result) (evidence_of d now)
        (outcome_of d result.status result.code now) (record c { world = w })

  dispatch-session_state :
      (o : Option (Adapter F W)) (d : RiskDecision F) (now : ℕ) (c : EnforcementCoordinator W)
      → (dispatch digest make_id env o d now c).1.session_state ≡ c.session_state
  unfolding dispatch
  dispatch-session_state none d now c =
      fail_open-session_state env d "ENFORCEMENT_ADAPTER_UNAVAILABLE" now c
  dispatch-session_state (some adapter) d now c = finish-session_state d now c (adapter d c.world)

  -- The posture that `execute` leaves is set by the decision alone, whatever the adapter, the store
  -- and the sink answer, their exceptions included: a decision for an ACTIVE user that is applied or
  -- is a CONTINUE is observed by the posture, and any other leaves it.
  pub execute-session_state :
      (d : RiskDecision F) (now posture_now : ℕ) (c : EnforcementCoordinator W)
      → (execute digest make_id env d now posture_now c).1.session_state ≡ (
          if is_active d.user_state && (d.enforcement_applied || same_action d.action continue)
          then (observe_decision d posture_now c).session_state
          else c.session_state)
  unfolding execute
  execute-session_state d now posture_now c = elim (Bool-cases (is_gated d)) [
    | inl e ↦
        rw (e, gate d ∙ ap not e)
          (record_outcome-session_state env (outcome_of d skipped "STATE_GATED_NO_ENFORCEMENT" now)
            c)
    | inr e ↦
        rw (e, gate d ∙ ap not e)
          (dispatch-session_state (adapter_for env d.action) d now
            (observe_decision d posture_now c))
  ]

  pub record_challenge_response-session_state :
      (decision_id : String) (action : DecisionAction) (accepted : Bool) (code : String)
      (evidence : Option String) (e : Evidence) (c : EnforcementCoordinator W)
      → (record_challenge_response digest make_id env decision_id action accepted code evidence e
          c).1.session_state
        ≡ c.session_state
  unfolding record_challenge_response
  record_challenge_response-session_state decision_id action accepted code evidence e c =
      anchor_and_record-session_state (answer_proof action accepted evidence) e
        (response_outcome decision_id action accepted code e) c
