-- ===== src/Decisions/Enforcement/Anchors.antt =====
-- What backend/app/decisions/adapters.py guarantees of verification anchors.
use continuous_auth.Common.{
  ℕ, ◌≡◌, ◌≢◌, refl, ap, sym, subst, ◌∙◌, inl, inr, Bool, true, false, Option, none, some, String,
  is_blank, is_empty, arith, Bool-cases,
}
use continuous_auth.Contracts.{DecisionAction, RiskDecision, is_active}
use continuous_auth.Decisions.Posture.{is_reauth}
use continuous_auth.Decisions.Enforcement.{
  ActionStatus, succeeded, failed_open, skipped, is_succeeded, AdapterResult, Adapter,
  VerificationAnchor, a2_reauth, VerificationRecord, ActionOutcome, EnforcementNotice, Environment,
  EnforcementCoordinator, adapter_for, record_outcome, outcome_of, call_store, fail_open,
}
use continuous_auth.Decisions.Enforcement.Actions.{
  Evidence, evidence_of, is_gated, proof_of, observe_decision, verify, anchor_and_record, execute,
  record_challenge_response, response_outcome, answer_proof, conclude, finish, dispatch,
}
use continuous_auth.Decisions.Enforcement.Persistence.{
  record_outcome-some, record_unless_raised-some,
}

-- The decision is a REAUTH, its outcome a success, and the verification an A2 anchor of this time.
abbrev pub IsReauthAnchor :
    {F : Type 0} → RiskDecision F → ℕ → ActionOutcome → VerificationRecord → Type 0
IsReauthAnchor d now o v =
    (is_reauth d.action ≡ true)
    × (o.status ≡ succeeded)
    × (v.anchor_type ≡ a2_reauth)
    × (v.authenticated_at ≡ now)

succeeds : (s : ActionStatus) → is_succeeded s ≡ true → s ≡ succeeded
succeeds succeeded h = refl
succeeds s h = absurd (ground (arith, h))

none≢some : {A : Type 0} (a : A) → none ≢ some a
none≢some a h = absurd (ground (arith, h))

-- A REAUTH that passes the gate is applied to an ACTIVE user.
pub gate :
    {F : Type 0} (d : RiskDecision F)
    → is_gated d ≡ false
    → is_reauth d.action ≡ true
    → (is_active d.user_state ≡ true) × (d.enforcement_applied ≡ true)
gate d h r = ground (arith, h, r)

module _ {F W : Type 0} (digest : String → String) (make_id : ℕ → String)
    (env : Environment F W) where
  conclude-some :
      (outcome o : ActionOutcome) (r : Option VerificationRecord × EnforcementCoordinator W)
      → (conclude digest make_id env outcome r).0 ≡ some o
      → (v : VerificationRecord) × (r.0 ≡ some v) × (o ≡ record outcome { verification = some v })
  unfolding conclude
  conclude-some outcome o (none, c) h = absurd (ground (arith, h))
  conclude-some outcome o (some v, c) h =
      (v, refl, sym (record_outcome-some env (record outcome { verification = some v }) o c h))

  pub verify-some :
      (t : VerificationAnchor) (e : Evidence) (c : EnforcementCoordinator W)
      (v : VerificationRecord)
      → (verify digest make_id t e c).0 ≡ some v
      → (v.anchor_type ≡ t)
        × (v.evidence_reference ≡ digest e.evidence_reference)
        × (v.authenticated_at ≡ e.authenticated_at)
  unfolding verify
  verify-some t e c v h = elim (Bool-cases (is_blank e.evidence_reference)) [
    | inl b ↦ absurd (ground (arith, h, b))
    | inr b ↦ ground (arith, h, b)
  ]

  -- An outcome that comes out with a verification had a proof, and the verification is an A2 anchor
  -- with the digest of this proof.
  anchor_and_record_anchor :
      (proof : Option String) (e : Evidence) (outcome o : ActionOutcome)
      (c : EnforcementCoordinator W) (v : VerificationRecord)
      → outcome.verification ≡ none
      → (anchor_and_record digest make_id env proof e outcome c).0 ≡ some o
      → o.verification ≡ some v
      → (p : String) × (proof ≡ some p)
        × (o.status ≡ outcome.status)
        × (v.anchor_type ≡ a2_reauth)
        × (v.evidence_reference ≡ digest p)
        × (v.authenticated_at ≡ e.authenticated_at)
  unfolding anchor_and_record
  anchor_and_record_anchor none e outcome o c v n h k =
      absurd (ground (arith, n, k, record_outcome-some env outcome o c h))
  anchor_and_record_anchor (some p) e outcome o c v n h k =
      let e' = record e { evidence_reference = p } in
      let (v', made, same) = conclude-some outcome o (verify digest make_id a2_reauth e' c) h in
      let (t, r, a) = verify-some a2_reauth e' c v' made in
      let shared : v' ≡ v = ground (arith, same, k) in
      (
        p,
        refl,
        ground (arith, same),
        subst (λ x. x.anchor_type ≡ a2_reauth) shared t,
        subst (λ x. x.evidence_reference ≡ digest p) shared r,
        subst (λ x. x.authenticated_at ≡ e.authenticated_at) shared a,
      )

  fail_open-verification :
      (d : RiskDecision F) (code : String) (now : ℕ) (c : EnforcementCoordinator W)
      (o : ActionOutcome)
      → (fail_open env d code now c).0 ≡ some o
      → (o.verification ≡ none) × (o.status ≡ failed_open)
  unfolding fail_open outcome_of
  fail_open-verification d code now c o h =
      let notice : EnforcementNotice = record { code = code; decision_id = d.decision_id } in
      let same =
        record_unless_raised-some env (outcome_of d failed_open code now) o
          (call_store env.notice_sink notice c) h in
      subst (λ x. (x.verification ≡ none) × (x.status ≡ failed_open)) same (refl, refl)

  pub proof_of-some :
      (action : DecisionAction) (result : AdapterResult) (p : String)
      → proof_of action result ≡ some p
      → (is_reauth action ≡ true) × (result.status ≡ succeeded)
  proof_of-some action result p h = elim (Bool-cases (is_reauth action)) [
    | inr e ↦ absurd (ground (arith, h, e))
    | inl e ↦ (e, succeeds result.status (ground (arith, h, e)))
  ]

  finish_anchor :
      (d : RiskDecision F) (now : ℕ) (c : EnforcementCoordinator W) (r : Option AdapterResult × W)
      (o : ActionOutcome) (v : VerificationRecord)
      → (finish digest make_id env d now c r).0 ≡ some o
      → o.verification ≡ some v
      → IsReauthAnchor d now o v
  unfolding finish outcome_of
  finish_anchor d now c (none, w) o v h k = absurd (
      ground (
        arith,
        k,
        fail_open-verification d "ENFORCEMENT_ADAPTER_FAILED" now (record c { world = w }) o h,
      ))
  finish_anchor d now c (some result, w) o v h k =
      let (p, e, s, t, r, a) =
        anchor_and_record_anchor (proof_of d.action result) (evidence_of d now)
          (outcome_of d result.status result.code now) o (record c { world = w }) v refl h k in
      let (x, y) = proof_of-some d.action result p e in (x, s ∙ y, t, a)

  dispatch_anchor :
      (a : Option (Adapter F W)) (d : RiskDecision F) (now : ℕ) (c : EnforcementCoordinator W)
      (o : ActionOutcome) (v : VerificationRecord)
      → (dispatch digest make_id env a d now c).0 ≡ some o
      → o.verification ≡ some v
      → IsReauthAnchor d now o v
  unfolding dispatch
  dispatch_anchor none d now c o v h k =
      absurd
        (ground (arith, k, fail_open-verification d "ENFORCEMENT_ADAPTER_UNAVAILABLE" now c o h))
  dispatch_anchor (some adapter) d now c o v h k = finish_anchor d now c (adapter d c.world) o v h k

  -- A decision that is executed brings about no verification but an A2 anchor, at the time of the
  -- call: only where the user is ACTIVE, enforcement is applied, the action is REAUTH and the
  -- adapter's result is a success.
  execute_anchor :
      (d : RiskDecision F) (now posture_now : ℕ) (c : EnforcementCoordinator W) (o : ActionOutcome)
      (v : VerificationRecord)
      → (execute digest make_id env d now posture_now c).0 ≡ some o
      → o.verification ≡ some v
      → (is_active d.user_state ≡ true) × (d.enforcement_applied ≡ true) × IsReauthAnchor d now o v
  unfolding execute
  execute_anchor d now posture_now c o v h k = elim (Bool-cases (is_gated d)) [
    | inl e ↦
        let h' : (record_outcome env (outcome_of d skipped "STATE_GATED_NO_ENFORCEMENT" now) c).0
            ≡ some o =
          ground (arith, h, e) in
        absurd (
          none≢some v (
            ap (λ (x : ActionOutcome). x.verification)
              (record_outcome-some env (outcome_of d skipped "STATE_GATED_NO_ENFORCEMENT" now) o c
                h')
            ∙ k))
    | inr e ↦
        let h' : (dispatch digest make_id env (adapter_for env d.action) d now
              (observe_decision d posture_now c)).0
            ≡ some o =
          ground (arith, h, e) in
        let (x, y, t, u) =
          dispatch_anchor (adapter_for env d.action) d now (observe_decision d posture_now c) o v h'
            k in
        let (a, b) = gate d e x in (a, b, (x, y, t, u))
  ]

  answer_proof-some :
      (action : DecisionAction) (accepted : Bool) (evidence : Option String) (p : String)
      → answer_proof action accepted evidence ≡ some p
      → (accepted ≡ true) × (is_reauth action ≡ true) × (evidence ≡ some p)
  answer_proof-some action accepted none p h = absurd (none≢some p h)
  answer_proof-some action accepted (some q) p h = elim (Bool-cases accepted) [
    | inr e ↦ absurd (ground (arith, h, e))
    | inl e ↦ elim (Bool-cases (is_reauth action)) [
      | inr r ↦ absurd (ground (arith, h, e, r))
      | inl r ↦ elim (Bool-cases (is_empty q)) [
        | inl b ↦ absurd (ground (arith, h, e, r, b))
        | inr b ↦ (e, r, ground (arith, h, e, r, b))
      ]
    ]
  ]

  -- An answer to a challenge brings about no verification but an A2 anchor with the digest of the
  -- evidence: only where the answer was accepted and the challenge was a REAUTH.
  record_challenge_response_anchor :
      (decision_id : String) (action : DecisionAction) (accepted : Bool) (code : String)
      (evidence : Option String) (e : Evidence) (c : EnforcementCoordinator W) (o : ActionOutcome)
      (v : VerificationRecord)
      → (record_challenge_response digest make_id env decision_id action accepted code evidence e
          c).0
        ≡ some o
      → o.verification ≡ some v
      → (accepted ≡ true)
        × (is_reauth action ≡ true)
        × (v.anchor_type ≡ a2_reauth)
        × ((p : String) × (evidence ≡ some p) × (v.evidence_reference ≡ digest p))
  unfolding record_challenge_response
  record_challenge_response_anchor decision_id action accepted code evidence e c o v h k =
      let (p, from, s, t, r, a) =
        anchor_and_record_anchor (answer_proof action accepted evidence) e
          (response_outcome decision_id action accepted code e) o c v refl h k in
      let (x, y, z) = answer_proof-some action accepted evidence p from in (x, y, t, (p, z, r))
