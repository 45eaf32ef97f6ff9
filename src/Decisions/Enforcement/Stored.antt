-- ===== src/Decisions/Enforcement/Stored.antt =====
-- What the methods of backend/app/decisions/adapters.py give to the store. A property `P` of the
-- world stands for what has been stored: it is kept by the calls of the environment, the store's only
-- where they are given what the theorem allows.
use continuous_auth.Common.{
  ℕ, ◌≡◌, refl, sym, subst, inl, inr, Bool, true, false, Option, none, some, String, arith,
  Bool-cases, Option-cases,
}
use continuous_auth.Contracts.{DecisionAction, RiskDecision, is_active}
use continuous_auth.Decisions.Posture.{is_reauth}
use continuous_auth.Decisions.Enforcement.{
  succeeded, failed_open, skipped, is_succeeded, AdapterResult, Adapter, a2_reauth,
  VerificationRecord, ActionOutcome, EnforcementNotice, Environment, EnforcementCoordinator,
  adapter_for, call_store, unless_raised, record_after, record_with, record_outcome, outcome_of,
  record_unless_raised, fail_open,
}
use continuous_auth.Decisions.Enforcement.Actions.{
  Evidence, evidence_of, is_gated, proof_of, observe_decision, verify, anchor_and_record, conclude,
  finish, dispatch, execute,
}
use continuous_auth.Decisions.Enforcement.Anchors.{verify-some, proof_of-some, gate}

-- The verification is an A2 anchor of this time, with the digest of the evidence with which the
-- adapter of the decision succeeded; the decision is a REAUTH that is applied to an ACTIVE user.
abbrev pub IsProved :
    {F W : Type 0}
    → (String → String)
    → Environment F W
    → RiskDecision F
    → ℕ
    → W
    → VerificationRecord
    → Type 0
IsProved {F} {W} digest env d now w v =
    (is_active d.user_state ≡ true)
    × (d.enforcement_applied ≡ true)
    × (is_reauth d.action ≡ true)
    × (v.anchor_type ≡ a2_reauth)
    × (v.authenticated_at ≡ now)
    × ((adapter : Adapter F W) × (result : AdapterResult) × (p : String) × (adapter_for env d.action
          ≡ some adapter)
        × ((adapter d w).0 ≡ some result)
        × (result.status ≡ succeeded)
        × (result.evidence_reference ≡ some p)
        × (v.evidence_reference ≡ digest p))

proof_of-evidence :
    (action : DecisionAction) (result : AdapterResult) (p : String)
    → proof_of action result ≡ some p
    → result.evidence_reference ≡ some p
proof_of-evidence action result p h = elim (Bool-cases (is_reauth action)) [
  | inr e ↦ absurd (ground (arith, h, e))
  | inl e ↦ elim (Bool-cases (is_succeeded result.status)) [
    | inr s ↦ absurd (ground (arith, h, e, s))
    | inl s ↦ ground (arith, h, e, s)
  ]
]

module _ {F W : Type 0} (digest : String → String) (make_id : ℕ → String) (env : Environment F W)
    (P : W → Type 0) where
  call_store-keeps :
      {A : Type 0} (o : Option (A → W → Bool × W)) (a : A) (c : EnforcementCoordinator W)
      → ((write : A → W → Bool × W) → o ≡ some write → (w : W) → P w → P (write a w).1)
      → P c.world
      → P (call_store o a c).1.world
  call_store-keeps none a c k h = h
  call_store-keeps (some write) a c k h = k write refl c.world h

  -- The store's call for this outcome keeps `P`.
  abbrev Records : ActionOutcome → Type 0
  Records o =
      (write : ActionOutcome → W → Bool × W)
      → env.record_action_outcome ≡ some write
      → (w : W) → P w
      → P (write o w).1

  abbrev Verifies : VerificationRecord → Type 0
  Verifies v =
      (write : VerificationRecord → W → Bool × W)
      → env.record_verification ≡ some write
      → (w : W) → P w
      → P (write v w).1

  abbrev Notifies : Type 0
  Notifies =
      (sink : EnforcementNotice → W → Bool × W) (n : EnforcementNotice)
      → env.notice_sink ≡ some sink
      → (w : W) → P w
      → P (sink n w).1

  unless_raised-world :
      {A : Type 0} (a : A) (r : Bool × EnforcementCoordinator W)
      → P r.1.world
      → P (unless_raised a r).1.world
  unless_raised-world a (true, c) h = h
  unless_raised-world a (false, c) h = h

  record_after-keeps :
      (o : ActionOutcome) (r : Bool × EnforcementCoordinator W)
      → Records o
      → P r.1.world
      → P (record_after env o r).1.world
  unfolding record_after
  record_after-keeps o (false, c) k h = h
  record_after-keeps o (true, c) k h =
      unless_raised-world o (call_store env.record_action_outcome o c)
        (call_store-keeps env.record_action_outcome o c k h)

  record_plain :
      (o : ActionOutcome) (c : EnforcementCoordinator W)
      → o.verification ≡ none
      → Records o
      → P c.world
      → P (record_outcome env o c).1.world
  unfolding record_outcome record_with
  record_plain o c n k h =
      subst (λ v. P (record_with env v o c).1.world) (sym n) (record_after-keeps o (true, c) k h)

  record_unless_raised-keeps :
      (o : ActionOutcome) (r : Bool × EnforcementCoordinator W)
      → o.verification ≡ none
      → Records o
      → P r.1.world
      → P (record_unless_raised env o r).1.world
  unfolding record_unless_raised
  record_unless_raised-keeps o (true, c) n k h = record_plain o c n k h
  record_unless_raised-keeps o (false, c) n k h = h

  fail_open-keeps :
      (d : RiskDecision F) (code : String) (now : ℕ) (c : EnforcementCoordinator W)
      → ((o : ActionOutcome) → o.verification ≡ none → Records o)
      → Notifies
      → P c.world
      → P (fail_open env d code now c).1.world
  unfolding fail_open outcome_of
  fail_open-keeps d code now c k s h =
      let notice : EnforcementNotice = record { code = code; decision_id = d.decision_id } in
      let o = outcome_of d failed_open code now in
      record_unless_raised-keeps o (call_store env.notice_sink notice c) refl (k o refl)
        (call_store-keeps env.notice_sink notice c (λ sink e w p. s sink notice e w p) h)

  conclude-keeps :
      (o : ActionOutcome) (r : Option VerificationRecord × EnforcementCoordinator W)
      → ((v : VerificationRecord) → r.0 ≡ some v → Verifies v)
      → ((v : VerificationRecord) → r.0 ≡ some v → Records (record o { verification = some v }))
      → P r.1.world
      → P (conclude digest make_id env o r).1.world
  unfolding conclude record_outcome record_with
  conclude-keeps o (none, c) j k h = h
  conclude-keeps o (some v, c) j k h =
      record_after-keeps (record o { verification = some v })
        (call_store env.record_verification v c) (k v refl)
        (call_store-keeps env.record_verification v c (j v refl) h)

  verify-world :
      (e : Evidence) (c : EnforcementCoordinator W)
      → (verify digest make_id a2_reauth e c).1.world ≡ c.world
  unfolding verify
  verify-world e c = ground arith

  anchor_and_record-keeps :
      (proof : Option String) (e : Evidence) (o : ActionOutcome) (c : EnforcementCoordinator W)
      → o.verification ≡ none
      → ((x : ActionOutcome) → x.verification ≡ none → Records x)
      → ((p : String) (v : VerificationRecord)
          → proof ≡ some p
          → v.anchor_type ≡ a2_reauth
          → v.evidence_reference ≡ digest p
          → v.authenticated_at ≡ e.authenticated_at
          → Verifies v × ((x : ActionOutcome) → x.verification ≡ some v → Records x))
      → P c.world
      → P (anchor_and_record digest make_id env proof e o c).1.world
  unfolding anchor_and_record
  anchor_and_record-keeps none e o c n k j h = record_plain o c n (k o n) h
  anchor_and_record-keeps (some p) e o c n k j h =
      let e' = record e { evidence_reference = p } in
      let made = λ (v : VerificationRecord) (q : (verify digest make_id a2_reauth e' c).0 ≡ some v).
        let (t, r, a) = verify-some digest make_id env a2_reauth e' c v q in j p v refl t r a in
      conclude-keeps o (verify digest make_id a2_reauth e' c) (λ v q. (made v q).0)
        (λ v q. (made v q).1 (record o { verification = some v }) refl) (rw (verify-world e' c) h)

  finish-keeps :
      (d : RiskDecision F) (now : ℕ) (c : EnforcementCoordinator W) (start : W)
      (adapter : Adapter F W) (r : Option AdapterResult × W)
      → is_gated d ≡ false
      → adapter_for env d.action ≡ some adapter
      → (adapter d start).0 ≡ r.0
      → Notifies
      → ((o : ActionOutcome) → o.verification ≡ none → Records o)
      → ((v : VerificationRecord)
          → IsProved digest env d now start v
          → Verifies v × ((o : ActionOutcome) → o.verification ≡ some v → Records o))
      → P r.1
      → P (finish digest make_id env d now c r).1.world
  unfolding finish outcome_of
  finish-keeps d now c start adapter (none, w) g n q s k j h =
      fail_open-keeps d "ENFORCEMENT_ADAPTER_FAILED" now (record c { world = w }) k s h
  finish-keeps d now c start adapter (some result, w) g n q s k j h =
      anchor_and_record-keeps (proof_of d.action result) (evidence_of d now)
        (outcome_of d result.status result.code now) (record c { world = w }) refl k
        (λ p v from t r at.
          let (reauth, success) = proof_of-some digest make_id env d.action result p from in
          let (on, applied) = gate d g reauth in
          let evidence = proof_of-evidence d.action result p from in
          j v (on, applied, reauth, t, at, (adapter, result, p, n, q, success, evidence, r)))
        h

  -- What is stored of a decision that is executed. Whatever has been stored keeps a property `P` of
  -- the world through `execute`, where the adapter of the action and the sink of notices keep it, and
  -- the store keeps it when it is given an outcome without a verification, or a verification that is
  -- proved, or an outcome with one: an A2 anchor of the time of the call, with the digest of the
  -- evidence with which the adapter succeeded, of a REAUTH that is applied to an ACTIVE user. So the
  -- store is given no other verification, on no branch, exceptions included.
  pub execute_stores :
      (d : RiskDecision F) (now posture_now : ℕ) (c : EnforcementCoordinator W)
      → ((adapter : Adapter F W)
          → adapter_for env d.action ≡ some adapter
          → P c.world
          → P (adapter d c.world).1)
      → Notifies
      → ((o : ActionOutcome) → o.verification ≡ none → Records o)
      → ((v : VerificationRecord)
          → IsProved digest env d now c.world v
          → Verifies v × ((o : ActionOutcome) → o.verification ≡ some v → Records o))
      → P c.world
      → P (execute digest make_id env d now posture_now c).1.world
  unfolding execute dispatch finish outcome_of observe_decision
  execute_stores d now posture_now c a s k j h = elim (Bool-cases (is_gated d)) [
    | inl e ↦
        let o = outcome_of d skipped "STATE_GATED_NO_ENFORCEMENT" now in
        rw e (record_plain o c refl (k o refl) h)
    | inr e ↦
        let c' = observe_decision d posture_now c in
        elim (Option-cases (adapter_for env d.action)) [
          | inl n ↦ rw (e, n) (fail_open-keeps d "ENFORCEMENT_ADAPTER_UNAVAILABLE" now c' k s h)
          | inr (adapter, n) ↦
              rw (e, n)
                (finish-keeps d now c' c.world adapter (adapter d c.world) e n refl s k j
                  (a adapter n h))
        ]
  ]
