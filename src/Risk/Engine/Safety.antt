-- ===== src/Risk/Engine/Safety.antt =====
-- What backend/app/risk/engine.py may enforce, and what its decisions carry.
use continuous_auth.Common.{
  ℕ, ◌≡◌, ◌≢◌, refl, ◌∙◌, sym, Bool, true, false, not, ◌&&◌, ◌||◌, Option, none, some, String,
  arith,
}
use continuous_auth.Contracts.{
  is_insufficient, RiskDecision, decision_conforms, UserState, active, is_active, is_degraded,
  RiskLevel, DecisionAction, continue, soft_challenge, reauth, terminate, action_none,
}
use continuous_auth.Risk.State
use continuous_auth.Risk.State.Laws.{IsValid}
use continuous_auth.Risk.Assessment.{Floats, DecisionInput, DecisionTrace}
use continuous_auth.Decisions.Policy.{decide, RiskSettings, DecisionPolicy}
use continuous_auth.Risk.Engine.Emission.{
  RiskEngine, component_recovered, after_recovery, hold, failure_outcome,
}
use continuous_auth.Risk.Engine.Process.{Scored, score_window, emit_scored}
use continuous_auth.Risk.Engine.Branches.{
  refusal, ignored, held, failed_open, assessed, after_process, resulting, outcome, returned,
  stamped, process-Branch, component_recovered-Framed,
}

-- The actions of the escalation ladder that intervene.
abbrev pub intervenes : DecisionAction → Bool
intervenes continue = false
intervenes action_none = false
intervenes soft_challenge = true
intervenes reauth = true
intervenes terminate = true

-- A missing decision conforms and enforces nothing.
abbrev pub conforming : {F : Type 0} → Option (RiskDecision F) → Bool
conforming none = true
conforming (some d) = decision_conforms d

abbrev pub enforcing : {F : Type 0} → Option (RiskDecision F) → Bool
enforcing none = false
enforcing (some d) = d.enforcement_applied

abbrev pub intervening : {F : Type 0} → Option (RiskDecision F) → Bool
intervening none = false
intervening (some d) = intervenes d.action && not d.shadow_mode

-- The state that a trace records is DEGRADED.
abbrev pub traced_degraded : {F : Type 0} → Option (DecisionTrace F) → Bool
traced_degraded none = false
traced_degraded (some t) = is_degraded t.user_state

clash : false ≢ true
clash h = ground arith

or_true : (b : Bool) → (b || true) ≡ true
or_true b = ground arith

is_active-active : (s : UserState) → is_active s ≡ true → s ≡ active
is_active-active s h = ground arith

decide-enforces :
    {F : Type 0} (settings : RiskSettings F) (level : RiskLevel) (n now : ℕ) (on : Bool)
    (p : DecisionPolicy)
    → (decide settings level n now on p).0.enforcement_applied ≡ true
    → (on ≡ true) × (intervenes (decide settings level n now on p).0.emitted ≡ true)
unfolding decide
decide-enforces settings level n now on p h = ground arith

module _ (fl : Floats) (make_id : ℕ → String) where
  open fl use {F}

  -- The policy enforces only what it is asked to enforce.
  scored-enforces :
      (request : DecisionInput F) (fused : F) (e : RiskEngine F)
      → (score_window fl make_id request fused e).result.enforcement_applied ≡ true
      → (e.machine.state ≡ active)
        × (e.shadow_mode ≡ false)
        × (intervenes (score_window fl make_id request fused e).result.emitted ≡ true)
        × ((score_window fl make_id request fused e).state ≡ e.machine.state)
  unfolding score_window
  scored-enforces request fused e h =
      let (on, acts) = decide-enforces _ _ _ _ _ _ h in
      ground (arith, is_active-active e.machine.state)

  emit_scored-conforms :
      (request : DecisionInput F) (fused k u : F) (s : Scored F) (e : RiskEngine F)
      → is_insufficient request.score.quality_label ≡ false
      → (s.result.enforcement_applied ≡ true → is_active s.state ≡ true)
      → conforming (returned (emit_scored fl make_id request fused k u s e)).decision ≡ true
  unfolding emit_scored decision_conforms
  emit_scored-conforms request fused k u s e q h = ground arith

  -- The decision of a request, if there is one, meets every conditional rule of its schema: no
  -- scores, no action and no enforcement without sufficient data, and no enforcement outside
  -- ACTIVE.
  pub process-conforms :
      (request : DecisionInput F) (e : RiskEngine F)
      → conforming (outcome fl make_id request e).decision ≡ true
  unfolding hold failure_outcome decision_conforms
  process-conforms request e = elim (process-Branch fl make_id request e) [
    | refusal x q ↦ rw q refl
    | ignored _ q ↦ rw q refl
    | held _ few q ↦ rw (q, few) (or_true (is_active e.machine.state))
    | failed_open d _ enough q ↦ rw (q, enough) refl
    | assessed fused k u _ enough q ↦
        let e1 = component_recovered (stamped request e) in
        rw q (
          emit_scored-conforms request fused k u (score_window fl make_id request fused e1) e1
            enough
            (λ on. let (act, _, _, st) = scored-enforces request fused e1 on in rw (st, act) refl))
  ]

  emit_scored-enforces :
      (request : DecisionInput F) (fused k u : F) (e : RiskEngine F)
      → let r =
          emit_scored fl make_id request fused k u (score_window fl make_id request fused e) e in
        enforcing (returned r).decision ≡ true
        → ((resulting e r).machine.state ≡ active)
          × (e.shadow_mode ≡ false)
          × (intervening (returned r).decision ≡ true)
  unfolding emit_scored
  emit_scored-enforces request fused k u e h = ground (arith, scored-enforces request fused e)

  -- Enforcement is reserved for an ACTIVE user of an engine out of shadow mode: where the decision
  -- of a request is enforced, it is a challenge, a reauthentication or a termination that is not
  -- marked as a shadow decision, and the request leaves the machine in ACTIVE.
  pub process-enforces :
      (request : DecisionInput F) (e : RiskEngine F)
      → enforcing (outcome fl make_id request e).decision ≡ true
      → ((after_process fl make_id request e).machine.state ≡ active)
        × (e.shadow_mode ≡ false)
        × (intervening (outcome fl make_id request e).decision ≡ true)
  unfolding hold failure_outcome component_recovered emit_scored
  process-enforces request e h = elim (process-Branch fl make_id request e) [
    | refusal x q ↦ absurd (clash (rw q at h))
    | ignored _ q ↦ absurd (clash (rw q at h))
    | held _ few q ↦ absurd (clash (rw q at h))
    | failed_open d _ enough q ↦ absurd (clash (rw q at h))
    | assessed fused k u _ enough q ↦
        let e1 = component_recovered (stamped request e) in
        let (_, _, _, _, _, shadow) = component_recovered-Framed (stamped request e) in
        let (act, off, acts) = emit_scored-enforces request fused k u e1 (rw q at h) in
        rw q (act, sym shadow ∙ off, acts)
  ]

  recovered-not_degraded :
      (e : RiskEngine F)
      → IsValid e.machine
      → is_degraded (component_recovered e).machine.state ≡ false
  unfolding component_recovered after_recovery State.recover
  recovered-not_degraded e v = ground arith

  -- Where the machine is valid, no scored window is left in DEGRADED: the engine recovers before it
  -- scores, so that the reason DEGRADED_FAIL_OPEN is never given.
  process-not_degraded :
      (request : DecisionInput F) (e : RiskEngine F)
      → IsValid e.machine
      → traced_degraded (outcome fl make_id request e).trace ≡ false
  unfolding hold failure_outcome emit_scored score_window
  process-not_degraded request e v = elim (process-Branch fl make_id request e) [
    | refusal x q ↦ rw q refl
    | ignored _ q ↦ rw q refl
    | held _ few q ↦ rw q refl
    | failed_open d _ enough q ↦ rw q refl
    | assessed fused k u _ enough q ↦ rw q (recovered-not_degraded (stamped request e) v)
  ]
