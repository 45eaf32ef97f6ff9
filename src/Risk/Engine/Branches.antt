-- ===== src/Risk/Engine/Branches.antt =====
-- The ways that `process` of backend/app/risk/engine.py ends, each with what was true of the request.
use continuous_auth.Common.{
  ℕ, ◌≡◌, refl, inl, inr, true, false, some, String, arith, Bool-cases, Option-cases,
}
use text.Mathlib.Text.{◌==◌ as str_eq}
use continuous_auth.Contracts.{is_insufficient}
use continuous_auth.Risk.State
use continuous_auth.Risk.Assessment.{
  Floats, DecisionInput, AlertDetail, RiskOutcome, no_weighted_modality,
}
use continuous_auth.Risk.Engine.Emission.{
  RiskEngine, Processed, EngineError, raised, done, other_user, not_monotonic, is_unmonitored,
  nothing, hold, failure_outcome, component_recovered, after_recovery, degrade, emit_state,
  required_failure,
}
use continuous_auth.Risk.Engine.Scoring.{fusion}
use continuous_auth.Risk.Engine.Process.{
  process, goes_back, monitor, required_outcome, fused_outcome, score_window, emit_scored,
}

-- The engine once a request's time is taken.
abbrev pub stamped : {F : Type 0} → DecisionInput F → RiskEngine F → RiskEngine F
stamped request e = record e { last_decision_us = some request.t_decision_us }

module _ {F : Type 0} where
  -- The engine that a call leaves: a refused one leaves it as it was.
  abbrev pub resulting : RiskEngine F → Processed F → RiskEngine F
  resulting e (raised _) = e
  resulting e (done _ e') = e'

  -- The outcome that a call returns, an empty one where it is refused.
  abbrev pub returned : Processed F → RiskOutcome F
  returned (raised _) = nothing
  returned (done out _) = out

  -- What a change of the machine leaves of an engine.
  abbrev pub Framed : RiskEngine F → RiskEngine F → Type 0
  Framed e e' =
      (e'.policy ≡ e.policy)
      × (e'.history ≡ e.history)
      × (e'.smoothed ≡ e.smoothed)
      × (e'.risk_level ≡ e.risk_level)
      × (e'.settings ≡ e.settings)
      × (e'.shadow_mode ≡ e.shadow_mode)

  pub degrade-Framed : (reason : String) (e : RiskEngine F) → Framed e (degrade reason e)
  unfolding degrade emit_state
  degrade-Framed reason e = elim (Option-cases ((State.degrade reason e.machine).0)) [
    | inl q ↦ rw q (refl, refl, refl, refl, refl, refl)
    | inr (t, q) ↦ rw q (refl, refl, refl, refl, refl, refl)
  ]

  pub component_recovered-Framed : (e : RiskEngine F) → Framed e (component_recovered e)
  unfolding component_recovered after_recovery State.recover
  component_recovered-Framed e = ground arith

module _ (fl : Floats) (make_id : ℕ → String) where
  open fl use {F}

  abbrev pub after_process : DecisionInput F → RiskEngine F → RiskEngine F
  after_process request e = resulting e (process fl make_id request e)

  -- The outcome of a request.
  abbrev pub outcome : DecisionInput F → RiskEngine F → RiskOutcome F
  outcome request e = returned (process fl make_id request e)

  pub data Branch (request : DecisionInput F) (e : RiskEngine F) (r : Processed F) : Type 0 where
    refusal : (x : EngineError) → r ≡ raised x → Branch request e r
    ignored :
        is_unmonitored e.machine.state ≡ true
        → r ≡ done nothing (stamped request e)
        → Branch request e r
    held :
        is_unmonitored e.machine.state ≡ false
        → is_insufficient request.score.quality_label ≡ true
        → r ≡ hold make_id request (stamped request e)
        → Branch request e r
    failed_open :
        (detail : AlertDetail)
        → is_unmonitored e.machine.state ≡ false
        → is_insufficient request.score.quality_label ≡ false
        → r ≡ failure_outcome make_id request detail (stamped request e)
        → Branch request e r
    assessed :
        (fused keyboard_used mouse_used : F)
        → is_unmonitored e.machine.state ≡ false
        → is_insufficient request.score.quality_label ≡ false
        → r ≡ (
            let e' = component_recovered (stamped request e) in
            emit_scored fl make_id request fused keyboard_used mouse_used
              (score_window fl make_id request fused e')
              e')
        → Branch request e r

  monitor-Branch :
      (request : DecisionInput F) (e : RiskEngine F)
      → is_unmonitored e.machine.state ≡ false
      → Branch request e (monitor fl make_id request (stamped request e))
  unfolding monitor required_outcome fused_outcome
  monitor-Branch request e m = elim (Bool-cases (is_insufficient request.score.quality_label)) [
    | inl few ↦ held m few (rw few refl)
    | inr enough ↦ elim (Option-cases (required_failure request.score)) [
      | inr (detail, f) ↦ failed_open detail m enough (rw (enough, f) refl)
      | inl fine ↦ elim (Option-cases (fusion fl request.score e.settings)) [
        | inl bad ↦ failed_open no_weighted_modality m enough (rw (enough, fine, bad) refl)
        | inr ((fused, k, u), good) ↦ assessed fused k u m enough (rw (enough, fine, good) refl)
      ]
    ]
  ]

  pub process-Branch :
      (request : DecisionInput F) (e : RiskEngine F)
      → Branch request e (process fl make_id request e)
  unfolding process
  process-Branch request e = elim (Bool-cases (str_eq request.score.user_id e.user_id)) [
    | inr other ↦ refusal other_user (rw other refl)
    | inl same ↦ elim (Bool-cases (goes_back e.last_decision_us request.t_decision_us)) [
      | inl back ↦ refusal not_monotonic (rw (same, back) refl)
      | inr fine ↦ elim (Bool-cases (is_unmonitored e.machine.state)) [
        | inl off ↦ ignored off (rw (same, fine, off) refl)
        | inr on ↦ rw (same, fine, on) (monitor-Branch request e on)
      ]
    ]
  ]
