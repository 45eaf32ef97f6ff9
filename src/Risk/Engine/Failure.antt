-- ===== src/Risk/Engine/Failure.antt =====
-- What backend/app/risk/engine.py does when its input or one of its components is missing.
use continuous_auth.Common.{
  ℕ, ◌≡◌, ◌≢◌, ◌⊎◌, refl, ◌∙◌, inl, inr, Bool, true, false, not, ◌&&◌, Option, none, some, [], ◌∷◌,
  ◌++◌, String, arith, Option-cases, is_some, length, ◌==◌,
}
use text.Mathlib.Text.{◌==◌ as str_eq}
use continuous_auth.Contracts.{
  mouse_only, kbd_only, scored, ModalityScore, ScoreResult, is_insufficient, is_action_none,
  UserState, degraded, suspended, enrolling, is_degraded,
}
use continuous_auth.Risk.State
use continuous_auth.Risk.State.{UserStateMachine}
use continuous_auth.Risk.State.Laws.{IsValid, recover-degrade, run_outage}
use continuous_auth.Risk.Assessment.{Floats, DecisionInput, RiskOutcome}
use continuous_auth.Risk.Engine.Emission.{
  RiskEngine, degrade, emit_state, state_signal, component_recovered, after_recovery,
  required_failure, nothing,
}
use continuous_auth.Risk.Engine.Scoring.{fusion}
use continuous_auth.Risk.Engine.Process.{
  fused_outcome, emit_scored, score_window, process, monitor, required_outcome, goes_back,
}
use continuous_auth.Risk.Engine.Branches.{
  after_process, outcome, Framed, degrade-Framed, component_recovered-Framed,
}

degraded_state :
    (reason : String) (m : UserStateMachine)
    → m.state ≢ suspended
    → (State.degrade reason m).1.state ≡ degraded
unfolding State.degrade
degraded_state reason m k = ground arith

degrade-machine :
    {F : Type 0} (reason : String) (e : RiskEngine F)
    → (degrade reason e).machine ≡ (State.degrade reason e.machine).1
unfolding degrade emit_state
degrade-machine reason e = elim (Option-cases ((State.degrade reason e.machine).0)) [
  | inl q ↦ rw q refl
  | inr (t, q) ↦ rw q refl
]

recovered_machine :
    {F : Type 0} (reason : String) (e : RiskEngine F)
    → IsValid e.machine
    → e.machine.state ≢ degraded
    → e.machine.state ≢ suspended
    → (component_recovered (degrade reason e)).machine ≡ e.machine
unfolding component_recovered after_recovery run_outage
recovered_machine reason e v h k =
    let (t, q) = recover-degrade reason [] e.machine v h k in
    let down = degraded_state reason e.machine k in
    let m = degrade-machine reason e in rw (m, down, q) refl

-- A failure is undone exactly: from ENROLLING, CALIBRATING or ACTIVE with a valid machine, an
-- engine that degrades and recovers has the machine, the policy, the history, the smoothed score,
-- the level, the settings and the shadow mode that it had.
pub component_recovered-degrade :
    {F : Type 0} (reason : String) (e : RiskEngine F)
    → IsValid e.machine
    → e.machine.state ≢ degraded
    → e.machine.state ≢ suspended
    → ((component_recovered (degrade reason e)).machine ≡ e.machine)
      × Framed e (component_recovered (degrade reason e))
component_recovered-degrade reason e v h k =
    let (p, hi, sm, le, se, sh) = degrade-Framed reason e in
    let (p', hi', sm', le', se', sh') = component_recovered-Framed (degrade reason e) in
    (recovered_machine reason e v h k, (p' ∙ p, hi' ∙ hi, sm' ∙ sm, le' ∙ le, se' ∙ se, sh' ∙ sh))

clash : false ≢ true
clash h = ground arith

-- What a fail-open outcome holds: one decision without scores, action or enforcement, no trace, and
-- one alert.
abbrev pub fails_open : {F : Type 0} → RiskOutcome F → Bool
fails_open out =
    elim (out.decision) [
      | none ↦ false
      | some d ↦
          is_action_none d.action
          && not d.enforcement_applied
          && not (is_some d.fused_score)
          && not (is_some d.smoothed_score)
          && is_degraded d.user_state
    ]
    && not (is_some out.trace)
    && length out.alerts == 1

degraded_enrolling :
    {F : Type 0} (reason : String) (e : RiskEngine F)
    → e.machine.state ≡ enrolling
    → degrade reason e ≡ record e {
      machine = record e.machine { state = degraded; pre_degraded = some enrolling };
      sent =
          e.sent
          ++ state_signal (record { previous = enrolling; current = degraded; reason = reason })
            ∷ [];
    }
unfolding degrade emit_state State.degrade
degraded_enrolling reason e en = rw en refl

-- The state in which the decision of an outcome was taken.
abbrev pub decided_in : {F : Type 0} → RiskOutcome F → Option UserState
decided_in out = elim (out.decision) [ none ↦ none | some d ↦ some (d.user_state) ]

-- The modality has no score.
abbrev pub IsUnscored : {F : Type 0} → ModalityScore F → Type 0
IsUnscored m = (m.available ≡ false) ⊎ (m.status ≢ scored)

-- The window has keyboard data, or mouse data, without a score of it.
abbrev pub IsLacking : {F : Type 0} → ScoreResult F → Type 0
IsLacking score =
    ((score.quality_label ≢ mouse_only) × IsUnscored score.keyboard)
    ⊎ ((score.quality_label ≢ kbd_only) × IsUnscored score.mouse)

module _ (fl : Floats) (make_id : ℕ → String) where
  open fl use {F}

  -- An outage lifts the pause of enrollment. Take an engine in ENROLLING and a request of its user,
  -- not earlier than the last one, whose required modalities have scored and fuse: the engine
  -- answers it with nothing, but the same engine after a failure answers it with a decision taken
  -- in ENROLLING, and is in ENROLLING afterwards.
  pub enrolling_scored_after_outage :
      (request : DecisionInput F) (e : RiskEngine F) (reason : String) (v : F × F × F)
      → str_eq request.score.user_id e.user_id ≡ true
      → goes_back e.last_decision_us request.t_decision_us ≡ false
      → is_insufficient request.score.quality_label ≡ false
      → required_failure request.score ≡ none
      → fusion fl request.score e.settings ≡ some v
      → e.machine.state ≡ enrolling
      → (decided_in (outcome fl make_id request (degrade reason e)) ≡ some enrolling)
        × ((after_process fl make_id request (degrade reason e)).machine.state ≡ enrolling)
        × (outcome fl make_id request e ≡ nothing)
  unfolding process monitor required_outcome fused_outcome emit_scored score_window
      component_recovered after_recovery State.recover
  enrolling_scored_after_outage request e reason v same fine enough ok good en =
      let down = degraded_enrolling reason e en in
      (
        rw (down, same, fine, enough, ok, good) refl,
        rw (down, same, fine, enough, ok, good) refl,
        rw (same, fine, en) refl,
      )
