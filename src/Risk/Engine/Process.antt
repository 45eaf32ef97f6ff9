-- ===== src/Risk/Engine/Process.antt =====
-- backend/app/risk/engine.py: a request from its checks to its outcome, and reported failures.
use continuous_auth.Common.{
  ℕ, Bool, false, not, ◌&&◌, ◌||◌, Option, none, some, List, [], ◌∷◌, ◌++◌, map, String, ltb,
  is_blank, if◌then◌else◌, push_bounded,
}
use text.Mathlib.Text.{◌==◌ as str_eq}
use continuous_auth.Contracts.{
  is_insufficient, RiskLevel, is_high, action_none, UserState, is_active, is_calibrating,
  is_degraded, behavioral, availability, tamper,
}
use continuous_auth.Risk.Assessment.{
  Floats, DecisionInput, adjust, RiskAlert, AlertDetail, plain_text, no_weighted_modality,
  component_detail, high_severity, DecisionTrace,
}
use continuous_auth.Decisions.Policy
use continuous_auth.Decisions.Policy.{RiskSettings, DecisionPolicy, PolicyResult}
use continuous_auth.Risk.Engine.Emission.{
  alert_signal, RiskEngine, Processed, raised, done, other_user, not_monotonic, is_unmonitored,
  nothing, component_recovered, emit_alert, degrade, required_failure, decision_of, emit_decision,
  failure_outcome, hold,
}
use continuous_auth.Risk.Engine.Scoring.{fusion, candidate_level, with_hysteresis, smooth}

-- What the scoring of one window computes before anything is emitted.
pub record Scored (F : Type 0) : Type 0 where
  pub adjusted : F
  pub smoothed : F
  pub history : List F
  pub high_count : ℕ
  pub level : RiskLevel
  pub state : UserState
  pub result : PolicyResult
  pub policy : DecisionPolicy

unfoldable pub behavioral_alert : String → String → ℕ → RiskAlert
behavioral_alert code detail t = record {
  alert_type = behavioral;
  severity = high_severity;
  code = code;
  t_capture_us = t;
  detail = plain_text detail;
}

-- The alerts of a scored window: on entering HIGH, and when the action budget is exhausted.
unfoldable pub alerts_of : RiskLevel → RiskLevel → PolicyResult → ℕ → List RiskAlert
unfolding behavioral_alert
alerts_of prior level result t =
    (if is_high level && not (is_high prior)
      then behavioral_alert "BEHAVIORAL_RISK_HIGH" "sustained behavioral evidence reached HIGH risk"
          t
        ∷ []
      else [])
    ++ (if result.budget_exhausted
        then behavioral_alert "ACTION_BUDGET_EXHAUSTED"
            "enforcement action suppressed; alert and monitoring continue" t
          ∷ []
        else [])

-- `self._last_decision_us is not None and t < self._last_decision_us`
abbrev pub goes_back : Option ℕ → ℕ → Bool
goes_back none t = false
goes_back (some last) t = ltb t last

module _ (fl : Floats) (make_id : ℕ → String) where
  open fl use {F}

  unfoldable pub score_window : DecisionInput F → F → RiskEngine F → Scored F
  score_window request fused e =
      let adjusted = adjust fl request.context fused in
      let smoothed = smooth fl e.smoothed e.settings.risk.ewma_alpha adjusted in
      let history = push_bounded e.settings.risk.breach_n e.history smoothed in
      let (candidate, high_count) = candidate_level fl e.settings history in
      let level = with_hysteresis fl e.settings history e.risk_level candidate in
      let (result, policy) =
        Policy.decide e.settings level high_count request.t_decision_us
          (is_active e.machine.state && not e.shadow_mode) e.policy in
      record {
        adjusted = adjusted;
        smoothed = smoothed;
        history = history;
        high_count = high_count;
        level = level;
        state = e.machine.state;
        result = result;
        policy = policy;
      }

  -- The rest of `process` for a window that was scored. The branch on DEGRADED overrides the policy.
  unfoldable pub emit_scored : DecisionInput F → F → F → F → Scored F → RiskEngine F → Processed F
  emit_scored request fused keyboard_used mouse_used s e =
      let alerts = alerts_of e.risk_level s.level s.result request.t_decision_us in
      let emitted = if is_degraded s.state then action_none else s.result.emitted in
      let d =
        decision_of (make_id e.issued) e request (some fused) (some s.smoothed) s.level s.state
          emitted (if is_degraded s.state then "DEGRADED_FAIL_OPEN" else s.result.reason_code)
          (is_calibrating s.state || e.shadow_mode)
          (if is_degraded s.state then false else s.result.enforcement_applied) in
      let trace : DecisionTrace F = record {
        score = request.score;
        keyboard_weight_used = keyboard_used;
        mouse_weight_used = mouse_used;
        fused_score = some fused;
        context_adjusted_score = some s.adjusted;
        previous_smoothed_score = e.smoothed;
        smoothed_score = some s.smoothed;
        breach_history = s.history;
        prior_risk_level = e.risk_level;
        resulting_risk_level = s.level;
        requested_action = s.result.requested;
        emitted_action = emitted;
        user_state = s.state;
        config_version = e.settings.config_version;
        config_checksum = e.settings.config_checksum;
      } in
      done (record { decision = some d; trace = some trace; alerts = alerts })
        (emit_decision d (record e {
          policy = s.policy;
          history = s.history;
          smoothed = some s.smoothed;
          risk_level = s.level;
          sent = e.sent ++ map alert_signal alerts;
        }))

  -- A window whose required modalities have scored: the engine leaves DEGRADED first.
  unfoldable pub fused_outcome : DecisionInput F → Option (F × F × F) → RiskEngine F → Processed F
  fused_outcome request none e = failure_outcome make_id request no_weighted_modality e
  fused_outcome request (some (fused, keyboard_used, mouse_used)) e =
      let e' = component_recovered e in
      emit_scored request fused keyboard_used mouse_used (score_window request fused e') e'

  unfoldable pub required_outcome :
      DecisionInput F → Option AlertDetail → RiskEngine F → Processed F
  required_outcome request (some detail) e = failure_outcome make_id request detail e
  required_outcome request none e = fused_outcome request (fusion fl request.score e.settings) e

  -- A monitored window: `process` after its checks and its early return.
  unfoldable pub monitor : DecisionInput F → RiskEngine F → Processed F
  unfolding fused_outcome required_outcome
  monitor request e =
      if is_insufficient request.score.quality_label
      then hold make_id request e
      else required_outcome request (required_failure request.score) e

  unfoldable pub process : DecisionInput F → RiskEngine F → Processed F
  unfolding monitor
  process request e =
      let e' = record e { last_decision_us = some request.t_decision_us } in
      if not (str_eq request.score.user_id e.user_id)
      then raised other_user
      else if goes_back e.last_decision_us request.t_decision_us
      then raised not_monotonic
      else if is_unmonitored e.machine.state
      then done nothing e'
      else monitor request e'

module _ {F : Type 0} where
  -- `heartbeat_lost`
  unfoldable pub heartbeat_lost : ℕ → String → RiskEngine F → RiskAlert × RiskEngine F
  unfolding emit_alert degrade
  heartbeat_lost t detail e =
      let alert : RiskAlert = record {
        alert_type = tamper;
        severity = high_severity;
        code = "COLLECTOR_HEARTBEAT_LOST";
        t_capture_us = t;
        detail = plain_text detail;
      } in
      (alert, emit_alert alert (degrade "COLLECTOR_HEARTBEAT_LOST" e))

  -- `component_failed`; `none` is the `ValueError` at a blank field.
  unfoldable pub component_failed :
      String → ℕ → String → RiskEngine F → Option (RiskAlert × RiskEngine F)
  unfolding emit_alert degrade
  component_failed component t detail e =
      let alert : RiskAlert = record {
        alert_type = availability;
        severity = high_severity;
        code = "BACKEND_COMPONENT_FAILED";
        t_capture_us = t;
        detail = component_detail component detail;
      } in
      if is_blank component || is_blank detail
      then none
      else some (alert, emit_alert alert (degrade "BACKEND_COMPONENT_FAILED" e))
