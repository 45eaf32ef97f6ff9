-- ===== src/Risk/Engine/Emission.antt =====
-- backend/app/risk/engine.py: the state of the engine, what it emits, and its fail-open branch.
-- `make_id` is the identifier that the engine's factory returns as its n-th answer; the calls of the
-- three sinks are recorded in `sent`, in their order.
use continuous_auth.Common.{
  ℕ, ◌+◌, Bool, true, false, not, ◌&&◌, ◌||◌, Option, none, some, List, [], ◌∷◌, ◌++◌, String,
  is_blank, if◌then◌else◌,
}
use continuous_auth.Contracts.{
  WindowQuality, full, kbd_only, mouse_only, insufficient_data, is_scored, RiskLevel, low,
  unavailable, DecisionAction, action_none, UserState, enrolling, calibrating, active, degraded,
  suspended, is_calibrating, is_degraded, availability, ModalityScore, ScoreResult, RiskDecision,
}
use continuous_auth.Risk.State
use continuous_auth.Risk.State.{UserStateMachine, StateTransition, StateResult, moved, refused}
use continuous_auth.Risk.Assessment.{
  DecisionInput, RiskAlert, AlertDetail, model_status, high_severity, RiskOutcome,
}
use continuous_auth.Decisions.Policy
use continuous_auth.Decisions.Policy.{RiskSettings, DecisionPolicy, PolicyResult}

pub data Signal (F : Type 0) : Type 0 where
  decision_signal : RiskDecision F → Signal F
  alert_signal : RiskAlert → Signal F
  state_signal : StateTransition → Signal F

pub record RiskEngine (F : Type 0) : Type 0 where
  pub user_id : String
  pub settings : RiskSettings F
  pub machine : UserStateMachine
  pub policy : DecisionPolicy
  pub history : List F
  pub smoothed : Option F
  pub risk_level : RiskLevel
  pub last_decision_us : Option ℕ
  pub shadow_mode : Bool
  pub issued : ℕ
  pub sent : List (Signal F)

-- The `ValueError`s of `process`.
pub data EngineError : Type 0 where
  other_user not_monotonic : EngineError

pub data Processed (F : Type 0) : Type 0 where
  raised : EngineError → Processed F
  done : RiskOutcome F → RiskEngine F → Processed F

-- The decision states in which `process` returns at once.
abbrev pub is_unmonitored : UserState → Bool
is_unmonitored enrolling = true
is_unmonitored suspended = true
is_unmonitored calibrating = false
is_unmonitored active = false
is_unmonitored degraded = false

abbrev pub needs_keyboard : WindowQuality → Bool
needs_keyboard full = true
needs_keyboard kbd_only = true
needs_keyboard mouse_only = false
needs_keyboard insufficient_data = false

abbrev pub needs_mouse : WindowQuality → Bool
needs_mouse full = true
needs_mouse kbd_only = false
needs_mouse mouse_only = true
needs_mouse insufficient_data = false

abbrev pub nothing : {F : Type 0} → RiskOutcome F
nothing = record { decision = none; trace = none; alerts = [] }

unfoldable pub first_failure : Option AlertDetail → Option AlertDetail → Option AlertDetail
first_failure none f = f
first_failure (some d) f = some d

module _ {F : Type 0} where
  -- The constructor raises a `ValueError` at a blank user.
  unfoldable pub new_engine : String → RiskSettings F → UserStateMachine → Option (RiskEngine F)
  unfolding Policy.new_policy
  new_engine user_id settings machine =
      if is_blank user_id
      then none
      else some (record {
        user_id = user_id;
        settings = settings;
        machine = machine;
        policy = Policy.new_policy;
        history = [];
        smoothed = none;
        risk_level = low;
        last_decision_us = none;
        shadow_mode = false;
        issued = 0;
        sent = [];
      })

  unfoldable pub set_shadow_mode : Bool → RiskEngine F → RiskEngine F
  set_shadow_mode enabled e = record e { shadow_mode = enabled }

  -- `_emit_state`
  unfoldable pub emit_state : Option StateTransition → RiskEngine F → RiskEngine F
  emit_state none e = e
  emit_state (some t) e = record e { sent = e.sent ++ state_signal t ∷ [] }

  -- `_degrade`
  unfoldable pub degrade : String → RiskEngine F → RiskEngine F
  unfolding emit_state
  degrade reason e =
      let (t, m) = State.degrade reason e.machine in emit_state t (record e { machine = m })

  unfoldable pub after_recovery : StateResult → RiskEngine F → RiskEngine F
  after_recovery (moved t m) e = record e { machine = m; sent = e.sent ++ state_signal t ∷ [] }
  after_recovery (refused _) e = e

  -- `component_recovered`, for its effect; nothing happens outside DEGRADED.
  unfoldable pub component_recovered : RiskEngine F → RiskEngine F
  unfolding after_recovery
  component_recovered e =
      if is_degraded e.machine.state then after_recovery (State.recover e.machine) e else e

  unfoldable pub emit_alert : RiskAlert → RiskEngine F → RiskEngine F
  emit_alert a e = record e { sent = e.sent ++ alert_signal a ∷ [] }

  unfoldable pub modality_failure : Bool → String → ModalityScore F → Option AlertDetail
  modality_failure wanted name m =
      if wanted && not (m.available && is_scored m.status)
      then some (model_status name m.status)
      else none

  -- `_required_failure`
  unfoldable pub required_failure : ScoreResult F → Option AlertDetail
  unfolding modality_failure first_failure
  required_failure score =
      first_failure
        (modality_failure (needs_keyboard score.quality_label) "keyboard" score.keyboard)
        (modality_failure (needs_mouse score.quality_label) "mouse" score.mouse)

  -- The fields of a decision that the engine fills in the same way on every branch.
  abbrev pub decision_of :
      String
      → RiskEngine F
      → DecisionInput F
      → Option F
      → Option F
      → RiskLevel
      → UserState
      → DecisionAction
      → String
      → Bool
      → Bool
      → RiskDecision F
  decision_of decision_id e request fused smoothed level state action reason shadow applied =
      record {
        decision_id = decision_id;
        user_id = e.user_id;
        session_id = request.session_id;
        segment_id = request.segment_id;
        window_id = request.score.window_id;
        t_decision_us = request.t_decision_us;
        quality_label = request.score.quality_label;
        fused_score = fused;
        context_confidence = request.context.confidence;
        confidence_source = request.context.source;
        smoothed_score = smoothed;
        risk_level = level;
        user_state = state;
        action = action;
        reason_code = reason;
        threshold_config_version = e.settings.config_version;
        config_checksum = e.settings.config_checksum;
        shadow_mode = shadow;
        enforcement_applied = applied;
      }

  -- The factory's next identifier is taken, and the decision goes to its sink.
  abbrev pub emit_decision : RiskDecision F → RiskEngine F → RiskEngine F
  emit_decision d e = record e { issued = e.issued + 1; sent = e.sent ++ decision_signal d ∷ [] }

  module _ (make_id : ℕ → String) where
    -- `_failure_outcome`
    unfoldable pub failure_outcome : DecisionInput F → AlertDetail → RiskEngine F → Processed F
    unfolding emit_alert
    failure_outcome request detail e =
        let alert : RiskAlert = record {
          alert_type = availability;
          severity = high_severity;
          code = "RISK_INPUT_UNAVAILABLE";
          t_capture_us = request.t_decision_us;
          detail = detail;
        } in
        let e' = emit_alert alert (degrade "RISK_INPUT_UNAVAILABLE" e) in
        let d =
          decision_of (make_id e'.issued) e' request none none unavailable degraded action_none
            "FAIL_OPEN_COMPONENT_UNAVAILABLE" e'.shadow_mode false in
        done (record { decision = some d; trace = none; alerts = alert ∷ [] }) (emit_decision d e')

    -- The branch of a window with too little data.
    unfoldable pub hold : DecisionInput F → RiskEngine F → Processed F
    hold request e =
        let state = e.machine.state in
        let d =
          decision_of (make_id e.issued) e request none none unavailable state action_none
            "INSUFFICIENT_EVIDENCE_HOLD" (is_calibrating state || e.shadow_mode) false in
        done (record { decision = some d; trace = none; alerts = [] }) (emit_decision d e)
