-- ===== src/Risk/Assessment.antt =====
-- backend/app/risk/types.py: the assessment of a context, the engine's input, alerts and traces. The
-- floats of Python are the parameter `Floats`: a type with the operations and tests that the risk
-- path uses of it.
use continuous_auth.Common.{
  ℕ, Bool, true, false, not, ◌&&◌, ◌||◌, Option, none, some, List, String, is_some, is_blank,
  if◌then◌else◌,
}
use continuous_auth.Contracts.{
  ConfidenceSource, ContextAdjustmentMode, per_context_normalization, multiplicative_damping,
  ScoreResult, ModelStatus, AlertType, RiskLevel, DecisionAction, UserState, RiskDecision,
}

pub record Floats : Type 1 where
  pub F : Type 0
  pub zero : F
  pub one : F
  pub add : F → F → F
  pub sub : F → F → F
  pub mul : F → F → F
  pub div : F → F → F
  -- `a <= b` and `a < b`
  pub le : F → F → Bool
  pub lt : F → F → Bool

pub record ContextAssessment (F : Type 0) : Type 0 where
  pub confidence : F
  pub source : ConfidenceSource
  pub mode : ContextAdjustmentMode
  pub context_location : Option F
  pub context_scale : Option F
  pub baseline_location : Option F
  pub baseline_scale : Option F

pub record DecisionInput (F : Type 0) : Type 0 where
  pub score : ScoreResult F
  pub session_id : String
  pub segment_id : String
  pub t_decision_us : ℕ
  pub context : ContextAssessment F

pub data Severity : Type 0 where
  low_severity medium_severity high_severity : Severity

-- The detail of an alert: a text, or what the source prints into one.
pub data AlertDetail : Type 0 where
  plain_text : String → AlertDetail
  -- the modality and its model's status
  model_status : String → ModelStatus → AlertDetail
  -- the `ValueError` of the fusion
  no_weighted_modality : AlertDetail
  -- the component and the detail
  component_detail : String → String → AlertDetail

pub record RiskAlert : Type 0 where
  pub alert_type : AlertType
  pub severity : Severity
  pub code : String
  pub t_capture_us : ℕ
  pub detail : AlertDetail

pub record DecisionTrace (F : Type 0) : Type 0 where
  pub score : ScoreResult F
  pub keyboard_weight_used : F
  pub mouse_weight_used : F
  pub fused_score : Option F
  pub context_adjusted_score : Option F
  pub previous_smoothed_score : Option F
  pub smoothed_score : Option F
  pub breach_history : List F
  pub prior_risk_level : RiskLevel
  pub resulting_risk_level : RiskLevel
  pub requested_action : DecisionAction
  pub emitted_action : DecisionAction
  pub user_state : UserState
  pub config_version : String
  pub config_checksum : String

pub record RiskOutcome (F : Type 0) : Type 0 where
  pub decision : Option (RiskDecision F)
  pub trace : Option (DecisionTrace F)
  pub alerts : List RiskAlert

abbrev pub is_normalizing : ContextAdjustmentMode → Bool
is_normalizing per_context_normalization = true
is_normalizing multiplicative_damping = false

-- `DecisionInput.__post_init__`: true where it does not raise.
abbrev pub input_accepted : {F : Type 0} → DecisionInput F → Bool
input_accepted request = not (is_blank request.session_id || is_blank request.segment_id)

module _ (fl : Floats) where
  open fl use {F, zero, one, add, sub, mul, div, le, lt}

  -- A scale is missing or positive.
  abbrev positive_scale : Option F → Bool
  positive_scale none = true
  positive_scale (some s) = not (le s zero)

  -- `ContextAssessment.__post_init__`: true where it does not raise.
  abbrev pub assessment_accepted : ContextAssessment F → Bool
  assessment_accepted c =
      lt zero c.confidence
      && le c.confidence one
      && positive_scale c.context_scale
      && positive_scale c.baseline_scale

  -- The property `normalization_available`.
  abbrev pub normalization_available : ContextAssessment F → Bool
  normalization_available c =
      is_normalizing c.mode
      && is_some c.context_location
      && is_some c.context_scale
      && is_some c.baseline_location
      && is_some c.baseline_scale

  -- `min(1.0, max(0.0, x))`: each keeps its first argument unless the second one is beyond it.
  abbrev pub clamp : F → F
  clamp x = let low = if lt zero x then x else zero in if lt low one then low else one

  abbrev normalize : Option F → Option F → Option F → Option F → F → F → F
  normalize (some location) (some scale) (some base) (some base_scale) confidence fused =
      clamp (add base (mul (div (sub fused location) scale) base_scale))
  normalize _ _ _ _ confidence fused = mul fused confidence

  -- `adjust`: where a parameter is missing the damping applies, whatever the mode.
  unfoldable pub adjust : ContextAssessment F → F → F
  adjust c fused =
      if is_normalizing c.mode
      then normalize c.context_location c.context_scale c.baseline_location c.baseline_scale
          c.confidence fused
      else mul fused c.confidence
