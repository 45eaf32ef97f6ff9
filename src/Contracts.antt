-- ===== src/Contracts.antt =====
-- protocol/generated/python/contracts.py: the enumerations and models that the risk path shares.
-- `F` is the type of Python's floats. Constraints of the schema on a single field (ranges, lengths
-- and the pattern of a checksum) are not part of these records.
use continuous_auth.Common.{ℕ, Bool, true, false, not, ◌&&◌, ◌||◌, Option, String, is_some}

pub data WindowQuality : Type 0 where
  full kbd_only mouse_only insufficient_data : WindowQuality

pub data DataProvenance : Type 0 where
  synthetic public team pilot : DataProvenance

pub data ModelStatus : Type 0 where
  scored model_unavailable failed schema_mismatch : ModelStatus

pub data RiskLevel : Type 0 where
  low medium high unavailable : RiskLevel

pub data DecisionAction : Type 0 where
  continue soft_challenge reauth terminate action_none : DecisionAction

pub data UserState : Type 0 where
  enrolling calibrating active degraded suspended : UserState

pub data ConfidenceSource : Type 0 where
  bootstrap empirical neutral_fallback : ConfidenceSource

pub data AlertType : Type 0 where
  behavioral availability tamper : AlertType

pub data ContextAdjustmentMode : Type 0 where
  multiplicative_damping per_context_normalization : ContextAdjustmentMode

abbrev pub is_insufficient : WindowQuality → Bool
is_insufficient insufficient_data = true
is_insufficient full = false
is_insufficient kbd_only = false
is_insufficient mouse_only = false

abbrev pub is_scored : ModelStatus → Bool
is_scored scored = true
is_scored model_unavailable = false
is_scored failed = false
is_scored schema_mismatch = false

abbrev pub is_high : RiskLevel → Bool
is_high high = true
is_high low = false
is_high medium = false
is_high unavailable = false

abbrev pub is_active : UserState → Bool
is_active active = true
is_active enrolling = false
is_active calibrating = false
is_active degraded = false
is_active suspended = false

abbrev pub is_calibrating : UserState → Bool
is_calibrating calibrating = true
is_calibrating enrolling = false
is_calibrating active = false
is_calibrating degraded = false
is_calibrating suspended = false

abbrev pub is_degraded : UserState → Bool
is_degraded degraded = true
is_degraded enrolling = false
is_degraded calibrating = false
is_degraded active = false
is_degraded suspended = false

abbrev pub is_action_none : DecisionAction → Bool
is_action_none action_none = true
is_action_none continue = false
is_action_none soft_challenge = false
is_action_none reauth = false
is_action_none terminate = false

abbrev pub same_action : DecisionAction → DecisionAction → Bool
same_action continue continue = true
same_action soft_challenge soft_challenge = true
same_action reauth reauth = true
same_action terminate terminate = true
same_action action_none action_none = true
same_action _ _ = false

pub record EnrollmentConfig : Type 0 where
  pub min_windows : ℕ
  pub min_distinct_days : ℕ
  pub calibration_windows : ℕ

pub record RiskConfig (F : Type 0) : Type 0 where
  pub keyboard_weight : F
  pub mouse_weight : F
  pub ewma_alpha : F
  pub medium_threshold : F
  pub high_threshold : F
  pub breach_k : ℕ
  pub breach_n : ℕ
  pub cooldown_seconds : ℕ
  pub action_budget : ℕ

pub record ModalityScore (F : Type 0) : Type 0 where
  pub available : Bool
  pub raw_score : Option F
  pub calibrated_score : Option F
  pub status : ModelStatus

-- `ModalityScore.validate_schema_conditionals`: true where no rule raises.
abbrev pub modality_conforms : {F : Type 0} → ModalityScore F → Bool
modality_conforms m =
    (m.available || not (is_some m.raw_score))
    && (m.available || not (is_some m.calibrated_score))
    && (not m.available || is_some m.raw_score)
    && (not m.available || is_some m.calibrated_score)
    && (not m.available || is_scored m.status)

pub record ScoreResult (F : Type 0) : Type 0 where
  pub user_id : String
  pub profile_version : String
  pub feature_schema_version : String
  pub model_version : String
  pub window_id : String
  pub quality_label : WindowQuality
  pub keyboard : ModalityScore F
  pub mouse : ModalityScore F

pub record RiskDecision (F : Type 0) : Type 0 where
  pub decision_id : String
  pub user_id : String
  pub session_id : String
  pub segment_id : String
  pub window_id : String
  pub t_decision_us : ℕ
  pub quality_label : WindowQuality
  pub fused_score : Option F
  pub context_confidence : F
  pub confidence_source : ConfidenceSource
  pub smoothed_score : Option F
  pub risk_level : RiskLevel
  pub user_state : UserState
  pub action : DecisionAction
  pub reason_code : String
  pub threshold_config_version : String
  pub config_checksum : String
  pub shadow_mode : Bool
  pub enforcement_applied : Bool

-- `RiskDecision.validate_schema_conditionals`: true where no rule raises.
unfoldable pub decision_conforms : {F : Type 0} → RiskDecision F → Bool
decision_conforms d =
    (not (is_insufficient d.quality_label) || not (is_some d.fused_score))
    && (not (is_insufficient d.quality_label) || not (is_some d.smoothed_score))
    && (not (is_insufficient d.quality_label) || is_action_none d.action)
    && (not (is_insufficient d.quality_label) || not d.enforcement_applied)
    && (is_active d.user_state || not d.enforcement_applied)
