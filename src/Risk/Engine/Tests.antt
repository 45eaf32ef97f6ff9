-- ===== src/Risk/Engine/Tests.antt =====
-- Runs of the engine of backend/app/risk/engine.py, with whole percents as floats.
use continuous_auth.Risk.Engine.Process.{score_window, emit_scored, process}
use continuous_auth.Common.{
  ℕ, ◌+◌, ◌-◌, ◌*◌, ◌/◌, ◌≡◌, ◌≤◌, refl, true, false, none, some, List, [], ◌∷◌, String, arith, leb,
  ltb, count_if,
}
use continuous_auth.Contracts.{
  full, ModelStatus, scored, low, high, enrolling, active, degraded, empirical,
  multiplicative_damping, UserState, RiskLevel, ModalityScore,
}
use continuous_auth.Decisions.Policy.{expire, decide, RiskSettings, new_policy}
use continuous_auth.Risk.Assessment.{adjust, Floats, DecisionInput}
use continuous_auth.Risk.Engine.Emission.{
  required_failure, RiskEngine, nothing, degrade, component_recovered,
}
use continuous_auth.Risk.Engine.Scoring.{candidate_level, with_hysteresis, fusion}
use continuous_auth.Risk.Engine.Branches.{after_process, outcome, Framed}
use continuous_auth.Risk.Engine.Levels.{threshold, process-raises}
use continuous_auth.Risk.Engine.Safety.{conforming, intervening, process-conforms, process-enforces}
use continuous_auth.Risk.Engine.Failure.{
  decided_in, component_recovered-degrade, enrolling_scored_after_outage,
}

abbrev percents : Floats
percents = record {
  F = ℕ;
  zero = 0;
  one = 100;
  add = λ a b. a + b;
  sub = λ a b. a - b;
  mul = λ a b. a * b / 100;
  div = λ a b. a * 100 / b;
  le = leb;
  lt = ltb;
}

abbrev make_id : ℕ → String
make_id n = "id"

abbrev settings : RiskSettings ℕ
settings = record {
  config_version = "v";
  config_checksum = "c";
  enrollment = record { min_windows = 20; min_distinct_days = 3; calibration_windows = 5 };
  risk = record {
    keyboard_weight = 50;
    mouse_weight = 50;
    ewma_alpha = 50;
    medium_threshold = 40;
    high_threshold = 70;
    breach_k = 2;
    breach_n = 3;
    cooldown_seconds = 1;
    action_budget = 2;
  };
}

abbrev modality : ModelStatus → ℕ → ModalityScore ℕ
modality status v = record {
  available = true;
  raw_score = some v;
  calibrated_score = some v;
  status = status;
}

abbrev request : ModelStatus → ℕ → DecisionInput ℕ
request status v = record {
  score = record {
    user_id = "u";
    profile_version = "p";
    feature_schema_version = "f";
    model_version = "m";
    window_id = "w";
    quality_label = full;
    keyboard = modality status v;
    mouse = modality scored v;
  };
  session_id = "s";
  segment_id = "g";
  t_decision_us = 9;
  context = record {
    confidence = 100;
    source = empirical;
    mode = multiplicative_damping;
    context_location = none;
    context_scale = none;
    baseline_location = none;
    baseline_scale = none;
  };
}

abbrev engine_at : UserState → RiskLevel → List ℕ → RiskEngine ℕ
engine_at state level history = record {
  user_id = "u";
  settings = settings;
  machine = record { config = settings.enrollment; state = state; pre_degraded = none };
  policy = new_policy;
  history = history;
  smoothed = none;
  risk_level = level;
  last_decision_us = some 5;
  shadow_mode = false;
  issued = 3;
  sent = [];
}

abbrev alarming : DecisionInput ℕ
alarming = request scored 90

abbrev quiet : DecisionInput ℕ
quiet = request scored 10

abbrev busy_engine : RiskEngine ℕ
busy_engine = engine_at active low (80 ∷ 20 ∷ [])

abbrev calm_engine : RiskEngine ℕ
calm_engine = engine_at active high (20 ∷ 30 ∷ 30 ∷ [])

abbrev down_engine : RiskEngine ℕ
down_engine = record busy_engine {
  machine = record { config = settings.enrollment; state = degraded; pre_degraded = some active };
}

process-raises_example :
    2
    ≤ count_if
        (leb (
          threshold percents settings
            (after_process percents make_id alarming busy_engine).risk_level))
        (after_process percents make_id alarming busy_engine).history
unfolding process required_failure fusion emit_scored score_window with_hysteresis
    component_recovered candidate_level adjust
process-raises_example = process-raises percents make_id alarming busy_engine (omega arith)

process-conforms_example :
    conforming (outcome percents make_id alarming busy_engine).decision ≡ true
process-conforms_example = process-conforms percents make_id alarming busy_engine

process-enforces_example :
    ((after_process percents make_id alarming busy_engine).machine.state ≡ active)
    × (false ≡ false)
    × (intervening (outcome percents make_id alarming busy_engine).decision ≡ true)
unfolding process required_failure fusion emit_scored score_window component_recovered decide
    with_hysteresis candidate_level adjust new_policy expire
process-enforces_example = process-enforces percents make_id alarming busy_engine refl

component_recovered-degrade_example :
    ((component_recovered (degrade "LOST" busy_engine)).machine ≡ busy_engine.machine)
    × Framed busy_engine (component_recovered (degrade "LOST" busy_engine))
component_recovered-degrade_example =
    component_recovered-degrade "LOST" busy_engine refl (ground arith) (ground arith)

enrolling_scored_after_outage_example :
    (decided_in (outcome percents make_id alarming (degrade "LOST" (engine_at enrolling low [])))
      ≡ some enrolling)
    × ((after_process percents make_id alarming
          (degrade "LOST" (engine_at enrolling low []))).machine.state
        ≡ enrolling)
    × (outcome percents make_id alarming (engine_at enrolling low []) ≡ nothing)
unfolding required_failure fusion
enrolling_scored_after_outage_example =
    enrolling_scored_after_outage percents make_id alarming (engine_at enrolling low []) "LOST"
      (90, 50, 50) refl refl refl refl refl refl
