-- ===== src/Risk/Context/Tests.antt =====
-- Runs of the layer of backend/app/risk/context.py, with whole percents as floats.
use continuous_auth.Common.{ℕ, ◌+◌, ◌-◌, ◌*◌, ◌/◌, ◌≡◌, true, false, leb, ltb, List, [], ◌∷◌}
use continuous_auth.Contracts.{multiplicative_damping}
use continuous_auth.Risk.Assessment.{Floats}
use continuous_auth.Risk.Context.Confidence.{assess}
use continuous_auth.Risk.Context.{ContextConfidenceLayer, AppFocusShare, browsing, suspend_learning}
use continuous_auth.Risk.Context.Isolation.{Observation, observe_all, assess-drill}

abbrev percents : Floats
percents = record {
  F = ℕ;
  zero = 0;
  one = 100;
  add = λ a b. a + b;
  sub = λ a b. a - b;
  mul = λ a b. a * b / 100;
  div = λ a b. a * 100 / b;
  le = leb;
  lt = ltb;
}

abbrev layer : ContextConfidenceLayer ℕ
layer = record {
  config = record {
    confidence_floor = 10;
    min_empirical_observations = 300;
    bootstrap_weights = λ _. 80;
    adjustment_mode = multiplicative_damping;
    variance_scale = 400;
    normalization_min_scale = 1;
  };
  statistics = [];
  baselines = [];
  learning_suspended = false;
}

abbrev shares : List (AppFocusShare ℕ)
shares = record { app_id = 7; category = browsing; fraction = 100 } ∷ []

abbrev observations : List (Observation ℕ)
observations =
    record { user_id = "u"; shares = shares; score = 20 }
    ∷ record { user_id = ""; shares = shares; score = 20 }
    ∷ record { user_id = "u"; shares = shares; score = 30 }
    ∷ []

assess-drill_example :
    assess percents
      (λ x. x)
      "u"
      shares
      browsing
      (suspend_learning percents false
        (observe_all percents (λ _. true) observations (suspend_learning percents true layer)))
    ≡ assess percents (λ x. x) "u" shares browsing (suspend_learning percents false layer)
assess-drill_example =
    assess-drill percents (λ x. x) (λ _. true) observations "u" shares browsing layer
