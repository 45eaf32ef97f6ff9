-- ===== src/Decisions/Policy/Tests.antt =====
-- Runs of the policy of backend/app/decisions/policy.py.
use continuous_auth.Common.{ℕ, ◌≡◌, ◌≤◌, refl, true, List, [], ◌∷◌, arith, count_if}
use continuous_auth.Contracts.{high, medium, soft_challenge, reauth, terminate}
use continuous_auth.Decisions.Policy.{expire, RiskSettings, new_policy, decide}
use continuous_auth.Decisions.Policy.Runs.{Request, run, end_of}
use continuous_auth.Decisions.Policy.Budget.{within_entry, run-within_budget}
use continuous_auth.Decisions.Policy.Cooldown.{spaced, run-spaced}

-- Floats are whole percents here.
abbrev settings : RiskSettings ℕ
settings = record {
  config_version = "v";
  config_checksum = "c";
  enrollment = record { min_windows = 20; min_distinct_days = 3; calibration_windows = 5 };
  risk = record {
    keyboard_weight = 50;
    mouse_weight = 50;
    ewma_alpha = 50;
    medium_threshold = 40;
    high_threshold = 70;
    breach_k = 2;
    breach_n = 3;
    cooldown_seconds = 1;
    action_budget = 2;
  };
}

abbrev requests : List Request
requests =
    record { level = medium; high_count = 0; now = 5; enabled = true }
    ∷ record { level = medium; high_count = 1; now = 6; enabled = true }
    ∷ record { level = high; high_count = 2; now = 7; enabled = true }
    ∷ record { level = high; high_count = 3; now = 8; enabled = true }
    ∷ record { level = high; high_count = 3; now = 1000005; enabled = true }
    ∷ []

-- The second challenge is in its cooldown, and the first termination is over the budget.
applied_requests :
    (run settings requests ([], new_policy)).0
    ≡ (terminate, 1000005) ∷ (reauth, 7) ∷ (soft_challenge, 5) ∷ []
unfolding run decide new_policy expire
applied_requests = refl

run-within_budget_example :
    count_if (within_entry 1000000 1000005) (run settings requests ([], new_policy)).0 ≤ 2
unfolding end_of
run-within_budget_example =
    run-within_budget settings requests
      (omega arith, (omega arith, (omega arith, (omega arith, (omega arith, tt)))))

run-spaced_example : spaced settings (run settings requests ([], new_policy)).0 ≡ true
run-spaced_example = run-spaced settings requests
