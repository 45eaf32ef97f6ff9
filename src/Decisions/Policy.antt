-- ===== src/Decisions/Policy.antt =====
-- backend/app/decisions/policy.py: escalation ladder, cooldown and action budget. Times are never
-- negative; where the source subtracts two of them, the model adds on the other side.
pub mod Runs
pub mod Budget
pub mod Cooldown
mod Tests
use continuous_auth.Common.{
  ℕ, ◌+◌, ◌*◌, Bool, true, false, not, ◌||◌, Option, none, some, List, [], ◌∷◌, ◌++◌, String, ltb,
  leb, if◌then◌else◌, length,
}
use continuous_auth.Contracts.{
  RiskLevel, low, medium, high, unavailable, DecisionAction, continue, soft_challenge, reauth,
  terminate, action_none, same_action, is_action_none, EnrollmentConfig, RiskConfig,
}

-- backend/app/risk/config.py
pub record RiskSettings (F : Type 0) : Type 0 where
  pub config_version : String
  pub config_checksum : String
  pub enrollment : EnrollmentConfig
  pub risk : RiskConfig F

-- the property `RiskSettings.cooldown_us`
abbrev pub cooldown_us : {F : Type 0} → RiskSettings F → ℕ
cooldown_us s = s.risk.cooldown_seconds * 1000000

pub record PolicyResult : Type 0 where
  pub requested : DecisionAction
  pub emitted : DecisionAction
  pub enforcement_applied : Bool
  pub reason_code : String
  pub budget_exhausted : Bool

pub record DecisionPolicy : Type 0 where
  pub last_by_action : DecisionAction → Option ℕ
  pub applied_times : List ℕ

unfoldable pub new_policy : DecisionPolicy
new_policy = record { last_by_action = λ _. none; applied_times = [] }

-- `d[action] = t`
abbrev pub update : (DecisionAction → Option ℕ) → DecisionAction → ℕ → DecisionAction → Option ℕ
update d action t a = if same_action a action then some t else d a

abbrev is_continue_or_none : DecisionAction → Bool
is_continue_or_none continue = true
is_continue_or_none action_none = true
is_continue_or_none soft_challenge = false
is_continue_or_none reauth = false
is_continue_or_none terminate = false

-- The loop that drops the applied times up to `t_decision_us - cooldown_us`.
unfoldable pub expire : ℕ → ℕ → List ℕ → List ℕ
expire cooldown now [] = []
expire cooldown now (t ∷ ts) = if leb (t + cooldown) now then expire cooldown now ts else t ∷ ts

-- `t_decision_us - last_same < cooldown_us`, with a last time
abbrev pub cooling : ℕ → ℕ → Option ℕ → Bool
cooling cooldown now none = false
cooling cooldown now (some last) = ltb now (last + cooldown)

module _ {F : Type 0} (settings : RiskSettings F) where
  unfoldable pub requested_action : RiskLevel → ℕ → DecisionAction
  requested_action low high_count = continue
  requested_action medium high_count = soft_challenge
  requested_action high high_count =
      if leb settings.risk.breach_n high_count then terminate else reauth
  requested_action unavailable high_count = action_none

  -- `decide` for an action that is to be enforced.
  enforce : DecisionAction → ℕ → DecisionPolicy → PolicyResult × DecisionPolicy
  enforce requested now p =
      let times = expire (cooldown_us settings) now p.applied_times in
      let expired = record p { applied_times = times } in
      if cooling (cooldown_us settings) now (p.last_by_action requested)
      then (
        record {
          requested = requested;
          emitted = action_none;
          enforcement_applied = false;
          reason_code = "ACTION_COOLDOWN";
          budget_exhausted = false;
        },
        expired,
      )
      else if leb settings.risk.action_budget (length times)
      then (
        record {
          requested = requested;
          emitted = action_none;
          enforcement_applied = false;
          reason_code = "ACTION_BUDGET";
          budget_exhausted = true;
        },
        expired,
      )
      else (
        record {
          requested = requested;
          emitted = requested;
          enforcement_applied = true;
          reason_code = "RISK_ESCALATION";
          budget_exhausted = false;
        },
        record {
          last_by_action = update p.last_by_action requested now;
          applied_times = times ++ now ∷ [];
        },
      )

  unfoldable pub decide : RiskLevel → ℕ → ℕ → Bool → DecisionPolicy → PolicyResult × DecisionPolicy
  unfolding enforce requested_action
  decide level high_count now enforcement_enabled p =
      let requested = requested_action level high_count in
      if not enforcement_enabled || is_continue_or_none requested
      then (
        record {
          requested = requested;
          emitted = requested;
          enforcement_applied = false;
          reason_code = if enforcement_enabled then "RISK_LOW" else "SHADOW_OR_NON_ENFORCING";
          budget_exhausted = false;
        },
        p,
      )
      else enforce requested now p
