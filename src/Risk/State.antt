-- ===== src/Risk/State.antt =====
-- backend/app/risk/state.py: the state machine of a user.
pub mod Laws
mod Tests
use continuous_auth.Common.{
  ℕ, Bool, true, false, ◌&&◌, Option, none, some, String, leb, if◌then◌else◌,
}
use continuous_auth.Contracts.{
  UserState, enrolling, calibrating, active, degraded, suspended, EnrollmentConfig,
}

pub record StateTransition : Type 0 where
  pub previous : UserState
  pub current : UserState
  pub reason : String

pub record UserStateMachine : Type 0 where
  pub config : EnrollmentConfig
  pub state : UserState
  pub pre_degraded : Option UserState

-- The messages of the `ValueError`s. Progress counters are natural numbers here, so that the check
-- for negative ones has no counterpart.
pub data StateError : Type 0 where
  not_degraded not_suspended : StateError

pub data StateResult : Type 0 where
  moved : StateTransition → UserStateMachine → StateResult
  refused : StateError → StateResult

unfoldable pub new_machine : EnrollmentConfig → UserState → UserStateMachine
new_machine enrollment initial = record {
  config = enrollment;
  state = initial;
  pre_degraded = none;
}

abbrev pub move : UserState → String → UserStateMachine → Option StateTransition × UserStateMachine
move target reason m = (
  some (record { previous = m.state; current = target; reason = reason }),
  record m { state = target },
)

progress_at : UserState → ℕ → ℕ → ℕ → UserStateMachine → Option StateTransition × UserStateMachine
progress_at enrolling windows days calibration m =
    if leb m.config.min_windows windows && leb m.config.min_distinct_days days
    then move calibrating "ENROLLMENT_EVIDENCE_REACHED" m
    else (none, m)
progress_at calibrating windows days calibration m =
    if leb m.config.calibration_windows calibration
    then move active "CALIBRATION_COMPLETED" m
    else (none, m)
progress_at _ windows days calibration m = (none, m)

unfoldable pub observe_progress :
    ℕ → ℕ → ℕ → UserStateMachine → Option StateTransition × UserStateMachine
unfolding progress_at
observe_progress windows days calibration m = progress_at m.state windows days calibration m

degrade_at : UserState → String → UserStateMachine → Option StateTransition × UserStateMachine
degrade_at degraded reason m = (none, m)
degrade_at suspended reason m = (none, m)
degrade_at _ reason m = move degraded reason (record m { pre_degraded = some m.state })

unfoldable pub degrade : String → UserStateMachine → Option StateTransition × UserStateMachine
unfolding degrade_at
degrade reason m = degrade_at m.state reason m

-- `self._pre_degraded or UserState.ENROLLING`
abbrev pub restored : Option UserState → UserState
restored none = enrolling
restored (some s) = s

abbrev pub recovered : UserStateMachine → UserStateMachine
recovered m = record m { state = restored m.pre_degraded; pre_degraded = none }

recover_at : UserState → UserStateMachine → StateResult
recover_at degraded m =
    moved
      (record {
        previous = m.state;
        current = restored m.pre_degraded;
        reason = "COMPONENT_RECOVERED";
      })
      (recovered m)
recover_at _ m = refused not_degraded

unfoldable pub recover : UserStateMachine → StateResult
unfolding recover_at
recover m = recover_at m.state m

suspend_at : UserState → String → UserStateMachine → Option StateTransition × UserStateMachine
suspend_at suspended reason m = (none, m)
suspend_at _ reason m = move suspended reason (record m { pre_degraded = none })

unfoldable pub suspend : String → UserStateMachine → Option StateTransition × UserStateMachine
unfolding suspend_at
suspend reason m = suspend_at m.state reason m

restart_at : UserState → UserStateMachine → StateResult
restart_at suspended m =
    moved (record { previous = m.state; current = enrolling; reason = "REENROLLED" })
      (record m { state = enrolling })
restart_at _ m = refused not_suspended

unfoldable pub restart_enrollment : UserStateMachine → StateResult
unfolding restart_at
restart_enrollment m = restart_at m.state m
