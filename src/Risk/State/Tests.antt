-- ===== src/Risk/State/Tests.antt =====
-- Runs of the state machine of backend/app/risk/state.py.
use continuous_auth.Common.{◌≡◌, refl, none, true, List, [], ◌∷◌}
use continuous_auth.Contracts.{active, EnrollmentConfig}
use continuous_auth.Risk.State.{observe_progress, UserStateMachine, new_machine, degrade, recover}
use continuous_auth.Risk.State.Laws.{
  Call, progress_call, degrade_call, recover_call, call, run, any, enrolls, calibrates,
  active_needs_evidence,
}

abbrev enrollment : EnrollmentConfig
enrollment = record { min_windows = 20; min_distinct_days = 3; calibration_windows = 5 }

abbrev calls : List Call
calls =
    progress_call 20 2 0
    ∷ progress_call 20 3 0
    ∷ degrade_call "LOST"
    ∷ recover_call
    ∷ progress_call 25 3 5
    ∷ degrade_call "LOST"
    ∷ []

abbrev working : UserStateMachine
working = record { config = enrollment; state = active; pre_degraded = none }

active_needs_evidence_example :
    (any (enrolls enrollment) calls ≡ true) × (any (calibrates enrollment) calls ≡ true)
unfolding run call new_machine degrade observe_progress recover
active_needs_evidence_example = active_needs_evidence enrollment calls refl
