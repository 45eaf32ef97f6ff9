-- ===== src/Risk/State/Laws.antt =====
-- What the calls of backend/app/risk/state.py guarantee, in any order.
use continuous_auth.Common.{
  ℕ, ◌≡◌, ◌≢◌, refl, ◌⊎◌, inl, Bool, true, false, Option, none, some, List, [], ◌∷◌, String, arith,
  leb, ◌&&◌, ◌||◌,
}
use continuous_auth.Contracts.{
  UserState, enrolling, calibrating, active, degraded, suspended, EnrollmentConfig,
}
use continuous_auth.Risk.State.{
  StateTransition, UserStateMachine, StateResult, moved, refused, new_machine, observe_progress,
  degrade, recover, suspend, restart_enrollment,
}

abbrev pub is_monitored : UserState → Bool
is_monitored enrolling = true
is_monitored calibrating = true
is_monitored active = true
is_monitored degraded = false
is_monitored suspended = false

-- A pre-degradation state is kept exactly in DEGRADED, and is one of the three states in which a
-- user is monitored.
abbrev pub fits : UserState → Option UserState → Bool
fits degraded (some s) = is_monitored s
fits degraded none = false
fits _ none = true
fits _ (some _) = false

abbrev pub IsValid : UserStateMachine → Type 0
IsValid m = fits m.state m.pre_degraded ≡ true

pub data Call : Type 0 where
  progress_call : ℕ → ℕ → ℕ → Call
  degrade_call suspend_call : String → Call
  recover_call restart_call : Call

after : StateResult → UserStateMachine → UserStateMachine
after (moved _ m') m = m'
after (refused _) m = m

-- One call; a refused one leaves the machine.
unfoldable pub call : Call → UserStateMachine → UserStateMachine
unfolding after
call (progress_call windows days calibration) m = (observe_progress windows days calibration m).1
call (degrade_call reason) m = (degrade reason m).1
call (suspend_call reason) m = (suspend reason m).1
call recover_call m = after (recover m) m
call restart_call m = after (restart_enrollment m) m

unfoldable pub run : List Call → UserStateMachine → UserStateMachine
run [] m = m
run (c ∷ cs) m = run cs (call c m)

pub new_machine-IsValid :
    (e : EnrollmentConfig) (s : UserState) → s ≢ degraded → IsValid (new_machine e s)
unfolding new_machine
new_machine-IsValid e s h = ground arith

pub degrade-IsValid :
    (reason : String) (m : UserStateMachine) → IsValid m → IsValid (degrade reason m).1
unfolding degrade
degrade-IsValid reason m v = ground arith

pub call-IsValid : (c : Call) (m : UserStateMachine) → IsValid m → IsValid (call c m)
unfolding call observe_progress degrade suspend recover restart_enrollment
call-IsValid (progress_call windows days calibration) m v = ground arith
call-IsValid (degrade_call reason) m v = ground arith
call-IsValid (suspend_call reason) m v = ground arith
call-IsValid recover_call m v = ground arith
call-IsValid restart_call m v = ground arith

run-IsValid_from : (cs : List Call) (m : UserStateMachine) → IsValid m → IsValid (run cs m)
unfolding run
run-IsValid_from [] m v = v
run-IsValid_from (c ∷ cs) m v = run-IsValid_from cs (call c m) (call-IsValid c m v)

-- Whatever is called of a machine that starts in any state but DEGRADED, in any order, the machine
-- keeps a state to go back to exactly while it is DEGRADED, and that state is ENROLLING,
-- CALIBRATING or ACTIVE.
run-IsValid :
    (e : EnrollmentConfig) (s : UserState) (cs : List Call)
    → s ≢ degraded
    → IsValid (run cs (new_machine e s))
run-IsValid e s cs h = run-IsValid_from cs (new_machine e s) (new_machine-IsValid e s h)

-- Progress reports and further failures, which may come while a component is down.
pub data Outage : Type 0 where
  again : String → Outage
  progress : ℕ → ℕ → ℕ → Outage

abbrev pub as_call : Outage → Call
as_call (again reason) = degrade_call reason
as_call (progress windows days calibration) = progress_call windows days calibration

unfoldable pub run_outage : List Outage → UserStateMachine → UserStateMachine
run_outage [] m = m
run_outage (o ∷ os) m = run_outage os (call (as_call o) m)

outage-unchanged : (o : Outage) (m : UserStateMachine) → m.state ≡ degraded → call (as_call o) m ≡ m
unfolding call observe_progress degrade
outage-unchanged (again reason) m h = ground arith
outage-unchanged (progress windows days calibration) m h = ground arith

run_outage-unchanged :
    (os : List Outage) (m : UserStateMachine) → m.state ≡ degraded → run_outage os m ≡ m
unfolding run_outage
run_outage-unchanged [] m h = refl
run_outage-unchanged (o ∷ os) m h = rw (outage-unchanged o m h) (run_outage-unchanged os m h)

recover-degrade_once :
    (reason : String) (m : UserStateMachine)
    → IsValid m
    → m.state ≢ degraded
    → m.state ≢ suspended
    → ((degrade reason m).1.state ≡ degraded)
      × ((t : StateTransition) × (recover (degrade reason m).1 ≡ moved t m))
unfolding degrade recover
recover-degrade_once reason m v h k = (
  ground arith,
  (record { previous = degraded; current = m.state; reason = "COMPONENT_RECOVERED" }, ground arith),
)

-- A failure is undone exactly: a valid machine in ENROLLING, CALIBRATING or ACTIVE that fails, with
-- any further failures and progress reports behind that, recovers to the very machine that failed.
pub recover-degrade :
    (reason : String) (os : List Outage) (m : UserStateMachine)
    → IsValid m
    → m.state ≢ degraded
    → m.state ≢ suspended
    → (t : StateTransition) × (recover (run_outage os (degrade reason m).1) ≡ moved t m)
recover-degrade reason os m v h k =
    let (down, (t, e)) = recover-degrade_once reason m v h k in
    (t, rw (run_outage-unchanged os (degrade reason m).1 down) e)

-- The state of a machine, seen through an outage.
abbrev pub effective : UserStateMachine → UserState
effective m = elim (m.pre_degraded) [ none ↦ m.state | some s ↦ s ]

-- A call that reports enough evidence for calibration, or for activation.
abbrev pub enrolls : EnrollmentConfig → Call → Bool
enrolls e (progress_call windows days _) = leb e.min_windows windows && leb e.min_distinct_days days
enrolls e _ = false

abbrev pub calibrates : EnrollmentConfig → Call → Bool
calibrates e (progress_call _ _ calibration) = leb e.calibration_windows calibration
calibrates e _ = false

abbrev pub any : (Call → Bool) → List Call → Bool
any p [] = false
any p (c ∷ cs) = p c || any p cs

call-config : (c : Call) (m : UserStateMachine) → (call c m).config ≡ m.config
unfolding call observe_progress degrade suspend recover restart_enrollment
call-config (progress_call windows days calibration) m = ground arith
call-config (degrade_call reason) m = ground arith
call-config (suspend_call reason) m = ground arith
call-config recover_call m = ground arith
call-config restart_call m = ground arith

-- What one call can have made of the state seen through an outage.
call-advance :
    (c : Call) (m : UserStateMachine)
    → IsValid m
    → (effective (call c m) ≡ active
        → (effective m ≡ active) ⊎ ((effective m ≡ calibrating) × (calibrates m.config c ≡ true)))
      × (effective (call c m) ≡ calibrating
          → (effective m ≡ calibrating) ⊎ (enrolls m.config c ≡ true))
unfolding call observe_progress degrade suspend recover restart_enrollment
call-advance (progress_call windows days calibration) m v = ground arith
call-advance (degrade_call reason) m v = ground arith
call-advance (suspend_call reason) m v = ground arith
call-advance recover_call m v = ground arith
call-advance restart_call m v = ground arith

run-advance :
    (cs : List Call) (m : UserStateMachine)
    → IsValid m
    → effective (run cs m) ≡ active
    → (effective m ≡ active)
      ⊎ ((any (calibrates m.config) cs ≡ true)
          × ((effective m ≡ calibrating) ⊎ (any (enrolls m.config) cs ≡ true)))
unfolding run
run-advance [] m v h = inl h
run-advance (c ∷ cs) m v h =
    ground
      (arith, call-advance c m v, call-config c m, run-advance cs (call c m) (call-IsValid c m v))

-- A user who started as ENROLLING is ACTIVE, or degraded from ACTIVE, only after a progress report
-- with enough windows on enough days and one with enough calibration windows.
pub active_needs_evidence :
    (e : EnrollmentConfig) (cs : List Call)
    → effective (run cs (new_machine e enrolling)) ≡ active
    → (any (enrolls e) cs ≡ true) × (any (calibrates e) cs ≡ true)
unfolding new_machine
active_needs_evidence e cs h = ground (arith, run-advance cs (new_machine e enrolling) refl h)
