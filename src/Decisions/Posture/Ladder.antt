-- ===== src/Decisions/Posture/Ladder.antt =====
-- The ladder of backend/app/decisions/session.py, where the calls of the methods do not overlap.
use continuous_auth.Common.{
  ℕ, ◌+◌, ◌≡◌, ◌≢◌, refl, ◌⊎◌, inl, inr, Bool, true, false, not, ◌&&◌, ◌||◌, Option, none, some,
  List, [], ◌∷◌, String, arith, max, if◌then◌else◌,
}
use continuous_auth.Contracts.{DecisionAction, soft_challenge, reauth, terminate}
use continuous_auth.Decisions.Posture.{
  EnforcementPosture, normal, reauth_required, locked_out, ResponseOutcome, accepted, rank,
  is_blocking, action_posture, SessionState, blocks_protected_access, observe_decision,
  observe_challenge_outcome, is_reauth, is_accepted,
}

abbrev pub rung : Option EnforcementPosture → ℕ
rung none = 0
rung (some p) = rank p

-- `observe_decision` never lowers the posture: with enforcement on, an applied action raises it to
-- the action's rung or leaves a higher one; every other decision leaves the whole state.
observe_decision_raises :
    (decision_id : String) (action : DecisionAction) (applied : Bool) (now : ℕ) (s : SessionState)
    → let s' = (observe_decision decision_id action applied now s).1 in
      ((s.enabled && applied ≡ true)
        × (rank s'.posture ≡ max (rank s.posture) (rung (action_posture action))))
      ⊎ ((s.enabled && applied ≡ false) × (s' ≡ s))
unfolding observe_decision
observe_decision_raises decision_id action applied now s = ground arith

-- The calls, each with its clock reading.
pub data Call : Type 0 where
  decision_call : String → DecisionAction → Bool → ℕ → Call
  outcome_call : String → DecisionAction → ResponseOutcome → ℕ → Call

unfoldable pub call : Call → SessionState → SessionState
call (decision_call decision_id action applied now) s =
    (observe_decision decision_id action applied now s).1
call (outcome_call decision_id action outcome now) s =
    (observe_challenge_outcome decision_id action outcome now s).1

unfoldable pub run : List Call → SessionState → SessionState
run [] s = s
run (c ∷ cs) s = run cs (call c s)

-- The answer to a REAUTH challenge was correct.
abbrev pub is_reauthentication : Call → Bool
is_reauthentication (decision_call _ _ _ _) = false
is_reauthentication (outcome_call _ action outcome _) = is_reauth action && is_accepted outcome

abbrev pub any_reauthentication : List Call → Bool
any_reauthentication [] = false
any_reauthentication (c ∷ cs) = is_reauthentication c || any_reauthentication cs

pub call-blocking :
    (c : Call) (s : SessionState)
    → is_blocking s.posture ≡ true
    → is_reauthentication c ≡ false
    → is_blocking (call c s).posture ≡ true
unfolding call observe_decision observe_challenge_outcome
call-blocking (decision_call decision_id action applied now) s h k = ground arith
call-blocking (outcome_call decision_id action outcome now) s h k = ground arith

-- Once protected access is blocked it stays blocked until a REAUTH challenge is answered correctly,
-- whatever decisions and other outcomes come meanwhile.
pub run_blocks :
    (cs : List Call) (s : SessionState)
    → blocks_protected_access s ≡ true
    → any_reauthentication cs ≡ false
    → blocks_protected_access (run cs s) ≡ true
unfolding run blocks_protected_access
run_blocks [] s h k = h
run_blocks (c ∷ cs) s h k =
    run_blocks cs (call c s) (call-blocking c s h (ground arith)) (ground arith)

-- What can lock a session out: an applied TERMINATE, or a REAUTH challenge that was not passed.
abbrev pub locks_out : Call → Bool
locks_out (decision_call _ terminate applied _) = applied
locks_out (decision_call _ _ _ _) = false
locks_out (outcome_call _ action outcome _) = is_reauth action && not (is_accepted outcome)

-- A call that leaves a session locked out found it so, or the session is enabled and the call is an
-- applied TERMINATE or a REAUTH challenge that was not passed.
call_lockout :
    (c : Call) (s : SessionState)
    → (call c s).posture ≡ locked_out
    → (s.posture ≡ locked_out) ⊎ ((locks_out c ≡ true) × (s.enabled ≡ true))
unfolding call observe_decision observe_challenge_outcome
call_lockout (decision_call decision_id soft_challenge applied now) s h = ground arith
call_lockout (decision_call decision_id action applied now) s h = ground arith
call_lockout (outcome_call decision_id action outcome now) s h = ground arith

-- A REAUTH answer settles an enabled session in any posture but NORMAL: a correct one brings it
-- back to NORMAL, and clears the decision and the count of failed responses; any other locks it out
-- and counts a failed response.
reauth_outcome :
    (decision_id : String) (outcome : ResponseOutcome) (now : ℕ) (s : SessionState)
    → s.enabled ≡ true
    → s.posture ≢ normal
    → let s' = (observe_challenge_outcome decision_id reauth outcome now s).1 in
      ((outcome ≡ accepted)
        × (s'.posture ≡ normal)
        × (s'.failed_responses ≡ 0)
        × (s'.decision_id ≡ none))
      ⊎ ((outcome ≢ accepted)
          × (s'.posture ≡ locked_out)
          × (s'.failed_responses ≡ s.failed_responses + 1))
unfolding observe_challenge_outcome
reauth_outcome decision_id accepted now s h k = inl (refl, ground arith, ground arith, ground arith)
reauth_outcome decision_id outcome now s h k = inr ((λ e. cc), ground arith, ground arith)

-- In an enabled session a soft answer counts only below REAUTH_REQUIRED: there a correct one brings
-- it to NORMAL and any other to REAUTH_REQUIRED; from REAUTH_REQUIRED on neither moves the posture.
soft_outcome :
    (decision_id : String) (outcome : ResponseOutcome) (now : ℕ) (s : SessionState)
    → s.enabled ≡ true
    → let s' = (observe_challenge_outcome decision_id soft_challenge outcome now s).1 in
      s'.posture ≡ (
        if is_blocking s.posture
        then s.posture
        else if is_accepted outcome
        then normal
        else reauth_required)
unfolding observe_challenge_outcome
soft_outcome decision_id outcome now s h = ground arith

call-disabled : (c : Call) (s : SessionState) → s.enabled ≡ false → call c s ≡ s
unfolding call observe_decision observe_challenge_outcome
call-disabled (decision_call decision_id action applied now) s h = ground arith
call-disabled (outcome_call decision_id action outcome now) s h = ground arith

-- With enforcement off no call changes anything.
run_disabled : (cs : List Call) (s : SessionState) → s.enabled ≡ false → run cs s ≡ s
unfolding run
run_disabled [] s h = refl
run_disabled (c ∷ cs) s h = rw (call-disabled c s h) (run_disabled cs s h)
