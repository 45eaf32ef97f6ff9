-- ===== src/Decisions/Posture/Interleaving.antt =====
-- What backend/app/decisions/session.py allows where two threads overlap: the lock is released
-- between the section that compares the posture and the call of `_move`.
use continuous_auth.Common.{ℕ, ◌≡◌, true, String, arith}
use continuous_auth.Contracts.{soft_challenge, reauth, terminate}
use continuous_auth.Decisions.Posture.{
  normal, soft_challenged, reauth_required, locked_out, accepted, rejected, SessionState, carry_out,
  plan_decision, observe_decision, plan_outcome, observe_challenge_outcome, move,
}

-- The answer thread compares the posture for a correct soft answer, the ingestion thread applies a
-- whole TERMINATE, and the answer thread then moves: in any enabled session in SOFT_CHALLENGE this
-- undoes the lockout and ends in NORMAL. In both orders in which the two calls do not overlap, the
-- session ends locked out.
pub soft_answer_undoes_lockout :
    (answer_id decision_id : String) (t u : ℕ) (s : SessionState)
    → s.enabled ≡ true
    → s.posture ≡ soft_challenged
    → let planned = plan_outcome answer_id soft_challenge accepted s in
      let locked = (observe_decision decision_id terminate true t s).1 in
      let answered = (observe_challenge_outcome answer_id soft_challenge accepted u s).1 in
      (locked.posture ≡ locked_out)
      × ((carry_out u planned locked).1.posture ≡ normal)
      × ((observe_challenge_outcome answer_id soft_challenge accepted u locked).1.posture
          ≡ locked_out)
      × ((observe_decision decision_id terminate true t answered).1.posture ≡ locked_out)
unfolding observe_decision observe_challenge_outcome plan_outcome carry_out move
soft_answer_undoes_lockout answer_id decision_id t u s h k =
    (ground arith, ground arith, ground arith, ground arith)

-- In an enabled session in SOFT_CHALLENGE, an applied REAUTH decision that compares the posture
-- before a reauthentication fails, and moves after it, lowers the lockout to REAUTH_REQUIRED; made
-- after the failure as a whole, it leaves the lockout.
pub decision_undoes_lockout :
    (answer_id decision_id : String) (t u : ℕ) (s : SessionState)
    → s.enabled ≡ true
    → s.posture ≡ soft_challenged
    → let planned = plan_decision decision_id reauth true s in
      let locked = (observe_challenge_outcome answer_id reauth rejected t s).1 in
      (locked.posture ≡ locked_out)
      × ((carry_out u planned locked).1.posture ≡ reauth_required)
      × ((observe_decision decision_id reauth true u locked).1.posture ≡ locked_out)
unfolding observe_decision observe_challenge_outcome plan_decision carry_out move
decision_undoes_lockout answer_id decision_id t u s h k = (ground arith, ground arith, ground arith)
