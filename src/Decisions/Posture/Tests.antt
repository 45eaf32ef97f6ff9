-- ===== src/Decisions/Posture/Tests.antt =====
-- Runs of the session state of backend/app/decisions/session.py.
use continuous_auth.Common.{◌≡◌, refl, true, false, some, List, [], ◌∷◌}
use continuous_auth.Contracts.{soft_challenge, reauth, terminate}
use continuous_auth.Decisions.Posture.{
  SessionState, normal, soft_challenged, reauth_required, locked_out, accepted, rejected, new_state,
  observe_decision, observe_challenge_outcome, blocks_protected_access, plan_outcome, plan_decision,
  carry_out,
}
use continuous_auth.Decisions.Posture.Ladder.{Call, decision_call, outcome_call, run, run_blocks}
use continuous_auth.Decisions.Posture.Interleaving.{
  soft_answer_undoes_lockout, decision_undoes_lockout,
}

abbrev challenged : SessionState
challenged = record (new_state true) {
  posture = soft_challenged;
  decision_id = some "d";
  since = some 4;
  failed_responses = 1;
}

abbrev blocked : SessionState
blocked = record (new_state true) { posture = reauth_required; decision_id = some "d" }

abbrev disabled : SessionState
disabled = record (new_state false) { posture = reauth_required }

abbrev calls : List Call
calls =
    outcome_call "d" soft_challenge accepted 6
    ∷ decision_call "e" terminate true 7
    ∷ outcome_call "d" soft_challenge rejected 8
    ∷ []

run_blocks_example : blocks_protected_access (run calls blocked) ≡ true
unfolding blocks_protected_access
run_blocks_example = run_blocks calls blocked refl refl

soft_answer_undoes_lockout_example :
    let planned = plan_outcome "d" soft_challenge accepted challenged in
    let locked = (observe_decision "e" terminate true 5 challenged).1 in
    let answered = (observe_challenge_outcome "d" soft_challenge accepted 6 challenged).1 in
    (locked.posture ≡ locked_out)
    × ((carry_out 6 planned locked).1.posture ≡ normal)
    × ((observe_challenge_outcome "d" soft_challenge accepted 6 locked).1.posture ≡ locked_out)
    × ((observe_decision "e" terminate true 5 answered).1.posture ≡ locked_out)
unfolding new_state
soft_answer_undoes_lockout_example = soft_answer_undoes_lockout "d" "e" 5 6 challenged refl refl

decision_undoes_lockout_example :
    let planned = plan_decision "e" reauth true challenged in
    let locked = (observe_challenge_outcome "d" reauth rejected 5 challenged).1 in
    (locked.posture ≡ locked_out)
    × ((carry_out 6 planned locked).1.posture ≡ reauth_required)
    × ((observe_decision "e" reauth true 6 locked).1.posture ≡ locked_out)
unfolding new_state
decision_undoes_lockout_example = decision_undoes_lockout "d" "e" 5 6 challenged refl refl
