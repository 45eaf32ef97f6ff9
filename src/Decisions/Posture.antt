-- ===== src/Decisions/Posture.antt =====
-- backend/app/decisions/session.py: the enforcement posture of the session. A method is a row of
-- critical sections under the lock; they are functions of their own here, and the method runs them
-- in a row. Clock readings are arguments; the calls of the transition sink are recorded in `sent`.
pub mod Ladder
pub mod Interleaving
mod Tests
use continuous_auth.Common.{
  ℕ, ◌+◌, Bool, true, false, not, ◌||◌, ◌&&◌, Option, none, some, List, [], ◌∷◌, ◌++◌, String, ltb,
  leb, if◌then◌else◌,
}
use continuous_auth.Contracts.{
  DecisionAction, continue, soft_challenge, reauth, terminate, action_none,
}

pub data EnforcementPosture : Type 0 where
  normal soft_challenged reauth_required locked_out : EnforcementPosture

-- backend/app/decisions/challenge.py
pub data ResponseOutcome : Type 0 where
  accepted rejected expired : ResponseOutcome

abbrev pub rank : EnforcementPosture → ℕ
rank normal = 0
rank soft_challenged = 1
rank reauth_required = 2
rank locked_out = 3

-- membership in `BLOCKING_POSTURES`
abbrev pub is_blocking : EnforcementPosture → Bool
is_blocking normal = false
is_blocking soft_challenged = false
is_blocking reauth_required = true
is_blocking locked_out = true

abbrev pub is_normal : EnforcementPosture → Bool
is_normal normal = true
is_normal soft_challenged = false
is_normal reauth_required = false
is_normal locked_out = false

abbrev pub is_locked_out : EnforcementPosture → Bool
is_locked_out locked_out = true
is_locked_out normal = false
is_locked_out soft_challenged = false
is_locked_out reauth_required = false

-- `previous is target`
abbrev pub same_posture : EnforcementPosture → EnforcementPosture → Bool
same_posture normal normal = true
same_posture soft_challenged soft_challenged = true
same_posture reauth_required reauth_required = true
same_posture locked_out locked_out = true
same_posture _ _ = false

-- `_ACTION_POSTURE.get`
abbrev pub action_posture : DecisionAction → Option EnforcementPosture
action_posture soft_challenge = some soft_challenged
action_posture reauth = some reauth_required
action_posture terminate = some locked_out
action_posture continue = none
action_posture action_none = none

-- The codes of the transitions.
pub data TransitionCode : Type 0 where
  -- `ENFORCEMENT_` and the posture
  enforcement : EnforcementPosture → TransitionCode
  reauth_accepted challenge_accepted : TransitionCode
  -- `ENFORCEMENT_CHALLENGE_` and the outcome
  challenge_outcome : ResponseOutcome → TransitionCode

pub record PostureTransition : Type 0 where
  pub previous : EnforcementPosture
  pub current : EnforcementPosture
  pub code : TransitionCode
  pub decision_id : String
  pub occurred_at : ℕ

pub record SessionState : Type 0 where
  pub enabled : Bool
  pub posture : EnforcementPosture
  pub decision_id : Option String
  pub since : Option ℕ
  pub failed_responses : ℕ
  pub sent : List PostureTransition

unfoldable pub new_state : Bool → SessionState
new_state enabled = record {
  enabled = enabled;
  posture = normal;
  decision_id = none;
  since = none;
  failed_responses = 0;
  sent = [];
}

unfoldable pub blocks_protected_access : SessionState → Bool
blocks_protected_access s = is_blocking s.posture

-- `snapshot`; the time is not yet printed as a text.
pub record Snapshot : Type 0 where
  pub enforcement_enabled : Bool
  pub posture : EnforcementPosture
  pub blocks : Bool
  pub locked : Bool
  pub triggering_decision_id : Option String
  pub since : Option ℕ
  pub failed_responses : ℕ

unfoldable pub snapshot : SessionState → Snapshot
snapshot s = record {
  enforcement_enabled = s.enabled;
  posture = s.posture;
  blocks = is_blocking s.posture;
  locked = is_locked_out s.posture;
  triggering_decision_id = s.decision_id;
  since = s.since;
  failed_responses = s.failed_responses;
}

-- The arguments of a call of `_move` that a method has decided on.
pub record Move : Type 0 where
  pub target : EnforcementPosture
  pub code : TransitionCode
  pub decision_id : String

-- `_move`, at a clock reading.
unfoldable pub move : ℕ → Move → SessionState → Option PostureTransition × SessionState
move now m s =
    let t : PostureTransition = record {
      previous = s.posture;
      current = m.target;
      code = m.code;
      decision_id = m.decision_id;
      occurred_at = now;
    } in
    if same_posture s.posture m.target then (none, s) else (
      some t,
      record s {
        posture = m.target;
        decision_id = if is_normal m.target then none else some m.decision_id;
        since = if is_normal m.target then none else some now;
        failed_responses = if is_normal m.target then 0 else s.failed_responses;
        sent = s.sent ++ t ∷ [];
      },
    )

-- The end of a method: the call of `_move`, if there is one.
unfoldable pub carry_out : ℕ → Option Move → SessionState → Option PostureTransition × SessionState
carry_out now none s = (none, s)
carry_out now (some m) s = move now m s

raise_to : Option EnforcementPosture → String → SessionState → Option Move
raise_to none decision_id s = none
raise_to (some target) decision_id s =
    if leb (rank target) (rank s.posture)
    then none
    else some (record { target = target; code = enforcement target; decision_id = decision_id })

-- `observe_decision` up to its call of `_move`.
unfoldable pub plan_decision : String → DecisionAction → Bool → SessionState → Option Move
unfolding raise_to
plan_decision decision_id action enforcement_applied s =
    if not s.enabled || not enforcement_applied
    then none
    else raise_to (action_posture action) decision_id s

unfoldable pub observe_decision :
    String → DecisionAction → Bool → ℕ → SessionState → Option PostureTransition × SessionState
unfolding plan_decision carry_out move
observe_decision decision_id action enforcement_applied now s =
    carry_out now (plan_decision decision_id action enforcement_applied s) s

-- The actions whose challenges count: the ladder without its last rung.
abbrev pub is_answerable : DecisionAction → Bool
is_answerable soft_challenge = true
is_answerable reauth = true
is_answerable terminate = false
is_answerable continue = false
is_answerable action_none = false

abbrev pub is_reauth : DecisionAction → Bool
is_reauth reauth = true
is_reauth soft_challenge = false
is_reauth terminate = false
is_reauth continue = false
is_reauth action_none = false

abbrev pub is_accepted : ResponseOutcome → Bool
is_accepted accepted = true
is_accepted rejected = false
is_accepted expired = false

-- The section that counts a failed response.
unfoldable pub count_failure : DecisionAction → ResponseOutcome → SessionState → SessionState
count_failure action outcome s =
    if s.enabled && is_answerable action && not (is_accepted outcome)
    then record s { failed_responses = s.failed_responses + 1 }
    else s

-- What `observe_challenge_outcome` decides on: for a soft challenge after the section that compares
-- the posture.
unfoldable pub plan_outcome : String → DecisionAction → ResponseOutcome → SessionState → Option Move
plan_outcome decision_id action outcome s =
    if not s.enabled || not (is_answerable action)
    then none
    else if is_accepted outcome
    then if is_reauth action
      then some (record { target = normal; code = reauth_accepted; decision_id = decision_id })
      else if ltb (rank soft_challenged) (rank s.posture)
      then none
      else some (record { target = normal; code = challenge_accepted; decision_id = decision_id })
    else if is_reauth action
    then some (record {
      target = locked_out;
      code = challenge_outcome outcome;
      decision_id = decision_id;
    })
    else if ltb (rank soft_challenged) (rank s.posture)
    then none
    else some (record {
      target = reauth_required;
      code = challenge_outcome outcome;
      decision_id = decision_id;
    })

unfoldable pub observe_challenge_outcome :
    String
    → DecisionAction
    → ResponseOutcome
    → ℕ
    → SessionState
    → Option PostureTransition × SessionState
unfolding count_failure plan_outcome carry_out move
observe_challenge_outcome decision_id action outcome now s =
    let s' = count_failure action outcome s in
    carry_out now (plan_outcome decision_id action outcome s') s'
