-- ===== src/Decisions/Challenge/Registry.antt =====
-- backend/app/decisions/challenge.py: the registry of pending challenges, and how it is searched.
use continuous_auth.Common.{
  ℕ, Bool, true, false, not, ◌&&◌, ◌||◌, Option, none, some, List, [], ◌∷◌, String, ltb, leb,
  starts_with, if◌then◌else◌, remove, values,
}
use continuous_auth.Contracts.{DecisionAction}
use continuous_auth.Decisions.Posture.{ResponseOutcome, is_reauth}

abbrev pub scheduled_prefix : String
scheduled_prefix = "scheduled-anchor:"

abbrev pub recovery_prefix : String
recovery_prefix = "recovery:"

unfoldable pub is_scheduled_challenge : String → Bool
is_scheduled_challenge decision_id = starts_with decision_id scheduled_prefix

unfoldable pub is_recovery_challenge : String → Bool
is_recovery_challenge decision_id = starts_with decision_id recovery_prefix

unfoldable pub is_engine_decision : String → Bool
unfolding is_scheduled_challenge is_recovery_challenge
is_engine_decision decision_id =
    not (is_scheduled_challenge decision_id || is_recovery_challenge decision_id)

pub record PendingChallenge : Type 0 where
  pub decision_id : String
  pub user_id : String
  pub session_id : String
  pub segment_id : String
  pub action : DecisionAction
  pub question : String
  pub opened_at : ℕ
  pub expires_at : ℕ
  pub response_token : String

-- the property `PendingChallenge.blocking`
abbrev pub blocking : PendingChallenge → Bool
blocking p = is_reauth p.action

pub record ResponseResult : Type 0 where
  pub outcome : ResponseOutcome
  pub challenge : PendingChallenge
  pub evidence_reference : Option String

abbrev pub Registry : Type 0
Registry = List (String × PendingChallenge)

-- `item.expires_at > now`
abbrev pub is_open : ℕ → PendingChallenge → Bool
is_open now p = ltb now p.expires_at

-- The tuples of a registry's values that pass a test.
abbrev pub select : (PendingChallenge → Bool) → List PendingChallenge → List PendingChallenge
select test [] = []
select test (p ∷ ps) = let rest = select test ps in if test p then p ∷ rest else rest

unfoldable pub pending_at : ℕ → Registry → List PendingChallenge
pending_at now r = select (is_open now) (values r)

abbrev pub is_overdue : ℕ → PendingChallenge → Bool
is_overdue now p = leb p.expires_at now

unfoldable pub remove_all : List PendingChallenge → Registry → Registry
remove_all [] r = r
remove_all (p ∷ ps) r = remove_all ps (remove p.decision_id r)

unfoldable pub expire_overdue : ℕ → Registry → List PendingChallenge × Registry
unfolding remove_all
expire_overdue now r =
    let overdue = select (is_overdue now) (values r) in (overdue, remove_all overdue r)

-- `max(ps, key=...)`, the first of those that no other one exceeds, with the test that a key is less.
abbrev pub max_by :
    (PendingChallenge → PendingChallenge → Bool)
    → List PendingChallenge
    → PendingChallenge
    → PendingChallenge
max_by less [] best = best
max_by less (p ∷ ps) best =
    let exceeded = max_by less ps p in
    let kept = max_by less ps best in if less best p then exceeded else kept

-- the keys `opened_at`
abbrev pub opened_before : PendingChallenge → PendingChallenge → Bool
opened_before p q = ltb p.opened_at q.opened_at

-- the keys `(not is_scheduled_challenge(decision_id), opened_at)`
unfoldable pub outranked : PendingChallenge → PendingChallenge → Bool
unfolding is_scheduled_challenge
outranked p q =
    if is_scheduled_challenge p.decision_id
    then if is_scheduled_challenge q.decision_id then opened_before p q else true
    else if is_scheduled_challenge q.decision_id
    then false
    else opened_before p q

-- `max` of a list that may be empty
unfoldable pub first_max :
    (PendingChallenge → PendingChallenge → Bool) → List PendingChallenge → Option PendingChallenge
first_max less [] = none
first_max less (p ∷ ps) = some (max_by less ps p)

unfoldable pub active_challenge : ℕ → Registry → Option PendingChallenge
unfolding pending_at first_max outranked
active_challenge now r = first_max outranked (pending_at now r)

-- The unexpired challenges that are not scheduled prompts.
unfoldable pub is_enforcement : ℕ → PendingChallenge → Bool
unfolding is_scheduled_challenge
is_enforcement now p = is_open now p && not (is_scheduled_challenge p.decision_id)

-- `open_reauthentication`'s answer, if a challenge is outstanding
unfoldable pub outstanding : ℕ → Registry → Option PendingChallenge
unfolding first_max is_enforcement
outstanding now r = first_max opened_before (select (is_enforcement now) (values r))
