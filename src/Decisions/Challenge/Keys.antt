-- ===== src/Decisions/Challenge/Keys.antt =====
-- The registry of backend/app/decisions/challenge.py as a function from ids to challenges.
use continuous_auth.Common.{
  ℕ, ◌≡◌, refl, Bool, Option, none, some, List, [], ◌∷◌, String, same_text, eq_iff, if◌then◌else◌,
  lookup, store, remove, values, lookup-store, lookup-remove, arith,
}
use continuous_auth.Decisions.Challenge.Registry.{
  PendingChallenge, Registry, select, remove_all, is_open, is_overdue, expire_overdue,
}

-- Each key is the id of its challenge, and no key comes twice.
abbrev pub IsKeyed : Registry → Type 0
IsKeyed [] = Unit
IsKeyed ((k, p) ∷ r) = (p.decision_id ≡ k) × (lookup k r ≡ none) × IsKeyed r

-- The challenge of an id, if it passes a test.
abbrev pub keep : (PendingChallenge → Bool) → Option PendingChallenge → Option PendingChallenge
keep test none = none
keep test (some p) = if test p then some p else none

-- The first challenge of a list that has an id.
abbrev pub find_id : String → List PendingChallenge → Option PendingChallenge
find_id j [] = none
find_id j (p ∷ ps) = let rest = find_id j ps in if same_text p.decision_id j then some p else rest

abbrev unless : Option PendingChallenge → Option PendingChallenge → Option PendingChallenge
unless none o = o
unless (some p) o = none

pub store-IsKeyed :
    (k : String) (p : PendingChallenge) (r : Registry)
    → p.decision_id ≡ k
    → IsKeyed r
    → IsKeyed (store k p r)
store-IsKeyed k p [] e v = (e, refl, tt)
store-IsKeyed k p ((i, q) ∷ r) e v =
    ground (arith, eq_iff i k, eq_iff k i, lookup-store i k p r, store-IsKeyed k p r e v.2)

pub remove-IsKeyed : (k : String) (r : Registry) → IsKeyed r → IsKeyed (remove k r)
remove-IsKeyed k [] v = tt
remove-IsKeyed k ((i, q) ∷ r) v = ground (arith, lookup-remove i k r, remove-IsKeyed k r v.2)

pub remove_all-IsKeyed :
    (ps : List PendingChallenge) (r : Registry) → IsKeyed r → IsKeyed (remove_all ps r)
unfolding remove_all
remove_all-IsKeyed [] r v = v
remove_all-IsKeyed (p ∷ ps) r v =
    remove_all-IsKeyed ps (remove p.decision_id r) (remove-IsKeyed p.decision_id r v)

pub find_id-select :
    (test : PendingChallenge → Bool) (j : String) (r : Registry)
    → IsKeyed r
    → find_id j (select test (values r)) ≡ keep test (lookup j r)
find_id-select test j [] v = refl
find_id-select test j ((k, p) ∷ r) v = ground (arith, eq_iff k j, find_id-select test j r v.2)

pub lookup-remove_all :
    (j : String) (ps : List PendingChallenge) (r : Registry)
    → lookup j (remove_all ps r) ≡ unless (find_id j ps) (lookup j r)
unfolding remove_all
lookup-remove_all j [] r = refl
lookup-remove_all j (p ∷ ps) r =
    ground (arith, lookup-remove_all j ps (remove p.decision_id r), lookup-remove j p.decision_id r)

-- Expiry keeps exactly the challenges whose deadline is still to come.
pub lookup-expire_overdue :
    (now : ℕ) (j : String) (r : Registry)
    → IsKeyed r
    → lookup j (expire_overdue now r).1 ≡ keep (is_open now) (lookup j r)
unfolding expire_overdue
lookup-expire_overdue now j r v = ground (
  arith,
  lookup-remove_all j (select (is_overdue now) (values r)) r,
  find_id-select (is_overdue now) j r v,
)

pub expire_overdue-IsKeyed : (now : ℕ) (r : Registry) → IsKeyed r → IsKeyed (expire_overdue now r).1
unfolding expire_overdue
expire_overdue-IsKeyed now r v = remove_all-IsKeyed (select (is_overdue now) (values r)) r v

-- The tuple that expiry returns has exactly the challenges whose deadline has come.
pub find_id-overdue :
    (now : ℕ) (j : String) (r : Registry)
    → IsKeyed r
    → find_id j (expire_overdue now r).0 ≡ keep (is_overdue now) (lookup j r)
unfolding expire_overdue
find_id-overdue now j r v = find_id-select (is_overdue now) j r v
