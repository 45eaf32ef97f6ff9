-- ===== src/Ingestion/Ordering/Traces.antt =====
-- What backend/app/ingestion/ordering.py guarantees over a whole stream of observations.
use continuous_auth.Common.{
  ℕ, suc, ◌≢◌, ◌+◌, ◌≤◌, ◌≡◌, refl, inl, inr, true, false, Option, none, some, List, [], ◌∷◌, arith,
  max, Bool-cases, Option-cases, if◌then◌else◌,
}
use continuous_auth.Ingestion.Ordering.{SequenceTracker, observe, is_accepted, remember}
use continuous_auth.Ingestion.Ordering.Invariant.{IsRising}

abbrev pub Observation : Type 0
Observation = ℕ × Option ℕ

-- The tracker after a list of observations.
unfoldable pub run : SequenceTracker → List Observation → SequenceTracker
run t [] = t
run t ((x, capture) ∷ os) = run (observe x capture t).0 os

-- The sequence numbers that were accepted.
unfoldable pub accepted_of : SequenceTracker → List Observation → List ℕ
accepted_of t [] = []
accepted_of t ((x, capture) ∷ os) =
    let rest = accepted_of (observe x capture t).0 os in
    if is_accepted (observe x capture t).1.status then x ∷ rest else rest

abbrev pub bound_of : Option ℕ → ℕ
bound_of none = 0
bound_of (some e) = e

-- One observation: the expectation never falls, ends above the number seen, and an accepted number
-- was at least the expected one.
pub observe-bound :
    (x : ℕ) (capture : Option ℕ) (t : SequenceTracker)
    → (bound_of (observe x capture t).0.expected ≡ max (bound_of t.expected) (x + 1))
      × ((observe x capture t).0.expected ≢ none)
      × (is_accepted (observe x capture t).1.status ≡ true → bound_of t.expected ≤ x)
unfolding observe remember
observe-bound x capture t = elim (Option-cases t.expected) [
  | inl e ↦ ground arith
  | inr (expected, e) ↦ ground arith
]

IsRising-lower : (a b : ℕ) (xs : List ℕ) → IsRising b xs → a ≤ b → IsRising a xs
IsRising-lower a b [] h k = tt
IsRising-lower a b (x ∷ xs) h k = (omega arith, h.1)

accepted_of-IsRising_from :
    (t : SequenceTracker) (os : List Observation)
    → IsRising (bound_of t.expected) (accepted_of t os)
unfolding accepted_of
accepted_of-IsRising_from t [] = tt
accepted_of-IsRising_from t ((x, capture) ∷ os) =
    let (b, _, a) = observe-bound x capture t in
    let t' = (observe x capture t).0 in
    let rest = accepted_of-IsRising_from t' os in
    elim (Bool-cases (is_accepted (observe x capture t).1.status)) [
      | inl yes_accepted ↦ rw yes_accepted (
        a yes_accepted,
        IsRising-lower (suc x) (bound_of t'.expected) (accepted_of t' os) rest (omega arith),
      )
      | inr rejected ↦ rw rejected (
          IsRising-lower (bound_of t.expected) (bound_of t'.expected) (accepted_of t' os) rest
            (omega arith))
    ]

-- Whatever arrives, in any order and with any capture times, the accepted sequence numbers are
-- strictly increasing: no number is accepted twice or behind a later one.
pub accepted_of-IsRising :
    (t : SequenceTracker) (os : List Observation) → IsRising 0 (accepted_of t os)
accepted_of-IsRising t os =
    IsRising-lower 0 (bound_of t.expected) (accepted_of t os) (accepted_of-IsRising_from t os)
      (omega arith)

run-bound :
    (t : SequenceTracker) (os : List Observation)
    → bound_of t.expected ≤ bound_of (run t os).expected
unfolding run
run-bound t [] = omega arith
run-bound t ((x, capture) ∷ os) =
    omega (arith, run-bound (observe x capture t).0 os, (observe-bound x capture t).0)

unfoldable pub highest : ℕ → List Observation → ℕ
highest n [] = n
highest n ((x, _) ∷ os) = highest (max n (x + 1)) os

-- The expected number depends on the numbers seen alone: it is one more than the highest of them,
-- also where some were rejected as late.
run-expected :
    (t : SequenceTracker) (os : List Observation)
    → bound_of (run t os).expected ≡ highest (bound_of t.expected) os
unfolding run highest
run-expected t [] = refl
run-expected t ((x, capture) ∷ os) =
    rw (← (observe-bound x capture t).0) (run-expected (observe x capture t).0 os)

-- A sequence number that was observed once is never accepted again, whatever comes between.
replay_rejected :
    (x : ℕ) (capture again : Option ℕ) (os : List Observation) (t : SequenceTracker)
    → let t' = run (observe x capture t).0 os in is_accepted (observe x again t').1.status ≡ false
replay_rejected x capture again os t =
    let t' = run (observe x capture t).0 os in
    elim (Bool-cases (is_accepted (observe x again t').1.status)) [
      | inl taken ↦ absurd (
          omega (
            arith,
            (observe-bound x again t').2 taken,
            run-bound (observe x capture t).0 os,
            (observe-bound x capture t).0,
          ))
      | inr refused ↦ refused
    ]
