-- ===== src/Ingestion/Ordering/Invariant.antt =====
-- The invariant of `SequenceTracker` (backend/app/ingestion/ordering.py).
use continuous_auth.Common.{
  ℕ, suc, subst, ◌+◌, ◌≤◌, ◌<◌, ◌≡◌, refl, inl, inr, ◌⊎◌, false, Option, none, some, List, [], ◌∷◌,
  ◌++◌, arith, ltb, ◌==◌, length, length-append, Bool-cases, Option-cases, if◌then◌else◌,
}
use continuous_auth.Ingestion.Ordering.{
  SequenceTracker, contains, remember, observe, reset, new_tracker, goes_back, forget_oldest,
}

-- Strictly increasing, from a lower bound on.
abbrev pub IsRising : ℕ → List ℕ → Type 0
IsRising low [] = Unit
IsRising low (x ∷ xs) = (low ≤ x) × IsRising (suc x) xs

abbrev pub AllBelow : ℕ → List ℕ → Type 0
AllBelow high [] = Unit
AllBelow high (x ∷ xs) = (x < high) × AllBelow high xs

pub IsRising-append :
    (low x : ℕ) (xs : List ℕ)
    → IsRising low xs
    → AllBelow x xs
    → low ≤ x
    → IsRising low (xs ++ x ∷ [])
IsRising-append low x [] r b h = (h, tt)
IsRising-append low x (y ∷ ys) r b h = (r.0, IsRising-append (suc y) x ys r.1 b.1 b.0)

pub AllBelow-append :
    (high x : ℕ) (xs : List ℕ) → AllBelow high xs → x < high → AllBelow high (xs ++ x ∷ [])
AllBelow-append high x [] b h = (h, tt)
AllBelow-append high x (y ∷ ys) b h = (b.0, AllBelow-append high x ys b.1 h)

pub AllBelow-le : (a b : ℕ) (xs : List ℕ) → AllBelow a xs → a ≤ b → AllBelow b xs
AllBelow-le a b [] h k = tt
AllBelow-le a b (x ∷ xs) h k = (omega arith, AllBelow-le a b xs h.1 k)

pub IsRising-le : (a b : ℕ) (xs : List ℕ) → IsRising b xs → a ≤ b → IsRising a xs
IsRising-le a b [] h k = tt
IsRising-le a b (x ∷ xs) h k = (omega arith, h.1)

contains-above : (x : ℕ) (xs : List ℕ) → AllBelow x xs → contains x xs ≡ false
contains-above x [] h = refl
contains-above x (y ∷ ys) h = ground (arith, contains-above x ys h.1)

-- What is known of the next number: the deque and the set agree, hold distinct numbers in rising
-- order below the expected one, and never more than the capacity.
abbrev Remembers : Option ℕ → List ℕ → Type 0
Remembers none recent = recent ≡ []
Remembers (some expected) recent = AllBelow expected recent

pub record IsValid (t : SequenceTracker) : Type 0 where
  pub positive : 0 < t.history_capacity
  pub same : t.recent_set ≡ t.recent
  pub bounded : length t.recent ≤ t.history_capacity
  pub rising : IsRising 0 t.recent
  pub below : Remembers t.expected t.recent

pub new_tracker-IsValid : (n : ℕ) (t : SequenceTracker) → new_tracker n ≡ some t → IsValid t
unfolding new_tracker
new_tracker-IsValid n t h = ground arith

pub reset-IsValid : (t : SequenceTracker) → IsValid t → IsValid (reset t)
unfolding reset
reset-IsValid t v = ground arith

abbrev tail : List ℕ → List ℕ
tail [] = []
tail (x ∷ xs) = xs

-- What `remember` keeps of the deque.
abbrev kept : ℕ → List ℕ → List ℕ
kept capacity xs = if length xs == capacity then tail xs else xs

forget_oldest-same : (xs : List ℕ) → forget_oldest xs xs ≡ (tail xs, tail xs)
unfolding forget_oldest
forget_oldest-same [] = refl
forget_oldest-same (x ∷ xs) = ground arith

kept_facts :
    (capacity x : ℕ) (xs : List ℕ)
    → 0 < capacity
    → length xs ≤ capacity
    → IsRising 0 xs
    → AllBelow x xs
    → (length (kept capacity xs) < capacity)
      × IsRising 0 (kept capacity xs)
      × AllBelow x (kept capacity xs)
kept_facts capacity x [] p l r b = ground arith
kept_facts capacity x (y ∷ ys) p l r b = ground (arith, IsRising-le 0 (suc y) ys r.1)

remember_lem :
    (x : ℕ) (t : SequenceTracker)
    → t.recent_set ≡ t.recent
    → AllBelow x (kept t.history_capacity t.recent)
    → remember x t ≡ record t {
      recent = kept t.history_capacity t.recent ++ x ∷ [];
      recent_set = kept t.history_capacity t.recent ++ x ∷ [];
    }
unfolding remember
remember_lem x t same b =
    ground
      (arith, forget_oldest-same t.recent, contains-above x (kept t.history_capacity t.recent) b)

-- Remembering a number above all the others keeps the invariant.
pub remember-IsValid :
    (x : ℕ) (t : SequenceTracker)
    → IsValid t
    → AllBelow x t.recent
    → IsValid (remember x (record t { expected = some (x + 1) }))
remember-IsValid x t v b =
    let kx = kept t.history_capacity t.recent in
    let (l, r, b') = kept_facts t.history_capacity x t.recent v.positive v.bounded v.rising b in
    rw (remember_lem x (record t { expected = some (x + 1) }) v.same b') (record {
      positive = v.positive;
      same = refl;
      bounded = omega (arith, length-append kx (x ∷ []));
      rising = IsRising-append 0 x kx r b' (omega arith);
      below =
          AllBelow-append (x + 1) x kx (AllBelow-le x (x + 1) kx b' (omega arith)) (omega arith);
    })

below_next :
    (expected x : ℕ) (t : SequenceTracker)
    → IsValid t
    → t.expected ≡ some expected
    → expected ≤ x
    → AllBelow x t.recent
below_next expected x t v e h =
    AllBelow-le expected x t.recent (subst (λ (o : Option ℕ). Remembers o t.recent) e v.below) h

-- A number below the expected one changes nothing; any other is remembered and moves the
-- expectation behind it.
observe-cases :
    (x : ℕ) (capture : Option ℕ) (t : SequenceTracker)
    → ((observe x capture t).0 ≡ t)
      ⊎ ((last : Option ℕ) × ((observe x capture t).0
            ≡ record (remember x (record t { expected = some (x + 1) })) {
              last_capture_us = last;
            }))
unfolding observe remember
observe-cases x capture t = elim (Option-cases t.expected) [
  | inl e ↦ inr (capture, ground arith)
  | inr (expected, e) ↦ elim (Bool-cases (ltb x expected)) [
    | inl late ↦ inl (ground arith)
    | inr next ↦ elim (Bool-cases (goes_back capture t.last_capture_us)) [
      | inl back ↦ inr (t.last_capture_us, ground arith)
      | inr on ↦ inr (capture, ground arith)
    ]
  ]
]

IsValid-capture :
    (last : Option ℕ) (t : SequenceTracker)
    → IsValid t
    → IsValid (record t { last_capture_us = last })
IsValid-capture last t v = ground arith

observe-advances :
    (x : ℕ) (capture : Option ℕ) (t : SequenceTracker)
    → IsValid t
    → ((observe x capture t).0 ≡ t) ⊎ AllBelow x t.recent
unfolding observe
observe-advances x capture t v = elim (Option-cases t.expected) [
  | inl e ↦ inr (rw (subst (λ (o : Option ℕ). Remembers o t.recent) e v.below) tt)
  | inr (expected, e) ↦ elim (Bool-cases (ltb x expected)) [
    | inl late ↦ inl (ground arith)
    | inr next ↦ inr (below_next expected x t v e (ground arith))
  ]
]

-- `observe` keeps the invariant on every branch: the deque and the set agree, hold distinct numbers
-- in rising order below the expected one, and never more than the capacity.
observe-IsValid :
    (x : ℕ) (capture : Option ℕ) (t : SequenceTracker) → IsValid t → IsValid (observe x capture t).0
observe-IsValid x capture t v = elim (observe-advances x capture t v) [
  | inl same ↦ rw same v
  | inr below ↦ elim (observe-cases x capture t) [
    | inl same ↦ rw same v
    | inr (last, e) ↦ rw e (
        IsValid-capture last (remember x (record t { expected = some (x + 1) }))
          (remember-IsValid x t v below))
  ]
]
