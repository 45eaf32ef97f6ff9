-- ===== src/Decisions/Challenge/Selection.antt =====
-- backend/app/decisions/challenge.py: which of several pending challenges is shown or returned.
use continuous_auth.Common.{
  ◌≡◌, refl, subst, inl, inr, Bool, true, false, none, some, List, [], ◌∷◌, String, if◌then◌else◌,
  lookup, values, All, eq_iff, arith, Bool-cases, same_text,
}
use continuous_auth.Decisions.Challenge.Registry.{
  PendingChallenge, Registry, select, max_by, opened_before, outranked, first_max,
}
use continuous_auth.Decisions.Challenge.Keys.{IsKeyed}

All-map :
    {A : Type 0} {P Q : A → Type 0} (xs : List A) → ((x : A) → P x → Q x) → All P xs → All Q xs
All-map [] f h = tt
All-map (x ∷ xs) f h = (f x h.0, All-map xs f h.1)

pub All-values :
    (P : PendingChallenge → Type 0) (j : String) (r : Registry) (p : PendingChallenge)
    → All P (values r)
    → lookup j r ≡ some p
    → P p
All-values P j [] p a h = absurd (ground (arith, h))
All-values P j ((k, q) ∷ r) p a h = elim (Bool-cases (same_text k j)) [
  | inl e ↦ let same : q ≡ p = ground (arith, e, h) in subst P same a.0
  | inr e ↦ All-values P j r p a.1 (ground (arith, e, h))
]

pub keyed_values :
    (r : Registry) → IsKeyed r → All (λ q. lookup q.decision_id r ≡ some q) (values r)
keyed_values [] v = tt
keyed_values ((k, p) ∷ r) v = (
  ground (arith, eq_iff p.decision_id k, eq_iff k k, v.0, eq_iff k p.decision_id),
  All-map (values r) (λ q h. ground (arith, h, eq_iff k q.decision_id, v.1)) (keyed_values r v.2),
)

-- What all values have and the test, the selected ones have.
select-All :
    (P : PendingChallenge → Type 0) (test : PendingChallenge → Bool) (ps : List PendingChallenge)
    → All P ps
    → All (λ q. P q × (test q ≡ true)) (select test ps)
select-All P test [] a = tt
select-All P test (p ∷ ps) a = elim (Bool-cases (test p)) [
  | inl e ↦ rw e ((a.0, e), select-All P test ps a.1)
  | inr e ↦ rw e (select-All P test ps a.1)
]

-- A selected one is at hand where some value passes the test.
pub select-All_back :
    (P : PendingChallenge → Type 0) (test : PendingChallenge → Bool) (ps : List PendingChallenge)
    → All P (select test ps)
    → All (λ q. (test q ≡ true) → P q) ps
select-All_back P test [] a = tt
select-All_back P test (p ∷ ps) a =
    let rest = select test ps in
    elim (Bool-cases (test p)) [
      | inl e ↦
          let a' = subst (λ b. All P (if b then p ∷ rest else rest)) e a in
          (λ t. a'.0, select-All_back P test ps a'.1)
      | inr e ↦
          let a' = subst (λ b. All P (if b then p ∷ rest else rest)) e a in
          (λ t. absurd (ground (arith, e, t)), select-All_back P test ps a')
    ]

-- A test of keys that are ordered as the numbers are, or as pairs of numbers.
pub record IsOrder (less : PendingChallenge → PendingChallenge → Bool) : Type 0 where
  asymmetric : (p q : PendingChallenge) → less p q ≡ true → less q p ≡ false
  negative : (p q r : PendingChallenge) → less p q ≡ false → less q r ≡ false → less p r ≡ false

pub opened_before-IsOrder : IsOrder opened_before
opened_before-IsOrder = record {
  asymmetric = λ p q h. ground (arith, h);
  negative = λ p q r h g. ground (arith, h, g);
}

pub outranked-IsOrder : IsOrder outranked
unfolding outranked
outranked-IsOrder = record {
  asymmetric = λ p q h. ground (arith, h);
  negative = λ p q r h g. ground (arith, h, g);
}

module _ (less : PendingChallenge → PendingChallenge → Bool) (order : IsOrder less) where
  irreflexive : (p : PendingChallenge) → less p p ≡ false
  irreflexive p = elim (Bool-cases (less p p)) [ inl e ↦ order.asymmetric p p e | inr e ↦ e ]

  Bounds : PendingChallenge → List PendingChallenge → PendingChallenge → Type 0
  Bounds best ps m = (less m best ≡ false) × All (λ q. less m q ≡ false) ps

  -- The best of a list is not less than the one to begin with, nor than any of the list.
  max_by-Bounds :
      (ps : List PendingChallenge) (best : PendingChallenge) → Bounds best ps (max_by less ps best)
  unfolding Bounds
  max_by-Bounds [] best = (irreflexive best, tt)
  max_by-Bounds (p ∷ ps) best = elim (Bool-cases (less best p)) [
    | inl e ↦
        let (first, others) = max_by-Bounds ps p in
        let m = max_by less ps p in
        let after = order.negative m p best first (order.asymmetric best p e) in
        subst (Bounds best (p ∷ ps)) (rw e refl) (after, (first, others))
    | inr e ↦
        let (first, others) = max_by-Bounds ps best in
        let m = max_by less ps best in
        subst (Bounds best (p ∷ ps)) (rw e refl) (first, (order.negative m best p first e, others))
  ]

max_by-keeps :
    (P : PendingChallenge → Type 0) (less : PendingChallenge → PendingChallenge → Bool)
    (ps : List PendingChallenge) (best : PendingChallenge)
    → P best
    → All P ps
    → P (max_by less ps best)
max_by-keeps P less [] best h a = h
max_by-keeps P less (p ∷ ps) best h a = elim (Bool-cases (less best p)) [
  | inl e ↦ rw e (max_by-keeps P less ps p a.0 a.1)
  | inr e ↦ rw e (max_by-keeps P less ps best h a.1)
]

first_max-All :
    (P : PendingChallenge → Type 0) (less : PendingChallenge → PendingChallenge → Bool)
    (order : IsOrder less) (ps : List PendingChallenge) (p : PendingChallenge)
    → All P ps
    → first_max less ps ≡ some p
    → P p × All (λ q. less p q ≡ false) ps
unfolding first_max Bounds
first_max-All P less order [] p a h = absurd (ground (arith, h))
first_max-All P less order (q ∷ qs) p a h =
    let m = max_by less qs q in
    let same : m ≡ p = ground (arith, h) in
    subst (λ x. P x × All (λ y. less x y ≡ false) (q ∷ qs)) same
      (max_by-keeps P less qs q a.0 a.1, max_by-Bounds less order qs q)

pub first_max-none :
    (less : PendingChallenge → PendingChallenge → Bool) (ps : List PendingChallenge)
    → first_max less ps ≡ none
    → All (λ q. true ≡ false) ps
unfolding first_max
first_max-none less [] h = tt
first_max-none less (q ∷ qs) h = absurd (ground (arith, h))

-- What the first maximum of the registered challenges that pass a test has of its own, and over
-- another one that passes the test.
pub selected :
    (less : PendingChallenge → PendingChallenge → Bool) (order : IsOrder less)
    (test : PendingChallenge → Bool) (r : Registry) (p q : PendingChallenge) (j : String)
    → IsKeyed r
    → first_max less (select test (values r)) ≡ some p
    → lookup j r ≡ some q
    → test q ≡ true
    → (lookup p.decision_id r ≡ some p) × (test p ≡ true) × (less p q ≡ false)
selected less order test r p q j v h l t =
    let chosen =
      select-All (λ x. lookup x.decision_id r ≡ some x) test (values r) (keyed_values r v) in
    let (has, others) =
      first_max-All (λ x. (lookup x.decision_id r ≡ some x) × (test x ≡ true)) less order
        (select test (values r)) p chosen h in
    (
      has.0,
      has.1,
      All-values (λ x. (test x ≡ true) → less p x ≡ false) j r q
          (select-All_back (λ x. less p x ≡ false) test (values r) others) l t,
    )
