-- ===== src/Ingestion/Pipeline/Ring.antt =====
-- The raw ring of backend/app/ingestion/pipeline.py as a list of sequence numbers.
use continuous_auth.Common.{
  ℕ, zero, suc, ◌+◌, ◌-◌, ◌≡◌, refl, List, [], ◌∷◌, ◌++◌, arith, drop, length, push_bounded,
}
use continuous_auth.Ingestion.Ordering.Invariant.{
  IsRising, AllBelow, IsRising-append, AllBelow-append, AllBelow-le, IsRising-le,
}
use continuous_auth.Ingestion.Ordering.Traces.{bound_of}
use continuous_auth.Ingestion.Events.{AttributedEvent}
use continuous_auth.Ingestion.Recording.{Pipeline}

abbrev pub seqs : List AttributedEvent → List ℕ
seqs [] = []
seqs (a ∷ as_) = a.event.seq ∷ seqs as_

-- The ring's sequence numbers are strictly increasing, and below the number expected next.
pub record IsOrdered (p : Pipeline) : Type 0 where
  pub rising : IsRising 0 (seqs p.raw_ring)
  pub below : AllBelow (bound_of p.ordering.expected) (seqs p.raw_ring)

seqs-append :
    (xs : List AttributedEvent) (a : AttributedEvent)
    → seqs (xs ++ a ∷ []) ≡ seqs xs ++ a.event.seq ∷ []
seqs-append [] a = refl
seqs-append (x ∷ xs) a = ground (arith, seqs-append xs a)

seqs-drop : (n : ℕ) (xs : List AttributedEvent) → seqs (drop n xs) ≡ drop n (seqs xs)
seqs-drop zero xs = refl
seqs-drop (suc n) [] = refl
seqs-drop (suc n) (x ∷ xs) = seqs-drop n xs

IsRising-drop : (n low : ℕ) (xs : List ℕ) → IsRising low xs → IsRising low (drop n xs)
IsRising-drop zero low xs h = h
IsRising-drop (suc n) low [] h = tt
IsRising-drop (suc n) low (x ∷ xs) h =
    IsRising-le low (suc x) (drop n xs) (IsRising-drop n (suc x) xs h.1) (omega arith)

AllBelow-drop : (n high : ℕ) (xs : List ℕ) → AllBelow high xs → AllBelow high (drop n xs)
AllBelow-drop zero high xs h = h
AllBelow-drop (suc n) high [] h = tt
AllBelow-drop (suc n) high (x ∷ xs) h = AllBelow-drop n high xs h.1

-- A new event with a number above the ring's.
pub push-ordered :
    (capacity : ℕ) (ring : List AttributedEvent) (a : AttributedEvent)
    → IsRising 0 (seqs ring)
    → AllBelow a.event.seq (seqs ring)
    → IsRising 0 (seqs (push_bounded capacity ring a))
      × AllBelow (a.event.seq + 1) (seqs (push_bounded capacity ring a))
push-ordered capacity ring a r b =
    let n = length ring + 1 - capacity in
    let x = a.event.seq in
    rw (seqs-drop n (ring ++ a ∷ []), seqs-append ring a)
      (
        IsRising-drop n 0 (seqs ring ++ x ∷ []) (IsRising-append 0 x (seqs ring) r b (omega arith)),
        AllBelow-drop n (x + 1) (seqs ring ++ x ∷ []) (
            AllBelow-append (x + 1) x (seqs ring)
              (AllBelow-le x (x + 1) (seqs ring) b (omega arith)) (omega arith)),
      )
