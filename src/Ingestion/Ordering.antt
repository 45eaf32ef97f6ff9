-- ===== src/Ingestion/Ordering.antt =====
-- backend/app/ingestion/ordering.py: sequence continuity, duplicates and late events. Sequence
-- numbers and capture times are never negative in the schema of events.
pub mod Invariant
pub mod Traces
mod Tests
use continuous_auth.Common.{
  ℕ, ◌+◌, ◌-◌, Bool, true, false, Option, none, some, List, [], ◌∷◌, ◌++◌, ltb, ◌==◌, ◌||◌,
  if◌then◌else◌, length,
}

pub data OrderingStatus : Type 0 where
  accepted gap_accepted duplicate out_of_order : OrderingStatus

pub record OrderingResult : Type 0 where
  pub status : OrderingStatus
  pub missing_sequences : ℕ

-- the property `OrderingResult.accepted`
abbrev pub is_accepted : OrderingStatus → Bool
is_accepted accepted = true
is_accepted gap_accepted = true
is_accepted duplicate = false
is_accepted out_of_order = false

pub record SequenceTracker : Type 0 where
  pub history_capacity : ℕ
  pub recent : List ℕ
  pub recent_set : List ℕ
  pub expected : Option ℕ
  pub last_capture_us : Option ℕ

-- `sequence in self._recent_set`
abbrev pub contains : ℕ → List ℕ → Bool
contains x [] = false
contains x (y ∷ ys) = x == y || contains x ys

-- `set.add`
abbrev pub set_add : ℕ → List ℕ → List ℕ
set_add x xs = if contains x xs then xs else xs ++ x ∷ []

-- `set.remove`; a missing element, at which Python raises, is left missing.
abbrev pub set_remove : ℕ → List ℕ → List ℕ
set_remove x [] = []
set_remove x (y ∷ ys) = if x == y then ys else y ∷ set_remove x ys

-- The constructor raises a `ValueError` at a capacity of 0.
unfoldable pub new_tracker : ℕ → Option SequenceTracker
new_tracker capacity =
    if capacity == 0
    then none
    else some (record {
      history_capacity = capacity;
      recent = [];
      recent_set = [];
      expected = none;
      last_capture_us = none;
    })

-- `popleft` on the deque, and the element removed from the set; it raises on an empty deque, which
-- has not the length of a positive capacity.
forget_oldest : List ℕ → List ℕ → List ℕ × List ℕ
forget_oldest [] set = ([], set)
forget_oldest (removed ∷ rest) set = (rest, set_remove removed set)

unfoldable pub remember : ℕ → SequenceTracker → SequenceTracker
unfolding forget_oldest
remember sequence t =
    let (recent, recent_set) =
      if length t.recent == t.history_capacity
      then forget_oldest t.recent t.recent_set
      else (t.recent, t.recent_set) in
    record t { recent = recent ++ sequence ∷ []; recent_set = set_add sequence recent_set }

-- Both capture times are known, and the new one is the earlier.
abbrev pub goes_back : Option ℕ → Option ℕ → Bool
goes_back (some t) (some last) = ltb t last
goes_back (some t) none = false
goes_back none _ = false

-- `observe` once a sequence number is expected.
observe_next : ℕ → ℕ → Option ℕ → SequenceTracker → SequenceTracker × OrderingResult
observe_next expected sequence capture t =
    let missing = sequence - expected in
    let t' = remember sequence (record t { expected = some (sequence + 1) }) in
    if ltb sequence expected
    then (
      t,
      record {
        status = if contains sequence t.recent_set then duplicate else out_of_order;
        missing_sequences = 0;
      },
    )
    else if goes_back capture t.last_capture_us
    then (t', record { status = out_of_order; missing_sequences = missing })
    else (
      record t' { last_capture_us = capture },
      record {
        status = if missing == 0 then accepted else gap_accepted;
        missing_sequences = missing;
      },
    )

observe_at : Option ℕ → ℕ → Option ℕ → SequenceTracker → SequenceTracker × OrderingResult
unfolding observe_next
observe_at none sequence capture t =
    let t' = remember sequence (record t { expected = some (sequence + 1) }) in
    (record t' { last_capture_us = capture }, record { status = accepted; missing_sequences = 0 })
observe_at (some expected) sequence capture t = observe_next expected sequence capture t

unfoldable pub observe : ℕ → Option ℕ → SequenceTracker → SequenceTracker × OrderingResult
unfolding observe_at
observe sequence capture t = observe_at t.expected sequence capture t

unfoldable pub reset : SequenceTracker → SequenceTracker
reset t = record t { recent = []; recent_set = []; expected = none; last_capture_us = none }
