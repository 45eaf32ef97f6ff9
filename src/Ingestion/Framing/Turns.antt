-- ===== src/Ingestion/Framing/Turns.antt =====
-- One turn of the loop of `feed` (backend/app/ingestion/framing.py) under more input, under
-- results gathered before, and its measure; then the loop as a whole.
use continuous_auth.Common.{
  ℕ, ◌+◌, ◌≤◌, ◌<◌, ◌≡◌, refl, ◌⊎◌, inl, inr, Bool, true, false, ◌||◌, Option, none, some, List, [],
  ◌∷◌, ◌++◌, arith, append_assoc, ltb, length, take, drop, length-append, length-drop, take-append,
  drop-append, Bool-cases, Option-cases,
}
use continuous_auth.Ingestion.Framing.{
  FrameIssue, zero_length_frame, oversized_frame, Loop, header_size, unpack_header, take_payload,
  declare, read_header, turn, reset,
}

-- More input behind what is buffered.
abbrev pub extend : List ℕ → Loop → Loop
extend more l = record l { decoder = record (l.decoder) { buffer = l.decoder.buffer ++ more } }

-- Results gathered before those of the loop.
abbrev pub after : List (List ℕ) → List FrameIssue → Loop → Loop
after ps es l = record l { payloads = ps ++ l.payloads; issues = es ++ l.issues }

abbrev flag_size : Option ℕ → ℕ
flag_size none = 0
flag_size (some _) = 1

abbrev pub measure : Loop → ℕ
measure l = length l.decoder.buffer + flag_size l.decoder.expected_payload_bytes

abbrev is_oversized : FrameIssue → Bool
is_oversized (oversized_frame _ _) = true
is_oversized _ = false

abbrev pub has_oversized : List FrameIssue → Bool
has_oversized [] = false
has_oversized (e ∷ es) = is_oversized e || has_oversized es

pub has_oversized-append :
    (es fs : List FrameIssue) → has_oversized (es ++ fs) ≡ (has_oversized es || has_oversized fs)
has_oversized-append [] fs = refl
has_oversized-append (e ∷ es) fs = ground (arith, has_oversized-append es fs)

module _ (n : ℕ) (l : Loop) (more : List ℕ) where
  take_payload-extend :
      (take_payload n l).0 ≡ true
      → take_payload n (extend more l) ≡ (true, extend more (take_payload n l).1)
  unfolding take_payload
  take_payload-extend h = ground (
    arith,
    take-append n l.decoder.buffer more,
    drop-append n l.decoder.buffer more,
    length-append l.decoder.buffer more,
  )

  take_payload-wait :
      (take_payload n l).0 ≡ false
      → (ltb (length l.decoder.buffer) n ≡ true) × ((take_payload n l).1 ≡ l)
  unfolding take_payload
  take_payload-wait h = ground arith

  take_payload-measure :
      (take_payload n l).0 ≡ true
      → (length (take_payload n l).1.decoder.buffer + n ≡ length l.decoder.buffer)
        × ((take_payload n l).1.decoder.expected_payload_bytes ≡ none)
  unfolding take_payload
  take_payload-measure h = ground (arith, length-drop n l.decoder.buffer)

-- What `declare` leaves for the payload.
abbrev expecting : ℕ → Loop → Loop
expecting n l = record l { decoder = record (l.decoder) { expected_payload_bytes = some n } }

module _ (n : ℕ) (l : Loop) (more : List ℕ) where
  declare-extend :
      (declare n l).0 ≡ true → declare n (extend more l) ≡ (true, extend more (declare n l).1)
  unfolding declare
  declare-extend h = ground (arith, take_payload-extend n (expecting n l) more)

  -- A header that stops the loop is oversized, or its payload is not there yet.
  declare-wait :
      (declare n l).0 ≡ false
      → has_oversized (declare n l).1.issues ≡ false
      → ((declare n l).1 ≡ expecting n l)
        × (declare n (extend more l) ≡ take_payload n (extend more (expecting n l)))
  unfolding declare
  declare-wait h k = ground (
    arith,
    take_payload-wait n (expecting n l),
    has_oversized-append l.issues (oversized_frame n l.decoder.max_frame_bytes ∷ []),
  )

  declare-measure :
      l.decoder.expected_payload_bytes ≡ none
      → (declare n l).0 ≡ true
      → measure (declare n l).1 ≤ measure l
  unfolding declare
  declare-measure e h = ground (arith, take_payload-measure n (expecting n l))

-- The header is removed from the buffer.
abbrev beheaded : Loop → Loop
beheaded l = record l {
  decoder = record (l.decoder) { buffer = drop header_size l.decoder.buffer };
}

abbrev declared_size : Loop → ℕ
declared_size l = unpack_header (take header_size l.decoder.buffer)

module _ (l : Loop) (more : List ℕ) where
  read_header-go :
      (read_header l).0 ≡ true → read_header (extend more l) ≡ (true, extend more (read_header l).1)
  unfolding read_header
  read_header-go h = ground (
    arith,
    declare-extend (declared_size l) (beheaded l) more,
    take-append 4 l.decoder.buffer more,
    drop-append 4 l.decoder.buffer more,
    length-append l.decoder.buffer more,
  )

  read_header-wait :
      (read_header l).0 ≡ false
      → has_oversized (read_header l).1.issues ≡ false
      → ((read_header l).1 ≡ l)
        ⊎ (((read_header l).1 ≡ expecting (declared_size l) (beheaded l))
            × (read_header (extend more l)
                ≡ take_payload
                    (declared_size l)
                    (extend more (expecting (declared_size l) (beheaded l)))))
  unfolding read_header
  read_header-wait h k = ground (
    arith,
    declare-wait (declared_size l) (beheaded l) more,
    take-append 4 l.decoder.buffer more,
    drop-append 4 l.decoder.buffer more,
    length-append l.decoder.buffer more,
  )

  read_header-measure :
      l.decoder.expected_payload_bytes ≡ none
      → (read_header l).0 ≡ true
      → measure (read_header l).1 + 4 ≤ measure l
  unfolding read_header
  read_header-measure e h =
      ground
        (arith, declare-measure (declared_size l) (beheaded l) more, length-drop 4 l.decoder.buffer)

-- A turn that goes on does the same with more input behind.
pub turn-extend :
    (l : Loop) (more : List ℕ)
    → (turn l).0 ≡ true
    → turn (extend more l) ≡ (true, extend more (turn l).1)
unfolding turn
turn-extend l more h = elim (Option-cases l.decoder.expected_payload_bytes) [
  | inl e ↦ ground (arith, read_header-go l more)
  | inr (n, e) ↦ ground (arith, take_payload-extend n l more)
]

-- A turn that waits for input leaves a state from which the same turn is taken with more input.
pub turn-wait :
    (l : Loop) (more : List ℕ)
    → (turn l).0 ≡ false
    → has_oversized (turn l).1.issues ≡ false
    → turn (extend more l) ≡ turn (extend more (turn l).1)
unfolding turn
turn-wait l more h k = elim (Option-cases l.decoder.expected_payload_bytes) [
  | inl e ↦ ground (arith, read_header-wait l more)
  | inr (n, e) ↦ ground (arith, take_payload-wait n l more)
]

pub turn-measure : (l : Loop) → (turn l).0 ≡ true → measure (turn l).1 < measure l
unfolding turn
turn-measure l h = elim (Option-cases l.decoder.expected_payload_bytes) [
  | inl e ↦ ground (arith, read_header-measure l [])
  | inr (n, e) ↦ ground (arith, take_payload-measure n l [])
]

-- Results gathered before the turn do not change it.
pub turn-after :
    (ps : List (List ℕ)) (es : List FrameIssue) (l : Loop)
    → turn (after ps es l) ≡ ((turn l).0, after ps es (turn l).1)
unfolding turn read_header declare take_payload
turn-after ps es l = elim (Option-cases l.decoder.expected_payload_bytes) [
  | inl e ↦ ground (
    arith,
    append_assoc es l.issues (zero_length_frame ∷ []),
    append_assoc es l.issues (oversized_frame (declared_size l) l.decoder.max_frame_bytes ∷ []),
    append_assoc ps l.payloads (take (declared_size l) (drop 4 l.decoder.buffer) ∷ []),
  )
  | inr (n, e) ↦ ground (arith, append_assoc ps l.payloads (take n l.decoder.buffer ∷ []))
]

-- After a turn that stops the loop, another turn would stop at once.
pub turn-settles : (l : Loop) → (turn l).0 ≡ false → turn (turn l).1 ≡ (false, (turn l).1)
unfolding turn read_header declare take_payload reset
turn-settles l h = elim (Option-cases l.decoder.expected_payload_bytes) [
  | inl e ↦ ground arith
  | inr (n, e) ↦ ground arith
]

pub turn-measure_stop : (l : Loop) → (turn l).0 ≡ false → measure (turn l).1 ≤ measure l
unfolding turn read_header declare take_payload reset
turn-measure_stop l h = elim (Option-cases l.decoder.expected_payload_bytes) [
  | inl e ↦ ground (arith, length-drop 4 l.decoder.buffer)
  | inr (n, e) ↦ ground arith
]

-- An oversized frame that was met stays reported.
pub turn-oversized_keep :
    (l : Loop) → has_oversized l.issues ≡ true → has_oversized (turn l).1.issues ≡ true
unfolding turn read_header declare take_payload
turn-oversized_keep l h = elim (Option-cases l.decoder.expected_payload_bytes) [
  | inl e ↦ ground (
    arith,
    has_oversized-append l.issues (zero_length_frame ∷ []),
    has_oversized-append l.issues
        (oversized_frame (declared_size l) l.decoder.max_frame_bytes ∷ []),
  )
  | inr (n, e) ↦ ground arith
]

pub turn-oversized_extend :
    (l : Loop) (more : List ℕ)
    → (turn l).0 ≡ false
    → has_oversized (turn l).1.issues ≡ true
    → has_oversized (turn (extend more l)).1.issues ≡ true
unfolding turn read_header declare take_payload
turn-oversized_extend l more h k = elim (Bool-cases (has_oversized l.issues)) [
  | inl old ↦ turn-oversized_keep (extend more l) old
  | inr new ↦ elim (Option-cases l.decoder.expected_payload_bytes) [
    | inl e ↦ ground (
      arith,
      take-append 4 l.decoder.buffer more,
      length-append l.decoder.buffer more,
      has_oversized-append l.issues
          (oversized_frame (declared_size l) l.decoder.max_frame_bytes ∷ []),
    )
    | inr (n, e) ↦ ground arith
  ]
]
