-- ===== src/Ingestion/Framing/Bounds.antt =====
-- What backend/app/ingestion/framing.py keeps in memory, and the sizes of what it delivers.
use continuous_auth.Common.{
  ℕ, zero, suc, ◌≤◌, ◌<◌, ◌≡◌, refl, ◌∙◌, inl, inr, false, Option, none, some, List, [], ◌∷◌, arith,
  max, length, length-take, All, All-append, take, drop, Bool-cases, Option-cases,
}
use continuous_auth.Ingestion.Framing.{
  Decoder, Loop, header_size, unpack_header, take_payload, declare, read_header, turn, drain, feed,
  feed_all, finish, reset, new_decoder, buffered_bytes,
}
use continuous_auth.Ingestion.Framing.Drain.{drain-settles}
use continuous_auth.Ingestion.Framing.Chunks.{fuel_for, start_of, measure-lt-fuel_for}

-- The expected size of a payload is positive and within the maximum.
abbrev SizeFits : ℕ → Option ℕ → Type 0
SizeFits limit none = Unit
SizeFits limit (some n) = (0 < n) × (n ≤ limit)

abbrev awaited : Option ℕ → ℕ
awaited none = header_size
awaited (some n) = n

-- Between two calls less than what the decoder waits for is buffered.
pub record IsWaiting (d : Decoder) : Type 0 where
  pub fits : SizeFits d.max_frame_bytes d.expected_payload_bytes
  pub short : length d.buffer < awaited d.expected_payload_bytes

abbrev pub Delivers : ℕ → List ℕ → Type 0
Delivers limit payload = (0 < length payload) × (length payload ≤ limit)

abbrev Bounded : ℕ → Loop → Type 0
Bounded limit l =
    (l.decoder.max_frame_bytes ≡ limit)
    × SizeFits limit l.decoder.expected_payload_bytes
    × All (Delivers limit) l.payloads

take_payload-Bounded :
    (limit n : ℕ) (l : Loop)
    → 0 < n
    → n ≤ limit
    → Bounded limit l
    → Bounded limit (take_payload n l).1
unfolding take_payload
take_payload-Bounded limit n l p q h = ground (
  arith,
  length-take n l.decoder.buffer,
  All-append (Delivers limit) l.payloads (take n l.decoder.buffer ∷ []) h.2,
)

declare-Bounded : (limit n : ℕ) (l : Loop) → Bounded limit l → Bounded limit (declare n l).1
unfolding declare
declare-Bounded limit n l h = ground (
  arith,
  take_payload-Bounded limit n
      (record l { decoder = record (l.decoder) { expected_payload_bytes = some n } }),
)

turn-Bounded : (limit : ℕ) (l : Loop) → Bounded limit l → Bounded limit (turn l).1
unfolding turn read_header
turn-Bounded limit l h = elim (Option-cases l.decoder.expected_payload_bytes) [
  | inl e ↦ ground (
    arith,
    declare-Bounded limit (unpack_header (take header_size l.decoder.buffer))
        (record l { decoder = record (l.decoder) { buffer = drop header_size l.decoder.buffer } }),
  )
  | inr (n, e) ↦ ground (arith, take_payload-Bounded limit n l)
]

drain-Bounded : (f limit : ℕ) (l : Loop) → Bounded limit l → Bounded limit (drain f l)
unfolding drain
drain-Bounded zero limit l h = h
drain-Bounded (suc f) limit l h = elim (Bool-cases (turn l).0) [
  | inl go ↦ rw go (drain-Bounded f limit (turn l).1 (turn-Bounded limit l h))
  | inr stop ↦ rw stop (turn-Bounded limit l h)
]

settled-short :
    (l : Loop)
    → turn l ≡ (false, l)
    → length l.decoder.buffer < awaited l.decoder.expected_payload_bytes
unfolding turn read_header declare take_payload reset
settled-short l h = elim (Option-cases l.decoder.expected_payload_bytes) [
  | inl e ↦ ground arith
  | inr (n, e) ↦ ground arith
]

-- A new decoder waits for a header.
pub new_decoder-IsWaiting :
    (n : ℕ) (d : Decoder) → new_decoder n ≡ some d → IsWaiting d × (d.max_frame_bytes ≡ n)
unfolding new_decoder
new_decoder-IsWaiting n d h = ground arith

-- Every call of `feed`, with any bytes, on a decoder that has less buffered than it waits for ends
-- by a break of its loop with less buffered than the decoder then waits for, keeps the configured
-- maximum, and delivers only payloads that are not empty and not longer than that maximum.
pub feed-IsWaiting :
    (d : Decoder) (chunk : List ℕ)
    → IsWaiting d
    → IsWaiting (feed d chunk).0
      × ((feed d chunk).0.max_frame_bytes ≡ d.max_frame_bytes)
      × All (Delivers d.max_frame_bytes) (feed d chunk).1.payloads
unfolding feed
feed-IsWaiting d chunk w =
    let l = drain (fuel_for d chunk) (start_of d chunk) in
    let b : Bounded d.max_frame_bytes l =
      drain-Bounded (fuel_for d chunk) d.max_frame_bytes (start_of d chunk) (refl, w.fits, tt) in
    let s =
      settled-short l
        (drain-settles (fuel_for d chunk) (start_of d chunk) (measure-lt-fuel_for d chunk)) in
    (record { fits = rw b.0 b.1; short = s }, b.0, b.2)

finish-IsWaiting : (d : Decoder) → IsWaiting (finish d).0
unfolding finish
finish-IsWaiting d = ground arith

abbrev Session : Type 0
Session = List (List ℕ)

feed_all-IsWaiting :
    (d : Decoder) (chunks : Session)
    → IsWaiting d
    → IsWaiting (feed_all d chunks).0 × ((feed_all d chunks).0.max_frame_bytes ≡ d.max_frame_bytes)
unfolding feed_all
feed_all-IsWaiting d [] w = (w, refl)
feed_all-IsWaiting d (c ∷ cs) w =
    let (w', e, _) = feed-IsWaiting d c w in
    let (w'', e') = feed_all-IsWaiting (feed d c).0 cs w' in (w'', e' ∙ e)

-- Memory is bounded by one frame: whatever chunks a new decoder is fed, it then buffers fewer
-- bytes than a header or a frame of the configured maximum has.
buffered_bytes-feed_all :
    (n : ℕ) (d : Decoder) (chunks : List (List ℕ))
    → new_decoder n ≡ some d
    → buffered_bytes (feed_all d chunks).0 < max header_size n
unfolding buffered_bytes
buffered_bytes-feed_all n d chunks h =
    let (w, e) = new_decoder-IsWaiting n d h in
    let (w', e') = feed_all-IsWaiting d chunks w in
    let d' = (feed_all d chunks).0 in
    elim (Option-cases d'.expected_payload_bytes) [
      | inl none_expected ↦ ground (arith, w'.short)
      | inr (k, k_expected) ↦ ground (arith, w'.short, w'.fits)
    ]
