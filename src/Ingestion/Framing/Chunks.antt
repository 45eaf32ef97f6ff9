-- ===== src/Ingestion/Framing/Chunks.antt =====
-- How backend/app/ingestion/framing.py treats a stream that arrives in pieces.
use continuous_auth.Common.{
  ℕ, ◌+◌, ◌<◌, ◌≡◌, ap, ◌∙◌, true, false, List, [], ◌∷◌, ◌++◌, arith, append_assoc, append-nil,
  length, length-append, inl, inr, Bool-cases,
}
use continuous_auth.Ingestion.Framing.{Decoder, DecodeResult, Loop, drain, feed, feed_all}
use continuous_auth.Ingestion.Framing.Turns.{
  extend, after, measure, has_oversized, has_oversized-append,
}
use continuous_auth.Ingestion.Framing.Drain.{drain-after, drain-extend, drain-oversized_extend}

-- The bytes of a stream that arrives in chunks.
abbrev pub join : List (List ℕ) → List ℕ
join [] = []
join (chunk ∷ chunks) = chunk ++ join chunks

abbrev pub followed_by : DecodeResult → DecodeResult → DecodeResult
followed_by r s = record { payloads = r.payloads ++ s.payloads; issues = r.issues ++ s.issues }

abbrev pub start_of : Decoder → List ℕ → Loop
start_of d chunk = record {
  decoder = record d { buffer = d.buffer ++ chunk };
  payloads = [];
  issues = [];
}

abbrev pub fuel_for : Decoder → List ℕ → ℕ
fuel_for d chunk = length d.buffer + length chunk + 2

-- The fuel of `feed` is enough.
pub measure-lt-fuel : (l : Loop) → measure l < length l.decoder.buffer + 2
measure-lt-fuel l = ground arith

pub measure-lt-fuel_for :
    (d : Decoder) (chunk : List ℕ) → measure (start_of d chunk) < fuel_for d chunk
measure-lt-fuel_for d chunk =
    omega (arith, measure-lt-fuel (start_of d chunk), length-append d.buffer chunk)

drain-start :
    (k : ℕ) (l : Loop) (more : List ℕ)
    → drain k (extend more l) ≡ after l.payloads l.issues (drain k (start_of l.decoder more))
drain-start k l more = ground (
  arith,
  append-nil l.payloads,
  append-nil l.issues,
  drain-after k l.payloads l.issues (start_of l.decoder more),
)

-- Two chunks in a row are decoded as the one chunk that they make together, unless the first one
-- ends the loop by an oversized frame.
pub feed-append :
    (d : Decoder) (a b : List ℕ)
    → has_oversized (feed d a).1.issues ≡ false
    → feed d (a ++ b) ≡ ((feed (feed d a).0 b).0, followed_by (feed d a).1 (feed (feed d a).0 b).1)
unfolding feed
feed-append d a b o =
    let l = drain (fuel_for d a) (start_of d a) in
    let joined : drain (fuel_for d (a ++ b)) (start_of d (a ++ b))
        ≡ drain (fuel_for l.decoder b) (extend b l) =
      rw (← append_assoc d.buffer a b) (
        drain-extend (fuel_for d a) (fuel_for d (a ++ b)) (fuel_for l.decoder b) (start_of d a) b
          (measure-lt-fuel_for d a)
          (rw (append_assoc d.buffer a b) (measure-lt-fuel_for d (a ++ b)))
          (measure-lt-fuel_for l.decoder b) o) in
    ap (λ (m : Loop). (m.decoder, record { payloads = m.payloads; issues = m.issues }))
      (joined ∙ drain-start (fuel_for l.decoder b) l b)

feed-oversized_append :
    (d : Decoder) (a b : List ℕ)
    → has_oversized (feed d a).1.issues ≡ true
    → has_oversized (feed d (a ++ b)).1.issues ≡ true
unfolding feed
feed-oversized_append d a b o = rw (← append_assoc d.buffer a b) (
    drain-oversized_extend (fuel_for d a) (fuel_for d (a ++ b)) (start_of d a) b
      (measure-lt-fuel_for d a) (rw (append_assoc d.buffer a b) (measure-lt-fuel_for d (a ++ b))) o)

feed_all-join_of_chunks :
    (d : Decoder) (chunk : List ℕ) (chunks : List (List ℕ))
    → has_oversized (feed_all d (chunk ∷ chunks)).1.issues ≡ false
    → feed_all d (chunk ∷ chunks) ≡ feed d (join (chunk ∷ chunks))
unfolding feed_all
feed_all-join_of_chunks d chunk [] o = ground (
  arith,
  append-nil chunk,
  append-nil (feed d chunk).1.payloads,
  append-nil (feed d chunk).1.issues,
)
feed_all-join_of_chunks d chunk (next ∷ chunks) o = ground (
  arith,
  feed_all-join_of_chunks (feed d chunk).0 next chunks,
  feed-append d chunk (join (next ∷ chunks)),
  has_oversized-append (feed d chunk).1.issues (feed_all (feed d chunk).0 (next ∷ chunks)).1.issues,
)

feed_all-oversized :
    (d : Decoder) (chunk : List ℕ) (chunks : List (List ℕ))
    → has_oversized (feed_all d (chunk ∷ chunks)).1.issues ≡ true
    → has_oversized (feed d (join (chunk ∷ chunks))).1.issues ≡ true
unfolding feed_all
feed_all-oversized d chunk [] o =
    ground (arith, append-nil chunk, append-nil (feed d chunk).1.issues)
feed_all-oversized d chunk (next ∷ chunks) o =
    let (d', r) = feed d chunk in
    elim (Bool-cases (has_oversized r.issues)) [
      | inl early ↦ feed-oversized_append d chunk (join (next ∷ chunks)) early
      | inr late ↦ ground (
        arith,
        feed_all-oversized d' next chunks,
        feed-append d chunk (join (next ∷ chunks)),
        has_oversized-append r.issues (feed_all d' (next ∷ chunks)).1.issues,
        has_oversized-append r.issues (feed d' (join (next ∷ chunks))).1.issues,
      )
    ]

-- However a stream is cut, its chunks leave the same decoder, payloads and issues as the stream in
-- one piece, if that reports no oversized frame.
pub feed_all-join :
    (d : Decoder) (chunk : List ℕ) (chunks : List (List ℕ))
    → has_oversized (feed d (join (chunk ∷ chunks))).1.issues ≡ false
    → feed_all d (chunk ∷ chunks) ≡ feed d (join (chunk ∷ chunks))
feed_all-join d chunk chunks o =
    elim (Bool-cases (has_oversized (feed_all d (chunk ∷ chunks)).1.issues)) [
      | inl met ↦ absurd (ground (arith, feed_all-oversized d chunk chunks met))
      | inr unmet ↦ feed_all-join_of_chunks d chunk chunks unmet
    ]
