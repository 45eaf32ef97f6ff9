-- ===== src/Ingestion/Framing/RoundTrip.antt =====
-- The decoder of backend/app/ingestion/framing.py undoes the encoder of tools/synthetic/framing.py.
use continuous_auth.Common.{
  ℕ, zero, suc, ◌+◌, ◌≤◌, ◌<◌, ◌≡◌, refl, ap, ◌∙◌, inl, inr, true, false, Option, none, some, List,
  [], ◌∷◌, ◌++◌, arith, append_assoc, append-nil, length, length-append, take_all, drop_all,
  Option-cases,
}
use continuous_auth.Ingestion.Framing.{
  Decoder, oversized_frame, Loop, unpack_header, pack_header, frame_payload, turn, drain,
  read_header, declare, take_payload, reset, feed, feed_all, new_decoder,
}
use continuous_auth.Ingestion.Framing.Chunks.{join, fuel_for, feed_all-join}

-- `b"".join(frames)` over `frame_payload` of each payload; the first refusal ends it.
unfoldable pub frame_all : ℕ → List (List ℕ) → Option (List ℕ)
frame_all limit [] = some []
frame_all limit (p ∷ ps) = elim (frame_payload limit p) [
  | none ↦ none
  | some frame ↦ elim (frame_all limit ps) [ none ↦ none | some rest ↦ some (frame ++ rest) ]
]

-- A 32-bit length survives the four bytes of the header.
pub unpack_header-pack_header : (n : ℕ) → n < 4294967296 → unpack_header (pack_header n) ≡ n
unfolding unpack_header pack_header
unpack_header-pack_header n h = omega arith

frame_payload-eq :
    (limit : ℕ) (p frame : List ℕ)
    → frame_payload limit p ≡ some frame
    → (frame ≡ pack_header (length p) ++ p) × (0 < length p) × (length p ≤ limit)
unfolding frame_payload
frame_payload-eq limit [] frame h = cc
frame_payload-eq limit (b ∷ bs) frame h = ground arith

-- A decoder between two frames with these bytes in its buffer, and these payloads delivered.
abbrev at_frame : ℕ → List ℕ → List (List ℕ) → Loop
at_frame limit bytes done = record {
  decoder = record { max_frame_bytes = limit; buffer = bytes; expected_payload_bytes = none };
  payloads = done;
  issues = [];
}

turn-header :
    (limit n : ℕ) (rest : List ℕ) (done : List (List ℕ))
    → n < 4294967296
    → turn (at_frame limit (pack_header n ++ rest) done) ≡ declare n (at_frame limit rest done)
unfolding turn read_header pack_header
turn-header limit n rest done h = ground (arith, unpack_header-pack_header n h)

turn-empty :
    (limit : ℕ) (done : List (List ℕ))
    → turn (at_frame limit [] done) ≡ (false, at_frame limit [] done)
unfolding turn read_header
turn-empty limit done = refl

declare-payload :
    (limit : ℕ) (p rest : List ℕ) (done : List (List ℕ))
    → 0 < length p
    → length p ≤ limit
    → declare (length p) (at_frame limit (p ++ rest) done)
      ≡ (true, at_frame limit rest (done ++ p ∷ []))
unfolding declare take_payload
declare-payload limit p rest done h k =
    ground (arith, take_all p rest, drop_all p rest, length-append p rest)

turn-frame :
    (limit : ℕ) (p frame rest : List ℕ) (done : List (List ℕ))
    → limit < 4294967296
    → frame_payload limit p ≡ some frame
    → turn (at_frame limit (frame ++ rest) done) ≡ (true, at_frame limit rest (done ++ p ∷ []))
turn-frame limit p frame rest done small h =
    let (e, pos, fits) = frame_payload-eq limit p frame h in
    rw (e, append_assoc (pack_header (length p)) p rest)
      (turn-header limit (length p) (p ++ rest) done (omega arith)
        ∙ declare-payload limit p rest done pos fits)

frame_payload-pos :
    (limit : ℕ) (p frame : List ℕ) → frame_payload limit p ≡ some frame → 0 < length frame
unfolding pack_header
frame_payload-pos limit p frame h =
    let (e, _, _) = frame_payload-eq limit p frame h in rw e (omega arith)

frame_all-cons :
    (limit : ℕ) (p : List ℕ) (ps : List (List ℕ)) (stream : List ℕ)
    → frame_all limit (p ∷ ps) ≡ some stream
    → (frame : List ℕ) × (rest : List ℕ) × (frame_payload limit p ≡ some frame)
      × (frame_all limit ps ≡ some rest)
      × (stream ≡ frame ++ rest)
unfolding frame_all
frame_all-cons limit p ps stream h = elim (Option-cases (frame_payload limit p)) [
  | inl e ↦ absurd (ground arith)
  | inr (frame, e) ↦ elim (Option-cases (frame_all limit ps)) [
    | inl e' ↦ absurd (ground arith)
    | inr (rest, e') ↦ (frame, rest, e, e', ground arith)
  ]
]

drain-frames :
    (f limit : ℕ) (ps : List (List ℕ)) (stream : List ℕ) (done : List (List ℕ))
    → limit < 4294967296
    → frame_all limit ps ≡ some stream
    → length stream < f
    → drain f (at_frame limit stream done) ≡ at_frame limit [] (done ++ ps)
unfolding drain frame_all
drain-frames zero limit ps stream done small h k = absurd (omega arith)
drain-frames (suc f) limit [] stream done small h k =
    ground (arith, turn-empty limit done, append-nil done)
drain-frames (suc f) limit (p ∷ ps) stream done small h k =
    let (frame, rest, e, e', s) = frame_all-cons limit p ps stream h in
    ground (
      arith,
      turn-frame limit p frame rest done small e,
      length-append frame rest,
      frame_payload-pos limit p frame e,
      append_assoc done (p ∷ []) ps,
      drain-frames f limit ps rest (done ++ p ∷ []) small e',
    )

abbrev pub idle : ℕ → Decoder
idle limit = record { max_frame_bytes = limit; buffer = []; expected_payload_bytes = none }

feed-frames :
    (limit : ℕ) (ps : List (List ℕ)) (stream : List ℕ)
    → limit < 4294967296
    → frame_all limit ps ≡ some stream
    → feed (idle limit) stream ≡ (idle limit, record { payloads = ps; issues = [] })
unfolding feed
feed-frames limit ps stream small framed =
    ap (λ (m : Loop). (m.decoder, record { payloads = m.payloads; issues = m.issues }))
      (drain-frames (fuel_for (idle limit) stream) limit ps stream [] small framed (omega arith))

-- Round trip: payloads that the encoder frames within a maximum below 2 ^ 32 are delivered by a new
-- decoder of that maximum exactly as they were, in order and with no issue, however the stream of
-- their frames is cut into chunks, and the decoder ends as it was created.
pub feed_all-frame_all :
    (limit : ℕ) (d : Decoder) (ps : List (List ℕ)) (chunk : List ℕ) (chunks : List (List ℕ))
    → limit < 4294967296
    → new_decoder limit ≡ some d
    → frame_all limit ps ≡ some (join (chunk ∷ chunks))
    → feed_all d (chunk ∷ chunks) ≡ (d, record { payloads = ps; issues = [] })
unfolding new_decoder
feed_all-frame_all limit d ps chunk chunks small new framed =
    let whole = feed-frames limit ps (join (chunk ∷ chunks)) small framed in
    let e : d ≡ idle limit = ground arith in
    rw e (feed_all-join (idle limit) chunk chunks (ground (arith, whole)) ∙ whole)

-- The loop's fuel at an oversized header is never 0.
drain-oversized :
    (f limit n : ℕ) (rest : List ℕ)
    → limit < n
    → n < 4294967296
    → drain (suc f) (at_frame limit (pack_header n ++ rest) [])
      ≡ record { decoder = idle limit; payloads = []; issues = oversized_frame n limit ∷ [] }
unfolding drain declare reset
drain-oversized f limit n rest big small = ground (arith, turn-header limit n rest [] small)

feed-oversized :
    (limit n : ℕ) (rest : List ℕ)
    → limit < n
    → n < 4294967296
    → feed (idle limit) (pack_header n ++ rest)
      ≡ (idle limit, record { payloads = []; issues = oversized_frame n limit ∷ [] })
unfolding feed
feed-oversized limit n rest big small =
    let enough : fuel_for (idle limit) (pack_header n ++ rest)
        ≡ suc (length (pack_header n ++ rest) + 1) =
      omega arith in
    ap (λ (m : Loop). (m.decoder, record { payloads = m.payloads; issues = m.issues }))
      (rw enough (drain-oversized (length (pack_header n ++ rest) + 1) limit n rest big small))

frame_all-one :
    (limit : ℕ) (p frame : List ℕ)
    → frame_payload limit p ≡ some frame
    → frame_all limit (p ∷ []) ≡ some frame
unfolding frame_all
frame_all-one limit p frame h = ground (arith, append-nil frame)

-- An oversized header (below 2 ^ 32) that arrives together with a well-formed frame behind it drops
-- both; if the frame comes in a chunk of its own, it is delivered as a payload.
pub oversized_then_frame :
    (limit n : ℕ) (p frame : List ℕ)
    → limit < n
    → n < 4294967296
    → frame_payload limit p ≡ some frame
    → (feed_all (idle limit) ((pack_header n ++ frame) ∷ [])
        ≡ (idle limit, record { payloads = []; issues = oversized_frame n limit ∷ [] }))
      × (feed_all (idle limit) (pack_header n ∷ frame ∷ [])
          ≡ (idle limit, record { payloads = p ∷ []; issues = oversized_frame n limit ∷ [] }))
unfolding feed_all
oversized_then_frame limit n p frame big small framed =
    let single = frame_all-one limit p frame framed in
    (
      ground (arith, feed-oversized limit n frame big small),
      ground (
        arith,
        feed-oversized limit n [] big small,
        append-nil (pack_header n),
        feed-frames limit (p ∷ []) frame (omega arith) single,
      ),
    )
