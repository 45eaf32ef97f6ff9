-- ===== src/Ingestion/Framing/Tests.antt =====
-- Runs of the decoder of backend/app/ingestion/framing.py.
use continuous_auth.Common.{ℕ, ◌≡◌, refl, List, [], ◌∷◌, ◌++◌, arith, All}
use continuous_auth.Ingestion.Framing.{
  take_payload, unpack_header, declare, read_header, turn, drain, oversized_frame,
  zero_length_frame, truncated_payload, new_decoder, feed, feed_all, finish, frame_payload,
  pack_header,
}
use continuous_auth.Ingestion.Framing.Bounds.{
  IsWaiting, Delivers, feed-IsWaiting, new_decoder-IsWaiting,
}
use continuous_auth.Ingestion.Framing.Chunks.{feed_all-join, join}
use continuous_auth.Ingestion.Framing.RoundTrip.{
  feed_all-frame_all, oversized_then_frame, idle, frame_all,
}

abbrev two_frames : List (List ℕ)
two_frames = (0 ∷ 0 ∷ []) ∷ (0 ∷ 2 ∷ 7 ∷ []) ∷ (8 ∷ 0 ∷ 0 ∷ 0 ∷ 1 ∷ 9 ∷ []) ∷ []

-- A payload waits for its last byte.
feed_in_parts : (feed (idle 4) (0 ∷ 0 ∷ 0 ∷ 2 ∷ 7 ∷ [])).1 ≡ record { payloads = []; issues = [] }
unfolding feed drain turn read_header declare unpack_header take_payload
feed_in_parts = refl

-- An empty frame is reported, and the next one is delivered.
feed_empty_frame :
    (feed (idle 4) (0 ∷ 0 ∷ 0 ∷ 0 ∷ 0 ∷ 0 ∷ 0 ∷ 1 ∷ 5 ∷ [])).1
    ≡ record { payloads = (5 ∷ []) ∷ []; issues = zero_length_frame ∷ [] }
unfolding feed drain turn read_header declare unpack_header take_payload
feed_empty_frame = refl

finish_truncated :
    (finish (feed (idle 4) (0 ∷ 0 ∷ 0 ∷ 2 ∷ 7 ∷ [])).0).1
    ≡ record { payloads = []; issues = truncated_payload 1 2 ∷ [] }
unfolding feed finish drain turn read_header declare unpack_header take_payload
finish_truncated = refl

feed_all-frame_all_example :
    feed_all (idle 4) two_frames
    ≡ (idle 4, record { payloads = (7 ∷ 8 ∷ []) ∷ (9 ∷ []) ∷ []; issues = [] })
unfolding new_decoder frame_all frame_payload pack_header
feed_all-frame_all_example =
    feed_all-frame_all 4 (idle 4) ((7 ∷ 8 ∷ []) ∷ (9 ∷ []) ∷ []) (0 ∷ 0 ∷ [])
      ((0 ∷ 2 ∷ 7 ∷ []) ∷ (8 ∷ 0 ∷ 0 ∷ 0 ∷ 1 ∷ 9 ∷ []) ∷ []) (omega arith) refl refl

feed_all-join_example : feed_all (idle 4) two_frames ≡ feed (idle 4) (join two_frames)
unfolding feed drain turn read_header declare unpack_header take_payload
feed_all-join_example =
    feed_all-join (idle 4) (0 ∷ 0 ∷ []) ((0 ∷ 2 ∷ 7 ∷ []) ∷ (8 ∷ 0 ∷ 0 ∷ 0 ∷ 1 ∷ 9 ∷ []) ∷ []) refl

feed-IsWaiting_example :
    IsWaiting (feed (idle 4) (0 ∷ 0 ∷ 0 ∷ 2 ∷ 7 ∷ [])).0
    × ((feed (idle 4) (0 ∷ 0 ∷ 0 ∷ 2 ∷ 7 ∷ [])).0.max_frame_bytes ≡ 4)
    × All (Delivers 4) (feed (idle 4) (0 ∷ 0 ∷ 0 ∷ 2 ∷ 7 ∷ [])).1.payloads
unfolding new_decoder
feed-IsWaiting_example =
    feed-IsWaiting (idle 4) (0 ∷ 0 ∷ 0 ∷ 2 ∷ 7 ∷ []) (new_decoder-IsWaiting 4 (idle 4) refl).0

oversized_then_frame_example :
    (feed_all (idle 4) ((pack_header 5 ++ 0 ∷ 0 ∷ 0 ∷ 1 ∷ 9 ∷ []) ∷ [])
      ≡ (idle 4, record { payloads = []; issues = oversized_frame 5 4 ∷ [] }))
    × (feed_all (idle 4) (pack_header 5 ∷ (0 ∷ 0 ∷ 0 ∷ 1 ∷ 9 ∷ []) ∷ [])
        ≡ (idle 4, record { payloads = (9 ∷ []) ∷ []; issues = oversized_frame 5 4 ∷ [] }))
unfolding frame_payload pack_header
oversized_then_frame_example =
    oversized_then_frame 4 5 (9 ∷ []) (0 ∷ 0 ∷ 0 ∷ 1 ∷ 9 ∷ []) (omega arith) (omega arith) refl
