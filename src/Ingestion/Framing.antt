-- ===== src/Ingestion/Framing.antt =====
-- backend/app/ingestion/framing.py: the incremental decoder of length-prefixed frames, and
-- tools/synthetic/framing.py: the encoder of the same frames. A byte is a number below 256.
mod Turns
mod Drain
pub mod Bounds
pub mod Chunks
pub mod RoundTrip
mod Tests
use continuous_auth.Common.{
  ℕ, zero, suc, ◌+◌, ◌*◌, ◌/◌, ◌%◌, ◌<◌, Bool, true, false, Option, none, some, List, [], ◌∷◌, ◌++◌,
  ltb, ◌==◌, if◌then◌else◌, length, take, drop, All,
}

abbrev pub IsByte : ℕ → Type 0
IsByte b = b < 256

-- `FRAME_HEADER.size`
abbrev pub header_size : ℕ
header_size = 4

-- `FRAME_HEADER.unpack`: four bytes, most significant first. The code calls it on four bytes only.
unfoldable pub unpack_header : List ℕ → ℕ
unpack_header (a ∷ b ∷ c ∷ d ∷ _) = ((a * 256 + b) * 256 + c) * 256 + d
unpack_header _ = 0

-- `FRAME_HEADER.pack`
unfoldable pub pack_header : ℕ → List ℕ
pack_header n = n / 16777216 % 256 ∷ n / 65536 % 256 ∷ n / 256 % 256 ∷ n % 256 ∷ []

-- The code of an issue with the numbers that its `detail` text prints.
pub data FrameIssue : Type 0 where
  zero_length_frame : FrameIssue
  -- the declared size and the configured maximum
  oversized_frame : ℕ → ℕ → FrameIssue
  -- the bytes at hand and the payload bytes expected
  truncated_payload : ℕ → ℕ → FrameIssue
  -- the header bytes at hand
  truncated_header : ℕ → FrameIssue

pub record DecodeResult : Type 0 where
  pub payloads : List (List ℕ)
  pub issues : List FrameIssue

pub record Decoder : Type 0 where
  pub max_frame_bytes : ℕ
  pub buffer : List ℕ
  pub expected_payload_bytes : Option ℕ

-- The constructor raises a `ValueError` at a maximum of 0.
unfoldable pub new_decoder : ℕ → Option Decoder
new_decoder max_bytes =
    if max_bytes == 0
    then none
    else some (record { max_frame_bytes = max_bytes; buffer = []; expected_payload_bytes = none })

unfoldable pub reset : Decoder → Decoder
reset d = record d { buffer = []; expected_payload_bytes = none }

unfoldable pub buffered_bytes : Decoder → ℕ
buffered_bytes d = length d.buffer

-- The variables of the loop in `feed`.
pub record Loop : Type 0 where
  pub decoder : Decoder
  pub payloads : List (List ℕ)
  pub issues : List FrameIssue

-- The end of the loop's body, with `expected` known: wait for the payload, or take it. The flag
-- says whether the loop goes on.
unfoldable pub take_payload : ℕ → Loop → Bool × Loop
take_payload expected l = if ltb (length l.decoder.buffer) expected then (false, l) else (
  true,
  record l {
    decoder = record (l.decoder) {
      buffer = drop expected l.decoder.buffer;
      expected_payload_bytes = none;
    };
    payloads = l.payloads ++ take expected l.decoder.buffer ∷ [];
  },
)

-- The body after a header has been read and removed from the buffer.
unfoldable pub declare : ℕ → Loop → Bool × Loop
unfolding reset
declare declared l =
    if declared == 0
    then (true, record l { issues = l.issues ++ zero_length_frame ∷ [] })
    else if ltb l.decoder.max_frame_bytes declared
    then (
      false,
      record l {
        decoder = reset l.decoder;
        issues = l.issues ++ oversized_frame declared l.decoder.max_frame_bytes ∷ [];
      },
    )
    else take_payload declared
        (record l { decoder = record (l.decoder) { expected_payload_bytes = some declared } })

unfoldable pub read_header : Loop → Bool × Loop
read_header l =
    if ltb (length l.decoder.buffer) header_size
    then (false, l)
    else declare (unpack_header (take header_size l.decoder.buffer))
        (record l { decoder = record (l.decoder) { buffer = drop header_size l.decoder.buffer } })

turn_at : Option ℕ → Loop → Bool × Loop
turn_at none l = read_header l
turn_at (some expected) l = take_payload expected l

-- One run of the body of `while True`.
unfoldable pub turn : Loop → Bool × Loop
unfolding turn_at
turn l = turn_at l.decoder.expected_payload_bytes l

-- `while True` on fuel; each turn that goes on consumes a byte or an expected size.
unfoldable pub drain : ℕ → Loop → Loop
drain zero l = l
drain (suc fuel) l = let rest = drain fuel (turn l).1 in if (turn l).0 then rest else (turn l).1

unfoldable pub feed : Decoder → List ℕ → Decoder × DecodeResult
feed d chunk =
    let start : Loop = record {
      decoder = record d { buffer = d.buffer ++ chunk };
      payloads = [];
      issues = [];
    } in
    let l = drain (length d.buffer + length chunk + 2) start in
    (l.decoder, record { payloads = l.payloads; issues = l.issues })

truncation : Option ℕ → List ℕ → List FrameIssue
truncation none [] = []
truncation none (b ∷ bs) = truncated_header (length (b ∷ bs)) ∷ []
truncation (some expected) bs = truncated_payload (length bs) expected ∷ []

-- `finish`: in the first case nothing is buffered, and the reset changes nothing.
unfoldable pub finish : Decoder → Decoder × DecodeResult
unfolding truncation reset
finish d =
    (reset d, record { payloads = []; issues = truncation d.expected_payload_bytes d.buffer })

-- `feed` over the chunks in turn, as a reader of a stream calls it.
unfoldable pub feed_all : Decoder → List (List ℕ) → Decoder × DecodeResult
feed_all d [] = (d, record { payloads = []; issues = [] })
feed_all d (chunk ∷ chunks) =
    let (d', r) = feed d chunk in
    let (d'', rs) = feed_all d' chunks in
    (d'', record { payloads = r.payloads ++ rs.payloads; issues = r.issues ++ rs.issues })

-- `frame_payload`: `none` is `SyntheticFrameError`.
unfoldable pub frame_payload : ℕ → List ℕ → Option (List ℕ)
frame_payload max_bytes [] = none
frame_payload max_bytes (b ∷ bs) =
    if ltb max_bytes (length (b ∷ bs)) then none else some (pack_header (length (b ∷ bs)) ++ b ∷ bs)
