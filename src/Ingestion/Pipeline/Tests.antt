-- ===== src/Ingestion/Pipeline/Tests.antt =====
-- Runs of the pipeline of backend/app/ingestion/pipeline.py, with a parser that reads a payload as
-- the sequence number and the time of a keyboard event.
use continuous_auth.Ingestion.Framing.{
  finish, take_payload, unpack_header, declare, read_header, turn, drain,
}
use continuous_auth.Common.{
  is_blank, Bool, not, is_some, ℕ, ◌≡◌, refl, true, Option, none, some, List, [], ◌∷◌, String,
}
use continuous_auth.Ingestion.Events.{IngestedEvent, EventKind, AuthenticatedEntry, LifecycleEvent}
use continuous_auth.Ingestion.Framing
use continuous_auth.Ingestion.Sessions
use continuous_auth.Ingestion.Sessions.{ok}
use continuous_auth.Ingestion.Validation.{Parser, document, other_error, validate_payload}
use continuous_auth.Ingestion.Recording.{
  Signal, IngestionSettings, Pipeline, no_counts, new_pipeline,
}
use continuous_auth.Ingestion.Pipeline.{
  shutdown, finish_transport, start_session, begun, feed, consume_decoded, consume_payloads,
  consume_payload, consume_validated,
}
use continuous_auth.Ingestion.Pipeline.Counters.{Accounts, is_availability}
use continuous_auth.Ingestion.Pipeline.Ring.{IsOrdered}
use continuous_auth.Ingestion.Pipeline.Runs.{
  Call, start_call, feed_call, finish_call, shutdown_call, report_call, run, call, raises_of,
  reports_of, run-Accounts,
}
use continuous_auth.Ingestion.Pipeline.Closing.{shutdown_closes}
use continuous_auth.Ingestion.Pipeline.Ordered.{run-IsOrdered}

abbrev read_event : EventKind → List ℕ → Option IngestedEvent
read_event kind (seq ∷ t ∷ body) =
    some (record { kind = kind; seq = seq; t_capture_us = t; body = body })
read_event kind _ = none

abbrev parser : Parser
parser = record {
  Document = List ℕ;
  loads = document;
  is_dict = λ _. true;
  type_text = λ _. some "KEY_DOWN";
  model_validate = read_event;
}

abbrev quiet : List Signal → Signal → Bool
quiet before s = true

abbrev make_id : String → ℕ → String
make_id prefix n = prefix

abbrev settings : IngestionSettings
settings = record { max_frame_bytes = 8; raw_event_ring_capacity = 2; idle_split_seconds = 1 }

abbrev pipeline : Pipeline
pipeline = record {
  capacity = 2;
  decoder = record { max_frame_bytes = 8; buffer = []; expected_payload_bytes = none };
  ordering = record {
    history_capacity = 2;
    recent = [];
    recent_set = [];
    expected = none;
    last_capture_us = none;
  };
  sessions = record { idle_split_us = 1000000; issued = 0; active = none };
  raw_ring = [];
  counters = no_counts;
  sent = [];
}

abbrev entry : AuthenticatedEntry
entry = record {
  user_id = "u";
  evidence_id = "proof";
  authenticated = true;
  wall_clock_anchor = record { instant = 5; has_tzinfo = true; has_utcoffset = true };
  session_id = none;
}

-- An event before any session, two in one, a repeated one, a malformed one and half a frame.
abbrev calls : List Call
calls =
    feed_call (0 ∷ 0 ∷ 0 ∷ 2 ∷ 1 ∷ 10 ∷ [])
    ∷ start_call entry
    ∷ feed_call (0 ∷ 0 ∷ 0 ∷ 2 ∷ 2 ∷ 20 ∷ 0 ∷ 0 ∷ 0 ∷ 2 ∷ 3 ∷ 30 ∷ [])
    ∷ feed_call (0 ∷ 0 ∷ 0 ∷ 2 ∷ 3 ∷ 30 ∷ 0 ∷ 0 ∷ 0 ∷ 1 ∷ 9 ∷ 0 ∷ 0 ∷ [])
    ∷ finish_call
    ∷ report_call "DISK" "storage" "full"
    ∷ shutdown_call
    ∷ []

run-Accounts_example :
    Accounts 0
      (reports_of calls)
      (raises_of quiet parser make_id calls pipeline)
      (run quiet parser make_id calls pipeline)
unfolding new_pipeline
run-Accounts_example = run-Accounts quiet parser make_id settings pipeline calls refl

run-IsOrdered_example : IsOrdered (run quiet parser make_id calls pipeline)
unfolding new_pipeline
run-IsOrdered_example = run-IsOrdered quiet parser make_id settings pipeline calls refl

-- The payload of a frame that no decoder of JSON gets to the end of is lost.
abbrev overflowing : Parser
overflowing = record parser { loads = λ payload. other_error }

abbrev run_calls : List Call
run_calls = start_call entry ∷ feed_call (0 ∷ 0 ∷ 0 ∷ 2 ∷ 2 ∷ 20 ∷ []) ∷ []

frame_lost :
    (run quiet overflowing make_id run_calls pipeline).counters
    ≡ record no_counts { chunks_received = 1; frames_received = 1 }
unfolding run call start_session begun feed consume_decoded consume_payloads consume_payload
    consume_validated validate_payload Framing.feed drain Sessions.start is_blank turn read_header
    declare unpack_header take_payload
frame_lost = refl

-- A sink of availability events that raises at half a frame leaves the session active.
abbrev failing : List Signal → Signal → Bool
failing before s = not (is_availability s)

abbrev half : List Call
half = start_call entry ∷ feed_call (0 ∷ 0 ∷ []) ∷ shutdown_call ∷ []

session_left_open : is_some (run failing parser make_id half pipeline).sessions.active ≡ true
unfolding run call start_session begun feed consume_decoded consume_payloads shutdown
    finish_transport finish Framing.feed drain Sessions.start is_blank turn read_header
session_left_open = refl

shutdown_closes_example :
    (es : List LifecycleEvent) × (p' : Pipeline) × (shutdown quiet parser make_id
        (run quiet parser make_id calls pipeline)
      ≡ (some es, p'))
    × (Sessions.active_session_id p'.sessions ≡ none)
shutdown_closes_example =
    shutdown_closes quiet (λ before s. refl) parser make_id
      (run quiet parser make_id calls pipeline)
