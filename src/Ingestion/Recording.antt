-- ===== src/Ingestion/Recording.antt =====
-- backend/app/ingestion/pipeline.py and types.py: the state of the pipeline and how it records what
-- goes wrong. The calls of the three sinks are recorded in `sent`, in their order. The parameter `sink`
-- tells, from the calls before and the call itself, whether it returns or raises; a sink that is
-- absent returns. What a method answers is none where an exception escapes from it.
use continuous_auth.Common.{
  Bool, if◌then◌else◌, ℕ, ◌+◌, ◌*◌, Option, none, some, List, [], ◌∷◌, ◌++◌, String,
}
use continuous_auth.Ingestion.Framing
use continuous_auth.Ingestion.Framing.{
  Decoder, DecodeResult, FrameIssue, zero_length_frame, oversized_frame, truncated_payload,
  truncated_header,
}
use continuous_auth.Ingestion.Ordering
use continuous_auth.Ingestion.Ordering.{
  SequenceTracker, OrderingStatus, accepted, gap_accepted, duplicate, out_of_order,
}
use continuous_auth.Ingestion.Events.{AttributedEvent, LifecycleEvent, IngestionCounters}
use continuous_auth.Ingestion.Sessions
use continuous_auth.Ingestion.Sessions.{SessionManager, Result, ok, err}
use continuous_auth.Ingestion.Validation.{
  ValidationIssue, ValidationIssueCode, malformed_json, invalid_event_schema,
}

pub record IngestionSettings : Type 0 where
  pub max_frame_bytes : ℕ
  pub raw_event_ring_capacity : ℕ
  pub idle_split_seconds : ℕ

-- the property `IngestionSettings.idle_split_us`
abbrev pub idle_split_us : IngestionSettings → ℕ
idle_split_us s = s.idle_split_seconds * 1000000

-- The detail of an availability event: a text, or the numbers that a frame issue prints.
pub data Detail : Type 0 where
  text : String → Detail
  of_frame : FrameIssue → Detail

pub record AvailabilityEvent : Type 0 where
  pub code : String
  pub component : String
  pub detail : Detail

pub data Signal : Type 0 where
  event_signal : AttributedEvent → Signal
  lifecycle_signal : LifecycleEvent → Signal
  availability_signal : AvailabilityEvent → Signal

pub record Pipeline : Type 0 where
  pub capacity : ℕ
  pub decoder : Decoder
  pub ordering : SequenceTracker
  pub sessions : SessionManager
  pub raw_ring : List AttributedEvent
  pub counters : IngestionCounters
  pub sent : List Signal

-- `IngestionBatch`, whose counters are those of the pipeline when it is returned.
pub record IngestionBatch : Type 0 where
  pub events : List AttributedEvent
  pub lifecycle : List LifecycleEvent
  pub availability : List AvailabilityEvent

abbrev pub no_counts : IngestionCounters
no_counts = record {
  chunks_received = 0;
  frames_received = 0;
  events_accepted = 0;
  malformed_frames = 0;
  schema_rejections = 0;
  oversized_frames = 0;
  zero_length_frames = 0;
  truncated_frames = 0;
  missing_sequences = 0;
  duplicate_rejections = 0;
  out_of_order_rejections = 0;
  inactive_session_rejections = 0;
  raw_ring_overwrites = 0;
  availability_events = 0;
}

-- The parts of a pipeline raise where their settings are 0.
unfoldable pub assemble :
    ℕ → Option Decoder → Option SequenceTracker → Option SessionManager → Option Pipeline
assemble capacity (some d) (some t) (some m) = some (record {
  capacity = capacity;
  decoder = d;
  ordering = t;
  sessions = m;
  raw_ring = [];
  counters = no_counts;
  sent = [];
})
assemble capacity _ _ _ = none

unfoldable pub new_pipeline : IngestionSettings → Option Pipeline
unfolding assemble Framing.new_decoder Ordering.new_tracker Sessions.new_manager
new_pipeline s =
    assemble s.raw_event_ring_capacity (Framing.new_decoder s.max_frame_bytes)
      (Ordering.new_tracker s.raw_event_ring_capacity) (Sessions.new_manager (idle_split_us s))

abbrev pub nothing : IngestionBatch
nothing = record { events = []; lifecycle = []; availability = [] }

abbrev pub joined : IngestionBatch → IngestionBatch → IngestionBatch
joined a b = record {
  events = a.events ++ b.events;
  lifecycle = a.lifecycle ++ b.lifecycle;
  availability = a.availability ++ b.availability;
}

-- What follows a step, unless it raised.
abbrev pub and_then :
    {A B : Type 0}
    → Option A × Pipeline
    → (A → Pipeline → Option B × Pipeline)
    → Option B × Pipeline
and_then (none, p) next = (none, p)
and_then (some a, p) next = next a p

unfoldable pub count_frame_issue : FrameIssue → IngestionCounters → IngestionCounters
count_frame_issue (oversized_frame _ _) c = record c { oversized_frames = c.oversized_frames + 1 }
count_frame_issue zero_length_frame c = record c { zero_length_frames = c.zero_length_frames + 1 }
count_frame_issue (truncated_payload _ _) c = record c { truncated_frames = c.truncated_frames + 1 }
count_frame_issue (truncated_header _) c = record c { truncated_frames = c.truncated_frames + 1 }

unfoldable pub frame_issue_code : FrameIssue → String
frame_issue_code (oversized_frame _ _) = "OVERSIZED_FRAME"
frame_issue_code zero_length_frame = "ZERO_LENGTH_FRAME"
frame_issue_code (truncated_payload _ _) = "TRUNCATED_FRAME"
frame_issue_code (truncated_header _) = "TRUNCATED_FRAME"

unfoldable pub count_validation_issue : ValidationIssueCode → IngestionCounters → IngestionCounters
count_validation_issue malformed_json c = record c { malformed_frames = c.malformed_frames + 1 }
count_validation_issue invalid_event_schema c = record c {
  schema_rejections = c.schema_rejections + 1;
}

unfoldable pub validation_issue_code : ValidationIssueCode → String
validation_issue_code malformed_json = "MALFORMED_JSON"
validation_issue_code invalid_event_schema = "INVALID_EVENT_SCHEMA"

module _ (sink : List Signal → Signal → Bool) where
  -- A call of a sink.
  unfoldable pub call_sink : Signal → Pipeline → Option (Unit {0}) × Pipeline
  call_sink s p = (if sink p.sent s then some tt else none, record p { sent = p.sent ++ s ∷ [] })

  -- `_emit_lifecycle`
  unfoldable pub emit_lifecycle : List LifecycleEvent → Pipeline → Option (Unit {0}) × Pipeline
  unfolding call_sink
  emit_lifecycle [] p = (some tt, p)
  emit_lifecycle (e ∷ es) p =
      and_then (call_sink (lifecycle_signal e) p) (λ _ p'. emit_lifecycle es p')

  -- `_availability`
  unfoldable pub raise_availability :
      AvailabilityEvent → Pipeline → Option AvailabilityEvent × Pipeline
  unfolding call_sink
  raise_availability e p =
      and_then
        (call_sink (availability_signal e) (record p {
          counters = record (p.counters) {
            availability_events = p.counters.availability_events + 1;
          };
        }))
        (λ _ p'. (some e, p'))

  -- `_record_frame_issue`
  unfoldable pub record_frame_issue : FrameIssue → Pipeline → Option AvailabilityEvent × Pipeline
  unfolding count_frame_issue frame_issue_code raise_availability
  record_frame_issue issue p =
      raise_availability
        (record { code = frame_issue_code issue; component = "transport"; detail = of_frame issue })
        (record p { counters = count_frame_issue issue p.counters })

  unfoldable pub record_frame_issues :
      List FrameIssue → Pipeline → Option (List AvailabilityEvent) × Pipeline
  unfolding record_frame_issue
  record_frame_issues [] p = (some [], p)
  record_frame_issues (issue ∷ issues) p =
      and_then (record_frame_issue issue p)
        (λ e p'. and_then (record_frame_issues issues p') (λ es p''. (some (e ∷ es), p'')))

  -- `_record_validation_issue`
  unfoldable pub record_validation_issue :
      ValidationIssue → Pipeline → Option AvailabilityEvent × Pipeline
  unfolding count_validation_issue validation_issue_code raise_availability
  record_validation_issue issue p =
      raise_availability
        (record {
          code = validation_issue_code issue.code;
          component = "protocol";
          detail = text issue.detail;
        })
        (record p { counters = count_validation_issue issue.code p.counters })
