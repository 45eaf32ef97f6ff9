-- ===== src/Ingestion/Events.antt =====
-- backend/app/ingestion/types.py: validated events, attribution, lifecycle and availability values,
-- counters. Of an event the ingestion path reads its class, sequence number and capture time; its
-- other fields are carried in `body`.
use continuous_auth.Common.{ℕ, Bool, true, false, Option, List, String}

-- The classes of `IngestedEvent`.
pub data EventKind : Type 0 where
  keyboard mouse context heartbeat app_registry device_metadata : EventKind

-- `isinstance(event, InputEvent)`
abbrev pub is_input : EventKind → Bool
is_input keyboard = true
is_input mouse = true
is_input context = false
is_input heartbeat = false
is_input app_registry = false
is_input device_metadata = false

pub record IngestedEvent : Type 0 where
  pub kind : EventKind
  pub seq : ℕ
  pub t_capture_us : ℕ
  pub body : List ℕ

-- A `datetime`, with what `tzinfo` and `utcoffset()` say of it.
pub record Anchor : Type 0 where
  pub instant : ℕ
  pub has_tzinfo : Bool
  pub has_utcoffset : Bool

pub record AuthenticatedEntry : Type 0 where
  pub user_id : String
  pub evidence_id : String
  pub authenticated : Bool
  pub wall_clock_anchor : Anchor
  pub session_id : Option String

pub record AttributedEvent : Type 0 where
  pub event : IngestedEvent
  pub user_id : String
  pub session_id : String
  pub segment_id : String

pub data LifecycleKind : Type 0 where
  session_started session_ended session_start_rejected segment_started segment_ended : LifecycleKind

pub record LifecycleEvent : Type 0 where
  pub kind : LifecycleKind
  pub user_id : String
  pub session_id : Option String
  pub segment_id : Option String
  pub t_capture_us : Option ℕ
  pub reason : String
  pub wall_clock_anchor : Option Anchor
  pub entry_auth_evidence : Option String

pub record IngestionCounters : Type 0 where
  pub chunks_received : ℕ
  pub frames_received : ℕ
  pub events_accepted : ℕ
  pub malformed_frames : ℕ
  pub schema_rejections : ℕ
  pub oversized_frames : ℕ
  pub zero_length_frames : ℕ
  pub truncated_frames : ℕ
  pub missing_sequences : ℕ
  pub duplicate_rejections : ℕ
  pub out_of_order_rejections : ℕ
  pub inactive_session_rejections : ℕ
  pub raw_ring_overwrites : ℕ
  pub availability_events : ℕ
