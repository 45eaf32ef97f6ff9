-- ===== src/Ingestion/Pipeline.antt =====
-- backend/app/ingestion/pipeline.py: frames to bounded, attributed events.
pub mod Counters
pub mod Accounting
pub mod Ring
pub mod Keeping
pub mod Delivery
pub mod Runs
pub mod Ordered
pub mod Closing
mod Tests
use continuous_auth.Common.{
  ℕ, ◌+◌, ◌*◌, Bool, true, false, not, ◌||◌, Option, none, some, List, [], ◌∷◌, ◌++◌, map, String,
  ◌==◌, is_some, is_blank, if◌then◌else◌, length, push_bounded,
}
use continuous_auth.Ingestion.Framing
use continuous_auth.Ingestion.Framing.{
  Decoder, DecodeResult, FrameIssue, zero_length_frame, oversized_frame, truncated_payload,
  truncated_header,
}
use continuous_auth.Ingestion.Ordering
use continuous_auth.Ingestion.Ordering.{
  SequenceTracker, OrderingStatus, accepted, gap_accepted, duplicate, out_of_order,
}
use continuous_auth.Ingestion.Events.{
  IngestedEvent, AuthenticatedEntry, AttributedEvent, LifecycleEvent, LifecycleKind,
  session_started, IngestionCounters,
}
use continuous_auth.Ingestion.Sessions
use continuous_auth.Ingestion.Sessions.{SessionManager, Result, ok, err}
use continuous_auth.Ingestion.Validation.{
  Parser, validate_payload, valid, invalid, ValidationResult, ValidationIssue, ValidationIssueCode,
  malformed_json, invalid_event_schema,
}
use continuous_auth.Ingestion.Recording.{
  AvailabilityEvent, Detail, IngestionBatch, IngestionSettings, Pipeline, Signal, assemble,
  availability_signal, count_frame_issue, count_validation_issue, emit_lifecycle, event_signal,
  and_then, call_sink, frame_issue_code, idle_split_us, joined, lifecycle_signal, new_pipeline,
  no_counts, nothing, of_frame, raise_availability, record_frame_issue, record_frame_issues,
  record_validation_issue, text, validation_issue_code,
}

abbrev pub inactive_session : AvailabilityEvent
inactive_session = record {
  code = "INACTIVE_SESSION";
  component = "session";
  detail = text "validated event rejected because no authenticated session is active";
}

module _ (sink : List Signal → Signal → Bool) where
  -- The end of the loop's body in `_consume_decoded`, for an event that was attributed: the ring, the
  -- count and the sink.
  pub keep_event :
      AttributedEvent → List LifecycleEvent → Pipeline → Option IngestionBatch × Pipeline
  unfolding call_sink
  keep_event a changes p =
      let overwritten : ℕ = if length p.raw_ring == p.capacity then 1 else 0 in
      and_then
        (call_sink sink (event_signal a) (record p {
          raw_ring = push_bounded p.capacity p.raw_ring a;
          counters = record (p.counters) {
            raw_ring_overwrites = p.counters.raw_ring_overwrites + overwritten;
            events_accepted = p.counters.events_accepted + 1;
          };
        }))
        (λ _ p'. (some (record { events = a ∷ []; lifecycle = changes; availability = [] }), p'))

  -- What follows the attribution, which found a session or none.
  pub deliver :
      Option AttributedEvent → List LifecycleEvent → Pipeline → Option IngestionBatch × Pipeline
  unfolding keep_event raise_availability emit_lifecycle
  deliver none changes p =
      and_then
        (raise_availability sink inactive_session (record p {
          counters = record (p.counters) {
            inactive_session_rejections = p.counters.inactive_session_rejections + 1;
          };
        }))
        (λ e p'. (some (record nothing { availability = e ∷ [] }), p'))
  deliver (some a) changes p =
      and_then (emit_lifecycle sink changes p) (λ _ p'. keep_event a changes p')

module _ (sink : List Signal → Signal → Bool) (make_id : String → ℕ → String) where
  -- An event by the status that the tracker gave it.
  pub admit : OrderingStatus → IngestedEvent → Pipeline → Option IngestionBatch × Pipeline
  unfolding deliver
  admit duplicate event p = (
    some nothing,
    record p {
      counters = record (p.counters) { duplicate_rejections = p.counters.duplicate_rejections + 1 };
    },
  )
  admit out_of_order event p = (
    some nothing,
    record p {
      counters = record (p.counters) {
        out_of_order_rejections = p.counters.out_of_order_rejections + 1;
      };
    },
  )
  admit accepted event p =
      let (attributed, changes, m) = Sessions.attribute make_id event p.sessions in
      deliver sink attributed changes (record p { sessions = m })
  admit gap_accepted event p =
      let (attributed, changes, m) = Sessions.attribute make_id event p.sessions in
      deliver sink attributed changes (record p { sessions = m })

  -- A validated event is observed by the tracker first.
  pub order_event : IngestedEvent → Pipeline → Option IngestionBatch × Pipeline
  unfolding admit
  order_event event p =
      let (t, r) = Ordering.observe event.seq (some event.t_capture_us) p.ordering in
      admit r.status event (record p {
        ordering = t;
        counters = record (p.counters) {
          missing_sequences = p.counters.missing_sequences + r.missing_sequences;
        };
      })

  pub consume_validated : Option ValidationResult → Pipeline → Option IngestionBatch × Pipeline
  unfolding order_event record_validation_issue
  consume_validated none p = (none, p)
  consume_validated (some (invalid issue)) p =
      and_then (record_validation_issue sink issue p)
        (λ e p'. (some (record nothing { availability = e ∷ [] }), p'))
  consume_validated (some (valid event)) p = order_event event p

module _ (sink : List Signal → Signal → Bool) (parser : Parser)
    (make_id : String → ℕ → String) where
  -- The body of the loop over the payloads.
  pub consume_payload : List ℕ → Pipeline → Option IngestionBatch × Pipeline
  unfolding consume_validated
  consume_payload payload p =
      consume_validated sink make_id (validate_payload parser payload) (record p {
        counters = record (p.counters) { frames_received = p.counters.frames_received + 1 };
      })

  -- An exception loses the payloads that are left.
  pub consume_payloads : List (List ℕ) → Pipeline → Option IngestionBatch × Pipeline
  unfolding consume_payload
  consume_payloads [] p = (some nothing, p)
  consume_payloads (payload ∷ payloads) p =
      and_then (consume_payload payload p)
        (λ b p'. and_then (consume_payloads payloads p') (λ bs p''. (some (joined b bs), p'')))

  -- `_consume_decoded`
  pub consume_decoded : DecodeResult → Pipeline → Option IngestionBatch × Pipeline
  unfolding consume_payloads record_frame_issues
  consume_decoded decoded p =
      and_then (record_frame_issues sink decoded.issues p) (λ availability p'.
        and_then (consume_payloads decoded.payloads p')
          (λ b p''. (some (joined (record nothing { availability = availability }) b), p'')))

  unfoldable pub feed : List ℕ → Pipeline → Option IngestionBatch × Pipeline
  unfolding consume_decoded
  feed chunk p =
      let (d, decoded) = Framing.feed p.decoder chunk in
      consume_decoded decoded (record p {
        decoder = d;
        counters = record (p.counters) { chunks_received = p.counters.chunks_received + 1 };
      })

  unfoldable pub finish_transport : Pipeline → Option IngestionBatch × Pipeline
  unfolding consume_decoded
  finish_transport p =
      let (d, decoded) = Framing.finish p.decoder in
      consume_decoded decoded (record p { decoder = d })

  unfoldable pub recover_transport : Pipeline → Option IngestionBatch × Pipeline
  unfolding finish_transport
  recover_transport p =
      and_then (finish_transport p)
        (λ b p'. (some b, record p' { decoder = Framing.reset p'.decoder }))

-- The tracker and the ring are emptied where a session starts or ends.
abbrev pub forget_stream : Pipeline → Pipeline
forget_stream p = record p { ordering = Ordering.reset p.ordering; raw_ring = [] }

abbrev pub is_session_started : LifecycleKind → Bool
is_session_started session_started = true
is_session_started _ = false

module _ (sink : List Signal → Signal → Bool) where
  -- An error of the session manager leaves the pipeline as it is.
  pub begun : Result (LifecycleEvent × SessionManager) → Pipeline → Option LifecycleEvent × Pipeline
  unfolding emit_lifecycle
  begun (err e) p = (none, p)
  begun (ok (event, m)) p =
      let p' = record p { sessions = m } in
      and_then
        (emit_lifecycle sink (event ∷ [])
          (if is_session_started event.kind then forget_stream p' else p'))
        (λ _ p''. (some event, p''))

  unfoldable pub start_session :
      (String → ℕ → String) → AuthenticatedEntry → Pipeline → Option LifecycleEvent × Pipeline
  unfolding begun
  start_session make_id entry p = begun (Sessions.start make_id entry p.sessions) p

  pub ended :
      Result (List LifecycleEvent × SessionManager)
      → Pipeline
      → Option (List LifecycleEvent) × Pipeline
  unfolding emit_lifecycle
  ended (err e) p = (none, p)
  ended (ok (events, m)) p =
      and_then (emit_lifecycle sink events (record p { sessions = m }))
        (λ _ p'. (some events, forget_stream p'))

  unfoldable pub end_session : String → Pipeline → Option (List LifecycleEvent) × Pipeline
  unfolding ended
  end_session reason p = ended (Sessions.end_session reason p.sessions) p

  -- A blank field is a `ValueError`.
  unfoldable pub report_infrastructure_failure :
      String → String → String → Pipeline → Option AvailabilityEvent × Pipeline
  unfolding raise_availability
  report_infrastructure_failure code component detail p =
      let e : AvailabilityEvent = record {
        code = code;
        component = component;
        detail = text detail;
      } in
      let raised = raise_availability sink e p in
      if is_blank code || is_blank component || is_blank detail then (none, p) else raised

  unfoldable pub shutdown :
      (parser : Parser) → (String → ℕ → String) → Pipeline → Option (List LifecycleEvent) × Pipeline
  unfolding finish_transport end_session
  shutdown parser make_id p = and_then (finish_transport sink parser make_id p) (λ _ p'.
      let closed = end_session "SHUTDOWN" p' in
      if is_some (Sessions.active_session_id p'.sessions) then closed else (some [], p'))
