-- ===== src/Ingestion/Pipeline/Delivery.antt =====
-- The raw ring of backend/app/ingestion/pipeline.py holds the last events in their order.
use continuous_auth.Common.{
  ℕ, ◌+◌, ◌≤◌, ◌≡◌, refl, sym, subst, Bool, Bool-cases, inl, inr, if◌then◌else◌, ◌==◌, true, Option,
  none, some, List, [], ◌∷◌, String, arith, length, push_bounded,
}
use continuous_auth.Ingestion.Framing
use continuous_auth.Ingestion.Framing.{DecodeResult, FrameIssue}
use continuous_auth.Ingestion.Ordering
use continuous_auth.Ingestion.Ordering.{
  SequenceTracker, OrderingStatus, accepted, gap_accepted, duplicate, out_of_order, is_accepted,
}
use continuous_auth.Ingestion.Ordering.Invariant.{IsRising, AllBelow, AllBelow-le}
use continuous_auth.Ingestion.Ordering.Traces.{bound_of, observe-bound}
use continuous_auth.Ingestion.Events.{IngestedEvent, AttributedEvent, LifecycleEvent}
use continuous_auth.Ingestion.Sessions
use continuous_auth.Ingestion.Sessions.{Result, ok, err, SessionManager}
use continuous_auth.Ingestion.Sessions.Segments.{attribute-event}
use continuous_auth.Ingestion.Validation.{
  Parser, ValidationResult, valid, invalid, validate_payload,
}
use continuous_auth.Ingestion.Recording.{
  Signal, event_signal, nothing, joined, and_then, call_sink, Pipeline, emit_lifecycle,
  raise_availability, record_frame_issues, record_validation_issue,
}
use continuous_auth.Ingestion.Pipeline.{
  inactive_session, keep_event, forget_stream, is_session_started, deliver, admit, order_event,
  consume_validated, consume_payload, consume_payloads, consume_decoded, feed, finish_transport,
  recover_transport, begun, ended,
}
use continuous_auth.Ingestion.Pipeline.Ring.{seqs, IsOrdered, push-ordered}
use continuous_auth.Ingestion.Pipeline.Keeping.{
  At, and_then-keeps, call_sink-At, emit_lifecycle-At, raise_availability-At,
  record_frame_issues-At, record_validation_issue-At,
}

-- The order of the ring, of the fields that it is about.
abbrev pub Order : List AttributedEvent → SequenceTracker → Type 0
Order ring t = IsRising 0 (seqs ring) × AllBelow (bound_of t.expected) (seqs ring)

pub ordered : (p : Pipeline) → Order p.raw_ring p.ordering → IsOrdered p
ordered p (r, b) = record { rising = r; below = b }

pub IsOrdered-Order : (p : Pipeline) → IsOrdered p → Order p.raw_ring p.ordering
IsOrdered-Order p o = (o.rising, o.below)

-- The ring of a tracker that has just accepted this event.
abbrev Room : IngestedEvent → List AttributedEvent → SequenceTracker → Type 0
Room event ring t =
    IsRising 0 (seqs ring) × AllBelow event.seq (seqs ring) × (event.seq + 1 ≤ bound_of t.expected)

Room-Order :
    (event : IngestedEvent) (ring : List AttributedEvent) (t : SequenceTracker)
    → Room event ring t
    → Order ring t
Room-Order event ring t (r, b, h) =
    (r, AllBelow-le event.seq (bound_of t.expected) (seqs ring) b (omega arith))

module _ (sink : List Signal → Signal → Bool) (make_id : String → ℕ → String) where
  keep_event-Order :
      (a : AttributedEvent) (changes : List LifecycleEvent) (p : Pipeline)
      → Room a.event p.raw_ring p.ordering
      → At sink Order (keep_event sink a changes p).1
  unfolding keep_event
  keep_event-Order a changes p (r, b, h) =
      let overwritten : ℕ = if length p.raw_ring == p.capacity then 1 else 0 in
      let kept = record p {
        raw_ring = push_bounded p.capacity p.raw_ring a;
        counters = record (p.counters) {
          raw_ring_overwrites = p.counters.raw_ring_overwrites + overwritten;
          events_accepted = p.counters.events_accepted + 1;
        };
      } in
      let (r', b') = push-ordered p.capacity p.raw_ring a r b in
      and_then-keeps (At sink Order) (At sink Order) (call_sink sink (event_signal a) kept)
        (λ _ p'. (some (record { events = a ∷ []; lifecycle = changes; availability = [] }), p'))
        (call_sink-At sink Order (event_signal a) kept (
          r',
          AllBelow-le (a.event.seq + 1) (bound_of p.ordering.expected)
              (seqs (push_bounded p.capacity p.raw_ring a)) b' h,
        ))
        (λ p' h'. h') (λ _ p' h'. h')

  -- The delivered event is the one that was observed.
  deliver-Order :
      (r : Option AttributedEvent) (changes : List LifecycleEvent) (event : IngestedEvent)
      (p : Pipeline)
      → ((a : AttributedEvent) → r ≡ some a → a.event ≡ event)
      → Room event p.raw_ring p.ordering
      → At sink Order (deliver sink r changes p).1
  unfolding deliver
  deliver-Order none changes event p same h =
      let rejected = record p {
        counters = record (p.counters) {
          inactive_session_rejections = p.counters.inactive_session_rejections + 1;
        };
      } in
      and_then-keeps (At sink Order) (At sink Order)
        (raise_availability sink inactive_session rejected)
        (λ e p'. (some (record nothing { availability = e ∷ [] }), p'))
        (raise_availability-At sink Order inactive_session rejected
          (Room-Order event p.raw_ring p.ordering h))
        (λ p' h'. h') (λ e p' h'. h')
  deliver-Order (some a) changes event p same h =
      let h' = subst (λ x. Room x p.raw_ring p.ordering) (sym (same a refl)) h in
      and_then-keeps (At sink (Room a.event)) (At sink Order) (emit_lifecycle sink changes p)
        (λ _ p'. keep_event sink a changes p') (emit_lifecycle-At sink (Room a.event) changes p h')
        (λ p' r. Room-Order a.event p'.raw_ring p'.ordering r)
        (λ _ p' r. keep_event-Order a changes p' r)

  admit-Order :
      (status : OrderingStatus) (event : IngestedEvent) (p : Pipeline)
      → Order p.raw_ring p.ordering
      → (is_accepted status ≡ true → AllBelow event.seq (seqs p.raw_ring))
      → event.seq + 1 ≤ bound_of p.ordering.expected
      → At sink Order (admit sink make_id status event p).1
  unfolding admit
  admit-Order duplicate event p o b h = o
  admit-Order out_of_order event p o b h = o
  admit-Order accepted event p o b h =
      let (r, changes, m) = Sessions.attribute make_id event p.sessions in
      deliver-Order r changes event (record p { sessions = m })
        (attribute-event make_id event p.sessions) (o.0, b refl, h)
  admit-Order gap_accepted event p o b h =
      let (r, changes, m) = Sessions.attribute make_id event p.sessions in
      deliver-Order r changes event (record p { sessions = m })
        (attribute-event make_id event p.sessions) (o.0, b refl, h)

  order_event-Order :
      (event : IngestedEvent) (p : Pipeline)
      → Order p.raw_ring p.ordering
      → At sink Order (order_event sink make_id event p).1
  unfolding order_event
  order_event-Order event p o =
      let (t, r) = Ordering.observe event.seq (some event.t_capture_us) p.ordering in
      let (b, _, ahead) = observe-bound event.seq (some event.t_capture_us) p.ordering in
      let ring = seqs p.raw_ring in
      admit-Order r.status event
        (record p {
          ordering = t;
          counters = record (p.counters) {
            missing_sequences = p.counters.missing_sequences + r.missing_sequences;
          };
        })
        (
          o.0,
          AllBelow-le (bound_of p.ordering.expected) (bound_of t.expected) ring o.1 (omega arith),
        )
        (λ ok_status.
          AllBelow-le (bound_of p.ordering.expected) event.seq ring o.1 (ahead ok_status))
        (omega arith)

  consume_validated-Order :
      (v : Option ValidationResult) (p : Pipeline)
      → Order p.raw_ring p.ordering
      → At sink Order (consume_validated sink make_id v p).1
  unfolding consume_validated
  consume_validated-Order none p o = o
  consume_validated-Order (some (invalid issue)) p o =
      and_then-keeps (At sink Order) (At sink Order) (record_validation_issue sink issue p)
        (λ e p'. (some (record nothing { availability = e ∷ [] }), p'))
        (record_validation_issue-At sink Order issue p o) (λ p' h'. h') (λ e p' h'. h')
  consume_validated-Order (some (valid event)) p o = order_event-Order event p o

pub begun-Order :
    (sink : List Signal → Signal → Bool) (r : Result (LifecycleEvent × SessionManager))
    (p : Pipeline)
    → Order p.raw_ring p.ordering
    → At sink Order (begun sink r p).1
unfolding begun Ordering.reset
begun-Order sink (err _) p o = o
begun-Order sink (ok (e, m)) p o =
    let p' = record p { sessions = m } in
    let p'' = if is_session_started e.kind then forget_stream p' else p' in
    and_then-keeps (At sink Order) (At sink Order) (emit_lifecycle sink (e ∷ []) p'')
      (λ _ p. (some e, p))
      (emit_lifecycle-At sink Order (e ∷ []) p''
        (elim (Bool-cases (is_session_started e.kind)) [ inl s ↦ rw s (tt, tt) | inr s ↦ rw s o ]))
      (λ p h. h) (λ _ p h. h)

pub ended-Order :
    (sink : List Signal → Signal → Bool) (r : Result (List LifecycleEvent × SessionManager))
    (p : Pipeline)
    → Order p.raw_ring p.ordering
    → At sink Order (ended sink r p).1
unfolding ended Ordering.reset
ended-Order sink (err _) p o = o
ended-Order sink (ok (es, m)) p o =
    and_then-keeps (At sink Order) (At sink Order)
      (emit_lifecycle sink es (record p { sessions = m })) (λ _ p'. (some es, forget_stream p'))
      (emit_lifecycle-At sink Order es (record p { sessions = m }) o) (λ p h. h) (λ _ p h. (tt, tt))

module _ (sink : List Signal → Signal → Bool) (parser : Parser)
    (make_id : String → ℕ → String) where
  consume_payloads-Order :
      (payloads : List (List ℕ)) (p : Pipeline)
      → Order p.raw_ring p.ordering
      → At sink Order (consume_payloads sink parser make_id payloads p).1
  unfolding consume_payloads consume_payload
  consume_payloads-Order [] p o = o
  consume_payloads-Order (payload ∷ payloads) p o =
      let p' = record p {
        counters = record (p.counters) { frames_received = p.counters.frames_received + 1 };
      } in
      and_then-keeps (At sink Order) (At sink Order) (consume_payload sink parser make_id payload p)
        (λ b p'.
          and_then (consume_payloads sink parser make_id payloads p')
            (λ bs p''. (some (joined b bs), p'')))
        (consume_validated-Order sink make_id (validate_payload parser payload) p' o) (λ p' h. h)
        (λ b p' h.
          and_then-keeps (At sink Order) (At sink Order)
            (consume_payloads sink parser make_id payloads p') (λ bs p''. (some (joined b bs), p''))
            (consume_payloads-Order payloads p' h) (λ p'' h'. h') (λ bs p'' h'. h'))

  consume_decoded-Order :
      (decoded : DecodeResult) (p : Pipeline)
      → Order p.raw_ring p.ordering
      → At sink Order (consume_decoded sink parser make_id decoded p).1
  unfolding consume_decoded
  consume_decoded-Order decoded p o =
      and_then-keeps (At sink Order) (At sink Order) (record_frame_issues sink decoded.issues p)
        (λ availability p'.
          and_then (consume_payloads sink parser make_id decoded.payloads p')
            (λ b p''. (some (joined (record nothing { availability = availability }) b), p'')))
        (record_frame_issues-At sink Order decoded.issues p o) (λ p' h. h)
        (λ availability p' h.
          and_then-keeps (At sink Order) (At sink Order)
            (consume_payloads sink parser make_id decoded.payloads p')
            (λ b p''. (some (joined (record nothing { availability = availability }) b), p''))
            (consume_payloads-Order decoded.payloads p' h) (λ p'' h'. h') (λ b p'' h'. h'))

  pub feed-Order :
      (chunk : List ℕ) (p : Pipeline)
      → Order p.raw_ring p.ordering
      → At sink Order (feed sink parser make_id chunk p).1
  unfolding feed
  feed-Order chunk p o =
      let (d, decoded) = Framing.feed p.decoder chunk in
      consume_decoded-Order decoded
        (record p {
          decoder = d;
          counters = record (p.counters) { chunks_received = p.counters.chunks_received + 1 };
        })
        o

  pub finish_transport-Order :
      (p : Pipeline)
      → Order p.raw_ring p.ordering
      → At sink Order (finish_transport sink parser make_id p).1
  unfolding finish_transport
  finish_transport-Order p o =
      let (d, decoded) = Framing.finish p.decoder in
      consume_decoded-Order decoded (record p { decoder = d }) o

  pub recover_transport-Order :
      (p : Pipeline)
      → Order p.raw_ring p.ordering
      → At sink Order (recover_transport sink parser make_id p).1
  unfolding recover_transport
  recover_transport-Order p o =
      and_then-keeps (At sink Order) (At sink Order) (finish_transport sink parser make_id p)
        (λ b p'. (some b, record p' { decoder = Framing.reset p'.decoder }))
        (finish_transport-Order p o) (λ p' h. h) (λ b p' h. h)
