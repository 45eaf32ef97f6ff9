-- ===== src/Ingestion/Pipeline/Accounting.antt =====
-- The accounts of each call of backend/app/ingestion/pipeline.py.
use continuous_auth.Common.{
  ℕ, ◌+◌, Bool, if◌then◌else◌, Option, none, some, List, [], ◌∷◌, String, arith,
}
use continuous_auth.Ingestion.Framing
use continuous_auth.Ingestion.Framing.{
  DecodeResult, FrameIssue, zero_length_frame, oversized_frame, truncated_payload, truncated_header,
}
use continuous_auth.Ingestion.Ordering
use continuous_auth.Ingestion.Ordering.{
  OrderingStatus, accepted, gap_accepted, duplicate, out_of_order,
}
use continuous_auth.Ingestion.Events.{IngestedEvent, LifecycleEvent}
use continuous_auth.Ingestion.Sessions
use continuous_auth.Ingestion.Sessions.{SessionManager, Result, ok, err}
use continuous_auth.Ingestion.Validation.{
  Parser, ValidationResult, valid, invalid, validate_payload,
}
use continuous_auth.Ingestion.Recording.{
  Pipeline, Signal, emit_lifecycle, nothing, joined, and_then, record_frame_issues,
  record_validation_issue,
}
use continuous_auth.Ingestion.Pipeline.{
  forget_stream, is_session_started, admit, order_event, consume_validated, consume_payload,
  consume_payloads, consume_decoded, feed, finish_transport, recover_transport, begun, ended,
}
use continuous_auth.Ingestion.Pipeline.Counters.{
  Accounts, Ends, and_then-Ends, deliver-Ends, emit_lifecycle-Ends, record_frame_issues-Ends,
  record_validation_issue-Ends,
}

module _ (sink : List Signal → Signal → Bool) (make_id : String → ℕ → String) where
  admit-Ends :
      (n l : ℕ) (status : OrderingStatus) (event : IngestedEvent) (p : Pipeline)
      → Accounts 1 n l p
      → Ends 0 n l (admit sink make_id status event p)
  unfolding admit
  admit-Ends n l duplicate event p a = ground arith
  admit-Ends n l out_of_order event p a = ground arith
  admit-Ends n l accepted event p a =
      let (r, changes, m) = Sessions.attribute make_id event p.sessions in
      deliver-Ends sink n l r changes (record p { sessions = m }) (ground arith)
  admit-Ends n l gap_accepted event p a =
      let (r, changes, m) = Sessions.attribute make_id event p.sessions in
      deliver-Ends sink n l r changes (record p { sessions = m }) (ground arith)

  order_event-Ends :
      (n l : ℕ) (event : IngestedEvent) (p : Pipeline)
      → Accounts 1 n l p
      → Ends 0 n l (order_event sink make_id event p)
  unfolding order_event
  order_event-Ends n l event p a =
      let (t, r) = Ordering.observe event.seq (some event.t_capture_us) p.ordering in
      admit-Ends n l r.status event
        (record p {
          ordering = t;
          counters = record (p.counters) {
            missing_sequences = p.counters.missing_sequences + r.missing_sequences;
          };
        })
        (ground arith)

  consume_validated-Ends :
      (n l : ℕ) (v : Option ValidationResult) (p : Pipeline)
      → Accounts 1 n l p
      → Ends 0 n l (consume_validated sink make_id v p)
  unfolding consume_validated
  consume_validated-Ends n l none p a = ground (arith, a)
  consume_validated-Ends n l (some (invalid issue)) p a =
      and_then-Ends 0 0 n l (record_validation_issue sink issue p)
        (λ e p'. (some (record nothing { availability = e ∷ [] }), p'))
        (record_validation_issue-Ends sink n l issue p a) (λ e p' a'. a')
  consume_validated-Ends n l (some (valid event)) p a = order_event-Ends n l event p a

module _ (sink : List Signal → Signal → Bool) (parser : Parser)
    (make_id : String → ℕ → String) where
  consume_payloads-Ends :
      (n l : ℕ) (payloads : List (List ℕ)) (p : Pipeline)
      → Accounts 0 n l p
      → Ends 0 n l (consume_payloads sink parser make_id payloads p)
  unfolding consume_payloads consume_payload
  consume_payloads-Ends n l [] p a = a
  consume_payloads-Ends n l (payload ∷ payloads) p a =
      let p' = record p {
        counters = record (p.counters) { frames_received = p.counters.frames_received + 1 };
      } in
      and_then-Ends 0 0 n l (consume_payload sink parser make_id payload p)
        (λ b p'.
          and_then (consume_payloads sink parser make_id payloads p')
            (λ bs p''. (some (joined b bs), p'')))
        (consume_validated-Ends sink make_id n l (validate_payload parser payload) p'
          (ground arith))
        (λ b p' a'.
          and_then-Ends 0 0 n l (consume_payloads sink parser make_id payloads p')
            (λ bs p''. (some (joined b bs), p'')) (consume_payloads-Ends n l payloads p' a')
            (λ bs p'' a''. a''))

  consume_decoded-Ends :
      (n l : ℕ) (decoded : DecodeResult) (p : Pipeline)
      → Accounts 0 n l p
      → Ends 0 n l (consume_decoded sink parser make_id decoded p)
  unfolding consume_decoded
  consume_decoded-Ends n l decoded p a =
      and_then-Ends 0 0 n l (record_frame_issues sink decoded.issues p)
        (λ availability p'.
          and_then (consume_payloads sink parser make_id decoded.payloads p')
            (λ b p''. (some (joined (record nothing { availability = availability }) b), p'')))
        (record_frame_issues-Ends sink n l decoded.issues p a)
        (λ availability p' a'.
          and_then-Ends 0 0 n l (consume_payloads sink parser make_id decoded.payloads p')
            (λ b p''. (some (joined (record nothing { availability = availability }) b), p''))
            (consume_payloads-Ends n l decoded.payloads p' a') (λ b p'' a''. a''))

  pub feed-Ends :
      (n l : ℕ) (chunk : List ℕ) (p : Pipeline)
      → Accounts 0 n l p
      → Ends 0 n l (feed sink parser make_id chunk p)
  unfolding feed
  feed-Ends n l chunk p a =
      let (d, decoded) = Framing.feed p.decoder chunk in
      consume_decoded-Ends n l decoded
        (record p {
          decoder = d;
          counters = record (p.counters) { chunks_received = p.counters.chunks_received + 1 };
        })
        (ground arith)

  pub finish_transport-Ends :
      (n l : ℕ) (p : Pipeline)
      → Accounts 0 n l p
      → Ends 0 n l (finish_transport sink parser make_id p)
  unfolding finish_transport
  finish_transport-Ends n l p a =
      let (d, decoded) = Framing.finish p.decoder in
      consume_decoded-Ends n l decoded (record p { decoder = d }) (ground arith)

  pub recover_transport-Ends :
      (n l : ℕ) (p : Pipeline)
      → Accounts 0 n l p
      → Ends 0 n l (recover_transport sink parser make_id p)
  unfolding recover_transport
  recover_transport-Ends n l p a =
      and_then-Ends 0 0 n l (finish_transport sink parser make_id p)
        (λ b p'. (some b, record p' { decoder = Framing.reset p'.decoder }))
        (finish_transport-Ends n l p a) (λ b p' a'. ground (arith, a'))

module _ (sink : List Signal → Signal → Bool) where
  pub begun-Ends :
      (n l : ℕ) (r : Result (LifecycleEvent × SessionManager)) (p : Pipeline)
      → Accounts 0 n l p
      → Ends 0 n l (begun sink r p)
  unfolding begun
  begun-Ends n l (err _) p a = ground (arith, a)
  begun-Ends n l (ok (e, m)) p a =
      let p' = record p { sessions = m } in
      let p'' = if is_session_started e.kind then forget_stream p' else p' in
      and_then-Ends 0 0 n l (emit_lifecycle sink (e ∷ []) p'') (λ _ p. (some e, p))
        (emit_lifecycle-Ends sink 0 n l (e ∷ []) p'' (omega arith) (ground (arith, a)))
        (λ _ p a'. a')

  pub ended-Ends :
      (n l : ℕ) (r : Result (List LifecycleEvent × SessionManager)) (p : Pipeline)
      → Accounts 0 n l p
      → Ends 0 n l (ended sink r p)
  unfolding ended
  ended-Ends n l (err _) p a = ground (arith, a)
  ended-Ends n l (ok (es, m)) p a =
      and_then-Ends 0 0 n l (emit_lifecycle sink es (record p { sessions = m }))
        (λ _ p'. (some es, forget_stream p'))
        (emit_lifecycle-Ends sink 0 n l es (record p { sessions = m }) (omega arith) (ground arith))
        (λ _ p' a'. ground (arith, a'))
