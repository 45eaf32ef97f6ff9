-- ===== src/Ingestion/Pipeline/Closing.antt =====
-- The end of backend/app/ingestion/pipeline.py: what `shutdown` closes.
use continuous_auth.Common.{
  ℕ, ◌+◌, ◌≡◌, refl, sym, subst, inl, inr, ◌++◌, Bool, true, none, some, List, [], ◌∷◌, String,
  arith, Option-cases,
}
use continuous_auth.Ingestion.Events.{LifecycleEvent}
use continuous_auth.Ingestion.Framing
use continuous_auth.Ingestion.Framing.{FrameIssue}
use continuous_auth.Ingestion.Sessions
use continuous_auth.Ingestion.Sessions.{SessionManager, ActiveSession, Result, ok, err}
use continuous_auth.Ingestion.Sessions.Lifecycle.{end_session-closes}
use continuous_auth.Ingestion.Validation.{Parser}
use continuous_auth.Ingestion.Recording.{
  frame_issue_code, of_frame, count_frame_issue, IngestionBatch, lifecycle_signal, Signal,
  call_sink, raise_availability, record_frame_issues, record_frame_issue, nothing, joined, Pipeline,
  availability_signal, AvailabilityEvent, emit_lifecycle,
}
use continuous_auth.Ingestion.Pipeline.{
  consume_decoded, consume_payloads, finish_transport, ended, end_session, shutdown, forget_stream,
}

module _ (sink : List Signal → Signal → Bool)
    (quiet : (before : List Signal) (s : Signal) → sink before s ≡ true) where
  emit_lifecycle_returns :
      (es : List LifecycleEvent) (p : Pipeline)
      → (p' : Pipeline) × (emit_lifecycle sink es p ≡ (some tt, p')) × (p'.sessions ≡ p.sessions)
  unfolding emit_lifecycle call_sink
  emit_lifecycle_returns [] p = (p, refl, refl)
  emit_lifecycle_returns (e ∷ es) p =
      let (p', q, same) =
        emit_lifecycle_returns es (record p { sent = p.sent ++ lifecycle_signal e ∷ [] }) in
      (p', rw (quiet p.sent (lifecycle_signal e)) q, same)

  raise_availability_returns :
      (e : AvailabilityEvent) (p : Pipeline)
      → (p' : Pipeline) × (raise_availability sink e p ≡ (some e, p'))
  unfolding raise_availability call_sink
  raise_availability_returns e p = (
    record p {
      counters = record (p.counters) { availability_events = p.counters.availability_events + 1 };
      sent = p.sent ++ availability_signal e ∷ [];
    },
    rw (quiet p.sent (availability_signal e)) refl,
  )

  record_frame_issues_returns :
      (issues : List FrameIssue) (p : Pipeline)
      → (es : List AvailabilityEvent) × (p' : Pipeline) × (record_frame_issues sink issues p
          ≡ (some es, p'))
  unfolding record_frame_issues record_frame_issue
  record_frame_issues_returns [] p = ([], p, refl)
  record_frame_issues_returns (issue ∷ issues) p =
      let e : AvailabilityEvent = record {
        code = frame_issue_code issue;
        component = "transport";
        detail = of_frame issue;
      } in
      let (p', q) =
        raise_availability_returns e (record p { counters = count_frame_issue issue p.counters }) in
      let (es, p'', q') = record_frame_issues_returns issues p' in (e ∷ es, p'', rw q (rw q' refl))

  finish_transport_returns :
      (parser : Parser) (make_id : String → ℕ → String) (p : Pipeline)
      → (b : IngestionBatch) × (p' : Pipeline) × (finish_transport sink parser make_id p
          ≡ (some b, p'))
  unfolding finish_transport consume_decoded consume_payloads Framing.finish
  finish_transport_returns parser make_id p =
      let (d, decoded) = Framing.finish p.decoder in
      let (es, p', q) = record_frame_issues_returns decoded.issues (record p { decoder = d }) in
      (joined (record nothing { availability = es }) nothing, p', rw q refl)

  -- Where the sinks return, `shutdown` returns, and leaves no session active.
  pub shutdown_closes :
      (parser : Parser) (make_id : String → ℕ → String) (p : Pipeline)
      → (es : List LifecycleEvent) × (p' : Pipeline) × (shutdown sink parser make_id p
          ≡ (some es, p'))
        × (Sessions.active_session_id p'.sessions ≡ none)
  unfolding shutdown end_session Sessions.active_session_id ended
  shutdown_closes parser make_id p =
      let (b, p', q) = finish_transport_returns parser make_id p in
      elim (Option-cases p'.sessions.active) [
        | inl none_active ↦ ([], p', rw q (ground (arith, none_active)), ground arith)
        | inr (s, e) ↦
            let (es, m', done, gone) = end_session-closes "SHUTDOWN" p'.sessions (ground arith) in
            let (p'', q', same) = emit_lifecycle_returns es (record p' { sessions = m' }) in
            (
              es,
              forget_stream p'',
              rw q (rw (e, done, q') refl),
              subst (λ m. Sessions.active_session_id m ≡ none) (sym same) (ground (arith, gone)),
            )
      ]
