-- ===== src/Ingestion/Pipeline/Ordered.antt =====
-- The order of the raw ring of backend/app/ingestion/pipeline.py over all calls.
use continuous_auth.Common.{
  ℕ, ◌≡◌, inl, inr, Bool, Option, if◌then◌else◌, none, some, List, [], ◌∷◌, String, arith, is_some,
  Bool-cases, is_blank, ◌||◌,
}
use continuous_auth.Ingestion.Sessions
use continuous_auth.Ingestion.Sessions.{Result, ok, err, SessionManager}
use continuous_auth.Ingestion.Validation.{Parser}
use continuous_auth.Ingestion.Recording.{
  Signal, AvailabilityEvent, text, IngestionSettings, Pipeline, new_pipeline,
}
use continuous_auth.Ingestion.Pipeline.{
  finish_transport, recover_transport, feed, start_session, end_session,
  report_infrastructure_failure, shutdown,
}
use continuous_auth.Ingestion.Pipeline.Keeping.{At, and_then-keeps, raise_availability-At}
use continuous_auth.Ingestion.Pipeline.Delivery.{
  Order, ordered, IsOrdered-Order, feed-Order, finish_transport-Order, recover_transport-Order,
  begun-Order, ended-Order,
}
use continuous_auth.Ingestion.Pipeline.Ring.{IsOrdered}
use continuous_auth.Ingestion.Pipeline.Runs.{
  Call, start_call, end_call, feed_call, finish_call, recover_call, shutdown_call, report_call,
  call, run, returned,
}

returned-At :
    {A : Type 0} (sink : List Signal → Signal → Bool) (r : Option A × Pipeline)
    → At sink Order r.1
    → At sink Order (returned r).1
returned-At sink (some a, p) h = h
returned-At sink (none, p) h = h

module _ (sink : List Signal → Signal → Bool) (parser : Parser)
    (make_id : String → ℕ → String) where
  shutdown-Order :
      (p : Pipeline)
      → Order p.raw_ring p.ordering
      → At sink Order (shutdown sink parser make_id p).1
  unfolding shutdown end_session
  shutdown-Order p o =
      and_then-keeps (At sink Order) (At sink Order) (finish_transport sink parser make_id p)
        (λ _ p'.
          let closed = end_session sink "SHUTDOWN" p' in
          if is_some (Sessions.active_session_id p'.sessions) then closed else (some [], p'))
        (finish_transport-Order sink parser make_id p o) (λ p' h. h)
        (λ _ p' h. elim (Bool-cases (is_some (Sessions.active_session_id p'.sessions))) [
          | inl open_session ↦
              rw open_session (ended-Order sink (Sessions.end_session "SHUTDOWN" p'.sessions) p' h)
          | inr closed ↦ rw closed h
        ])

  report-Order :
      (code component detail : String) (p : Pipeline)
      → Order p.raw_ring p.ordering
      → At sink Order (report_infrastructure_failure sink code component detail p).1
  unfolding report_infrastructure_failure
  report-Order code component detail p o =
      let e : AvailabilityEvent = record {
        code = code;
        component = component;
        detail = text detail;
      } in
      elim (Bool-cases (is_blank code || is_blank component || is_blank detail)) [
        | inl blank ↦ rw blank o
        | inr filled ↦ rw filled (raise_availability-At sink Order e p o)
      ]

  call-Order :
      (c : Call) (p : Pipeline)
      → Order p.raw_ring p.ordering
      → At sink Order (call sink parser make_id c p).1
  unfolding call start_session end_session
  call-Order (start_call entry) p o =
      returned-At sink (start_session sink make_id entry p)
        (begun-Order sink (Sessions.start make_id entry p.sessions) p o)
  call-Order (end_call reason) p o =
      returned-At sink (end_session sink reason p)
        (ended-Order sink (Sessions.end_session reason p.sessions) p o)
  call-Order (feed_call chunk) p o =
      returned-At sink (feed sink parser make_id chunk p) (feed-Order sink parser make_id chunk p o)
  call-Order finish_call p o =
      returned-At sink (finish_transport sink parser make_id p)
        (finish_transport-Order sink parser make_id p o)
  call-Order recover_call p o =
      returned-At sink (recover_transport sink parser make_id p)
        (recover_transport-Order sink parser make_id p o)
  call-Order shutdown_call p o =
      returned-At sink (shutdown sink parser make_id p) (shutdown-Order p o)
  call-Order (report_call code component detail) p o =
      returned-At sink (report_infrastructure_failure sink code component detail p)
        (report-Order code component detail p o)

  run-Order :
      (cs : List Call) (p : Pipeline)
      → Order p.raw_ring p.ordering
      → At sink Order (run sink parser make_id cs p)
  unfolding run
  run-Order [] p o = o
  run-Order (c ∷ cs) p o = run-Order cs (call sink parser make_id c p).1 (call-Order c p o)

  new_pipeline-IsOrdered :
      (settings : IngestionSettings) (p : Pipeline) → new_pipeline settings ≡ some p → IsOrdered p
  unfolding new_pipeline
  new_pipeline-IsOrdered settings p h = ground arith

  -- After any calls of a new pipeline, with any bytes, whatever the sinks and the decoder of JSON
  -- raise, the events in the raw ring are in strictly increasing order of their sequence numbers, all
  -- below the number that is expected next.
  pub run-IsOrdered :
      (settings : IngestionSettings) (p : Pipeline) (cs : List Call)
      → new_pipeline settings ≡ some p
      → IsOrdered (run sink parser make_id cs p)
  run-IsOrdered settings p cs h =
      ordered (run sink parser make_id cs p)
        (run-Order cs p (IsOrdered-Order p (new_pipeline-IsOrdered settings p h)))
