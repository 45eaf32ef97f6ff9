-- ===== src/Ingestion/Pipeline/Runs.antt =====
-- All calls of backend/app/ingestion/pipeline.py, in any order.
use native.Mathlib.Nat.{zero-add}
use continuous_auth.Common.{
  ℕ, ◌+◌, ◌≡◌, inl, inr, ◌||◌, Bool, true, false, Option, none, some, List, [], ◌∷◌, String, arith,
  is_blank, is_some, if◌then◌else◌, Bool-cases,
}
use continuous_auth.Ingestion.Events.{AuthenticatedEntry}
use continuous_auth.Ingestion.Sessions
use continuous_auth.Ingestion.Sessions.{SessionManager, ActiveSession, Result, ok, err}
use continuous_auth.Ingestion.Validation.{Parser}
use continuous_auth.Ingestion.Recording.{
  Signal, IngestionSettings, Pipeline, availability_signal, new_pipeline, AvailabilityEvent, text,
}
use continuous_auth.Ingestion.Pipeline.{
  feed, finish_transport, recover_transport, start_session, end_session,
  report_infrastructure_failure, shutdown,
}
use continuous_auth.Ingestion.Pipeline.Counters.{
  Accounts, is_event, is_availability, Ends, and_then-Ends, raise_availability-Ends,
  count_if-append,
}
use continuous_auth.Ingestion.Pipeline.Accounting.{
  feed-Ends, finish_transport-Ends, recover_transport-Ends, begun-Ends, ended-Ends,
}

pub data Call : Type 0 where
  start_call : AuthenticatedEntry → Call
  end_call : String → Call
  feed_call : List ℕ → Call
  finish_call recover_call shutdown_call : Call
  -- code, component and detail
  report_call : String → String → String → Call

-- Whether a step returned, and the pipeline after it.
abbrev pub returned : {A : Type 0} → Option A × Pipeline → Bool × Pipeline
returned (some a, p) = (true, p)
returned (none, p) = (false, p)

-- The failures that a call reports.
pub reports_in : Call → ℕ
reports_in (report_call code component detail) =
    if is_blank code || is_blank component || is_blank detail then 0 else 1
reports_in (start_call _) = 0
reports_in (end_call _) = 0
reports_in (feed_call _) = 0
reports_in finish_call = 0
reports_in recover_call = 0
reports_in shutdown_call = 0

pub reports_of : List Call → ℕ
unfolding reports_in
reports_of [] = 0
reports_of (c ∷ cs) = reports_in c + reports_of cs

new_pipeline-Accounts :
    (settings : IngestionSettings) (p : Pipeline)
    → new_pipeline settings ≡ some p
    → Accounts 0 0 0 p
unfolding new_pipeline
new_pipeline-Accounts settings p h = ground arith

one_if_raised : Bool → ℕ
one_if_raised true = 0
one_if_raised false = 1

counted :
    {A : Type 0} (n l : ℕ) (r : Option A × Pipeline)
    → Ends 0 n l r
    → Accounts 0 n (one_if_raised (returned r).0 + l) (returned r).1
unfolding one_if_raised
counted n l (some a, p) h = rw zero-add h
counted n l (none, p) h = ground (arith, h)

module _ (sink : List Signal → Signal → Bool) (parser : Parser)
    (make_id : String → ℕ → String) where
  -- One call.
  unfoldable pub call : Call → Pipeline → Bool × Pipeline
  call (start_call entry) p = returned (start_session sink make_id entry p)
  call (end_call reason) p = returned (end_session sink reason p)
  call (feed_call chunk) p = returned (feed sink parser make_id chunk p)
  call finish_call p = returned (finish_transport sink parser make_id p)
  call recover_call p = returned (recover_transport sink parser make_id p)
  call shutdown_call p = returned (shutdown sink parser make_id p)
  call (report_call code component detail) p =
      returned (report_infrastructure_failure sink code component detail p)

  unfoldable pub run : List Call → Pipeline → Pipeline
  run [] p = p
  run (c ∷ cs) p = run cs (call c p).1

  -- How many calls of a run raised.
  unfoldable pub raises_of : List Call → Pipeline → ℕ
  unfolding one_if_raised
  raises_of [] p = 0
  raises_of (c ∷ cs) p = one_if_raised (call c p).0 + raises_of cs (call c p).1

  shutdown-Ends :
      (n l : ℕ) (p : Pipeline) → Accounts 0 n l p → Ends 0 n l (shutdown sink parser make_id p)
  unfolding shutdown end_session
  shutdown-Ends n l p a =
      and_then-Ends 0 0 n l (finish_transport sink parser make_id p)
        (λ _ p'.
          let closed = end_session sink "SHUTDOWN" p' in
          if is_some (Sessions.active_session_id p'.sessions) then closed else (some [], p'))
        (finish_transport-Ends sink parser make_id n l p a)
        (λ _ p' a'. elim (Bool-cases (is_some (Sessions.active_session_id p'.sessions))) [
          | inl open_session ↦
              rw open_session
                (ended-Ends sink n l (Sessions.end_session "SHUTDOWN" p'.sessions) p' a')
          | inr closed ↦ rw closed a'
        ])

  report-Ends :
      (n l : ℕ) (code component detail : String) (p : Pipeline)
      → Accounts 0 n l p
      → Ends 0
          (reports_in (report_call code component detail) + n)
          l
          (report_infrastructure_failure sink code component detail p)
  unfolding report_infrastructure_failure reports_in
  report-Ends n l code component detail p a =
      let e : AvailabilityEvent = record {
        code = code;
        component = component;
        detail = text detail;
      } in
      elim (Bool-cases (is_blank code || is_blank component || is_blank detail)) [
        | inl blank ↦ rw blank (ground (arith, a))
        | inr filled ↦ rw filled (
            raise_availability-Ends sink (1 + n) l e p (
              ground (
                arith,
                a,
                count_if-append is_event p.sent (availability_signal e ∷ []),
                count_if-append is_availability p.sent (availability_signal e ∷ []),
              )))
      ]

  call-Accounts :
      (n l : ℕ) (c : Call) (p : Pipeline)
      → Accounts 0 n l p
      → Accounts 0 (reports_in c + n) (one_if_raised (call c p).0 + l) (call c p).1
  unfolding call reports_in start_session end_session
  call-Accounts n l (start_call entry) p a = rw zero-add (
      counted n l (start_session sink make_id entry p)
        (begun-Ends sink n l (Sessions.start make_id entry p.sessions) p a))
  call-Accounts n l (end_call reason) p a = rw zero-add (
      counted n l (end_session sink reason p)
        (ended-Ends sink n l (Sessions.end_session reason p.sessions) p a))
  call-Accounts n l (feed_call chunk) p a =
      rw zero-add (
        counted n l (feed sink parser make_id chunk p)
          (feed-Ends sink parser make_id n l chunk p a))
  call-Accounts n l finish_call p a = rw zero-add (
      counted n l (finish_transport sink parser make_id p)
        (finish_transport-Ends sink parser make_id n l p a))
  call-Accounts n l recover_call p a = rw zero-add (
      counted n l (recover_transport sink parser make_id p)
        (recover_transport-Ends sink parser make_id n l p a))
  call-Accounts n l shutdown_call p a =
      rw zero-add (counted n l (shutdown sink parser make_id p) (shutdown-Ends n l p a))
  call-Accounts n l (report_call code component detail) p a =
      counted (reports_in (report_call code component detail) + n) l
        (report_infrastructure_failure sink code component detail p)
        (report-Ends n l code component detail p a)

  run-Accounts_from :
      (n l : ℕ) (cs : List Call) (p : Pipeline)
      → Accounts 0 n l p
      → Accounts 0 (reports_of cs + n) (raises_of cs p + l) (run cs p)
  unfolding run reports_of raises_of
  run-Accounts_from n l [] p a = ground (arith, a)
  run-Accounts_from n l (c ∷ cs) p a =
      let r = one_if_raised (call c p).0 in
      let rest =
        run-Accounts_from (reports_in c + n) (r + l) cs (call c p).1 (call-Accounts n l c p a) in
      ground (arith, rest)

  -- After any calls of a new pipeline, in any order and with any bytes, whatever the sinks and the
  -- decoder of JSON raise: every frame received was accepted or rejected for one counted reason, but
  -- for at most one frame for each call that raised; every counted failure of transport, protocol or
  -- session and every reported infrastructure failure was counted as one availability event; the event
  -- and availability sinks were called as often as was counted; the ring keeps to its capacity.
  pub run-Accounts :
      (settings : IngestionSettings) (p : Pipeline) (cs : List Call)
      → new_pipeline settings ≡ some p
      → Accounts 0 (reports_of cs) (raises_of cs p) (run cs p)
  run-Accounts settings p cs h =
      ground (arith, run-Accounts_from 0 0 cs p (new_pipeline-Accounts settings p h))
