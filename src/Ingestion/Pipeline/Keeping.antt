-- ===== src/Ingestion/Pipeline/Keeping.antt =====
-- What the steps of backend/app/ingestion/pipeline.py keep that record and report.
use continuous_auth.Common.{◌+◌, Bool, Option, none, some, List, [], ◌∷◌}
use continuous_auth.Ingestion.Framing.{FrameIssue}
use continuous_auth.Ingestion.Ordering.{SequenceTracker}
use continuous_auth.Ingestion.Events.{AttributedEvent, LifecycleEvent}
use continuous_auth.Ingestion.Validation.{ValidationIssue}
use continuous_auth.Ingestion.Recording.{
  Signal, lifecycle_signal, availability_signal, AvailabilityEvent, text, of_frame, and_then,
  call_sink, frame_issue_code, count_frame_issue, count_validation_issue, validation_issue_code,
  Pipeline, emit_lifecycle, raise_availability, record_frame_issue, record_frame_issues,
  record_validation_issue,
}

-- What follows a step keeps `P` where `Q` holds in between, which gives `P` where the step raised.
pub and_then-keeps :
    {A B : Type 0} (Q P : Pipeline → Type 0) (r : Option A × Pipeline)
    (next : A → Pipeline → Option B × Pipeline)
    → Q r.1
    → ((p : Pipeline) → Q p → P p)
    → ((a : A) (p : Pipeline) → Q p → P (next a p).1)
    → P (and_then r next).1
and_then-keeps Q P (none, p) next h k f = k p h
and_then-keeps Q P (some a, p) next h k f = f a p h

-- What is recorded and reported does not touch the ring and the tracker.
module _ (sink : List Signal → Signal → Bool)
    (P : List AttributedEvent → SequenceTracker → Type 0) where
  abbrev pub At : Pipeline → Type 0
  At p = P p.raw_ring p.ordering

  pub call_sink-At : (s : Signal) (p : Pipeline) → At p → At (call_sink sink s p).1
  unfolding call_sink
  call_sink-At s p h = h

  pub emit_lifecycle-At :
      (es : List LifecycleEvent) (p : Pipeline) → At p → At (emit_lifecycle sink es p).1
  unfolding emit_lifecycle
  emit_lifecycle-At [] p h = h
  emit_lifecycle-At (e ∷ es) p h =
      and_then-keeps At At (call_sink sink (lifecycle_signal e) p)
        (λ _ p'. emit_lifecycle sink es p') (call_sink-At (lifecycle_signal e) p h) (λ p' h'. h')
        (λ _ p' h'. emit_lifecycle-At es p' h')

  pub raise_availability-At :
      (e : AvailabilityEvent) (p : Pipeline) → At p → At (raise_availability sink e p).1
  unfolding raise_availability
  raise_availability-At e p h =
      let counted = record p {
        counters = record (p.counters) { availability_events = p.counters.availability_events + 1 };
      } in
      and_then-keeps At At (call_sink sink (availability_signal e) counted) (λ _ p'. (some e, p'))
        (call_sink-At (availability_signal e) counted h) (λ p' h'. h') (λ _ p' h'. h')

  pub record_frame_issue-At :
      (issue : FrameIssue) (p : Pipeline) → At p → At (record_frame_issue sink issue p).1
  unfolding record_frame_issue
  record_frame_issue-At issue p h =
      raise_availability-At
        (record { code = frame_issue_code issue; component = "transport"; detail = of_frame issue })
        (record p { counters = count_frame_issue issue p.counters }) h

  pub record_frame_issues-At :
      (issues : List FrameIssue) (p : Pipeline) → At p → At (record_frame_issues sink issues p).1
  unfolding record_frame_issues
  record_frame_issues-At [] p h = h
  record_frame_issues-At (issue ∷ issues) p h =
      and_then-keeps At At (record_frame_issue sink issue p)
        (λ e p'. and_then (record_frame_issues sink issues p') (λ es p''. (some (e ∷ es), p'')))
        (record_frame_issue-At issue p h) (λ p' h'. h')
        (λ e p' h'.
          and_then-keeps At At (record_frame_issues sink issues p') (λ es p''. (some (e ∷ es), p''))
            (record_frame_issues-At issues p' h') (λ p'' h''. h'') (λ es p'' h''. h''))

  pub record_validation_issue-At :
      (issue : ValidationIssue) (p : Pipeline) → At p → At (record_validation_issue sink issue p).1
  unfolding record_validation_issue
  record_validation_issue-At issue p h =
      raise_availability-At
        (record {
          code = validation_issue_code issue.code;
          component = "protocol";
          detail = text issue.detail;
        })
        (record p { counters = count_validation_issue issue.code p.counters }) h
