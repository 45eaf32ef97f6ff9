-- ===== src/Ingestion/Pipeline/Counters.antt =====
-- The counters of backend/app/ingestion/pipeline.py account for every frame and every signal.
use continuous_auth.Common.{
  ℕ, ◌+◌, ◌≤◌, ◌≡◌, Bool, true, false, inl, inr, Bool-cases, if◌then◌else◌, ◌==◌, push_bounded,
  Option, none, some, List, [], ◌∷◌, ◌++◌, arith, length, count_if, length-push_bounded,
}
use continuous_auth.Ingestion.Framing.{FrameIssue}
use continuous_auth.Ingestion.Events.{AttributedEvent, LifecycleEvent}
use continuous_auth.Ingestion.Validation.{ValidationIssue}
use continuous_auth.Ingestion.Recording.{
  Pipeline, Signal, event_signal, lifecycle_signal, availability_signal, emit_lifecycle,
  AvailabilityEvent, text, of_frame, nothing, and_then, call_sink, raise_availability,
  frame_issue_code, count_frame_issue, count_validation_issue, validation_issue_code,
  record_frame_issue, record_frame_issues, record_validation_issue,
}
use continuous_auth.Ingestion.Pipeline.{keep_event, deliver, inactive_session}

abbrev pub is_event : Signal → Bool
is_event (event_signal _) = true
is_event (lifecycle_signal _) = false
is_event (availability_signal _) = false

abbrev pub is_availability : Signal → Bool
is_availability (event_signal _) = false
is_availability (lifecycle_signal _) = false
is_availability (availability_signal _) = true

-- With this many frames still to be accounted for, this many infrastructure failures reported, and
-- this many calls that raised.
pub record Accounts (pending reports lost : ℕ) (p : Pipeline) : Type 0 where
  -- every frame was accepted, or rejected for one counted reason, or lost in a call that raised
  pub accounted :
      p.counters.events_accepted + p.counters.malformed_frames + p.counters.schema_rejections
        + p.counters.duplicate_rejections + p.counters.out_of_order_rejections
        + p.counters.inactive_session_rejections + pending
      ≤ p.counters.frames_received
  pub frames :
      p.counters.frames_received
      ≤ p.counters.events_accepted + p.counters.malformed_frames + p.counters.schema_rejections
        + p.counters.duplicate_rejections + p.counters.out_of_order_rejections
        + p.counters.inactive_session_rejections + pending + lost
  -- every failure but a duplicate or late event raised one availability event
  pub availability :
      p.counters.availability_events
      ≡ p.counters.oversized_frames + p.counters.zero_length_frames + p.counters.truncated_frames
        + p.counters.malformed_frames + p.counters.schema_rejections
        + p.counters.inactive_session_rejections + reports
  -- the sinks were called as often as was counted
  pub events_sent : count_if is_event p.sent ≡ p.counters.events_accepted
  pub availability_sent : count_if is_availability p.sent ≡ p.counters.availability_events
  pub ring_bounded : length p.raw_ring ≤ p.capacity

pub count_if-append {ℓ} :
    {A : Type ℓ} (f : A → Bool) (xs ys : List A)
    → count_if f (xs ++ ys) ≡ count_if f xs + count_if f ys
count_if-append f [] ys = omega arith
count_if-append f (x ∷ xs) ys = ground (arith, count_if-append f xs ys)

-- After a step that returned, or one that raised, with a frame that was pending or none.
abbrev pub Ends : {A : Type 0} → ℕ → ℕ → ℕ → Option A × Pipeline → Type 0
Ends k n l (some a, p) = Accounts k n l p
Ends k n l (none, p) = Accounts 0 n (l + 1) p

pub and_then-Ends :
    {A B : Type 0} (k k' n l : ℕ) (r : Option A × Pipeline)
    (next : A → Pipeline → Option B × Pipeline)
    → Ends k n l r
    → ((a : A) (p : Pipeline) → Accounts k n l p → Ends k' n l (next a p))
    → Ends k' n l (and_then r next)
and_then-Ends k k' n l (none, p) next h f = h
and_then-Ends k k' n l (some a, p) next h f = f a p h

-- The call of a sink, where the accounts are right once it is recorded.
pub call_sink-Ends :
    (sink : List Signal → Signal → Bool) (k n l : ℕ) (s : Signal) (p : Pipeline)
    → k ≤ 1
    → Accounts k n l (record p { sent = p.sent ++ s ∷ [] })
    → Ends k n l (call_sink sink s p)
unfolding call_sink
call_sink-Ends sink k n l s p few a = elim (Bool-cases (sink p.sent s)) [
  | inl e ↦ rw e a
  | inr e ↦ rw e (ground (arith, a, few))
]

module _ (sink : List Signal → Signal → Bool) where
  pub emit_lifecycle-Ends :
      (k n l : ℕ) (es : List LifecycleEvent) (p : Pipeline)
      → k ≤ 1
      → Accounts k n l p
      → Ends k n l (emit_lifecycle sink es p)
  unfolding emit_lifecycle
  emit_lifecycle-Ends k n l [] p few a = a
  emit_lifecycle-Ends k n l (e ∷ es) p few a =
      and_then-Ends k k n l (call_sink sink (lifecycle_signal e) p)
        (λ _ p'. emit_lifecycle sink es p')
        (call_sink-Ends sink k n l (lifecycle_signal e) p few (
          ground (
            arith,
            count_if-append is_event p.sent (lifecycle_signal e ∷ []),
            count_if-append is_availability p.sent (lifecycle_signal e ∷ []),
          )))
        (λ _ p' a'. emit_lifecycle-Ends k n l es p' few a')

  -- Where the failure has been counted, but its event has not been raised.
  pub raise_availability-Ends :
      (n l : ℕ) (e : AvailabilityEvent) (p : Pipeline)
      → Accounts 0 n l (record p {
        counters = record (p.counters) { availability_events = p.counters.availability_events + 1 };
        sent = p.sent ++ availability_signal e ∷ [];
      })
      → Ends 0 n l (raise_availability sink e p)
  unfolding raise_availability
  raise_availability-Ends n l e p a =
      let counted = record p {
        counters = record (p.counters) { availability_events = p.counters.availability_events + 1 };
      } in
      and_then-Ends 0 0 n l (call_sink sink (availability_signal e) counted) (λ _ p'. (some e, p'))
        (call_sink-Ends sink 0 n l (availability_signal e) counted (omega arith) a) (λ _ p' a'. a')

  pub record_frame_issue-Ends :
      (n l : ℕ) (issue : FrameIssue) (p : Pipeline)
      → Accounts 0 n l p
      → Ends 0 n l (record_frame_issue sink issue p)
  unfolding record_frame_issue
  record_frame_issue-Ends n l issue p a =
      let e : AvailabilityEvent = record {
        code = frame_issue_code issue;
        component = "transport";
        detail = of_frame issue;
      } in
      raise_availability-Ends n l e (record p { counters = count_frame_issue issue p.counters })
        (ground (
          arith,
          count_if-append is_event p.sent (availability_signal e ∷ []),
          count_if-append is_availability p.sent (availability_signal e ∷ []),
        ))

  pub record_frame_issues-Ends :
      (n l : ℕ) (issues : List FrameIssue) (p : Pipeline)
      → Accounts 0 n l p
      → Ends 0 n l (record_frame_issues sink issues p)
  unfolding record_frame_issues
  record_frame_issues-Ends n l [] p a = a
  record_frame_issues-Ends n l (issue ∷ issues) p a =
      and_then-Ends 0 0 n l (record_frame_issue sink issue p)
        (λ e p'. and_then (record_frame_issues sink issues p') (λ es p''. (some (e ∷ es), p'')))
        (record_frame_issue-Ends n l issue p a)
        (λ e p' a'.
          and_then-Ends 0 0 n l (record_frame_issues sink issues p')
            (λ es p''. (some (e ∷ es), p'')) (record_frame_issues-Ends n l issues p' a')
            (λ es p'' a''. a''))

  pub record_validation_issue-Ends :
      (n l : ℕ) (issue : ValidationIssue) (p : Pipeline)
      → Accounts 1 n l p
      → Ends 0 n l (record_validation_issue sink issue p)
  unfolding record_validation_issue
  record_validation_issue-Ends n l issue p a =
      let e : AvailabilityEvent = record {
        code = validation_issue_code issue.code;
        component = "protocol";
        detail = text issue.detail;
      } in
      raise_availability-Ends n l e
        (record p { counters = count_validation_issue issue.code p.counters })
        (ground (
          arith,
          count_if-append is_event p.sent (availability_signal e ∷ []),
          count_if-append is_availability p.sent (availability_signal e ∷ []),
        ))

  pub keep_event-Ends :
      (n l : ℕ) (a : AttributedEvent) (changes : List LifecycleEvent) (p : Pipeline)
      → Accounts 1 n l p
      → Ends 0 n l (keep_event sink a changes p)
  unfolding keep_event
  keep_event-Ends n l a changes p h =
      let overwritten : ℕ = if length p.raw_ring == p.capacity then 1 else 0 in
      let kept = record p {
        raw_ring = push_bounded p.capacity p.raw_ring a;
        counters = record (p.counters) {
          raw_ring_overwrites = p.counters.raw_ring_overwrites + overwritten;
          events_accepted = p.counters.events_accepted + 1;
        };
      } in
      and_then-Ends 0 0 n l (call_sink sink (event_signal a) kept)
        (λ _ p'. (some (record { events = a ∷ []; lifecycle = changes; availability = [] }), p'))
        (call_sink-Ends sink 0 n l (event_signal a) kept (omega arith) (
          ground (
            arith,
            count_if-append is_event p.sent (event_signal a ∷ []),
            count_if-append is_availability p.sent (event_signal a ∷ []),
            length-push_bounded p.capacity p.raw_ring a,
          )))
        (λ _ p' a'. a')

  pub deliver-Ends :
      (n l : ℕ) (r : Option AttributedEvent) (changes : List LifecycleEvent) (p : Pipeline)
      → Accounts 1 n l p
      → Ends 0 n l (deliver sink r changes p)
  unfolding deliver
  deliver-Ends n l none changes p a =
      let rejected = record p {
        counters = record (p.counters) {
          inactive_session_rejections = p.counters.inactive_session_rejections + 1;
        };
      } in
      and_then-Ends 0 0 n l (raise_availability sink inactive_session rejected)
        (λ e p'. (some (record nothing { availability = e ∷ [] }), p'))
        (raise_availability-Ends n l inactive_session rejected (
          ground (
            arith,
            count_if-append is_event p.sent (availability_signal inactive_session ∷ []),
            count_if-append is_availability p.sent (availability_signal inactive_session ∷ []),
          )))
        (λ e p' a'. a')
  deliver-Ends n l (some e) changes p a =
      and_then-Ends 1 0 n l (emit_lifecycle sink changes p) (λ _ p'. keep_event sink e changes p')
        (emit_lifecycle-Ends 1 n l changes p (omega arith) a)
        (λ _ p' a'. keep_event-Ends n l e changes p' a')
