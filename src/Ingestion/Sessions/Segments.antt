-- ===== src/Ingestion/Sessions/Segments.antt =====
-- When backend/app/ingestion/sessions.py starts a new segment, and the protocol over all calls.
use continuous_auth.Common.{
  ℕ, ◌+◌, ◌≡◌, refl, subst, ◌⊎◌, inl, inr, Bool, true, false, not, Option, none, some, List, [],
  ◌∷◌, ◌++◌, String, arith, Bool-cases, Option-cases, ◌&&◌, ◌||◌, is_some,
}
use continuous_auth.Ingestion.Events.{
  IngestedEvent, is_input, AuthenticatedEntry, AttributedEvent, LifecycleEvent,
}
use continuous_auth.Ingestion.Sessions.{
  Result, ok, err, ActiveSession, SessionManager, start, attribute, end_session, idle_since,
  new_manager, split_idle, ensure_segment, touch, attribute_to,
}
use continuous_auth.Ingestion.Sessions.Lifecycle.{
  outside, Steps, stay, Steps-append, phase_of, attribute-Steps, start-Steps, end_session-Steps,
}

-- The calls of a session manager, in the order in which they are made.
pub data Call : Type 0 where
  start_call : AuthenticatedEntry → Call
  attribute_call : IngestedEvent → Call
  end_call : String → Call

module _ (make_id : String → ℕ → String) where
  after_start :
      Result (LifecycleEvent × SessionManager)
      → SessionManager
      → List LifecycleEvent × SessionManager
  after_start (ok (e, m')) m = (e ∷ [], m')
  after_start (err _) m = ([], m)

  after_end :
      Result (List LifecycleEvent × SessionManager)
      → SessionManager
      → List LifecycleEvent × SessionManager
  after_end (ok (es, m')) m = (es, m')
  after_end (err _) m = ([], m)

  -- One call; a raised error leaves the manager and emits nothing.
  unfoldable pub call : Call → SessionManager → List LifecycleEvent × SessionManager
  unfolding after_start after_end
  call (start_call entry) m = after_start (start make_id entry m) m
  call (attribute_call event) m = let (_, es, m') = attribute make_id event m in (es, m')
  call (end_call reason) m = after_end (end_session reason m) m

  unfoldable pub run : List Call → SessionManager → List LifecycleEvent × SessionManager
  run [] m = ([], m)
  run (c ∷ cs) m = let (es, m') = call c m in let (fs, m'') = run cs m' in (es ++ fs, m'')

  after_start-Steps :
      (r : Result (LifecycleEvent × SessionManager)) (entry : AuthenticatedEntry)
      (m : SessionManager)
      → start make_id entry m ≡ r
      → Steps (phase_of m.active) (after_start r m).0 (phase_of (after_start r m).1.active)
  unfolding after_start
  after_start-Steps (ok (e, m')) entry m h = start-Steps make_id entry m m' e h
  after_start-Steps (err _) entry m h = stay

  after_end-Steps :
      (r : Result (List LifecycleEvent × SessionManager)) (reason : String) (m : SessionManager)
      → end_session reason m ≡ r
      → Steps (phase_of m.active) (after_end r m).0 (phase_of (after_end r m).1.active)
  unfolding after_end
  after_end-Steps (ok (es, m')) reason m h =
      let (steps, quiet) = end_session-Steps reason m m' es h in rw quiet steps
  after_end-Steps (err _) reason m h = stay

  call-Steps :
      (c : Call) (m : SessionManager)
      → Steps (phase_of m.active) (call c m).0 (phase_of (call c m).1.active)
  unfolding call
  call-Steps (start_call entry) m = after_start-Steps (start make_id entry m) entry m refl
  call-Steps (attribute_call event) m = attribute-Steps make_id event m
  call-Steps (end_call reason) m = after_end-Steps (end_session reason m) reason m refl

  run-Steps_from :
      (cs : List Call) (m : SessionManager)
      → Steps (phase_of m.active) (run cs m).0 (phase_of (run cs m).1.active)
  unfolding run
  run-Steps_from [] m = stay
  run-Steps_from (c ∷ cs) m = Steps-append (call-Steps c m) (run-Steps_from cs (call c m).1)

  -- For any calls of a new manager, in any order and with any errors, the emitted lifecycle events
  -- follow the protocol: sessions do not overlap, the segments of a session lie inside it one after
  -- the other, each is ended under the identifiers of its start, and the protocol ends where the
  -- manager stands.
  pub run-Steps :
      (idle : ℕ) (m : SessionManager) (cs : List Call)
      → new_manager idle ≡ some m
      → Steps outside (run cs m).0 (phase_of (run cs m).1.active)
  unfolding new_manager
  run-Steps idle m cs h =
      let fresh : m.active ≡ none = ground arith in
      subst
        (λ (a : Option ActiveSession).
          Steps (phase_of a) (run cs m).0 (phase_of (run cs m).1.active))
        fresh (run-Steps_from cs m)

  -- Whether an event goes to a new segment.
  abbrev pub needs_segment : ℕ → IngestedEvent → ActiveSession → Bool
  needs_segment idle event s =
      not (is_some s.segment_id)
      || (is_input event.kind && idle_since idle event.t_capture_us s.last_input_us)

  -- The segment of an attributed event, and what the call made for it.
  abbrev pub Attributes :
      ActiveSession
      → IngestedEvent
      → SessionManager
      → Option AttributedEvent
      → SessionManager
      → Type 0
  Attributes s event m r m' =
      (g : String) × (r
        ≡ some (record {
          event = event;
          user_id = s.user_id;
          session_id = s.session_id;
          segment_id = g;
        }))
      × ((needs_segment m.idle_split_us event s ≡ true)
            × (g ≡ make_id "segment" m.issued)
            × (m'.issued ≡ m.issued + 1)
          ⊎ (needs_segment m.idle_split_us event s ≡ false)
            × (s.segment_id ≡ some g)
            × (m'.issued ≡ m.issued))

  attribute_to-active :
      (s : ActiveSession) (event : IngestedEvent) (m : SessionManager)
      → let (r, _, m') = attribute_to make_id (some s) event m in Attributes s event m r m'
  unfolding attribute_to split_idle ensure_segment touch
  attribute_to-active s event m = elim (Option-cases s.segment_id) [
    | inl e ↦ (make_id "segment" m.issued, ground arith, ground arith)
    | inr (g, e) ↦
        elim (Bool-cases
          (is_input event.kind && idle_since m.idle_split_us event.t_capture_us s.last_input_us)) [
            | inl paused ↦ (make_id "segment" m.issued, ground arith, ground arith)
            | inr busy ↦ (g, ground arith, ground arith)
          ]
  ]

  -- In an active session every event is attributed to its user and session. It goes to a newly
  -- identified segment exactly if the session has none, or if it is an input that follows the last
  -- input by more than the idle split; otherwise it stays in the current segment and no identifier
  -- is made.
  attribute_active :
      (s : ActiveSession) (event : IngestedEvent) (m : SessionManager)
      → m.active ≡ some s
      → let (r, _, m') = attribute make_id event m in Attributes s event m r m'
  unfolding attribute
  attribute_active s event m e = rw e (attribute_to-active s event m)

  attribute_to-event :
      (active : Option ActiveSession) (event : IngestedEvent) (m : SessionManager)
      (a : AttributedEvent)
      → (attribute_to make_id active event m).0 ≡ some a
      → a.event ≡ event
  unfolding attribute_to
  attribute_to-event none event m a h = absurd (ground arith)
  attribute_to-event (some s) event m a h = ground arith

  pub attribute-event :
      (event : IngestedEvent) (m : SessionManager) (a : AttributedEvent)
      → (attribute make_id event m).0 ≡ some a
      → a.event ≡ event
  unfolding attribute
  attribute-event event m a h = attribute_to-event m.active event m a h
