-- ===== src/Ingestion/Sessions/Lifecycle.antt =====
-- The protocol of the lifecycle events of backend/app/ingestion/sessions.py: a session holds its
-- segments one after the other, each ended under the identifier with which it was started.
use continuous_auth.Common.{
  ℕ, ◌≡◌, refl, ap, ◌⊎◌, inl, inr, true, Option, none, some, List, [], ◌∷◌, ◌++◌, String, arith,
  Bool-cases, Option-cases, ◌&&◌, is_some,
}
use continuous_auth.Ingestion.Events.{
  IngestedEvent, is_input, AuthenticatedEntry, LifecycleEvent, session_started, session_ended,
  session_start_rejected, segment_started, segment_ended,
}
use continuous_auth.Ingestion.Sessions.{
  ok, ActiveSession, SessionManager, start, attribute, end_session, idle_since, split_idle,
  ensure_segment, touch, attribute_to, ended_segment, session_end, end_of, open_session, choose_id,
  given_id,
}

-- Where a session stands, with the identifiers that are open.
pub data Phase : Type 0 where
  outside : Phase
  in_session : String → Phase
  in_segment : String → String → Phase

pub data Step : Phase → LifecycleEvent → Phase → Type 0 where
  begin :
      {e : LifecycleEvent} (sid : String)
      → e.kind ≡ session_started
      → e.session_id ≡ some sid
      → Step outside e (in_session sid)
  refuse : {e : LifecycleEvent} → e.kind ≡ session_start_rejected → Step outside e outside
  resume :
      {e : LifecycleEvent} (sid segment : String)
      → e.kind ≡ segment_started
      → e.session_id ≡ some sid
      → e.segment_id ≡ some segment
      → Step (in_session sid) e (in_segment sid segment)
  pause :
      {e : LifecycleEvent} (sid segment : String)
      → e.kind ≡ segment_ended
      → e.session_id ≡ some sid
      → e.segment_id ≡ some segment
      → Step (in_segment sid segment) e (in_session sid)
  leave :
      {e : LifecycleEvent} (sid : String)
      → e.kind ≡ session_ended
      → e.session_id ≡ some sid
      → Step (in_session sid) e outside

pub data Steps : Phase → List LifecycleEvent → Phase → Type 0 where
  stay : {p : Phase} → Steps p [] p
  then :
      {p q r : Phase} {e : LifecycleEvent} {es : List LifecycleEvent}
      → Step p e q
      → Steps q es r
      → Steps p (e ∷ es) r

pub Steps-append :
    {p q r : Phase} {es fs : List LifecycleEvent}
    → Steps p es q
    → Steps q fs r
    → Steps p (es ++ fs) r
Steps-append stay t = t
Steps-append (then s ss) t = then s (Steps-append ss t)

abbrev pub segment_phase : String → Option String → Phase
segment_phase sid none = in_session sid
segment_phase sid (some g) = in_segment sid g

abbrev pub phase_of : Option ActiveSession → Phase
phase_of none = outside
phase_of (some s) = segment_phase s.session_id s.segment_id

split_idle-Steps :
    (idle : ℕ) (event : IngestedEvent) (s : ActiveSession)
    → let (s', es) = split_idle idle event s in
      Steps (segment_phase s.session_id s.segment_id) es (segment_phase s.session_id s'.segment_id)
unfolding split_idle
split_idle-Steps idle event s =
    elim (Bool-cases (is_input event.kind && idle_since idle event.t_capture_us s.last_input_us)) [
      | inr busy ↦ rw busy stay
      | inl paused ↦ elim (Option-cases s.segment_id) [
        | inl e ↦ rw (paused, e) stay
        | inr (g, e) ↦ rw (paused, e) (then (pause s.session_id g refl refl refl) stay)
      ]
    ]

split_idle-session :
    (idle : ℕ) (event : IngestedEvent) (s : ActiveSession)
    → (split_idle idle event s).0.session_id ≡ s.session_id
unfolding split_idle
split_idle-session idle event s = ground arith

ended_segment-Steps :
    (segment : Option String) (s : ActiveSession) (reason : String)
    → s.segment_id ≡ segment
    → Steps
        (segment_phase s.session_id segment)
        (ended_segment segment s reason)
        (in_session s.session_id)
unfolding ended_segment
ended_segment-Steps none s reason e = stay
ended_segment-Steps (some g) s reason e = then (pause s.session_id g refl refl e) stay

end_of-quiet :
    (active : Option ActiveSession) (reason : String) (m m' : SessionManager)
    (es : List LifecycleEvent)
    → end_of active reason m ≡ ok (es, m')
    → m'.active ≡ none
unfolding end_of
end_of-quiet none reason m m' es h = absurd (ground arith)
end_of-quiet (some s) reason m m' es h = ground arith

end_of-Steps :
    (active : Option ActiveSession) (reason : String) (m m' : SessionManager)
    (es : List LifecycleEvent)
    → end_of active reason m ≡ ok (es, m')
    → Steps (phase_of active) es (phase_of m'.active)
unfolding end_of
end_of-Steps none reason m m' es h = absurd (ground arith)
end_of-Steps (some s) reason m m' es h =
    let quiet : m'.active ≡ none = ground arith in
    let listed : es ≡ ended_segment s.segment_id s reason ++ session_end s reason ∷ [] =
      ground arith in
    rw (listed, quiet)
      (Steps-append (ended_segment-Steps s.segment_id s reason refl)
        (then (leave s.session_id refl refl) stay))

-- So do the events of an `end` that does not raise; it leaves no session open.
pub end_session-Steps :
    (reason : String) (m m' : SessionManager) (es : List LifecycleEvent)
    → end_session reason m ≡ ok (es, m')
    → Steps (phase_of m.active) es outside × (m'.active ≡ none)
unfolding end_session
end_session-Steps reason m m' es h =
    let quiet : m'.active ≡ none = end_of-quiet m.active reason m m' es h in
    (rw quiet at (end_of-Steps m.active reason m m' es h), quiet)

end_of-closes :
    (active : Option ActiveSession) (reason : String) (m : SessionManager)
    → is_some active ≡ true
    → (es : List LifecycleEvent) × (m' : SessionManager) × (end_of active reason m ≡ ok (es, m'))
      × (m'.active ≡ none)
unfolding end_of
end_of-closes none reason m h = absurd (ground arith)
end_of-closes (some s) reason m h = (
  ended_segment s.segment_id s reason ++ session_end s reason ∷ [],
  record m { active = none },
  refl,
  refl,
)

-- With a session active, `end` does not raise.
pub end_session-closes :
    (reason : String) (m : SessionManager)
    → is_some m.active ≡ true
    → (es : List LifecycleEvent) × (m' : SessionManager) × (end_session reason m ≡ ok (es, m'))
      × (m'.active ≡ none)
unfolding end_session
end_session-closes reason m h = end_of-closes m.active reason m h

-- What a `start` that does not raise has done.
abbrev Started : LifecycleEvent → SessionManager → SessionManager → String → Type 0
Started e m m' sid =
    (e.kind ≡ session_started) × (e.session_id ≡ some sid) × (phase_of m'.active ≡ in_session sid)

module _ (make_id : String → ℕ → String) where
  ensure_segment-Steps :
      (segment : Option String) (event : IngestedEvent) (s : ActiveSession) (issued : ℕ)
      (sid : String)
      → s.segment_id ≡ segment
      → s.session_id ≡ sid
      → let (g, _, s', es) = ensure_segment make_id segment event s issued in
        Steps (segment_phase sid segment) es (in_segment sid g)
        × (s'.segment_id ≡ some g)
        × (s'.session_id ≡ sid)
  unfolding ensure_segment
  ensure_segment-Steps none event s issued sid e f =
      (then (resume sid (make_id "segment" issued) refl (ap some f) refl) stay, refl, f)
  ensure_segment-Steps (some g) event s issued sid e f = (stay, e, f)

  attribute_to-Steps :
      (active : Option ActiveSession) (event : IngestedEvent) (m : SessionManager)
      → m.active ≡ active
      → let (_, es, m') = attribute_to make_id active event m in
        Steps (phase_of active) es (phase_of m'.active)
  unfolding attribute_to touch
  attribute_to-Steps none event m e = rw e stay
  attribute_to-Steps (some s) event m e =
      let (s', ended) = split_idle m.idle_split_us event s in
      let (opened, has, same) =
        ensure_segment-Steps s'.segment_id event s' m.issued s.session_id refl
          (split_idle-session m.idle_split_us event s) in
      rw (has, same) (Steps-append (split_idle-Steps m.idle_split_us event s) opened)

  -- The events that `attribute` emits lead from the phase of the manager before the call to its
  -- phase after it.
  pub attribute-Steps :
      (event : IngestedEvent) (m : SessionManager)
      → let (_, es, m') = attribute make_id event m in
        Steps (phase_of m.active) es (phase_of m'.active)
  unfolding attribute
  attribute-Steps event m = attribute_to-Steps m.active event m refl

  start-cases :
      (entry : AuthenticatedEntry) (m m' : SessionManager) (e : LifecycleEvent)
      → start make_id entry m ≡ ok (e, m')
      → (m.active ≡ none)
        × (((e.kind ≡ session_start_rejected) × (m' ≡ m))
            ⊎ Started e m m' (choose_id make_id (given_id entry.session_id) m.issued).0)
  unfolding start open_session
  start-cases entry m m' e h = (ground arith, ground arith)

  -- So does the event of a `start` that does not raise; it finds no session open.
  pub start-Steps :
      (entry : AuthenticatedEntry) (m m' : SessionManager) (e : LifecycleEvent)
      → start make_id entry m ≡ ok (e, m')
      → Steps (phase_of m.active) (e ∷ []) (phase_of m'.active)
  start-Steps entry m m' e h =
      let (closed, outcome) = start-cases entry m m' e h in
      elim outcome [
        | inl (k, same) ↦ rw (same, closed) (then (refuse k) stay)
        | inr (k, i, p) ↦ rw (p, closed) (then (begin _ k i) stay)
      ]
