-- ===== src/Ingestion/Sessions.antt =====
-- backend/app/ingestion/sessions.py: the authenticated session and its idle segments. The caller's
-- `id_factory` is the parameter `make_id`: the identifier that it returns for a prefix as its n-th
-- answer.
pub mod Lifecycle
pub mod Segments
mod Tests
use continuous_auth.Common.{
  ℕ, ◌+◌, ◌-◌, Bool, true, false, not, ◌&&◌, ◌||◌, Option, none, some, List, [], ◌∷◌, ◌++◌, String,
  ltb, ◌==◌, is_some, is_blank, is_empty, if◌then◌else◌,
}
use continuous_auth.Ingestion.Events.{
  IngestedEvent, is_input, AuthenticatedEntry, AttributedEvent, Anchor, LifecycleKind,
  LifecycleEvent, session_started, session_ended, session_start_rejected, segment_started,
  segment_ended,
}

-- The messages of `IngestionLifecycleError`.
pub data LifecycleError : Type 0 where
  already_active blank_identifiers naive_anchor blank_session_id none_active : LifecycleError

pub data Result {ℓ} (A : Type ℓ) : Type ℓ where
  ok : A → Result A
  err : LifecycleError → Result A

pub record ActiveSession : Type 0 where
  pub user_id : String
  pub session_id : String
  pub entry_auth_evidence : String
  pub wall_clock_anchor : Anchor
  pub segment_id : Option String
  pub last_input_us : Option ℕ
  pub last_event_us : Option ℕ

pub record SessionManager : Type 0 where
  pub idle_split_us : ℕ
  -- how many identifiers the factory has made
  pub issued : ℕ
  pub active : Option ActiveSession

-- The constructor raises a `ValueError` at an idle split of 0.
unfoldable pub new_manager : ℕ → Option SessionManager
new_manager idle =
    if idle == 0 then none else some (record { idle_split_us = idle; issued = 0; active = none })

active_session_id_of : Option ActiveSession → Option String
active_session_id_of none = none
active_session_id_of (some s) = some s.session_id

unfoldable pub active_session_id : SessionManager → Option String
unfolding active_session_id_of
active_session_id m = active_session_id_of m.active

-- `entry.session_id or ...`: the given identifier, unless it is missing or empty.
abbrev pub given_id : Option String → Option String
given_id none = none
given_id (some s) = if is_empty s then none else some s

abbrev segment_event : LifecycleKind → ActiveSession → Option ℕ → String → LifecycleEvent
segment_event kind s t reason = record {
  kind = kind;
  user_id = s.user_id;
  session_id = some s.session_id;
  segment_id = s.segment_id;
  t_capture_us = t;
  reason = reason;
  wall_clock_anchor = none;
  entry_auth_evidence = none;
}

-- `event.t_capture_us - session.last_input_us > idle_split_us`, with a last input.
abbrev pub idle_since : ℕ → ℕ → Option ℕ → Bool
idle_since idle t none = false
idle_since idle t (some last) = ltb idle (t - last)

-- The first part of `attribute`: an input after too long a pause ends the segment.
pub split_idle : ℕ → IngestedEvent → ActiveSession → ActiveSession × List LifecycleEvent
split_idle idle event s =
    if is_input event.kind && idle_since idle event.t_capture_us s.last_input_us
    then (
      record s { segment_id = none },
      if is_some s.segment_id
          then segment_event segment_ended s (some event.t_capture_us) "IDLE_SPLIT" ∷ []
          else [],
    )
    else (s, [])

-- The last part: the times of the session.
pub touch : IngestedEvent → ActiveSession → ActiveSession
touch event s = record s {
  last_event_us = some event.t_capture_us;
  last_input_us = if is_input event.kind then some event.t_capture_us else s.last_input_us;
}

ended_segment : Option String → ActiveSession → String → List LifecycleEvent
ended_segment none s reason = []
ended_segment (some _) s reason = segment_event segment_ended s s.last_event_us reason ∷ []

abbrev pub session_end : ActiveSession → String → LifecycleEvent
session_end s reason =
    segment_event session_ended (record s { segment_id = none }) s.last_event_us reason

end_of :
    Option ActiveSession → String → SessionManager → Result (List LifecycleEvent × SessionManager)
unfolding ended_segment
end_of none reason m = err none_active
end_of (some s) reason m =
    ok
      (ended_segment s.segment_id s reason ++ session_end s reason ∷ [], record m { active = none })

unfoldable pub end_session : String → SessionManager → Result (List LifecycleEvent × SessionManager)
unfolding end_of
end_session reason m = end_of m.active reason m

module _ (make_id : String → ℕ → String) where
  -- The identifier of a new session, and how many the factory has made then.
  choose_id : Option String → ℕ → String × ℕ
  choose_id none issued = (make_id "session" issued, issued + 1)
  choose_id (some s) issued = (s, issued)

  open_session : AuthenticatedEntry → SessionManager → Result (LifecycleEvent × SessionManager)
  unfolding choose_id
  open_session entry m =
      let (session_id, issued) = choose_id (given_id entry.session_id) m.issued in
      if is_blank session_id
      then err blank_session_id
      else ok (
        record {
          kind = session_started;
          user_id = entry.user_id;
          session_id = some session_id;
          segment_id = none;
          t_capture_us = none;
          reason = "AUTHENTICATED_ENTRY";
          wall_clock_anchor = some entry.wall_clock_anchor;
          entry_auth_evidence = some entry.evidence_id;
        },
        record m {
          issued = issued;
          active = some (record {
            user_id = entry.user_id;
            session_id = session_id;
            entry_auth_evidence = entry.evidence_id;
            wall_clock_anchor = entry.wall_clock_anchor;
            segment_id = none;
            last_input_us = none;
            last_event_us = none;
          });
        },
      )

  abbrev rejection : AuthenticatedEntry → LifecycleEvent
  rejection entry = record {
    kind = session_start_rejected;
    user_id = entry.user_id;
    session_id = none;
    segment_id = none;
    t_capture_us = none;
    reason = "ENTRY_AUTHENTICATION_FAILED";
    wall_clock_anchor = some entry.wall_clock_anchor;
    entry_auth_evidence = some entry.evidence_id;
  }

  -- A call that raises leaves the manager as it was, but for the identifier that a factory made.
  unfoldable pub start :
      AuthenticatedEntry → SessionManager → Result (LifecycleEvent × SessionManager)
  unfolding open_session
  start entry m =
      if is_some m.active
      then err already_active
      else if is_blank entry.user_id || is_blank entry.evidence_id
      then err blank_identifiers
      else if not (entry.wall_clock_anchor.has_tzinfo && entry.wall_clock_anchor.has_utcoffset)
      then err naive_anchor
      else if not entry.authenticated
      then ok (rejection entry, m)
      else open_session entry m

  -- The second part of `attribute`: a session with no segment gets a new one.
  ensure_segment :
      Option String
      → IngestedEvent
      → ActiveSession
      → ℕ
      → String × ℕ × ActiveSession × List LifecycleEvent
  ensure_segment (some segment_id) event s issued = (segment_id, issued, s, [])
  ensure_segment none event s issued =
      let segment_id = make_id "segment" issued in
      let s' = record s { segment_id = some segment_id } in
      (
        segment_id,
        issued + 1,
        s',
        segment_event segment_started s' (some event.t_capture_us)
              (if is_some s.last_event_us then "INPUT_RESUMED" else "FIRST_EVENT")
            ∷ [],
      )

  attribute_to :
      Option ActiveSession
      → IngestedEvent
      → SessionManager
      → Option AttributedEvent × List LifecycleEvent × SessionManager
  unfolding split_idle ensure_segment touch
  attribute_to none event m = (none, [], m)
  attribute_to (some s) event m =
      let (s', ended) = split_idle m.idle_split_us event s in
      let (segment_id, issued, s'', started) = ensure_segment s'.segment_id event s' m.issued in
      (
        some (record {
          event = event;
          user_id = s.user_id;
          session_id = s.session_id;
          segment_id = segment_id;
        }),
        ended ++ started,
        record m { issued = issued; active = some (touch event s'') },
      )

  unfoldable pub attribute :
      IngestedEvent → SessionManager → Option AttributedEvent × List LifecycleEvent × SessionManager
  unfolding attribute_to
  attribute event m = attribute_to m.active event m
