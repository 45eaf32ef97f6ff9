-- ===== src/Ingestion/Sessions/Tests.antt =====
-- Runs of the manager of backend/app/ingestion/sessions.py.
use continuous_auth.Common.{is_blank, ℕ, ◌≡◌, refl, true, none, some, List, [], ◌∷◌, String}
use continuous_auth.Ingestion.Events.{
  IngestedEvent, keyboard, AuthenticatedEntry, LifecycleEvent, LifecycleKind, session_started,
  segment_started, segment_ended, session_ended,
}
use continuous_auth.Ingestion.Sessions.{
  ActiveSession, SessionManager, new_manager, attribute, start, end_session,
}
use continuous_auth.Ingestion.Sessions.Lifecycle.{Steps, outside, phase_of}
use continuous_auth.Ingestion.Sessions.Segments.{
  Call, start_call, attribute_call, end_call, call, run, run-Steps,
}

abbrev make_id : String → ℕ → String
make_id prefix n = prefix

abbrev manager : SessionManager
manager = record { idle_split_us = 100; issued = 0; active = none }

abbrev entry : AuthenticatedEntry
entry = record {
  user_id = "u";
  evidence_id = "proof";
  authenticated = true;
  wall_clock_anchor = record { instant = 5; has_tzinfo = true; has_utcoffset = true };
  session_id = none;
}

abbrev key_at : ℕ → ℕ → IngestedEvent
key_at seq t = record { kind = keyboard; seq = seq; t_capture_us = t; body = [] }

abbrev calls : List Call
calls =
    start_call entry
    ∷ attribute_call (key_at 1 10)
    ∷ attribute_call (key_at 2 200)
    ∷ end_call "LOGOUT"
    ∷ []

abbrev kinds_of : List LifecycleEvent → List LifecycleKind
kinds_of [] = []
kinds_of (e ∷ es) = e.kind ∷ kinds_of es

-- A pause of 190 us splits the segment.
split_by_pause :
    kinds_of (run make_id calls manager).0
    ≡ session_started ∷ segment_started ∷ segment_ended ∷ segment_started ∷ segment_ended
      ∷ session_ended ∷ []
unfolding run call start attribute end_session is_blank
split_by_pause = refl

run-Steps_example :
    Steps outside (run make_id calls manager).0 (phase_of (run make_id calls manager).1.active)
unfolding new_manager
run-Steps_example = run-Steps make_id 100 manager calls refl

abbrev session : ActiveSession
session = record {
  user_id = "u";
  session_id = "s";
  entry_auth_evidence = "proof";
  wall_clock_anchor = record { instant = 5; has_tzinfo = true; has_utcoffset = true };
  segment_id = some "g";
  last_input_us = some 10;
  last_event_us = some 10;
}

abbrev open_manager : SessionManager
open_manager = record manager { active = some session }
