-- ===== src/Features/Windowing.antt =====
-- ml/features/windowing.py: `WindowBuilder`, which closes windows of a segment's events. What the
-- features are computed to, and the context block, are parameters: functions of the events and of the
-- bounds of the window. An event's further fields, which only these read, are its body.
pub mod Accounting
pub mod Runs
mod Tests
use continuous_auth.Common.{
  ℕ, ◌+◌, ◌-◌, Bool, true, false, not, ◌&&◌, ◌||◌, Option, none, some, List, [], ◌∷◌, ◌++◌, map,
  String, ltb, leb, ◌==◌, length, max, if◌then◌else◌,
}
use continuous_auth.Contracts.{WindowQuality, full, kbd_only, mouse_only, insufficient_data}

pub record WindowConfig : Type 0 where
  pub window_seconds_us : ℕ
  pub window_keystrokes : ℕ
  pub min_keystrokes : ℕ
  pub min_mouse_samples : ℕ

pub record KeyboardEvent (B : Type 0) : Type 0 where
  pub t_capture_us : ℕ
  pub seq : ℕ
  -- `type == "KEY_DOWN"`
  pub is_key_down : Bool
  pub is_repeat : Bool
  pub body : B

pub record MouseEvent (B : Type 0) : Type 0 where
  pub t_capture_us : ℕ
  pub seq : ℕ
  pub body : B

pub data Event (B : Type 0) : Type 0 where
  keyboard : KeyboardEvent B → Event B
  mouse : MouseEvent B → Event B

module _ {B : Type 0} where
  abbrev pub time_of : Event B → ℕ
  time_of (keyboard e) = e.t_capture_us
  time_of (mouse e) = e.t_capture_us

  abbrev pub seq_of : Event B → ℕ
  seq_of (keyboard e) = e.seq
  seq_of (mouse e) = e.seq

  -- the keys `(t_capture_us, seq)`
  abbrev pub precedes : Event B → Event B → Bool
  precedes a b =
      ltb (time_of a) (time_of b) || (time_of a == time_of b && ltb (seq_of a) (seq_of b))

  -- `sorted`, which keeps the order of events with equal keys
  abbrev pub insert_event : Event B → List (Event B) → List (Event B)
  insert_event e [] = e ∷ []
  insert_event e (d ∷ ds) =
      let rest = insert_event e ds in if precedes d e then d ∷ rest else e ∷ d ∷ ds

  unfoldable pub sort_events : List (Event B) → List (Event B)
  sort_events [] = []
  sort_events (e ∷ es) = insert_event e (sort_events es)

  -- A key press that counts.
  abbrev pub is_keystroke : Event B → Bool
  is_keystroke (keyboard e) = e.is_key_down && not e.is_repeat
  is_keystroke (mouse e) = false

  abbrev pub is_mouse : Event B → Bool
  is_mouse (keyboard e) = false
  is_mouse (mouse e) = true

pub record PendingWindow (B : Type 0) : Type 0 where
  pub t_start : ℕ
  pub kbd : List (KeyboardEvent B)
  pub mouse_events : List (MouseEvent B)
  pub keystroke_count : ℕ

module _ {B : Type 0} where
  -- The pending window, or a new one from this time on.
  unfoldable pub pending_at : Option (PendingWindow B) → ℕ → PendingWindow B
  pending_at (some p) t = p
  pending_at none t = record { t_start = t; kbd = []; mouse_events = []; keystroke_count = 0 }

  -- The event joins the pending window.
  unfoldable pub append : Event B → PendingWindow B → PendingWindow B
  append (keyboard e) p = record p {
    kbd = p.kbd ++ e ∷ [];
    keystroke_count =
        if e.is_key_down && not e.is_repeat then p.keystroke_count + 1 else p.keystroke_count;
  }
  append (mouse e) p = record p { mouse_events = p.mouse_events ++ e ∷ [] }

-- `max` of a list of times
abbrev pub latest : List ℕ → ℕ
latest [] = 0
latest (t ∷ ts) = max t (latest ts)

unfoldable pub quality_label : ℕ → ℕ → WindowConfig → WindowQuality
quality_label key_count mouse_count cfg =
    if leb cfg.min_keystrokes key_count
    then if leb cfg.min_mouse_samples mouse_count then full else kbd_only
    else if leb cfg.min_mouse_samples mouse_count
    then mouse_only
    else insufficient_data

abbrev pub has_keyboard : WindowQuality → Bool
has_keyboard full = true
has_keyboard kbd_only = true
has_keyboard mouse_only = false
has_keyboard insufficient_data = false

abbrev pub has_mouse : WindowQuality → Bool
has_mouse full = true
has_mouse mouse_only = true
has_mouse kbd_only = false
has_mouse insufficient_data = false

-- The features of keyboard and mouse, and the context, with their types.
pub record Features (B : Type 0) : Type 1 where
  pub Keyboard : Type 0
  pub Mouse : Type 0
  pub Context : Type 0
  -- of the events and the duration of the window
  pub compute_keyboard : List (KeyboardEvent B) → ℕ → Keyboard
  pub compute_mouse : List (MouseEvent B) → ℕ → Mouse
  -- of the bounds of the window and its events
  pub build_context : ℕ → ℕ → List (KeyboardEvent B) → List (MouseEvent B) → Context

module _ {B : Type 0} (F : Features B) where
  -- The window without the fields that the builder copies; its id ends with the index.
  pub record FeatureWindow : Type 0 where
    pub window_index : ℕ
    pub t_start_us : ℕ
    pub t_end_us : ℕ
    pub quality_label : WindowQuality
    pub key_event_count : ℕ
    pub mouse_event_count : ℕ
    pub keyboard_features : Option F.Keyboard
    pub mouse_features : Option F.Mouse
    pub context : F.Context

pub record WindowBuilder (B : Type 0) : Type 0 where
  pub pending : Option (PendingWindow B)
  pub window_index : ℕ

abbrev pub new_builder : {B : Type 0} → WindowBuilder B
new_builder = record { pending = none; window_index = 0 }

module _ {B : Type 0} (F : Features B) (cfg : WindowConfig) where
  -- `_close` of a pending window
  unfoldable pub close : ℕ → PendingWindow B → ℕ → FeatureWindow F
  close t_end p index =
      let label = quality_label p.keystroke_count (length p.mouse_events) cfg in
      let duration = max (t_end - p.t_start) 1 in
      record {
        window_index = index;
        t_start_us = p.t_start;
        t_end_us = t_end;
        quality_label = label;
        key_event_count = p.keystroke_count;
        mouse_event_count = length p.mouse_events;
        keyboard_features =
            if has_keyboard label then some (F.compute_keyboard p.kbd duration) else none;
        mouse_features =
            if has_mouse label then some (F.compute_mouse p.mouse_events duration) else none;
        context = F.build_context p.t_start t_end p.kbd p.mouse_events;
      }

  abbrev pub is_full : Event B → PendingWindow B → Bool
  is_full e p =
      leb cfg.window_keystrokes p.keystroke_count
      || leb (p.t_start + cfg.window_seconds_us) (time_of e)

  -- The body of the loop of `push_events`.
  unfoldable pub push_event : Event B → WindowBuilder B → List (FeatureWindow F) × WindowBuilder B
  unfolding pending_at append
  push_event e b =
      let p = append e (pending_at b.pending (time_of e)) in
      if is_full e p
      then (
        close (time_of e) p b.window_index ∷ [],
        record { pending = none; window_index = b.window_index + 1 },
      )
      else ([], record b { pending = some p })

  unfoldable pub push_ordered :
      List (Event B) → WindowBuilder B → List (FeatureWindow F) × WindowBuilder B
  push_ordered [] b = ([], b)
  push_ordered (e ∷ es) b =
      let (closed, b') = push_event e b in
      let (rest, b'') = push_ordered es b' in (closed ++ rest, b'')

  unfoldable pub push_events :
      List (Event B) → WindowBuilder B → List (FeatureWindow F) × WindowBuilder B
  push_events events b = push_ordered (sort_events events) b

  -- `flush` of this pending window
  unfoldable pub flush_pending :
      Option (PendingWindow B) → WindowBuilder B → Option (FeatureWindow F) × WindowBuilder B
  flush_pending none b = (none, b)
  flush_pending (some p) b =
      let times = map (λ e. e.t_capture_us) p.kbd ++ map (λ e. e.t_capture_us) p.mouse_events in
      (
        some (close (latest times) p b.window_index),
        record { pending = none; window_index = b.window_index + 1 },
      )

  unfoldable pub flush : WindowBuilder B → Option (FeatureWindow F) × WindowBuilder B
  unfolding flush_pending
  flush b = flush_pending b.pending b
