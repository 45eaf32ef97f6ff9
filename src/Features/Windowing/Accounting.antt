-- ===== src/Features/Windowing/Accounting.antt =====
-- The windows of ml/features/windowing.py count each event once.
use continuous_auth.Common.{
  ℕ, suc, ◌+◌, ◌≤◌, ◌≡◌, refl, ◌∙◌, Bool, true, false, Option, none, some, List, [], ◌∷◌, arith,
  leb, length, length-append, count_if, is_some,
}
use continuous_auth.Features.Windowing.{
  WindowConfig, Event, keyboard, mouse, insert_event, sort_events, is_keystroke, is_mouse,
  PendingWindow, Features, FeatureWindow, quality_label, close, append, pending_at,
}

abbrev pub one_if : Bool → ℕ
one_if true = 1
one_if false = 0

module _ {B : Type 0} where
  count_if-insert_event :
      (test : Event B → Bool) (e : Event B) (es : List (Event B))
      → count_if test (insert_event e es) ≡ count_if test (e ∷ es)
  count_if-insert_event test e [] = refl
  count_if-insert_event test e (d ∷ ds) = ground (arith, count_if-insert_event test e ds)

  -- Sorting keeps the number of events that pass a test.
  pub count_if-sort_events :
      (test : Event B → Bool) (es : List (Event B))
      → count_if test (sort_events es) ≡ count_if test es
  unfolding sort_events
  count_if-sort_events test [] = refl
  count_if-sort_events test (e ∷ es) =
      count_if-insert_event test e (sort_events es) ∙ ground (arith, count_if-sort_events test es)

  abbrev pub keys_in : Option (PendingWindow B) → ℕ
  keys_in none = 0
  keys_in (some p) = p.keystroke_count

  abbrev pub mice_in : Option (PendingWindow B) → ℕ
  mice_in none = 0
  mice_in (some p) = length p.mouse_events

  pub append-keys :
      (e : Event B) (o : Option (PendingWindow B)) (t : ℕ)
      → (append e (pending_at o t)).keystroke_count ≡ keys_in o + one_if (is_keystroke e)
  unfolding append pending_at
  append-keys (keyboard e) none t = ground arith
  append-keys (keyboard e) (some p) t = ground arith
  append-keys (mouse e) none t = ground arith
  append-keys (mouse e) (some p) t = ground arith

  pub append-mice :
      (e : Event B) (o : Option (PendingWindow B)) (t : ℕ)
      → length (append e (pending_at o t)).mouse_events ≡ mice_in o + one_if (is_mouse e)
  unfolding append pending_at
  append-mice (keyboard e) none t = ground arith
  append-mice (keyboard e) (some p) t = ground arith
  append-mice (mouse e) none t = ground arith
  append-mice (mouse e) (some p) t = ground (arith, length-append p.mouse_events (e ∷ []))

module _ {B : Type 0} (F : Features B) (cfg : WindowConfig) where
  abbrev pub keys_of : List (FeatureWindow F) → ℕ
  keys_of [] = 0
  keys_of (w ∷ ws) = w.key_event_count + keys_of ws

  abbrev pub mice_of : List (FeatureWindow F) → ℕ
  mice_of [] = 0
  mice_of (w ∷ ws) = w.mouse_event_count + mice_of ws

  -- The ids of the windows count up from a number.
  abbrev pub IsNumbered : ℕ → List (FeatureWindow F) → Type 0
  IsNumbered n [] = Unit
  IsNumbered n (w ∷ ws) = (w.window_index ≡ n) × IsNumbered (suc n) ws

  -- A window is no larger than its limit, and has the features that its counts allow.
  pub record IsWindow (w : FeatureWindow F) : Type 0 where
    pub bounded : w.key_event_count ≤ cfg.window_keystrokes
    pub keyboard_allowed : is_some w.keyboard_features ≡ leb cfg.min_keystrokes w.key_event_count
    pub mouse_allowed : is_some w.mouse_features ≡ leb cfg.min_mouse_samples w.mouse_event_count

  pub close-IsWindow :
      (t : ℕ) (p : PendingWindow B) (n : ℕ)
      → p.keystroke_count ≤ cfg.window_keystrokes
      → IsWindow (close F cfg t p n)
  unfolding close quality_label
  close-IsWindow t p n h = record {
    bounded = h;
    keyboard_allowed = ground arith;
    mouse_allowed = ground arith;
  }
