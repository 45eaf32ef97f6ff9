-- ===== src/Features/Windowing/Tests.antt =====
-- Runs of the window builder of ml/features/windowing.py.
use continuous_auth.Common.{ℕ, ◌≡◌, refl, true, false, List, [], ◌∷◌, All, length, arith}
use continuous_auth.Features.Windowing.{
  WindowConfig, Event, keyboard, mouse, is_keystroke, is_mouse, push_events, push_ordered,
  sort_events, push_event, flush, Features,
}
use continuous_auth.Features.Windowing.Accounting.{keys_of, mice_of, IsNumbered, IsWindow}
use continuous_auth.Features.Windowing.Runs.{windows_of, total, windows_of-account}

abbrev counted : Features ℕ
counted = record {
  Keyboard = ℕ;
  Mouse = ℕ;
  Context = ℕ;
  compute_keyboard = λ events duration. length events;
  compute_mouse = λ events duration. length events;
  build_context = λ start end kbd mice. end;
}

abbrev cfg : WindowConfig
cfg = record {
  window_seconds_us = 30;
  window_keystrokes = 2;
  min_keystrokes = 2;
  min_mouse_samples = 1;
}

abbrev key_at : ℕ → ℕ → Event ℕ
key_at t seq =
    keyboard
      (record { t_capture_us = t; seq = seq; is_key_down = true; is_repeat = false; body = 0 })

abbrev move_at : ℕ → ℕ → Event ℕ
move_at t seq = mouse (record { t_capture_us = t; seq = seq; body = 0 })

-- The first batch is out of order; the second leaves a window for the flush.
abbrev batches : List (List (Event ℕ))
batches = (key_at 9 3 ∷ key_at 2 1 ∷ move_at 5 2 ∷ []) ∷ (move_at 20 4 ∷ key_at 21 5 ∷ []) ∷ []

two_windows : length (windows_of counted cfg batches) ≡ 2
unfolding push_events push_ordered sort_events push_event flush
two_windows = refl

windows_of-account_example :
    (keys_of counted cfg (windows_of counted cfg batches) ≡ total is_keystroke batches)
    × (mice_of counted cfg (windows_of counted cfg batches) ≡ total is_mouse batches)
    × IsNumbered counted cfg 0 (windows_of counted cfg batches)
    × All (IsWindow counted cfg) (windows_of counted cfg batches)
windows_of-account_example = windows_of-account counted cfg batches (omega arith)
