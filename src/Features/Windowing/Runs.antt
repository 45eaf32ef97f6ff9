-- ===== src/Features/Windowing/Runs.antt =====
-- Runs of the builder of ml/features/windowing.py: batches of events, and the flush at their end.
use continuous_auth.Common.{
  ℕ, suc, ◌+◌, ◌≤◌, ◌<◌, ◌≡◌, refl, ap, sym, subst, inl, inr, Bool, true, false, Option, none, some,
  List, [], ◌∷◌, ◌++◌, map, arith, leb, length, length-append, count_if, All, All-append,
  Bool-cases,
}
use continuous_auth.Features.Windowing.{
  WindowConfig, Event, time_of, sort_events, is_keystroke, is_mouse, PendingWindow, WindowBuilder,
  Features, FeatureWindow, close, append, pending_at, is_full, push_event, push_ordered,
  push_events, flush, flush_pending, latest, new_builder,
}
use continuous_auth.Features.Windowing.Accounting.{
  count_if-sort_events, keys_in, mice_in, one_if, append-keys, append-mice, keys_of, mice_of,
  IsNumbered, IsWindow, close-IsWindow,
}

one_if-le : (t : Bool) → one_if t ≤ 1
one_if-le true = omega arith
one_if-le false = omega arith

-- The events of all batches that pass a test.
abbrev pub total : {B : Type 0} → (Event B → Bool) → List (List (Event B)) → ℕ
total test [] = 0
total test (es ∷ rest) = count_if test es + total test rest

module _ {B : Type 0} (F : Features B) (cfg : WindowConfig) where
  -- What a call makes of these numbers of keystrokes and mouse events: those of the pending window
  -- and of the windows that it closes.
  pub record Accounts (b : WindowBuilder B) (r : List (FeatureWindow F) × WindowBuilder B)
      (keys mice : ℕ) : Type 0 where
    pub keystrokes : keys_of F cfg r.0 + keys_in r.1.pending ≡ keys_in b.pending + keys
    pub mouse_events : mice_of F cfg r.0 + mice_in r.1.pending ≡ mice_in b.pending + mice
    pub windows : All (IsWindow F cfg) r.0
    pub numbered : IsNumbered F cfg b.window_index r.0
    pub index : r.1.window_index ≡ b.window_index + length r.0
    pub below : keys_in r.1.pending < cfg.window_keystrokes

  close_keys :
      (t : ℕ) (p : PendingWindow B) (n : ℕ)
      → ((close F cfg t p n).key_event_count ≡ p.keystroke_count)
        × ((close F cfg t p n).mouse_event_count ≡ length p.mouse_events)
        × ((close F cfg t p n).window_index ≡ n)
  unfolding close
  close_keys t p n = (refl, refl, refl)

  not_full :
      (e : Event B) (p : PendingWindow B)
      → is_full F cfg e p ≡ false
      → p.keystroke_count < cfg.window_keystrokes
  not_full e p f = elim (Bool-cases (leb cfg.window_keystrokes p.keystroke_count)) [
    | inl h ↦ absurd (ground (arith, f, h))
    | inr h ↦ ground (arith, h)
  ]

  push_event-Accounts :
      (e : Event B) (b : WindowBuilder B)
      → keys_in b.pending < cfg.window_keystrokes
      → Accounts b (push_event F cfg e b) (one_if (is_keystroke e)) (one_if (is_mouse e))
  unfolding push_event
  push_event-Accounts e b h =
      let p = append e (pending_at b.pending (time_of e)) in
      let (ck, cm, ci) = close_keys (time_of e) p b.window_index in
      let k = append-keys e b.pending (time_of e) in
      let m = append-mice e b.pending (time_of e) in
      elim (Bool-cases (is_full F cfg e p)) [
        | inl f ↦ rw f (record {
          keystrokes = omega (arith, ck, k);
          mouse_events = omega (arith, cm, m);
          windows = (
            close-IsWindow F cfg (time_of e) p b.window_index
                (omega (arith, h, k, one_if-le (is_keystroke e))),
            tt,
          );
          numbered = (ci, tt);
          index = refl;
          below = omega (arith, h);
        })
        | inr f ↦ rw f (record {
          keystrokes = omega (arith, k);
          mouse_events = omega (arith, m);
          windows = tt;
          numbered = tt;
          index = omega arith;
          below = not_full e p f;
        })
      ]

  keys_of-append :
      (vs ws : List (FeatureWindow F))
      → keys_of F cfg (vs ++ ws) ≡ keys_of F cfg vs + keys_of F cfg ws
  keys_of-append [] ws = omega arith
  keys_of-append (v ∷ vs) ws = omega (arith, keys_of-append vs ws)

  mice_of-append :
      (vs ws : List (FeatureWindow F))
      → mice_of F cfg (vs ++ ws) ≡ mice_of F cfg vs + mice_of F cfg ws
  mice_of-append [] ws = omega arith
  mice_of-append (v ∷ vs) ws = omega (arith, mice_of-append vs ws)

  IsNumbered-append :
      (n : ℕ) (vs ws : List (FeatureWindow F))
      → IsNumbered F cfg n vs
      → IsNumbered F cfg (n + length vs) ws
      → IsNumbered F cfg n (vs ++ ws)
  IsNumbered-append n [] ws h k = subst (λ m. IsNumbered F cfg m ws) (omega arith) k
  IsNumbered-append n (v ∷ vs) ws h k = (
    h.0,
    IsNumbered-append (suc n) vs ws h.1 (subst (λ m. IsNumbered F cfg m ws) (omega arith) k),
  )

  -- Calls in a row.
  Accounts-append :
      (b : WindowBuilder B) (r s : List (FeatureWindow F) × WindowBuilder B) (k m k' m' : ℕ)
      → Accounts b r k m
      → Accounts r.1 s k' m'
      → Accounts b (r.0 ++ s.0, s.1) (k + k') (m + m')
  Accounts-append b r s k m k' m' x y = record {
    keystrokes = omega (arith, keys_of-append r.0 s.0, x.keystrokes, y.keystrokes);
    mouse_events = omega (arith, mice_of-append r.0 s.0, x.mouse_events, y.mouse_events);
    windows = All-append (IsWindow F cfg) r.0 s.0 x.windows y.windows;
    numbered =
        IsNumbered-append b.window_index r.0 s.0 x.numbered
          (subst (λ n. IsNumbered F cfg n s.0) x.index y.numbered);
    index = omega (arith, x.index, y.index, length-append r.0 s.0);
    below = y.below;
  }

  count_cons :
      (test : Event B → Bool) (e : Event B) (es : List (Event B))
      → count_if test (e ∷ es) ≡ one_if (test e) + count_if test es
  count_cons test e es = ground arith

  push_ordered-Accounts :
      (es : List (Event B)) (b : WindowBuilder B)
      → keys_in b.pending < cfg.window_keystrokes
      → Accounts b (push_ordered F cfg es b) (count_if is_keystroke es) (count_if is_mouse es)
  unfolding push_ordered
  push_ordered-Accounts [] b h = record {
    keystrokes = omega arith;
    mouse_events = omega arith;
    windows = tt;
    numbered = tt;
    index = omega arith;
    below = h;
  }
  push_ordered-Accounts (e ∷ es) b h =
      let x = push_event-Accounts e b h in
      let r = push_event F cfg e b in
      rw (count_cons is_keystroke e es, count_cons is_mouse e es)
        (Accounts-append b r (push_ordered F cfg es r.1) (one_if (is_keystroke e))
          (one_if (is_mouse e)) (count_if is_keystroke es) (count_if is_mouse es) x
          (push_ordered-Accounts es r.1 x.below))

  push_events-Accounts :
      (es : List (Event B)) (b : WindowBuilder B)
      → keys_in b.pending < cfg.window_keystrokes
      → Accounts b (push_events F cfg es b) (count_if is_keystroke es) (count_if is_mouse es)
  unfolding push_events
  push_events-Accounts es b h =
      rw (sym (count_if-sort_events is_keystroke es), sym (count_if-sort_events is_mouse es))
        (push_ordered-Accounts (sort_events es) b h)

  -- The batches of a segment, one call of `push_events` each.
  abbrev pub push_all :
      List (List (Event B)) → WindowBuilder B → List (FeatureWindow F) × WindowBuilder B
  push_all [] b = ([], b)
  push_all (es ∷ rest) b =
      let (closed, b') = push_events F cfg es b in
      let (more, b'') = push_all rest b' in (closed ++ more, b'')

  push_all-Accounts :
      (ess : List (List (Event B))) (b : WindowBuilder B)
      → keys_in b.pending < cfg.window_keystrokes
      → Accounts b (push_all ess b) (total is_keystroke ess) (total is_mouse ess)
  push_all-Accounts [] b h = record {
    keystrokes = omega arith;
    mouse_events = omega arith;
    windows = tt;
    numbered = tt;
    index = omega arith;
    below = h;
  }
  push_all-Accounts (es ∷ rest) b h =
      let x = push_events-Accounts es b h in
      let r = push_events F cfg es b in
      Accounts-append b r (push_all rest r.1) (count_if is_keystroke es) (count_if is_mouse es)
        (total is_keystroke rest) (total is_mouse rest) x (push_all-Accounts rest r.1 x.below)

  -- The windows of a segment: those that its batches close, and the one that the flush closes.
  abbrev pub with_last : Option (FeatureWindow F) → List (FeatureWindow F)
  with_last none = []
  with_last (some w) = w ∷ []

  abbrev pub windows_of : List (List (Event B)) → List (FeatureWindow F)
  windows_of ess =
      let (closed, b) = push_all ess new_builder in closed ++ with_last (flush F cfg b).0

  flush_pending-Accounts :
      (o : Option (PendingWindow B)) (b : WindowBuilder B)
      → b.pending ≡ o
      → keys_in b.pending < cfg.window_keystrokes
      → Accounts b (with_last (flush_pending F cfg o b).0, (flush_pending F cfg o b).1) 0 0
        × ((flush_pending F cfg o b).1.pending ≡ none)
  unfolding flush_pending
  flush_pending-Accounts none b e h = (
    record {
      keystrokes = omega arith;
      mouse_events = omega arith;
      windows = tt;
      numbered = tt;
      index = omega arith;
      below = h;
    },
    e,
  )
  flush_pending-Accounts (some p) b e h =
      let t =
        latest (map (λ x. x.t_capture_us) p.kbd ++ map (λ x. x.t_capture_us) p.mouse_events) in
      let (k, m, i) = close_keys t p b.window_index in
      let w = close-IsWindow F cfg t p b.window_index (omega (arith, h, ap keys_in e)) in
      (
        record {
          keystrokes = omega (arith, k, ap keys_in e);
          mouse_events = omega (arith, m, ap mice_in e);
          windows = (w, tt);
          numbered = (i, tt);
          index = omega arith;
          below = omega (arith, h);
        },
        refl,
      )

  flush-Accounts :
      (b : WindowBuilder B)
      → keys_in b.pending < cfg.window_keystrokes
      → Accounts b (with_last (flush F cfg b).0, (flush F cfg b).1) 0 0
        × ((flush F cfg b).1.pending ≡ none)
  unfolding flush
  flush-Accounts b h = flush_pending-Accounts b.pending b refl h

  -- A builder that starts on a segment and is flushed at its end counts each keystroke and each
  -- mouse event of the batches, in whatever order they come, in exactly one window. Its windows are
  -- numbered from 0, none has more keystrokes than the limit, and each has keyboard and mouse
  -- features exactly where its counts reach the minimum.
  pub windows_of-account :
      (ess : List (List (Event B)))
      → 0 < cfg.window_keystrokes
      → (keys_of F cfg (windows_of ess) ≡ total is_keystroke ess)
        × (mice_of F cfg (windows_of ess) ≡ total is_mouse ess)
        × IsNumbered F cfg 0 (windows_of ess)
        × All (IsWindow F cfg) (windows_of ess)
  windows_of-account ess h =
      let x = push_all-Accounts ess new_builder h in
      let (closed, b) = push_all ess new_builder in
      let (y, n) = flush-Accounts b x.below in
      let z =
        Accounts-append new_builder (closed, b) (with_last (flush F cfg b).0, (flush F cfg b).1)
          (total is_keystroke ess) (total is_mouse ess) 0 0 x y in
      (
        omega (arith, z.keystrokes, ap keys_in n),
        omega (arith, z.mouse_events, ap mice_in n),
        z.numbered,
        z.windows,
      )
