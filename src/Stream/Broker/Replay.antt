-- ===== src/Stream/Broker/Replay.antt =====
-- The history of backend/app/websocket/broker.py and what a subscriber with a cursor is sent first.
use continuous_auth.Common.{
  ℕ, ◌+◌, ◌-◌, ◌≤◌, ◌≡◌, refl, ap, ◌∙◌, sym, subst, ◌⊎◌, inl, inr, true, false, not, ◌||◌, Option,
  none, some, List, [], ◌∷◌, ◌++◌, String, arith, ltb, length, length-push_bounded, drop, min, suc,
  zero, Bool-cases, Option-cases,
}
use continuous_auth.Stream.Broker.{
  WebSocketEnvelope, StreamEventType, PayloadKind, matches, EventBroker, publish, subscribe,
  snapshot_of, initial_of, snapshot_envelope, earliest, after_cursor, replayable,
}

-- The envelopes are numbered from the one after `n` to `m`, in order and without a gap.
abbrev pub Contiguous : {P : Type 0} → ℕ → List (WebSocketEnvelope P) → ℕ → Type 0
Contiguous n [] m = n ≡ m
Contiguous n (e ∷ es) m = (e.stream_seq ≡ n + 1) × Contiguous (n + 1) es m

module _ {P : Type 0} where
  -- The history holds the latest envelopes, as many as there are or as it has room for.
  abbrev pub Recorded : EventBroker P → Type 0
  Recorded b =
      ((n : ℕ) × Contiguous n b.history b.sequence)
      × (length b.history ≡ min b.replay_capacity b.sequence)
      × (1 ≤ b.replay_capacity)

  Contiguous-snoc :
      (n m : ℕ) (es : List (WebSocketEnvelope P)) (e : WebSocketEnvelope P)
      → Contiguous n es m
      → e.stream_seq ≡ m + 1
      → Contiguous n (es ++ e ∷ []) (m + 1)
  Contiguous-snoc n m [] e c q = (q ∙ ap (λ k. k + 1) (sym c), ap (λ k. k + 1) c)
  Contiguous-snoc n m (x ∷ es) e c q = (c.0, Contiguous-snoc (n + 1) m es e c.1 q)

  Contiguous-drop :
      (k n m : ℕ) (es : List (WebSocketEnvelope P))
      → Contiguous n es m
      → (n' : ℕ) × Contiguous n' (drop k es) m
  Contiguous-drop zero n m es c = (n, c)
  Contiguous-drop (suc k) n m [] c = (n, c)
  Contiguous-drop (suc k) n m (x ∷ es) c = Contiguous-drop k (n + 1) m es c.1

  Contiguous-le : (n m : ℕ) (es : List (WebSocketEnvelope P)) → Contiguous n es m → n ≤ m
  Contiguous-le n m [] c = omega arith
  Contiguous-le n m (e ∷ es) c = omega (arith, Contiguous-le (n + 1) m es c.1)

  -- Nothing is left out for a cursor before the list.
  after_cursor-before :
      (c n m : ℕ) (es : List (WebSocketEnvelope P))
      → Contiguous n es m
      → c ≤ n
      → Contiguous n (after_cursor c es) m
  after_cursor-before c n m [] h le = h
  after_cursor-before c n m (e ∷ es) h le =
      let rest = after_cursor-before c (n + 1) m es h.1 (omega arith) in
      elim (Bool-cases (ltb c e.stream_seq)) [
        | inl keep ↦ rw keep (h.0, rest)
        | inr skip ↦ absurd (ground (arith, h.0))
      ]

  after_cursor-Contiguous :
      (c n m : ℕ) (es : List (WebSocketEnvelope P))
      → Contiguous n es m
      → n ≤ c
      → c ≤ m
      → Contiguous c (after_cursor c es) m
  after_cursor-Contiguous c n m [] h le le' = omega arith
  after_cursor-Contiguous c n m (e ∷ es) h le le' = elim (Bool-cases (ltb c e.stream_seq)) [
    | inl keep ↦
        subst (λ k. Contiguous k (after_cursor c (e ∷ es)) m) (ground (arith, h.0))
          (after_cursor-before c n m (e ∷ es) h (ground (arith, h.0)))
    | inr skip ↦ rw skip (after_cursor-Contiguous c (n + 1) m es h.1 (ground (arith, h.0)) le')
  ]

  pub publish-Recorded :
      (kind_of : P → PayloadKind) (t : StreamEventType) (at : String) (p : P) (b : EventBroker P)
      → matches kind_of t p ≡ true
      → Recorded b
      → Recorded (publish kind_of t at p b).1
  unfolding publish
  publish-Recorded kind_of t at p b m ((n, c), full, room) =
      let e : WebSocketEnvelope P = record {
        stream_seq = b.sequence + 1;
        event_type = t;
        emitted_at = at;
        payload = p;
      } in
      rw m (
        Contiguous-drop (length b.history + 1 - b.replay_capacity) n (b.sequence + 1)
            (b.history ++ e ∷ []) (Contiguous-snoc n b.sequence b.history e c refl),
        omega (arith, length-push_bounded b.replay_capacity b.history e (omega arith)),
        room,
      )

  served :
      (c n : ℕ) (es : List (WebSocketEnvelope P)) (b : EventBroker P)
      → Contiguous n es b.sequence
      → length es ≡ min b.replay_capacity b.sequence
      → 1 ≤ b.replay_capacity
      → not (ltb (c + 1) (earliest b es) || ltb b.sequence c) ≡ true
      → (n ≤ c) × (c ≤ b.sequence)
  served c n [] b h full room r = (omega arith, ground arith)
  served c n (e ∷ es) b h full room r = (ground (arith, h.0), ground arith)

  -- Where the history holds the latest envelopes without a gap, a subscriber whose cursor is served
  -- is sent first exactly the envelopes after the cursor, up to the latest, in order and without a
  -- gap; every other one is sent a single snapshot that carries the number of the latest envelope, or
  -- the call raises because the provider does.
  pub subscribe_replays :
      (snapshot : ℕ → Option P) (id at : String) (cursor : Option ℕ) (b : EventBroker P)
      → Recorded b
      → let answer = (subscribe snapshot id at cursor b).0 in
        ((replayable cursor b ≡ true)
          × (c : ℕ) × (es : List (WebSocketEnvelope P)) × (cursor ≡ some c)
          × (answer ≡ some (record { client_id = id; initial = es }))
          × Contiguous c es b.sequence)
        ⊎ ((replayable cursor b ≡ false)
            × (p : P) × (snapshot b.sequence ≡ some p)
            × (answer ≡ some (record { client_id = id; initial = snapshot_envelope at b p ∷ [] })))
        ⊎ ((replayable cursor b ≡ false) × (snapshot b.sequence ≡ none) × (answer ≡ none))
  unfolding subscribe snapshot_of initial_of
  subscribe_replays snapshot id at none b v = elim (Option-cases (snapshot b.sequence)) [
    | inl e ↦ inr (inr (refl, e, rw e refl))
    | inr (p, e) ↦ inr (inl (refl, p, e, rw e refl))
  ]
  subscribe_replays snapshot id at (some c) b ((n, h), full, room) =
      elim (Bool-cases (replayable (some c) b)) [
        | inr old ↦ elim (Option-cases (snapshot b.sequence)) [
          | inl e ↦ inr (inr (old, e, rw (old, e) refl))
          | inr (p, e) ↦ inr (inl (old, p, e, rw (old, e) refl))
        ]
        | inl fresh ↦
            let (le, le') = served c n b.history b h full room fresh in
            inl (
              fresh,
              c,
              after_cursor c b.history,
              refl,
              rw fresh refl,
              after_cursor-Contiguous c n b.sequence b.history h le le',
            )
      ]
