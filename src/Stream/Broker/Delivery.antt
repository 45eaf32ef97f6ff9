-- ===== src/Stream/Broker/Delivery.antt =====
-- The queues of the clients of backend/app/websocket/broker.py over any run of calls.
use continuous_auth.Common.{
  ℕ, ◌+◌, ◌≤◌, ◌≡◌, ◌≢◌, is_some, refl, ap, ◌∙◌, sym, subst, inl, inr, true, false, ◌||◌, Option,
  none, some, List, [], ◌∷◌, ◌++◌, String, push_bounded, arith, ltb, leb, if◌then◌else◌, length,
  length-append, All, All-append, Bool-cases,
}
use text.Mathlib.Text.{◌==◌ as str_eq}
use continuous_auth.Stream.Broker.{
  WebSocketEnvelope, StreamItem, envelope, slow_client, StreamEventType, PayloadKind, matches,
  EventBroker, publish, subscribe, offered, slow, put_client, pop_client, unsubscribe, new_broker,
  empty_broker,
}
use continuous_auth.Stream.Broker.Replay.{Recorded, publish-Recorded}

-- A client takes the oldest item of its queue.
abbrev pub take_first : {P : Type 0} → List (StreamItem P) → List (StreamItem P)
take_first [] = []
take_first (i ∷ is) = is

abbrev pub receive :
    {P : Type 0}
    → String
    → List (String × List (StreamItem P))
    → List (String × List (StreamItem P))
receive id [] = []
receive id ((other, q) ∷ cs) =
    let rest = receive id cs in
    if str_eq other id then (other, take_first q) ∷ cs else (other, q) ∷ rest

pub data Call (P : Type 0) : Type 0 where
  publish_call : StreamEventType → String → P → Call P
  -- the new client, the time and the cursor
  subscribe_call : String → String → Option ℕ → Call P
  unsubscribe_call receive_call : String → Call P

-- What is published matches its event type.
abbrev pub IsMatched : {P : Type 0} → (P → PayloadKind) → Call P → Type 0
IsMatched kind_of (publish_call t at p) = matches kind_of t p ≡ true
IsMatched kind_of (subscribe_call id at cursor) = Unit
IsMatched kind_of (unsubscribe_call id) = Unit
IsMatched kind_of (receive_call id) = Unit

-- The envelopes that wait are numbered from the one after `n` to `m`, without a gap.
abbrev pub Waiting : {P : Type 0} → ℕ → List (StreamItem P) → ℕ → Type 0
Waiting n [] m = n ≡ m
Waiting n (envelope e ∷ is) m = (e.stream_seq ≡ n + 1) × Waiting (n + 1) is m
Waiting n (slow_client ∷ is) m = ⊥

-- A client is in step: what waits for it leads to the latest envelope, within the capacity.
abbrev pub InStep : {P : Type 0} → ℕ → ℕ → String × List (StreamItem P) → Type 0
InStep capacity m (id, q) = ((n : ℕ) × Waiting n q m) × (length q ≤ capacity)

-- A client that was taken off finds the mark of a slow client, and nothing else.
abbrev pub Marked : {P : Type 0} → String × List (StreamItem P) → Type 0
Marked (id, q) = q ≡ slow_client ∷ []

module _ {P : Type 0} (kind_of : P → PayloadKind) (snapshot : ℕ → Option P) where
  unfoldable pub call : Call P → EventBroker P → EventBroker P
  call (publish_call t at p) b = (publish kind_of t at p b).1
  call (subscribe_call id at cursor) b = (subscribe snapshot id at cursor b).1
  call (unsubscribe_call id) b = unsubscribe id b
  call (receive_call id) b = record b { clients = receive id b.clients }

  unfoldable pub run : List (Call P) → EventBroker P → EventBroker P
  run [] b = b
  run (c ∷ cs) b = run cs (call c b)

  abbrev pub IsValid : EventBroker P → Type 0
  IsValid b =
      Recorded b × All (InStep b.client_capacity b.sequence) b.clients × All Marked b.dropped

clash : false ≢ true
clash h = ground arith

some-injective : {A : Type 0} (x y : A) → some x ≡ some y → x ≡ y
some-injective {A} x y h = ap (λ (o : Option A). elim o [ none ↦ x | some z ↦ z ]) h

Waiting-snoc :
    {P : Type 0} (n m : ℕ) (is : List (StreamItem P)) (e : WebSocketEnvelope P)
    → Waiting n is m
    → e.stream_seq ≡ m + 1
    → Waiting n (is ++ envelope e ∷ []) (m + 1)
Waiting-snoc n m [] e c q = (q ∙ ap (λ k. k + 1) (sym c), ap (λ k. k + 1) c)
Waiting-snoc n m (envelope x ∷ es) e c q = (c.0, Waiting-snoc (n + 1) m es e c.1 q)
Waiting-snoc n m (slow_client ∷ es) e c q = absurd c

module _ {P : Type 0} (capacity m : ℕ) where
  offered-InStep :
      (e : WebSocketEnvelope P) (cs : List (String × List (StreamItem P)))
      → e.stream_seq ≡ m + 1
      → All (InStep capacity m) cs
      → All (InStep capacity (m + 1)) (offered capacity e cs)
  offered-InStep e [] q v = tt
  offered-InStep e ((id, w) ∷ cs) q (((n, c), few), vs) =
      let rest = offered-InStep e cs q vs in
      elim (Bool-cases (leb capacity (length w))) [
        | inl full ↦ rw full rest
        | inr room ↦ rw room (
          ((n, Waiting-snoc n m w e c q), ground (arith, length-append w (envelope e ∷ []))),
          rest,
        )
      ]

  slow-Marked : (cs : List (String × List (StreamItem P))) → All Marked (slow capacity cs)
  slow-Marked [] = tt
  slow-Marked ((id, w) ∷ cs) = elim (Bool-cases (leb capacity (length w))) [
    | inl full ↦ rw full (refl, slow-Marked cs)
    | inr room ↦ rw room (slow-Marked cs)
  ]

  put_client-InStep :
      (id : String) (cs : List (String × List (StreamItem P)))
      → All (InStep capacity m) cs
      → All (InStep capacity m) (put_client id [] cs)
  put_client-InStep id [] v = (((m, refl), omega arith), tt)
  put_client-InStep id ((other, w) ∷ cs) (v, vs) = elim (Bool-cases (str_eq other id)) [
    | inl same ↦ rw same (((m, refl), omega arith), vs)
    | inr differ ↦ rw differ (v, put_client-InStep id cs vs)
  ]

  pop_client-InStep :
      (id : String) (cs : List (String × List (StreamItem P)))
      → All (InStep capacity m) cs
      → All (InStep capacity m) (pop_client id cs)
  pop_client-InStep id [] v = tt
  pop_client-InStep id ((other, w) ∷ cs) (v, vs) = elim (Bool-cases (str_eq other id)) [
    | inl same ↦ rw same vs
    | inr differ ↦ rw differ (v, pop_client-InStep id cs vs)
  ]

  take_first-InStep :
      (id : String) (w : List (StreamItem P))
      → InStep capacity m (id, w)
      → InStep capacity m (id, take_first w)
  take_first-InStep id [] v = v
  take_first-InStep id (envelope e ∷ is) ((n, (_, c)), few) = ((n + 1, c), omega arith)
  take_first-InStep id (slow_client ∷ is) ((n, c), few) = absurd c

  receive-InStep :
      (id : String) (cs : List (String × List (StreamItem P)))
      → All (InStep capacity m) cs
      → All (InStep capacity m) (receive id cs)
  receive-InStep id [] v = tt
  receive-InStep id ((other, w) ∷ cs) (v, vs) = elim (Bool-cases (str_eq other id)) [
    | inl same ↦ rw same (take_first-InStep other w v, vs)
    | inr differ ↦ rw differ (v, receive-InStep id cs vs)
  ]

publish_matched :
    {P : Type 0} (kind_of : P → PayloadKind) (t : StreamEventType) (at : String) (p : P)
    (b : EventBroker P)
    → matches kind_of t p ≡ true
    → let e : WebSocketEnvelope P = record {
      stream_seq = b.sequence + 1;
      event_type = t;
      emitted_at = at;
      payload = p;
    } in
      (publish kind_of t at p b).1 ≡ record b {
        sequence = b.sequence + 1;
        history = push_bounded b.replay_capacity b.history e;
        clients = offered b.client_capacity e b.clients;
        dropped = b.dropped ++ slow b.client_capacity b.clients;
      }
unfolding publish
publish_matched kind_of t at p b m = rw m refl

module _ {P : Type 0} (kind_of : P → PayloadKind) (snapshot : ℕ → Option P) where
  call-IsValid :
      (c : Call P) (b : EventBroker P)
      → IsMatched kind_of c
      → IsValid kind_of snapshot b
      → IsValid kind_of snapshot (call kind_of snapshot c b)
  unfolding call publish subscribe unsubscribe
  call-IsValid (publish_call t at p) b m (r, v, d) =
      let e : WebSocketEnvelope P = record {
        stream_seq = b.sequence + 1;
        event_type = t;
        emitted_at = at;
        payload = p;
      } in
      let recorded = publish-Recorded kind_of t at p b m r in
      let marked =
        All-append Marked b.dropped (slow b.client_capacity b.clients) d
          (slow-Marked b.client_capacity b.sequence b.clients) in
      let same = publish_matched kind_of t at p b m in
      subst (λ x. IsValid kind_of snapshot x) (sym same)
        (
          subst (λ x. Recorded x) same recorded,
          offered-InStep b.client_capacity b.sequence e b.clients refl v,
          marked,
        )
  call-IsValid (subscribe_call id at cursor) b m (r, v, d) =
      (r, put_client-InStep b.client_capacity b.sequence id b.clients v, d)
  call-IsValid (unsubscribe_call id) b m (r, v, d) =
      (r, pop_client-InStep b.client_capacity b.sequence id b.clients v, d)
  call-IsValid (receive_call id) b m (r, v, d) =
      (r, receive-InStep b.client_capacity b.sequence id b.clients v, d)

  run-IsValid_from :
      (cs : List (Call P)) (b : EventBroker P)
      → All (IsMatched kind_of) cs
      → IsValid kind_of snapshot b
      → IsValid kind_of snapshot (run kind_of snapshot cs b)
  unfolding run
  run-IsValid_from [] b m v = v
  run-IsValid_from (c ∷ cs) b m v =
      run-IsValid_from cs (call kind_of snapshot c b) m.1 (call-IsValid c b m.0 v)

  -- Whatever is published with a payload that matches its event type, subscribed, unsubscribed and
  -- received, in any order, also where the snapshot provider raises: the history holds the latest
  -- envelopes without a gap, what waits for a client leads without a gap to the latest envelope and
  -- stays within the capacity, and a client that was taken off as slow finds the mark of a slow
  -- client and nothing else.
  pub broker-IsValid :
      (replay_capacity client_capacity : ℕ) (b : EventBroker P) (cs : List (Call P))
      → new_broker replay_capacity client_capacity ≡ some b
      → All (IsMatched kind_of) cs
      → IsValid kind_of snapshot (run kind_of snapshot cs b)
  unfolding new_broker
  broker-IsValid replay_capacity client_capacity b cs h m =
      elim (Bool-cases (ltb replay_capacity 1 || ltb client_capacity 1)) [
        | inl bad ↦ absurd (clash (ap is_some (rw bad at h)))
        | inr good ↦ run-IsValid_from cs b m (
            subst (λ (x : EventBroker P). IsValid kind_of snapshot x)
              (some-injective (empty_broker replay_capacity client_capacity) b (rw good at h))
              (((0, refl), ground arith, ground arith), tt, tt))
      ]
