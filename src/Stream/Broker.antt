-- ===== src/Stream/Broker.antt =====
-- backend/app/websocket/broker.py: history, cursors and slow clients. `P` is the type of a payload,
-- `kind_of` its class among those that the stream carries, and
-- `snapshot` the provider's answer, a function of the sequence number that the broker writes into it,
-- or none where it raises. An exception that escapes a call is none in the place of its result. The client's identifier and the time of emission are arguments. A client's queue is the list of
-- what waits in it, oldest first; `dropped` holds the queues of the clients taken off as slow.
pub mod Replay
pub mod Delivery
mod Tests
use continuous_auth.Common.{
  ℕ, ◌+◌, Bool, true, false, not, ◌||◌, Option, none, some, List, [], ◌∷◌, ◌++◌, String, ltb, leb,
  ◌==◌, if◌then◌else◌, length, push_bounded,
}
use mathlib.Core.Option
use text.Mathlib.Text.{◌==◌ as str_eq}

pub data StreamEventType : Type 0 where
  risk_event alert_event state_event health_event snapshot_event resync_required_event :
      StreamEventType

-- The classes of `WebSocketPayload`.
pub data PayloadKind : Type 0 where
  risk_decision alert current_state health stream_snapshot resync_notice : PayloadKind

abbrev pub rank_of : PayloadKind → ℕ
rank_of risk_decision = 0
rank_of alert = 1
rank_of current_state = 2
rank_of health = 3
rank_of stream_snapshot = 4
rank_of resync_notice = 5

-- The class that an event type asks for.
abbrev pub kind_for : StreamEventType → PayloadKind
kind_for risk_event = risk_decision
kind_for alert_event = alert
kind_for state_event = current_state
kind_for health_event = health
kind_for snapshot_event = stream_snapshot
kind_for resync_required_event = resync_notice

-- The conditional rules of `WebSocketEnvelope`.
unfoldable pub matches : {P : Type 0} → (P → PayloadKind) → StreamEventType → P → Bool
matches kind_of event_type payload = rank_of (kind_for event_type) == rank_of (kind_of payload)

pub record WebSocketEnvelope (P : Type 0) : Type 0 where
  pub stream_seq : ℕ
  pub event_type : StreamEventType
  pub emitted_at : String
  pub payload : P

pub data StreamItem (P : Type 0) : Type 0 where
  envelope : WebSocketEnvelope P → StreamItem P
  slow_client : StreamItem P

pub record StreamSubscription (P : Type 0) : Type 0 where
  pub client_id : String
  pub initial : List (WebSocketEnvelope P)

pub record EventBroker (P : Type 0) : Type 0 where
  pub history : List (WebSocketEnvelope P)
  pub replay_capacity : ℕ
  pub client_capacity : ℕ
  pub clients : List (String × List (StreamItem P))
  pub dropped : List (String × List (StreamItem P))
  pub sequence : ℕ

module _ {P : Type 0} where
  abbrev pub empty_broker : ℕ → ℕ → EventBroker P
  empty_broker replay_capacity client_capacity = record {
    history = [];
    replay_capacity = replay_capacity;
    client_capacity = client_capacity;
    clients = [];
    dropped = [];
    sequence = 0;
  }

  -- The constructor raises a `ValueError` at a capacity below one.
  unfoldable pub new_broker : ℕ → ℕ → Option (EventBroker P)
  new_broker replay_capacity client_capacity =
      if ltb replay_capacity 1 || ltb client_capacity 1
      then none
      else some (empty_broker replay_capacity client_capacity)

  -- `put_nowait` of an envelope on every queue: the clients with room, and those without. Their
  -- queues are emptied, and hold only the mark of a slow client.
  abbrev pub offered :
      ℕ
      → WebSocketEnvelope P
      → List (String × List (StreamItem P))
      → List (String × List (StreamItem P))
  offered capacity e [] = []
  offered capacity e ((id, queue) ∷ cs) =
      let rest = offered capacity e cs in
      if leb capacity (length queue) then rest else (id, queue ++ envelope e ∷ []) ∷ rest

  abbrev pub slow : ℕ → List (String × List (StreamItem P)) → List (String × List (StreamItem P))
  slow capacity [] = []
  slow capacity ((id, queue) ∷ cs) =
      let rest = slow capacity cs in
      if leb capacity (length queue) then (id, slow_client ∷ []) ∷ rest else rest

  -- The number is taken before the payload is checked.
  unfoldable pub publish :
      (P → PayloadKind)
      → StreamEventType
      → String
      → P
      → EventBroker P
      → Option (WebSocketEnvelope P) × EventBroker P
  publish kind_of event_type emitted_at payload b =
      let e : WebSocketEnvelope P = record {
        stream_seq = b.sequence + 1;
        event_type = event_type;
        emitted_at = emitted_at;
        payload = payload;
      } in
      let sent = record b {
        sequence = b.sequence + 1;
        history = push_bounded b.replay_capacity b.history e;
        clients = offered b.client_capacity e b.clients;
        dropped = b.dropped ++ slow b.client_capacity b.clients;
      } in
      if matches kind_of event_type payload
      then (some e, sent)
      else (none, record b { sequence = b.sequence + 1 })

  -- `self._clients[client_id] = queue`
  abbrev pub put_client :
      String
      → List (StreamItem P)
      → List (String × List (StreamItem P))
      → List (String × List (StreamItem P))
  put_client id queue [] = (id, queue) ∷ []
  put_client id queue ((other, q) ∷ cs) =
      let rest = put_client id queue cs in
      if str_eq other id then (id, queue) ∷ cs else (other, q) ∷ rest

  -- `self._clients.pop(client_id, None)`
  abbrev pub pop_client :
      String → List (String × List (StreamItem P)) → List (String × List (StreamItem P))
  pop_client id [] = []
  pop_client id ((other, q) ∷ cs) =
      let rest = pop_client id cs in if str_eq other id then cs else (other, q) ∷ rest

  -- `self._history[0].stream_seq if self._history else self._sequence`
  abbrev pub earliest : EventBroker P → List (WebSocketEnvelope P) → ℕ
  earliest b [] = b.sequence
  earliest b (e ∷ es) = e.stream_seq

  abbrev pub after_cursor : ℕ → List (WebSocketEnvelope P) → List (WebSocketEnvelope P)
  after_cursor cursor [] = []
  after_cursor cursor (e ∷ es) =
      let rest = after_cursor cursor es in if ltb cursor e.stream_seq then e ∷ rest else rest

  -- A cursor that the history can serve. `cursor < earliest - 1` is `cursor + 1 < earliest`.
  abbrev pub replayable : Option ℕ → EventBroker P → Bool
  replayable none b = false
  replayable (some cursor) b =
      not (ltb (cursor + 1) (earliest b b.history) || ltb b.sequence cursor)

  abbrev pub replayed : Option ℕ → EventBroker P → List (WebSocketEnvelope P)
  replayed none b = []
  replayed (some cursor) b = after_cursor cursor b.history

  -- The envelope of `_snapshot`, around the provider's answer.
  abbrev pub snapshot_envelope : String → EventBroker P → P → WebSocketEnvelope P
  snapshot_envelope emitted_at b payload = record {
    stream_seq = b.sequence;
    event_type = snapshot_event;
    emitted_at = emitted_at;
    payload = payload;
  }

  module _ (snapshot : ℕ → Option P) where
    -- `_snapshot`
    unfoldable pub snapshot_of : String → EventBroker P → Option (WebSocketEnvelope P)
    snapshot_of emitted_at b = Option.map (snapshot_envelope emitted_at b) (snapshot b.sequence)

    unfoldable pub initial_of :
        String → Option ℕ → EventBroker P → Option (List (WebSocketEnvelope P))
    unfolding snapshot_of
    initial_of emitted_at cursor b =
        if replayable cursor b
        then some (replayed cursor b)
        else Option.map (λ e. e ∷ []) (snapshot_of emitted_at b)

    -- A cursor is a natural number here, so that the check for a negative one has no counterpart. The
    -- client is registered before the provider is called.
    unfoldable pub subscribe :
        String → String → Option ℕ → EventBroker P → Option (StreamSubscription P) × EventBroker P
    unfolding initial_of
    subscribe client_id emitted_at cursor b = (
      Option.map (λ es. record { client_id = client_id; initial = es })
          (initial_of emitted_at cursor b),
      record b { clients = put_client client_id [] b.clients },
    )

  unfoldable pub unsubscribe : String → EventBroker P → EventBroker P
  unsubscribe client_id b = record b { clients = pop_client client_id b.clients }
