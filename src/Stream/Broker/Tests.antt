-- ===== src/Stream/Broker/Tests.antt =====
-- Runs of the broker of backend/app/websocket/broker.py, with numbers as payloads.
use continuous_auth.Common.{
  ℕ, ◌≡◌, refl, ◌⊎◌, true, false, leb, if◌then◌else◌, Option, none, some, List, [], ◌∷◌,
}
use continuous_auth.Stream.Broker.{
  EventBroker, slow_client, alert_event, risk_event, empty_broker, new_broker, publish, subscribe,
  snapshot_envelope, replayable, PayloadKind, alert, risk_decision, matches, WebSocketEnvelope,
}
use continuous_auth.Stream.Broker.Replay.{Contiguous, subscribe_replays}
use continuous_auth.Stream.Broker.Delivery.{
  Call, publish_call, subscribe_call, receive_call, call, run, IsValid, broker-IsValid,
}

abbrev snapshot : ℕ → Option ℕ
snapshot n = some n

-- Small numbers stand for alerts, and large ones for decisions.
abbrev kind_of : ℕ → PayloadKind
kind_of p = if leb p 10 then alert else risk_decision

-- The first client never reads, and is taken off at the second event.
abbrev calls : List (Call ℕ)
calls =
    subscribe_call "slow" "t0" none
    ∷ publish_call alert_event "t1" 10
    ∷ subscribe_call "late" "t2" (some 0)
    ∷ publish_call risk_event "t3" 20
    ∷ receive_call "late"
    ∷ publish_call risk_event "t4" 30
    ∷ []

abbrev broker : EventBroker ℕ
broker = run kind_of snapshot calls (empty_broker 2 1)

slow_client_dropped : broker.dropped ≡ ("slow", slow_client ∷ []) ∷ []
unfolding run call publish subscribe matches
slow_client_dropped = refl

broker-IsValid_example : IsValid kind_of snapshot broker
unfolding new_broker matches
broker-IsValid_example =
    broker-IsValid kind_of snapshot 2 1 (empty_broker 2 1) calls refl
      (tt, (refl, (tt, (refl, (tt, (refl, tt))))))

subscribe_replays_example :
    let answer = (subscribe snapshot "new" "t5" (some 1) broker).0 in
    ((replayable (some 1) broker ≡ true)
      × (c : ℕ) × (es : List (WebSocketEnvelope ℕ)) × (some 1 ≡ some c)
      × (answer ≡ some (record { client_id = "new"; initial = es }))
      × Contiguous c es broker.sequence)
    ⊎ ((replayable (some 1) broker ≡ false)
        × (p : ℕ) × (snapshot broker.sequence ≡ some p)
        × (answer
            ≡ some (record { client_id = "new"; initial = snapshot_envelope "t5" broker p ∷ [] })))
    ⊎ ((replayable (some 1) broker ≡ false) × (snapshot broker.sequence ≡ none) × (answer ≡ none))
unfolding new_broker matches
subscribe_replays_example =
    subscribe_replays snapshot "new" "t5" (some 1) broker
      (broker-IsValid kind_of snapshot 2 1 (empty_broker 2 1) calls refl
        (tt, (refl, (tt, (refl, (tt, (refl, tt))))))).0

-- A payload that does not match its event type takes a number and sends nothing.
mismatch_leaves_gap :
    (run kind_of snapshot
      (publish_call risk_event "t1" 30
        ∷ publish_call risk_event "t2" 10
        ∷ publish_call risk_event "t3" 20
        ∷ [])
      (empty_broker 2 1)).history
    ≡ record { stream_seq = 1; event_type = risk_event; emitted_at = "t1"; payload = 30 }
      ∷ record { stream_seq = 3; event_type = risk_event; emitted_at = "t3"; payload = 20 }
      ∷ []
unfolding run call publish matches
mismatch_leaves_gap = refl
