-- ===== src/Stream.antt =====
-- backend/app/websocket: the stream of events to the dashboard's clients.
pub mod Broker
