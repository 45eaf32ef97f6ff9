-- ===== src/Ingestion.antt =====
-- backend/app/ingestion: frames to bounded, attributed events.
pub mod Framing
pub mod Ordering
pub mod Events
pub mod Sessions
pub mod Validation
pub mod Recording
pub mod Pipeline
