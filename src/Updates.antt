-- ===== src/Updates.antt =====
-- backend/app/updates: how segments of a user's behaviour come to retrain the user's model.
pub mod Candidates
pub mod Scheduled
pub mod Gates
pub mod Tables
pub mod Activation
pub mod Calls
mod Tests
