-- ===== src/Risk/Engine.antt =====
-- backend/app/risk/engine.py: from a score result to a risk decision.
pub mod Emission
pub mod Scoring
pub mod Process
mod Branches
pub mod Levels
pub mod Safety
pub mod Failure
mod Tests
