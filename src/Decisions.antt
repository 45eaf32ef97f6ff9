-- ===== src/Decisions.antt =====
-- backend/app/decisions: which action follows from a risk level, and what it does to the session.
pub mod Policy
pub mod Posture
pub mod Challenge
pub mod Enforcement
