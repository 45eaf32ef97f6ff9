-- ===== src/Risk.antt =====
-- backend/app/risk: from scores to risk decisions.
pub mod State
pub mod Assessment
pub mod Context
pub mod Engine
