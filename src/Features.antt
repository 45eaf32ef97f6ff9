-- ===== src/Features.antt =====
-- ml/features: windows of events.
pub mod Windowing
