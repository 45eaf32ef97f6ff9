-- ===== src/Api.antt =====
-- backend/app/api: what the interface makes of the components behind it.
pub mod Challenges
