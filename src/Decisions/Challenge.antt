-- ===== src/Decisions/Challenge.antt =====
-- backend/app/decisions/challenge.py: security challenges and their answers.
pub mod Credential
pub mod Registry
pub mod Service
pub mod Prompts
pub mod Keys
pub mod Ready
pub mod Answers
pub mod Setup
pub mod Selection
pub mod Openings
mod Codec
mod Tests
pub mod Refinement
