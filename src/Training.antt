-- ===== src/Training.antt =====
-- ml/training: what a model may be trained on.
pub mod Gate
mod Tests
