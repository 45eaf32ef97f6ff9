-- ===== src/Storage.antt =====
-- backend/app/storage: the audit files.
pub mod Audit
