-- ===== src/Backups.antt =====
-- Backups: apps/server/src/modules/backups, of which the retention policy is modelled.
pub mod Retention
