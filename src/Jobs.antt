-- ===== src/Jobs.antt =====
-- internal/cronjobs: the jobs that run on a schedule.
pub mod Expiry
pub mod Reconciliation
pub mod Settlement
