-- ===== src/Scheduler/Backfill.antt =====
-- `BackfillNetWorthSnapshots` of internal/scheduler/jobs.go: the value of the portfolio on each past day.
pub mod History
pub mod Replay
pub mod Transit
