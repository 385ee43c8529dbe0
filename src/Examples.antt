-- ===== src/Examples.antt =====
-- Runs of the definitions, and the theorems at concrete inputs.
mod Auth
mod Backfill
mod RateLimit
mod Cashflow
mod Csv
mod Exposure
mod Gains
mod Jobs
mod Login
mod Nan
mod Tax
mod InKind
mod Parser
mod Portfolio
mod Performance
mod Import
mod Rebalance
mod Scheduler
mod Readers
