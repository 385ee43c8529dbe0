-- ===== src/Handler.antt =====
-- internal/handler
pub mod RateLimit
pub mod Import
pub mod Export
pub mod Rebalance
pub mod Portfolio
pub mod Users
pub mod Cashflow
pub mod Login
