-- ===== src/Analytics.antt =====
-- internal/analytics: attribution of transactions, realized gains, German capital gains tax, pairs
-- of transfers in kind, and exposures.
pub mod Attribution
pub mod AverageCost
pub mod RealizedPl
pub mod InKind
pub mod Tax
pub mod Performance
pub mod Risk
pub mod Exposure
