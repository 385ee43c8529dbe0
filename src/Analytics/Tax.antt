-- ===== src/Analytics/Tax.antt =====
-- internal/analytics/tax.go: German capital gains tax.
pub mod Rates
pub mod Summary
pub mod Lots
pub mod LossPots
pub mod Sell
pub mod Vorabpauschale
