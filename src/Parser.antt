-- ===== src/Parser.antt =====
-- internal/parser: the readers of CSV exports.
pub mod Fields
pub mod Csv
pub mod Rows
pub mod N26
pub mod Scalable
pub mod Ing
pub mod Revolut
pub mod Sparkasse
pub mod WealthExport
pub mod HoldingsTemplate
pub mod Delta
pub mod Assets
