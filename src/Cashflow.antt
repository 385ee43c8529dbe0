-- ===== src/Cashflow.antt =====
-- internal/cashflow/classifier.go: a category for each cash transaction, by keywords.
pub mod Rules
pub mod Classify
pub mod Override
pub mod Shadowed
