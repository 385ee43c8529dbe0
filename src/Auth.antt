-- ===== src/Auth.antt =====
-- internal/auth: the limiter of failed logins, and the signed session tokens.
pub mod Limiter
pub mod Decimal
pub mod Token
pub mod Secrets
