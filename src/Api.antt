-- ===== src/Api.antt =====
-- The limit on failed logins: internal/api/authlimiter.go. The rest of internal/api serves HTTP.
pub mod AuthLimiter
