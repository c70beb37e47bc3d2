-- ===== src/Settings.antt =====
-- internal/web/settings.go: the saved servers, and whose key is used for which.
pub mod Types
pub mod Connection
pub mod Keys
