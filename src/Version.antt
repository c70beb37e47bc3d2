-- ===== src/Version.antt =====
-- internal/web/version_check.go: whether a newer release exists, and the cache of the answer.
pub mod Numbers
pub mod Order
pub mod Cache
