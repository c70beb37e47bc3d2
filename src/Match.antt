-- ===== src/Match.antt =====
-- internal/exporter/service.go: which item of the target server a package's item is.
pub mod Types
pub mod Names
pub mod Filters
pub mod Numbers
pub mod Find
pub mod Justified
pub mod Sound
