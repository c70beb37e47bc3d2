-- ===== src/Package.antt =====
-- internal/exporter/service.go: the paths of a package's files, and the check of a package before it
-- is imported.
pub mod Types
pub mod Paths
pub mod Validate
pub mod Relative
pub mod Inside
pub mod Shows
pub mod Intact
