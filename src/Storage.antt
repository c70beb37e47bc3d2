-- ===== src/Storage.antt =====
-- internal/storage/manifest.go: names of files, and the manifest of a package.
pub mod Slug
pub mod Unique
pub mod Safe
