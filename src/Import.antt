-- ===== src/Import.antt =====
-- internal/exporter/service.go: what an import asks of the target server.
pub mod Retry
pub mod Attempts
pub mod Payload
pub mod Types
pub mod Item
pub mod Fields
pub mod Images
pub mod Confined
