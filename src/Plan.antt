-- ===== src/Plan.antt =====
-- internal/exporter/media_database_plan.go and internal/embydb/identity.go: the plan of what is written
-- into a server's database, and what binds it to that server.
pub mod Merge
pub mod Lookup
pub mod Binding
pub mod Bound
pub mod Readback
pub mod Matching
