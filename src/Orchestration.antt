-- ===== src/Orchestration.antt =====
-- internal/web/media_database_orchestration.go: applying a media database plan around a stop and a
-- restart of the target's container. Host is what it calls, Run the control flow; the children of
-- Run's parent hold the proofs.
pub mod Host
pub mod Run
pub mod Safety
pub mod Restart
