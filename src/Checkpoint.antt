-- ===== src/Checkpoint.antt =====
-- internal/exporter/service.go: the checkpoint of an import: its file, its journal, and what a later run
-- resumes from. Types has the data, Replay what is read, Store what is written.
pub mod Types
pub mod Replay
pub mod Store
pub mod View
pub mod History
pub mod OurDisk
pub mod Writing
pub mod Recovery
pub mod Done
pub mod Resume
