-- ===== src/Job.antt =====
-- internal/job/job.go: jobs, by their data (Types), logs and channels (Log) and operations (Ops);
-- the proofs are in the other children.
pub mod Types
pub mod Log
pub mod Ops
pub mod Run
pub mod Lifecycle
pub mod Subscribers
pub mod Logs
