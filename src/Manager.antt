-- ===== src/Manager.antt =====
-- internal/job/job.go: the job manager: its options, the order of jobs, and pruning.
pub mod Options
pub mod Sort
pub mod State
pub mod Prune
pub mod Create
pub mod Queue
pub mod Serial
