-- ===== src/Manager/Options.antt =====
-- internal/job/job.go: the options of the job manager.
use emby_migrator.Prelude.{◌<◌, ◌≡◌, Bool, false, Text, arith, if◌then◌else◌, ◌==◌}
use emby_migrator.Prelude.Int.{ℤ, pos, negsuc, is_neg, is_nonpos, pos_part}

-- A `time.Duration` is its number of nanoseconds.
pub record ManagerOptions : Type 0 where
  pub log_dir : Text
  pub max_memory_log_entries : ℤ
  pub max_completed_jobs : ℤ
  pub completed_job_retention : ℤ
  pub release_memory_on_finish : Bool

abbrev pub default_max_memory_log_entries : ℤ
default_max_memory_log_entries = pos 2000

abbrev pub default_max_completed_jobs : ℤ
default_max_completed_jobs = pos 20

-- 24 hours
abbrev pub default_completed_job_retention : ℤ
default_completed_job_retention = pos 86400000000000

abbrev is_zero : ℤ → Bool
is_zero (pos n) = n == 0
is_zero (negsuc n) = false

-- The two tests of each count, in their order: negative becomes 0, and 0 the default.
abbrev or_default : ℤ → ℤ → ℤ
or_default default value =
    let floored = if is_neg value then pos 0 else value in
    if is_zero floored then default else floored

unfoldable pub normalize_manager_options : ManagerOptions → ManagerOptions
normalize_manager_options o = record o {
  max_memory_log_entries =
      if is_nonpos o.max_memory_log_entries
      then default_max_memory_log_entries
      else o.max_memory_log_entries;
  max_completed_jobs = or_default default_max_completed_jobs o.max_completed_jobs;
  completed_job_retention = or_default default_completed_job_retention o.completed_job_retention;
}

abbrev pub IsNormal : ManagerOptions → Type 0
IsNormal o =
    (0 < pos_part o.max_memory_log_entries)
    × (0 < pos_part o.max_completed_jobs)
    × (0 < pos_part o.completed_job_retention)

-- Normal options have positive limits, and what is positive already is left as it was.
pub normalize-IsNormal :
    (o : ManagerOptions)
    → IsNormal (normalize_manager_options o) × (IsNormal o → normalize_manager_options o ≡ o)
unfolding normalize_manager_options
normalize-IsNormal o = (ground arith, λ h. ground arith)
