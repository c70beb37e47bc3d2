-- ===== src/Manager/State.antt =====
-- internal/job/job.go: the manager's state, creation and pruning.
-- Job objects live on a heap and are named by address, since the map, the queue and the running work
-- share them. `jobs` holds the addresses of the map's values; the key of each is the id of its job,
-- and Go's unspecified order of a map is the order of the list.
use emby_migrator.Prelude.{
  ℕ, zero, suc, ◌-◌, Bool, true, false, not, ◌&&◌, ◌||◌, Option, none, some, List, [], ◌∷◌, Text,
  length, drop, filter, ltb, leb, ◌==◌, if◌then◌else◌,
}
use emby_migrator.Job.Types.{is_terminal_status, Job}
use emby_migrator.Job.Ops.{dispose}
use emby_migrator.Job.Run.{fresh}
use emby_migrator.Manager.Sort.{elem, sort_desc}

-- `queuedWork`: the job's address, and whether `run` is not nil.
pub record Work : Type 0 where
  pub job : ℕ
  pub has_run : Bool

-- The fields of `Manager`, with the options as they stand after `normalizeManagerOptions`.
-- `size` counts the objects made; `stopping` says that `done` is closed, `queue_done` that the
-- queue's goroutine has ended; `current` is the job whose work it runs.
pub record Manager (R : Type 0) : Type 0 where
  pub heap : ℕ → Job R
  pub size : ℕ
  pub jobs : List ℕ
  pub work : List Work
  pub current : Option ℕ
  pub stopping : Bool
  pub queue_done : Bool
  pub max_memory_log_entries : ℕ
  pub max_completed_jobs : ℕ
  pub completed_job_retention : ℕ

module _ {R : Type 0} where
  abbrev pub update : (ℕ → Job R) → ℕ → Job R → ℕ → Job R
  update heap a j b = if b == a then j else heap b

  -- Whether some job of the map has the id.
  unfoldable pub has_id : (ℕ → Job R) → List ℕ → ℕ → Bool
  has_id heap [] id = false
  has_id heap (a ∷ as') id = if (heap a).id == id then true else has_id heap as' id

  -- The loop of `Create` that moves the clock's answer on until its id is free; an id is the number
  -- of nanoseconds that its decimal text spells. `none`: the fuel ran out.
  unfoldable pub free_id : (ℕ → Job R) → List ℕ → ℕ → ℕ → Option ℕ
  free_id heap jobs zero now = none
  free_id heap jobs (suc fuel) now =
      let rest = free_id heap jobs fuel (suc now) in if has_id heap jobs now then rest else some now

  -- `Create` with the id it found, and the path of the log file where that could be opened.
  unfoldable pub create_at : ℕ → Text → Option Text → Manager R → Manager R
  create_at id job_type path m = record m {
    heap = update m.heap m.size (fresh id id job_type m.max_memory_log_entries path);
    size = suc m.size;
    jobs = m.size ∷ m.jobs;
  }

  unfoldable pub create : ℕ → Text → Option Text → Manager R → Option (Manager R)
  create now job_type path m = elim (free_id m.heap m.jobs (suc (length m.jobs)) now) [
    | none ↦ none
    | some id ↦ some (create_at id job_type path m)
  ]

  module _ (m : Manager R) (now : ℕ) where
    abbrev pub ended_at : ℕ → ℕ
    ended_at a = (m.heap a).ended_at

    abbrev pub is_terminal : ℕ → Bool
    is_terminal a = is_terminal_status (m.heap a).status

    -- The job is terminal and ended longer ago than jobs are retained.
    unfoldable pub expired : ℕ → Bool
    expired a =
        is_terminal a
        && ltb 0 m.completed_job_retention
        && not (ended_at a == 0)
        && ltb m.completed_job_retention (now - ended_at a)

    -- The slice `completed`.
    unfoldable pub completed : List ℕ
    unfolding expired
    completed = filter (λ a. is_terminal a && not (expired a)) m.jobs

    -- What the second loop deletes: all but the latest `MaxCompletedJobs`.
    unfoldable pub surplus : List ℕ
    unfolding completed
    surplus =
        if leb m.max_completed_jobs 0 || leb (length completed) m.max_completed_jobs
        then []
        else drop m.max_completed_jobs (sort_desc ended_at completed)

    unfoldable pub removed : ℕ → Bool
    unfolding surplus
    removed a = expired a || elem a surplus

    -- `pruneCompletedLocked`
    unfoldable pub prune : Manager R
    unfolding removed
    prune = record m {
      jobs = filter (λ a. not (removed a)) m.jobs;
      heap = λ a. if elem a m.jobs && removed a then dispose (m.heap a) else m.heap a;
    }
