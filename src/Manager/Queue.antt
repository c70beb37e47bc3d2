-- ===== src/Manager/Queue.antt =====
-- internal/job/job.go: the queue's goroutine, the clients' calls and `Shutdown`, as steps that may
-- come in any order.
use emby_migrator.Prelude.{
  ℕ, ◌<◌, ◌≡◌, Bool, true, false, ◌&&◌, Option, none, some, List, [], ◌∷◌, ◌++◌, length,
  if◌then◌else◌, Text,
}
use emby_migrator.Job.Ops
use emby_migrator.Job.Run.{Op, apply, fresh}
use emby_migrator.Manager.Options.{ManagerOptions, normalize_manager_options}
use emby_migrator.Prelude.Int.{pos_part}
use emby_migrator.Manager.Sort.{elem}
use emby_migrator.Manager.State.{Manager, Work, update, create, prune}

-- `make(chan queuedWork, 128)`
abbrev pub queue_capacity : ℕ
queue_capacity = 128

module _ {R : Type 0} where
  -- `NewManagerWithOptions`; no object is made yet, so the heap holds nothing that is read.
  unfoldable pub new_manager : ManagerOptions → Manager R
  unfolding normalize_manager_options
  new_manager options =
      let o = normalize_manager_options options in
      record {
        heap = λ a. fresh 0 0 [] 0 none;
        size = 0;
        jobs = [];
        work = [];
        current = none;
        stopping = false;
        queue_done = false;
        max_memory_log_entries = pos_part o.max_memory_log_entries;
        max_completed_jobs = pos_part o.max_completed_jobs;
        completed_job_retention = pos_part o.completed_job_retention;
      }

  -- One received work item: the run function is started, or the job is finished at once.
  unfoldable pub take_work : ℕ → Work → List Work → Manager R → Manager R
  take_work now w rest m =
      let (started, ok) = Ops.start now (m.heap w.job) in
      let run = w.has_run && ok in
      record m {
        heap = update m.heap w.job (if run then started else Ops.finish (m.heap w.job));
        work = rest;
        current = if run then some w.job else m.current;
      }

  -- The run function of the job at `a` has returned: `finish` and `afterWork`, without the release
  -- of memory.
  unfoldable pub work_done : ℕ → ℕ → Manager R → Manager R
  work_done now a m =
      prune (record m { heap = update m.heap a (Ops.finish (m.heap a)); current = none }) now

  -- It panicked: the recovery in `runSafely`, with the text made of the panic and the stack.
  unfoldable pub work_crashed : ℕ → Text → ℕ → Manager R → Manager R
  unfolding work_done
  work_crashed now text a m =
      work_done now a (record m { heap = update m.heap a (Ops.fail now text (m.heap a)) })

  unfoldable pub shutdown : Manager R → Manager R
  shutdown m = record m {
    stopping = true;
    heap = λ a. if elem a m.jobs then record (m.heap a) { cancelled = true } else m.heap a;
  }

-- The calls that work and clients make on a job; `Start` and `finish` are the queue's.
abbrev pub is_client : {R : Type 0} → Op R → Bool
is_client (Op.start now) = false
is_client Op.finish = false
is_client _ = true

pub data Step {R : Type 0} (m : Manager R) : Manager R → Type 0 where
  made :
      (now : ℕ) (job_type : Text) (path : Option Text) (m' : Manager R)
      → create now job_type path m ≡ some m'
      → Step m m'
  submit :
      (w : Work)
      → w.job < m.size
      → length m.work < queue_capacity
      → Step m (record m { work = m.work ++ w ∷ [] })
  take :
      (now : ℕ) (w : Work) (rest : List Work)
      → m.work ≡ w ∷ rest
      → m.current ≡ none
      → m.queue_done ≡ false
      → Step m (take_work now w rest m)
  quit : m.stopping ≡ true → m.current ≡ none → Step m (record m { queue_done = true })
  call :
      (op : Op R) (a : ℕ)
      → is_client op ≡ true
      → a < m.size
      → Step m (record m { heap = update m.heap a (apply op (m.heap a)) })
  returned : (now a : ℕ) → m.current ≡ some a → Step m (work_done now a m)
  crashed :
      (now : ℕ) (text : Text) (a : ℕ) → m.current ≡ some a → Step m (work_crashed now text a m)
  look : (now : ℕ) → Step m (prune m now)
  stop : Step m (shutdown m)

pub data Reach {R : Type 0} (m : Manager R) : Manager R → Type 0 where
  here : Reach m m
  next : {k l : Manager R} → Reach m k → Step k l → Reach m l
