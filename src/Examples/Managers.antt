-- ===== src/Examples/Managers.antt =====
-- The job manager (internal/job/job.go) at concrete inputs.
use emby_migrator.Prelude.{
  ℕ, zero, suc, ◌+◌, ◌≤◌, ◌≡◌, refl, true, false, none, some, [], ◌∷◌, Text, codes, length, filter,
  arith,
}
use emby_migrator.Prelude.Int.{pos, negsuc}
use emby_migrator.Job.Types.{Status, running, Job}
use emby_migrator.Job.Ops
use emby_migrator.Job.Run.{fresh}
use emby_migrator.Manager.Options.{
  ManagerOptions, normalize_manager_options, IsNormal, normalize-IsNormal,
}
use emby_migrator.Manager.Sort.{elem, sort_desc}
use emby_migrator.Manager.State.{Manager, has_id, free_id, create, create_at, prune, is_terminal}
use emby_migrator.Manager.Prune.{prune_keeps_live, prune_bounds}
use emby_migrator.Manager.Create.{create_total}
use emby_migrator.Manager.Queue
use emby_migrator.Manager.Queue.{Step, Reach}
use emby_migrator.Manager.Serial.{one_at_a_time, live_is_listed, shutdown_may_start}

abbrev given : ManagerOptions
given = record {
  log_dir = [];
  max_memory_log_entries = negsuc 4;
  max_completed_jobs = pos 1;
  completed_job_retention = pos 0;
  release_memory_on_finish = false;
}

normalize-IsNormal_example :
    IsNormal (normalize_manager_options given)
    × (IsNormal given → normalize_manager_options given ≡ given)
normalize-IsNormal_example = normalize-IsNormal given

abbrev empty : Manager ℕ
empty = Queue.new_manager given

abbrev name : Text
name = codes "export"

-- Three jobs: two ended, at 50 and at 60, and one runs.
abbrev objects : ℕ → Job ℕ
objects zero = record (fresh 40 40 name 2000 none) { status = Status.done; ended_at = 50 }
objects (suc zero) = record (fresh 41 41 name 2000 none) { status = Status.failed; ended_at = 60 }
objects (suc (suc a)) = record (fresh 42 42 name 2000 none) { status = running }

abbrev trio : Manager ℕ
trio = record {
  heap = objects;
  size = 3;
  jobs = 2 ∷ 1 ∷ 0 ∷ [];
  work = [];
  current = some 2;
  stopping = false;
  queue_done = false;
  max_memory_log_entries = 2000;
  max_completed_jobs = 1;
  completed_job_retention = 1000;
}

prune-trio : (prune trio 70).jobs ≡ 2 ∷ 1 ∷ []
unfolding prune elem sort_desc
prune-trio = refl

prune_keeps_live_example : elem 2 (prune trio 70).jobs ≡ true
unfolding elem
prune_keeps_live_example = prune_keeps_live trio 70 2 refl refl

prune_bounds_example : length (filter (is_terminal trio 70) (prune trio 70).jobs) ≤ 1
prune_bounds_example = prune_bounds trio 70 (omega arith)

create_total_example :
    (id : ℕ) × (create 41 name none trio ≡ some (create_at id name none trio))
    × (41 ≤ id)
    × (id ≤ 41 + length trio.jobs)
    × (has_id trio.heap trio.jobs id ≡ false)
create_total_example = create_total trio 41 name none

-- The ids 41 and 42 are taken.
create_skips : create 41 name none trio ≡ some (create_at 43 name none trio)
unfolding create free_id has_id fresh
create_skips = refl

-- One job is created, handed to the queue and started.
abbrev started : Manager ℕ
started =
    Queue.take_work 9 (record { job = 0; has_run = true }) []
      (record (create_at 5 name none empty) { work = record { job = 0; has_run = true } ∷ [] })

started-Reach : Reach empty started
unfolding create create_at free_id has_id Queue.new_manager normalize_manager_options
started-Reach =
    Reach.next
      (Reach.next (Reach.next Reach.here (Step.made 5 name none (create_at 5 name none empty) refl))
        (Step.submit (record { job = 0; has_run = true }) (omega arith) (omega arith)))
      (Step.take 9 (record { job = 0; has_run = true }) [] refl refl refl)

one_at_a_time_example : ◌≡◌ {A = ℕ} 0 0
unfolding Queue.take_work create_at Ops.start fresh Queue.new_manager
one_at_a_time_example = one_at_a_time given started 0 0 started-Reach refl refl

live_is_listed_example : elem 0 started.jobs ≡ true
unfolding Queue.take_work create_at Ops.start fresh Queue.new_manager
live_is_listed_example = live_is_listed given started 0 started-Reach (omega arith) refl

-- The same job, still waiting.
abbrev waiting : Manager ℕ
waiting = record (create_at 5 name none empty) { work = record { job = 0; has_run = true } ∷ [] }

shutdown_may_start_example :
    (k : Manager ℕ) × Step (Queue.shutdown waiting) k
    × (k.current ≡ some 0)
    × ((k.heap 0).status ≡ running)
unfolding create_at fresh Queue.new_manager normalize_manager_options
shutdown_may_start_example =
    shutdown_may_start waiting 9 (record { job = 0; has_run = true }) [] refl refl refl refl refl
