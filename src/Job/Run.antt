-- ===== src/Job/Run.antt =====
-- Any sequence of calls on one job, as its owner, the queue and the clients make them.
use emby_migrator.Prelude.{ℕ, false, Option, none, List, [], ◌∷◌, Text, is_some}
use emby_migrator.Job.Types.{queued, Level, Job}
use emby_migrator.Job.Ops

-- A call with its arguments and the clock's answer.
pub data Op (R : Type 0) : Type 0 where
  start stop pause resume : ℕ → Op R
  complete : ℕ → Option R → Op R
  fail : ℕ → Text → Op R
  fail_with_result : ℕ → Text → Option R → Op R
  log : ℕ → Level → Text → Op R
  subscribe finish : Op R
  unsubscribe : ℕ → Op R

module _ {R : Type 0} where
  unfoldable pub apply : Op R → Job R → Job R
  apply (Op.start now) j = (Ops.start now j).0
  apply (Op.stop now) j = (Ops.stop now j).0
  apply (Op.pause now) j = (Ops.pause now j).0
  apply (Op.resume now) j = (Ops.resume now j).0
  apply (Op.complete now result) j = Ops.complete now result j
  apply (Op.fail now e) j = Ops.fail now e j
  apply (Op.fail_with_result now e result) j = Ops.fail_with_result now e result j
  apply (Op.log now level text) j = Ops.log now level text j
  apply Op.subscribe j = Ops.subscribe j
  apply Op.finish j = Ops.finish j
  apply (Op.unsubscribe i) j = Ops.unsubscribe i j

  unfoldable pub run : List (Op R) → Job R → Job R
  run [] j = j
  run (op ∷ ops) j = run ops (apply op j)

  -- A property that each call keeps is kept by every sequence of calls.
  pub run_induction :
      {P : Job R → Type 0}
      → ((op : Op R) (j : Job R) → P j → P (apply op j))
      → (ops : List (Op R)) (j : Job R) → P j
      → P (run ops j)
  unfolding run
  run_induction keep [] j h = h
  run_induction keep (op ∷ ops) j h = run_induction keep ops (apply op j) (keep op j h)

-- The job that `Create` makes at `now`; `path` is set where `initLogFile` could open the file.
unfoldable pub fresh : {R : Type 0} → ℕ → ℕ → Text → ℕ → Option Text → Job R
fresh id now job_type limit path = record {
  id = id;
  job_type = job_type;
  status = queued;
  created_at = now;
  updated_at = now;
  started_at = 0;
  ended_at = 0;
  message = [];
  result = none;
  err = [];
  cancelled = false;
  logs = [];
  log_path = path;
  log_open = is_some path;
  chans = [];
  paused = false;
  pause = none;
  pauses_made = 0;
  pauses_closed = [];
  finished = false;
  max_memory_log_entries = limit;
}
