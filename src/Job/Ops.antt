-- ===== src/Job/Ops.antt =====
-- internal/job/job.go: the operations of a job. A method returns the new job; where the source
-- returns a Boolean the result is paired with it. `now` is what `time.Now()` answered.
use emby_migrator.Prelude.{
  ℕ, suc, ◌+◌, Bool, true, false, not, ◌&&◌, Option, none, some, List, [], ◌∷◌, ◌++◌, length,
  get_elem?, set, ◌==◌, if◌then◌else◌, Text, codes,
}
use emby_migrator.Job.Types.{
  Status, running, paused, done, failed, stopped, is_terminal_status, Level, info, warn, error,
  LogEntry, Job,
}
use emby_migrator.Job.Log.{
  publish_locked, publish_memory_locked, trim_memory_logs_locked, close_subs_locked,
  close_log_locked, retire,
}

abbrev pub is_paused : Status → Bool
is_paused paused = true
is_paused _ = false

abbrev pub is_running : Status → Bool
is_running running = true
is_running _ = false

-- The texts of the entries that the state changes publish.
abbrev pub completed_message : Text
completed_message = codes "任务完成"

abbrev pub stopped_message : Text
stopped_message = codes "任务已停止"

abbrev pub paused_message : Text
paused_message = codes "任务已暂停，当前请求完成后停止派发新项目"

abbrev pub resumed_message : Text
resumed_message = codes "任务已继续"

-- Whether the pause channel `g` is closed.
abbrev pub is_closed : ℕ → List ℕ → Bool
is_closed g [] = false
is_closed g (c ∷ cs) = if g == c then true else is_closed g cs

module _ {R : Type 0} where
  unfoldable pub resume_locked : Job R → Job R
  resume_locked j = record j {
    paused = false;
    pause = none;
    pauses_closed = elim j.pause [ none ↦ j.pauses_closed | some g ↦ g ∷ j.pauses_closed ];
  }

  -- The common end of `Complete`, `Fail`, `FailWithResult` and `Stop`.
  close_with : ℕ → Level → Text → Job R → Job R
  unfolding resume_locked publish_locked trim_memory_logs_locked
  close_with now level text j =
      trim_memory_logs_locked
        (publish_locked (record { time = now; level = level; message = text }) (resume_locked j))

  unfoldable pub start : ℕ → Job R → Job R × Bool
  start now j =
      if is_terminal_status j.status
      then (j, false)
      else (record j { status = running; started_at = now; updated_at = now }, true)

  unfoldable pub complete : ℕ → Option R → Job R → Job R
  unfolding close_with
  complete now result j =
      if is_terminal_status j.status
      then j
      else close_with now info completed_message (record j {
        cancelled = true;
        status = done;
        result = result;
        ended_at = now;
        updated_at = now;
      })

  unfoldable pub fail : ℕ → Text → Job R → Job R
  unfolding close_with
  fail now e j =
      if is_terminal_status j.status
      then j
      else close_with now error e (record j {
        cancelled = true;
        status = failed;
        err = e;
        ended_at = now;
        updated_at = now;
      })

  unfoldable pub fail_with_result : ℕ → Text → Option R → Job R → Job R
  unfolding close_with
  fail_with_result now e result j =
      if is_terminal_status j.status
      then j
      else close_with now error e (record j {
        cancelled = true;
        status = failed;
        result = result;
        err = e;
        ended_at = now;
        updated_at = now;
      })

  -- `j.cancel()` comes first, also for a job that has ended.
  unfoldable pub stop : ℕ → Job R → Job R × Bool
  unfolding close_with
  stop now j = if is_terminal_status j.status then (record j { cancelled = true }, false) else (
    close_with now warn stopped_message
        (record j { cancelled = true; status = stopped; ended_at = now; updated_at = now }),
    true,
  )

  -- `if j.pause == nil { j.pause = make(chan struct{}) }`
  ensure_pause : Job R → Job R
  ensure_pause j = record j {
    pause = elim j.pause [ none ↦ some j.pauses_made | some g ↦ some g ];
    pauses_made = elim j.pause [ none ↦ suc j.pauses_made | some g ↦ j.pauses_made ];
  }

  unfoldable pub pause : ℕ → Job R → Job R × Bool
  unfolding ensure_pause publish_locked
  pause now j =
      if is_running j.status
      then (
        publish_locked (record { time = now; level = warn; message = paused_message })
            (record (ensure_pause (record j { status = paused; paused = true })) {
              updated_at = now;
            }),
        true,
      )
      else (j, false)

  unfoldable pub resume : ℕ → Job R → Job R × Bool
  unfolding resume_locked publish_locked
  resume now j =
      if is_paused j.status
      then (
        publish_locked (record { time = now; level = info; message = resumed_message })
            (resume_locked (record j { status = running; updated_at = now })),
        true,
      )
      else (j, false)

  -- `Log` under the lock; the formatting of `args` into `text` is the caller's. The write to the file,
  -- after the lock is released, is left out.
  unfoldable pub log : ℕ → Level → Text → Job R → Job R
  unfolding publish_memory_locked
  log now level text j =
      let entry : LogEntry = record { time = now; level = level; message = text } in
      record (publish_memory_locked entry j) { updated_at = now; message = text }

  -- The channel is made with room for 100 entries beyond those it is filled with.
  unfoldable pub subscribe : Job R → Job R
  subscribe j = record j {
    chans =
        j.chans
        ++ record {
          cap = length j.logs + 100;
          queue = j.logs;
          subscribed = not j.finished;
          closed = j.finished;
          panicked = false;
        }
          ∷ [];
  }

  -- The function that `Subscribe` returns, for the channel at place `i`.
  unfoldable pub unsubscribe : ℕ → Job R → Job R
  unfolding retire
  unsubscribe i j = record j {
    chans = elim (get_elem? j.chans i) [ none ↦ j.chans | some c ↦ set j.chans i (retire c) ];
  }

  unfoldable pub finish : Job R → Job R
  unfolding close_subs_locked close_log_locked
  finish j =
      if j.finished then j else close_log_locked (close_subs_locked (record j { finished = true }))

  -- The file is closed, and forgotten where it has a path; its removal is left out.
  unfoldable pub dispose : Job R → Job R
  dispose j = elim j.log_path [
    | none ↦ record j { log_open = false }
    | some path ↦ record j { log_path = none; log_open = false }
  ]

  -- One round of `WaitIfPaused` under the lock: `none` returns nil, `some c` goes on to wait for the
  -- context or for `c`, the channel that was read (`some none` is the nil channel, never ready).
  unfoldable pub wait_round : Job R → Option (Option ℕ)
  wait_round j = if j.paused && is_paused j.status then some j.pause else none
