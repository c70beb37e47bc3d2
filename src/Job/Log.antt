-- ===== src/Job/Log.antt =====
-- internal/job/job.go: publishing, trimming, subscriptions and the end of a job's log.
use emby_migrator.Prelude.{
  ℕ, ◌-◌, ◌*◌, Bool, true, false, ◌||◌, List, [], ◌∷◌, ◌++◌, map, length, drop, ltb, leb,
  if◌then◌else◌,
}
use emby_migrator.Job.Types.{LogEntry, Chan, Job}

-- `select { case ch <- entry: default: }`
unfoldable pub send : LogEntry → Chan → Chan
send entry c =
    if c.closed
    then record c { panicked = true }
    else if ltb (length c.queue) c.cap
    then record c { queue = c.queue ++ entry ∷ [] }
    else c

-- One round of `for ch := range j.subs` in `publishMemoryLocked`.
unfoldable pub offer : LogEntry → Chan → Chan
unfolding send
offer entry c = if c.subscribed then send entry c else c

-- `close(ch)`
unfoldable pub close_chan : Chan → Chan
close_chan c = if c.closed then record c { panicked = true } else record c { closed = true }

-- One round of `closeSubsLocked`: the channel is closed and leaves `subs`.
unfoldable pub retire : Chan → Chan
unfolding close_chan
retire c = if c.subscribed then record (close_chan c) { subscribed = false } else c

unfoldable pub should_trim : ℕ → ℕ → Bool
should_trim limit n =
    if leb limit 0 || leb n limit then false else leb (limit * 2) n || leb 100 (n - limit)

-- `trimMemoryLogsLocked`: the last `limit` entries, where there is a limit.
unfoldable pub trim : ℕ → List LogEntry → List LogEntry
trim limit logs =
    if leb limit 0 || leb (length logs) limit then logs else drop (length logs - limit) logs

-- `append` and the trim of `publishMemoryLocked`.
unfoldable pub append_entry : ℕ → List LogEntry → LogEntry → List LogEntry
unfolding should_trim trim
append_entry limit logs entry =
    let logs' = logs ++ entry ∷ [] in
    if should_trim limit (length logs') then trim limit logs' else logs'

module _ {R : Type 0} where
  unfoldable pub publish_memory_locked : LogEntry → Job R → Job R
  unfolding append_entry offer
  publish_memory_locked entry j = record j {
    logs = append_entry j.max_memory_log_entries j.logs entry;
    chans = map (offer entry) j.chans;
  }

  -- The write to the file that follows, whose errors the code ignores, is left out.
  unfoldable pub publish_locked : LogEntry → Job R → Job R
  unfolding publish_memory_locked
  publish_locked entry j = publish_memory_locked entry j

  unfoldable pub trim_memory_logs_locked : Job R → Job R
  unfolding trim
  trim_memory_logs_locked j = record j { logs = trim j.max_memory_log_entries j.logs }

  unfoldable pub close_subs_locked : Job R → Job R
  unfolding retire
  close_subs_locked j = record j { chans = map retire j.chans }

  unfoldable pub close_log_locked : Job R → Job R
  close_log_locked j = record j { log_open = false }
