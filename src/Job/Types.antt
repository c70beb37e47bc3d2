-- ===== src/Job/Types.antt =====
-- internal/job/job.go: the data of a job.
-- A time is a number of nanoseconds since Go's zero time, so 0 is `time.Time{}`.
-- `Result any` is the parameter `R`; the context is the flag `cancelled`.
use emby_migrator.Prelude.{ℕ, Bool, true, false, Option, List, Text}

pub data Status : Type 0 where
  queued running paused done failed stopped : Status

pub Status-discrete : Discrete Status
Status-discrete = hlevel

abbrev pub is_terminal_status : Status → Bool
is_terminal_status done = true
is_terminal_status failed = true
is_terminal_status stopped = true
is_terminal_status queued = false
is_terminal_status running = false
is_terminal_status paused = false

pub data Level : Type 0 where
  info warn error debug : Level

pub record LogEntry : Type 0 where
  pub time : ℕ
  pub level : Level
  pub message : Text

-- A buffered Go channel with its place in `subs`. `panicked` is set by what Go answers with a
-- panic: a send on a closed channel, and a second close.
pub record Chan : Type 0 where
  pub cap : ℕ
  pub queue : List LogEntry
  pub subscribed : Bool
  pub closed : Bool
  pub panicked : Bool

-- `chans` holds every channel that `Subscribe` made; `subs` are those with `subscribed`.
-- `log_open` says that `logFile` is not nil; what the file receives is left out.
-- `pause` is the channel of `j.pause` by its number, `pauses_made` counts these channels, and
-- `pauses_closed` has one entry for each `close` of one of them: Go answers a second close of a
-- channel with a panic.
pub record Job (R : Type 0) : Type 0 where
  pub id : ℕ
  pub job_type : Text
  pub status : Status
  pub created_at : ℕ
  pub updated_at : ℕ
  pub started_at : ℕ
  pub ended_at : ℕ
  pub message : Text
  pub result : Option R
  pub err : Text
  pub cancelled : Bool
  pub logs : List LogEntry
  pub log_path : Option Text
  pub log_open : Bool
  pub chans : List Chan
  pub paused : Bool
  pub pause : Option ℕ
  pub pauses_made : ℕ
  pub pauses_closed : List ℕ
  pub finished : Bool
  pub max_memory_log_entries : ℕ
