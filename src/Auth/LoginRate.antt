-- ===== src/Auth/LoginRate.antt =====
-- internal/web/auth.go: `loginBlocked`, `recordLoginFailure`, `clearLoginFailures` and the cleanup.
-- Times are nanoseconds since Go's zero time; a difference of times is floored at 0, which no test
-- here can tell from a negative duration. The key is the text that `loginRateLimitKey` makes.
use emby_migrator.Prelude.{
  ℕ, suc, ◌+◌, ◌-◌, ◌/◌, Bool, not, ◌&&◌, ◌||◌, Option, none, some, List, [], ◌∷◌, Text, text_eq,
  ltb, leb, ◌==◌, if◌then◌else◌,
}

abbrev pub login_max_failures : ℕ
login_max_failures = 5

-- Five minutes, and one.
abbrev pub login_rate_limit_window : ℕ
login_rate_limit_window = 300000000000

abbrev pub login_rate_cleanup_every : ℕ
login_rate_cleanup_every = 60000000000

-- `loginAttemptState`
pub record Attempt : Type 0 where
  pub failures : ℕ
  pub first_failure : ℕ
  pub blocked_until : ℕ

-- `loginAttempts` and `loginLastCleanup`.
pub record Limiter : Type 0 where
  pub attempts : Text → Option Attempt
  pub last_cleanup : ℕ

abbrev pub no_attempt : Attempt
no_attempt = record { failures = 0; first_failure = 0; blocked_until = 0 }

-- The value of a missing key is the zero value.
abbrev pub or_zero : Option Attempt → Attempt
or_zero none = no_attempt
or_zero (some a) = a

abbrev pub update : (Text → Option Attempt) → Text → Option Attempt → Text → Option Attempt
update m k v j = if text_eq j k then v else m j

unfoldable pub is_stale : ℕ → Attempt → Bool
is_stale now a =
    (not (a.blocked_until == 0) && not (ltb now a.blocked_until))
    || (a.blocked_until == 0 && leb login_rate_limit_window (now - a.first_failure))

abbrev pub unless_stale : ℕ → Option Attempt → Option Attempt
unless_stale now none = none
unless_stale now (some a) = if is_stale now a then none else some a

unfoldable pub cleanup_login_attempts : ℕ → Limiter → Limiter
unfolding is_stale
cleanup_login_attempts now s =
    if not (s.last_cleanup == 0) && ltb (now - s.last_cleanup) login_rate_cleanup_every
    then s
    else record { attempts = λ k. unless_stale now (s.attempts k); last_cleanup = now }

-- The time that is left where the key is blocked.
unfoldable pub login_blocked : Text → ℕ → Limiter → Option ℕ × Limiter
unfolding cleanup_login_attempts
login_blocked key now s0 =
    let s = cleanup_login_attempts now s0 in
    let a = or_zero (s.attempts key) in
    if ltb now a.blocked_until
    then (some (a.blocked_until - now), s)
    else if not (a.blocked_until == 0)
    then (none, record s { attempts = update s.attempts key none })
    else (none, s)

-- The attempt after one more failure.
unfoldable pub count_failure : ℕ → Attempt → Attempt
count_failure now a =
    let b =
      if a.first_failure == 0 || leb login_rate_limit_window (now - a.first_failure)
      then record { failures = 0; first_failure = now; blocked_until = 0 }
      else a in
    let c = record b { failures = suc b.failures } in
    if leb login_max_failures c.failures
    then record c { blocked_until = now + login_rate_limit_window }
    else c

unfoldable pub record_login_failure : Text → ℕ → Limiter → Option ℕ × Limiter
unfolding cleanup_login_attempts count_failure
record_login_failure key now s0 =
    let s = cleanup_login_attempts now s0 in
    let a = count_failure now (or_zero (s.attempts key)) in
    (
      if ltb now a.blocked_until then some (a.blocked_until - now) else none,
      record s { attempts = update s.attempts key (some a) },
    )

unfoldable pub clear_login_failures : Text → Limiter → Limiter
clear_login_failures key s = record s { attempts = update s.attempts key none }

-- `writeLoginRateLimitError`: the value of the header Retry-After, in seconds.
unfoldable pub retry_after_seconds : ℕ → ℕ
retry_after_seconds left =
    let seconds = (left + 1000000000 - 1) / 1000000000 in if ltb seconds 1 then 1 else seconds

-- The calls that `handleAuthLogin` makes on the limiter, with the clock's answers.
pub data Call : Type 0 where
  ask : Text → ℕ → Call
  failed : Text → ℕ → Call
  succeeded : Text → Call

unfoldable pub step : Limiter → Call → Limiter
step s (ask k t) = (login_blocked k t s).1
step s (failed k t) = (record_login_failure k t s).1
step s (succeeded k) = clear_login_failures k s

unfoldable pub run : List Call → Limiter → Limiter
run [] s = s
run (c ∷ cs) s = run cs (step s c)

abbrev pub no_attempts : Limiter
no_attempts = record { attempts = λ k. none; last_cleanup = 0 }
