-- ===== src/Auth/Lockout.antt =====
-- internal/web/auth.go: who is locked out, and who is not.
use emby_migrator.Prelude.{
  ℕ, suc, ◌+◌, ◌*◌, ◌≤◌, ◌<◌, ◌≡◌, true, false, Option, none, some, List, [], ◌∷◌, Text, text_eq,
  text_eq_iff, text_eq_refl, if◌then◌else◌, is_some, arith, All,
}
use emby_migrator.Auth.LoginRate.{
  Attempt, Limiter, Call, ask, failed, succeeded, step, run, login_blocked, record_login_failure,
  clear_login_failures, retry_after_seconds, no_attempts, or_zero, login_rate_limit_window,
}

-- How often a key has failed in a list of calls.
abbrev pub failures_of : Text → List Call → ℕ
failures_of k [] = 0
failures_of k (ask j t ∷ cs) = failures_of k cs
failures_of k (failed j t ∷ cs) = if text_eq k j then suc (failures_of k cs) else failures_of k cs
failures_of k (succeeded j ∷ cs) = failures_of k cs

failures_split :
    (k : Text) (c : Call) (cs : List Call)
    → failures_of k (c ∷ cs) ≡ failures_of k (c ∷ []) + failures_of k cs
failures_split k (ask j t) cs = omega arith
failures_split k (failed j t) cs = ground arith
failures_split k (succeeded j) cs = omega arith

-- The state of one key: a block needs five failures, and the failures counted are at most `n`.
pub record IsEarned (n : ℕ) (a : Attempt) : Type 0 where
  pub blocked : 0 < a.blocked_until → 5 ≤ a.failures
  pub counted : a.failures ≤ n

step-IsEarned :
    (k : Text) (s : Limiter) (c : Call) (n : ℕ)
    → IsEarned n (or_zero (s.attempts k))
    → IsEarned (n + failures_of k (c ∷ [])) (or_zero ((step s c).attempts k))
unfolding step login_blocked record_login_failure clear_login_failures
step-IsEarned k s (ask j t) n h = ground arith
step-IsEarned k s (failed j t) n h = ground (arith, text_eq_iff k j)
step-IsEarned k s (succeeded j) n h = ground arith

run-IsEarned :
    (k : Text) (cs : List Call) (s : Limiter) (n : ℕ)
    → IsEarned n (or_zero (s.attempts k))
    → IsEarned (n + failures_of k cs) (or_zero ((run cs s).attempts k))
unfolding run
run-IsEarned k [] s n h = ground arith
run-IsEarned k (c ∷ cs) s n h =
    let ih = run-IsEarned k cs (step s c) (n + failures_of k (c ∷ [])) (step-IsEarned k s c n h) in
    record { blocked = ih.blocked; counted = omega (arith, ih.counted, failures_split k c cs) }

-- A key is locked out only for its own failures: if it is blocked after some calls on an empty
-- limiter, it has failed at least five times among them.
pub blocked_needs_failures :
    (k : Text) (cs : List Call) (now left : ℕ)
    → (login_blocked k now (run cs no_attempts)).0 ≡ some left
    → 5 ≤ failures_of k cs
unfolding login_blocked
blocked_needs_failures k cs now left e =
    let h =
      run-IsEarned k cs no_attempts 0
        (record { blocked = λ z. absurd (omega arith); counted = omega arith }) in
    ground (arith, h.blocked, h.counted)

-- A call at a time in the window that begins at `start`; a success is another key's.
abbrev pub IsWithin : Text → ℕ → Call → Type 0
IsWithin k start (ask j t) = (start ≤ t) × (t < start + login_rate_limit_window)
IsWithin k start (failed j t) = (start ≤ t) × (t < start + login_rate_limit_window)
IsWithin k start (succeeded j) = text_eq k j ≡ false

-- The key has failed `n` times or more since `start`, and is blocked once that is five.
pub record IsCounting (start n : ℕ) (o : Option Attempt) : Type 0 where
  pub present : is_some o ≡ true
  pub first : (or_zero o).first_failure ≡ start
  pub enough : n ≤ (or_zero o).failures
  pub free : (or_zero o).failures < 5 → (or_zero o).blocked_until ≡ 0
  pub blocked :
      5 ≤ (or_zero o).failures → start + login_rate_limit_window ≤ (or_zero o).blocked_until

step-IsCounting :
    (k : Text) (start : ℕ) (s : Limiter) (c : Call) (n : ℕ)
    → 0 < start
    → IsWithin k start c
    → IsCounting start n (s.attempts k)
    → IsCounting start (n + failures_of k (c ∷ [])) ((step s c).attempts k)
unfolding step login_blocked record_login_failure clear_login_failures
step-IsCounting k start s (ask j t) n p w h = ground (arith, text_eq_iff k j)
step-IsCounting k start s (failed j t) n p w h = ground (arith, text_eq_iff k j)
step-IsCounting k start s (succeeded j) n p w h = ground arith

run-IsCounting :
    (k : Text) (start : ℕ) (cs : List Call) (s : Limiter) (n : ℕ)
    → 0 < start
    → All (IsWithin k start) cs
    → IsCounting start n (s.attempts k)
    → IsCounting start (n + failures_of k cs) ((run cs s).attempts k)
unfolding run
run-IsCounting k start [] s n p w h = record {
  present = h.present;
  first = h.first;
  enough = omega (arith, h.enough);
  free = h.free;
  blocked = h.blocked;
}
run-IsCounting k start (c ∷ cs) s n p w h =
    let ih =
      run-IsCounting k start cs (step s c) (n + failures_of k (c ∷ [])) p w.1
        (step-IsCounting k start s c n p w.0 h) in
    record {
      present = ih.present;
      first = ih.first;
      enough = omega (arith, ih.enough, failures_split k c cs);
      free = ih.free;
      blocked = ih.blocked;
    }

first-IsCounting :
    (k : Text) (start : ℕ) (s : Limiter)
    → 0 < start
    → s.attempts k ≡ none
    → IsCounting start 1 ((step s (failed k start)).attempts k)
unfolding step record_login_failure
first-IsCounting k start s p e = ground (arith, text_eq_refl k)

-- Five failures lock a key out: if a key without an attempt fails at `start`, and then, in the five
-- minutes from there, fails four times more among any other calls but a success of its own, it is
-- blocked at every later time of these five minutes.
pub five_failures_block :
    (k : Text) (start now : ℕ) (cs : List Call) (s : Limiter)
    → 0 < start
    → s.attempts k ≡ none
    → All (IsWithin k start) cs
    → 4 ≤ failures_of k cs
    → start ≤ now
    → now < start + login_rate_limit_window
    → is_some (login_blocked k now (run (failed k start ∷ cs) s)).0 ≡ true
unfolding run login_blocked
five_failures_block k start now cs s p e w enough low high =
    let h =
      run-IsCounting k start cs (step s (failed k start)) 1 p w (first-IsCounting k start s p e) in
    ground (arith, h.present, h.first, h.enough, h.free, h.blocked)

-- The header Retry-After covers what is left of the block, and less than a second more; it is at
-- least one second.
pub retry_after_covers :
    (left : ℕ)
    → 0 < left
    → (left ≤ retry_after_seconds left * 1000000000)
      × (retry_after_seconds left * 1000000000 < left + 1000000000)
      × (1 ≤ retry_after_seconds left)
unfolding retry_after_seconds
retry_after_covers left h = ground arith
