-- ===== src/Job/Lifecycle.antt =====
-- The life of a job (internal/job/job.go): which states follow which, what a state guarantees of
-- the flags, and what the end of a job fixes.
use emby_migrator.Prelude.{
  ℕ, suc, ◌<◌, ◌≡◌, ◌≢◌, ◌⊎◌, refl, Bool, true, false, not, ◌&&◌, option_cases, Option, none, some,
  List, [], ◌∷◌, is_some, Text, arith,
}
use emby_migrator.Job.Types.{
  Status, queued, running, paused, done, failed, stopped, is_terminal_status, Job,
}
use emby_migrator.Job.Ops
use emby_migrator.Job.Ops.{is_closed}
use emby_migrator.Job.Run.{Op, apply, run, run_induction, fresh}

-- No channel is listed twice.
abbrev pub are_once : List ℕ → Bool
are_once [] = true
are_once (g ∷ gs) = not (is_closed g gs) && are_once gs

-- What the status says of the flags. `waiting`: a paused job has a channel to wait on;
-- `ended`: an ended job is cancelled and holds no pause; the last three: every pause channel made
-- is the current one, open, or closed, and none is closed twice.
pub record IsCoherent {R : Type 0} (j : Job R) : Type 0 where
  pub waiting : j.status ≡ paused → j.paused ≡ true
  pub held : j.paused ≡ true → is_some j.pause ≡ true
  pub ended :
      is_terminal_status j.status ≡ true
      → (j.cancelled ≡ true) × (j.paused ≡ false) × (j.pause ≡ none)
  pub current :
      (g : ℕ) → j.pause ≡ some g → (suc g ≡ j.pauses_made) × (is_closed g j.pauses_closed ≡ false)
  pub released :
      (g : ℕ) → g < j.pauses_made → (j.pause ≡ some g) ⊎ (is_closed g j.pauses_closed ≡ true)
  pub made : (g : ℕ) → is_closed g j.pauses_closed ≡ true → g < j.pauses_made
  pub once : are_once j.pauses_closed ≡ true

module _ {R : Type 0} where
  fresh-IsCoherent :
      (id now : ℕ) (job_type : Text) (limit : ℕ) (path : Option Text)
      → IsCoherent (fresh {R = R} id now job_type limit path)
  unfolding fresh
  fresh-IsCoherent id now job_type limit path = record {
    waiting = ground arith;
    held = ground arith;
    ended = ground arith;
    current = λ g. ground arith;
    released = λ g h. absurd (omega arith);
    made = λ g. ground arith;
    once = ground arith;
  }

  released_once :
      (j : Job R)
      → IsCoherent j
      → are_once (elim j.pause [ none ↦ j.pauses_closed | some g ↦ g ∷ j.pauses_closed ]) ≡ true
  released_once j h =
      option_cases (λ gs. are_once gs ≡ true) j.pause _ _ (λ _. h.once)
        (λ g e. let (_, fresh_one) = h.current g e in ground (arith, h.once, fresh_one))

  pub apply-IsCoherent : (op : Op R) (j : Job R) → IsCoherent j → IsCoherent (apply op j)
  unfolding apply Ops.start Ops.stop Ops.pause Ops.resume Ops.complete Ops.fail Ops.fail_with_result
      Ops.log Ops.subscribe Ops.finish Ops.unsubscribe
  apply-IsCoherent (Op.start now) j h = record {
    waiting = ground arith;
    held = ground (arith, h.held);
    ended = ground arith;
    current = λ g. ground (arith, h.current g);
    released = λ g. ground (arith, h.released g);
    made = λ g. ground (arith, h.made g);
    once = ground (arith, h.once);
  }
  apply-IsCoherent _ j h = record {
    waiting = ground (arith, h.waiting);
    held = ground (arith, h.held);
    ended = ground (arith, h.ended);
    current = λ g. ground (arith, h.current g, h.made g);
    released = λ g. ground (arith, h.released g);
    made = λ g. ground (arith, h.made g, h.current g);
    once = ground (arith, h.once, released_once j h);
  }

  -- Whatever is called, in whatever order, on a new job: the flags agree with the status, an ended
  -- job is cancelled and not paused, no pause channel is closed twice, and each is open only while
  -- it is the current one.
  pub run-IsCoherent :
      (ops : List (Op R)) (id now : ℕ) (job_type : Text) (limit : ℕ) (path : Option Text)
      → IsCoherent (run ops (fresh id now job_type limit path))
  run-IsCoherent ops id now job_type limit path =
      run_induction apply-IsCoherent ops (fresh id now job_type limit path)
        (fresh-IsCoherent id now job_type limit path)

  -- What a client reads of how a job went.
  pub record SameOutcome (j k : Job R) : Type 0 where
    pub status : k.status ≡ j.status
    pub result : k.result ≡ j.result
    pub err : k.err ≡ j.err
    pub started_at : k.started_at ≡ j.started_at
    pub ended_at : k.ended_at ≡ j.ended_at

  SameOutcome-refl : (j : Job R) → SameOutcome j j
  SameOutcome-refl j = record {
    status = refl;
    result = refl;
    err = refl;
    started_at = refl;
    ended_at = refl;
  }

  apply-SameOutcome :
      (op : Op R) (j : Job R) → is_terminal_status j.status ≡ true → SameOutcome j (apply op j)
  unfolding apply Ops.start Ops.stop Ops.pause Ops.resume Ops.complete Ops.fail Ops.fail_with_result
      Ops.log Ops.subscribe Ops.finish Ops.unsubscribe
  apply-SameOutcome (Op.start now) j h = ground arith
  apply-SameOutcome _ j h = ground arith

  -- Once a job has ended (done, failed or stopped), no later call changes its status, result, error,
  -- start or end.
  pub run-SameOutcome :
      (ops : List (Op R)) (j : Job R)
      → is_terminal_status j.status ≡ true
      → SameOutcome j (run ops j)
  unfolding run
  run-SameOutcome [] j h = SameOutcome-refl j
  run-SameOutcome (op ∷ ops) j h =
      grind (arith, apply-SameOutcome op j h, run-SameOutcome ops (apply op j))

-- The diagram of the states.
infix 40 ◌⟶◌
pub data ◌⟶◌ : Status → Status → Type 0 where
  begin : queued ⟶ running
  hold : running ⟶ paused
  go_on : paused ⟶ running
  finish_done : {s : Status} → is_terminal_status s ≡ false → s ⟶ done
  finish_failed : {s : Status} → is_terminal_status s ≡ false → s ⟶ failed
  finish_stopped : {s : Status} → is_terminal_status s ≡ false → s ⟶ stopped

abbrev pub is_start : {R : Type 0} → Op R → Bool
is_start (Op.start now) = true
is_start _ = false

module _ {R : Type 0} where
  -- A call leaves the status alone or follows one edge of the diagram.
  pub apply-⟶ :
      (op : Op R) (j : Job R) → ((apply op j).status ≡ j.status) ⊎ (j.status ⟶ (apply op j).status)
  unfolding apply Ops.start Ops.stop Ops.pause Ops.resume Ops.complete Ops.fail Ops.fail_with_result
      Ops.log Ops.subscribe Ops.finish Ops.unsubscribe
  apply-⟶ (Op.start now) j = grind (arith, begin, go_on)
  apply-⟶ _ j = grind (arith, begin, hold, go_on, finish_done, finish_failed, finish_stopped)

  -- A worker that waits on the pause channel of a paused job is woken by the call that ends the
  -- pause: that call closes the channel (`Start`, which the queue makes before the work, is left out).
  pub apply_wakes :
      (op : Op R) (j : Job R) (g : ℕ)
      → is_start op ≡ false
      → Ops.wait_round j ≡ some (some g)
      → (apply op j).status ≢ paused
      → is_closed g (apply op j).pauses_closed ≡ true
  unfolding apply Ops.wait_round Ops.start Ops.stop Ops.pause Ops.resume Ops.complete Ops.fail
      Ops.fail_with_result Ops.log Ops.subscribe Ops.finish Ops.unsubscribe
  apply_wakes (Op.start now) j g n w h = cc
  apply_wakes _ j g n w h = ground arith

  -- A worker of a coherent job never waits on a nil channel, nor on one that is closed.
  pub wait_round_open :
      (j : Job R) (o : Option ℕ)
      → IsCoherent j
      → Ops.wait_round j ≡ some o
      → (g : ℕ) × (o ≡ some g) × (is_closed g j.pauses_closed ≡ false)
  unfolding Ops.wait_round
  wait_round_open j (some g) h w = (g, refl, ground (arith, h.current g))
  wait_round_open j none h w = absurd (ground (arith, h.held))
