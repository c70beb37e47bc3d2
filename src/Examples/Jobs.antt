-- ===== src/Examples/Jobs.antt =====
-- Jobs (internal/job/job.go) at concrete inputs.
use emby_migrator.Prelude.{ℕ, ◌≡◌, refl, true, false, Option, some, List, [], ◌∷◌, codes, get_elem?}
use emby_migrator.Job.Types.{paused, done, Level, Job}
use emby_migrator.Job.Ops
use emby_migrator.Job.Ops.{is_closed}
use emby_migrator.Job.Run.{Op, apply, run, fresh}
use emby_migrator.Job.Lifecycle.{
  IsCoherent, run-IsCoherent, SameOutcome, run-SameOutcome, apply_wakes, wait_round_open,
}

abbrev new_job : Job ℕ
new_job = fresh 7 7 (codes "export") 3 (some (codes "/logs/7.log"))

-- Started, logged to, subscribed to and paused.
abbrev held : List (Op ℕ)
held = Op.start 10 ∷ Op.log 11 Level.info (codes "a") ∷ Op.subscribe ∷ Op.pause 12 ∷ []

abbrev ended : List (Op ℕ)
ended = Op.start 10 ∷ Op.subscribe ∷ Op.complete 20 (some 5) ∷ Op.finish ∷ []

abbrev late : List (Op ℕ)
late = Op.fail 30 (codes "late") ∷ Op.stop 31 ∷ Op.resume 32 ∷ Op.log 33 Level.warn (codes "b") ∷ []

held_status : (run held new_job).status ≡ paused
unfolding run apply fresh Ops.start Ops.log Ops.subscribe Ops.pause
held_status = refl

held_wait : Ops.wait_round (run held new_job) ≡ some (some 0)
unfolding run apply fresh Ops.start Ops.log Ops.subscribe Ops.pause Ops.wait_round
held_wait = refl

ended_status : (run ended new_job).status ≡ done
unfolding run apply fresh Ops.start Ops.subscribe Ops.complete Ops.finish
ended_status = refl

-- The subscriber of `ended` got the last entry and was closed.
ended_stream :
    get_elem? (run ended new_job).chans 0
    ≡ some (record {
      cap = 100;
      queue = record { time = 20; level = Level.info; message = Ops.completed_message } ∷ [];
      subscribed = false;
      closed = true;
      panicked = false;
    })
unfolding run apply fresh Ops.start Ops.subscribe Ops.complete Ops.finish
ended_stream = refl

run-IsCoherent_example : IsCoherent (run held new_job)
run-IsCoherent_example = run-IsCoherent held 7 7 (codes "export") 3 (some (codes "/logs/7.log"))

run-SameOutcome_example : SameOutcome (run ended new_job) (run late (run ended new_job))
unfolding run apply fresh Ops.start Ops.subscribe Ops.complete Ops.finish
run-SameOutcome_example = run-SameOutcome late (run ended new_job) refl

apply_wakes_example : is_closed 0 (apply (Op.stop 40) (run held new_job)).pauses_closed ≡ true
unfolding run apply fresh Ops.start Ops.log Ops.subscribe Ops.pause Ops.wait_round Ops.stop
apply_wakes_example = apply_wakes (Op.stop 40) (run held new_job) 0 refl refl (λ e. cc)

wait_round_open_example :
    (g : ℕ) × (◌≡◌ {A = Option ℕ} (some 0) (some g))
    × (is_closed g (run held new_job).pauses_closed ≡ false)
wait_round_open_example =
    wait_round_open (run held new_job) (some 0) run-IsCoherent_example held_wait
