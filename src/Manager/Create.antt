-- ===== src/Manager/Create.antt =====
-- internal/job/job.go, `Create`: the id that a new job gets.
use emby_migrator.Prelude.{
  ℕ, zero, suc, ◌+◌, ◌≤◌, ◌<◌, ◌≡◌, inl, inr, true, false, Option, some, List, [], ◌∷◌, length, leb,
  if◌then◌else◌, Bool-cases, arith, Text,
}
use emby_migrator.Job.Types.{Job}
use emby_migrator.Manager.State.{Manager, has_id, free_id, create, create_at}

module _ {R : Type 0} where
  -- How many jobs of the map have an id from `now` on.
  later : (ℕ → Job R) → List ℕ → ℕ → ℕ
  later heap [] now = 0
  later heap (a ∷ bs) now =
      if leb now (heap a).id then suc (later heap bs now) else later heap bs now

  later-le : (heap : ℕ → Job R) (bs : List ℕ) (now : ℕ) → later heap bs now ≤ length bs
  unfolding later
  later-le heap [] now = omega arith
  later-le heap (a ∷ bs) now = ground (arith, later-le heap bs now)

  later_mono :
      (heap : ℕ → Job R) (bs : List ℕ) (now : ℕ) → later heap bs (suc now) ≤ later heap bs now
  unfolding later
  later_mono heap [] now = omega arith
  later_mono heap (a ∷ bs) now = ground (arith, later_mono heap bs now)

  later_falls :
      (heap : ℕ → Job R) (bs : List ℕ) (now : ℕ)
      → has_id heap bs now ≡ true
      → later heap bs (suc now) < later heap bs now
  unfolding later has_id
  later_falls heap [] now h = cc
  later_falls heap (a ∷ bs) now h = ground (arith, later_falls heap bs now, later_mono heap bs now)

  abbrev IsFree : (ℕ → Job R) → List ℕ → ℕ → ℕ → Type 0
  IsFree heap jobs now id = (now ≤ id) × (id ≤ now + length jobs) × (has_id heap jobs id ≡ false)

  free_id_total :
      (heap : ℕ → Job R) (jobs : List ℕ) (fuel now : ℕ)
      → later heap jobs now < fuel
      → (id : ℕ) × (free_id heap jobs fuel now ≡ some id)
        × (now ≤ id)
        × (id ≤ now + later heap jobs now)
        × (has_id heap jobs id ≡ false)
  unfolding free_id
  free_id_total heap jobs zero now h = absurd (omega arith)
  free_id_total heap jobs (suc fuel) now h = elim (Bool-cases (has_id heap jobs now)) [
    | inl e ↦
        (let fall = later_falls heap jobs now e in
          let (id, found, low, high, free) = free_id_total heap jobs fuel (suc now) (omega arith) in
          (id, rw e found, omega arith, omega arith, free))
    | inr e ↦ (now, rw e, omega arith, omega arith, e)
  ]

  -- `Create` always ends, and gives the new job an id that no job of the map has: the clock's answer,
  -- or one at most as many nanoseconds later as there are jobs.
  pub create_total :
      (m : Manager R) (now : ℕ) (job_type : Text) (path : Option Text)
      → (id : ℕ) × (create now job_type path m ≡ some (create_at id job_type path m))
        × (now ≤ id)
        × (id ≤ now + length m.jobs)
        × (has_id m.heap m.jobs id ≡ false)
  unfolding create
  create_total m now job_type path =
      let (id, found, low, high, free) =
        free_id_total m.heap m.jobs (suc (length m.jobs)) now
          (omega (arith, later-le m.heap m.jobs now)) in
      (id, rw (found, create), low, omega (arith, later-le m.heap m.jobs now), free)
