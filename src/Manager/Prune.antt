-- ===== src/Manager/Prune.antt =====
-- internal/job/job.go, `pruneCompletedLocked`: which jobs stay and which go.
use emby_migrator.Prelude.{
  ℕ, zero, suc, ◌≤◌, ◌<◌, ◌≡◌, inl, inr, refl, Bool, true, false, not, ◌&&◌, ◌||◌, List, [], ◌∷◌,
  length, drop, filter, leb, ◌==◌, if◌then◌else◌, Bool-cases, arith, ap, ==_iff,
}
use emby_migrator.Manager.Sort.{
  elem, sort_desc, elem-sort_desc, length-filter-sort_desc, sort_desc-IsDescending, drop_older,
}
use emby_migrator.Manager.State.{
  Manager, expired, completed, surplus, removed, prune, is_terminal, ended_at,
}

elem-filter : (p : ℕ → Bool) (a : ℕ) (bs : List ℕ) → elem a (filter p bs) ≡ (elem a bs && p a)
unfolding elem
elem-filter p a [] = refl
elem-filter p a (b ∷ bs) = elim (Bool-cases (a == b)) [
  | inl e ↦ (let q : a ≡ b = (==_iff a b).0 e in ground (arith, ap p q, elem-filter p a bs))
  | inr e ↦ ground (arith, elem-filter p a bs)
]

elem-drop : (n b : ℕ) (bs : List ℕ) → elem b (drop n bs) ≡ true → elem b bs ≡ true
unfolding elem
elem-drop zero b bs h = h
elem-drop (suc n) b [] h = h
elem-drop (suc n) b (c ∷ bs) h = ground (arith, elem-drop n b bs)

none_left :
    (bs ds : List ℕ)
    → ((c : ℕ) → elem c bs ≡ true → elem c ds ≡ true)
    → length (filter (λ a. not (elem a ds)) bs) ≤ 0
unfolding elem
none_left [] ds h = omega arith
none_left (b ∷ bs) ds h = ground (arith, h b, none_left bs ds (λ c k. h c (ground arith)))

-- Of a list, at most `k` entries are outside all that stands behind its first `k`.
cut_counts :
    (k : ℕ) (bs ds : List ℕ)
    → ((c : ℕ) → elem c (drop k bs) ≡ true → elem c ds ≡ true)
    → length (filter (λ a. not (elem a ds)) bs) ≤ k
cut_counts zero bs ds h = none_left bs ds h
cut_counts (suc k) [] ds h = omega arith
cut_counts (suc k) (b ∷ bs) ds h = ground (arith, cut_counts k bs ds h)

length-filter_mono :
    (p q r : ℕ → Bool) (bs : List ℕ)
    → ((a : ℕ) → p a ≡ true → r a ≡ true → q a ≡ true)
    → length (filter r (filter p bs)) ≤ length (filter q bs)
length-filter_mono p q r [] h = omega arith
length-filter_mono p q r (b ∷ bs) h = ground (arith, h b, length-filter_mono p q r bs h)

length-filter-le : (p : ℕ → Bool) (bs : List ℕ) → length (filter p bs) ≤ length bs
length-filter-le p [] = omega arith
length-filter-le p (b ∷ bs) = ground (arith, length-filter-le p bs)

length-filter-filter :
    (p q r : ℕ → Bool) (bs : List ℕ)
    → ((a : ℕ) → r a ≡ (p a && q a))
    → length (filter r bs) ≡ length (filter q (filter p bs))
length-filter-filter p q r [] h = refl
length-filter-filter p q r (b ∷ bs) h = ground (arith, h b, length-filter-filter p q r bs h)

module _ {R : Type 0} (m : Manager R) (now : ℕ) where
  surplus-completed : (a : ℕ) → elem a (surplus m now) ≡ true → elem a (completed m now) ≡ true
  unfolding surplus elem
  surplus-completed a h = ground (
    arith,
    elem-drop m.max_completed_jobs a (sort_desc (ended_at m now) (completed m now)),
    elem-sort_desc (ended_at m now) a (completed m now),
  )

  removed_ended : (a : ℕ) → removed m now a ≡ true → is_terminal m now a ≡ true
  unfolding removed expired completed
  removed_ended a h = ground (
    arith,
    surplus-completed a,
    elem-filter (λ b. is_terminal m now b && not (expired m now b)) a m.jobs,
  )

  -- A job that has not ended stays.
  pub prune_keeps_live :
      (a : ℕ)
      → elem a m.jobs ≡ true
      → is_terminal m now a ≡ false
      → elem a (prune m now).jobs ≡ true
  unfolding prune
  prune_keeps_live a h t =
      ground (arith, elem-filter (λ b. not (removed m now b)) a m.jobs, removed_ended a)

  in_prune : (a : ℕ) → elem a (prune m now).jobs ≡ (elem a m.jobs && not (removed m now a))
  unfolding prune
  in_prune a = elem-filter (λ b. not (removed m now b)) a m.jobs

  in_completed :
      (a : ℕ)
      → elem a (completed m now) ≡ (elem a m.jobs && (is_terminal m now a && not (expired m now a)))
  unfolding completed
  in_completed a = elem-filter (λ b. is_terminal m now b && not (expired m now b)) a m.jobs

  abbrev ordered : List ℕ
  ordered = sort_desc (ended_at m now) (completed m now)

  -- The second loop runs only where there are too many.
  abbrev few : Bool
  few = leb m.max_completed_jobs 0 || leb (length (completed m now)) m.max_completed_jobs

  in_surplus :
      (a : ℕ)
      → elem a (surplus m now) ≡ (if few then false else elem a (drop m.max_completed_jobs ordered))
  unfolding surplus elem
  in_surplus a = ground arith

  stays : ℕ → Bool
  stays a = (is_terminal m now a && not (expired m now a)) && not (elem a (surplus m now))

  bounded_by_stays :
      length (filter (is_terminal m now) (prune m now).jobs) ≤ length (filter stays m.jobs)
  unfolding prune removed stays
  bounded_by_stays =
      length-filter_mono (λ a. not (removed m now a)) stays (is_terminal m now) m.jobs
        (λ a h k. ground arith)

  unsurplus : ℕ → Bool
  unsurplus a = not (elem a (surplus m now))

  stays_of_completed : length (filter stays m.jobs) ≡ length (filter unsurplus (completed m now))
  unfolding stays unsurplus completed
  stays_of_completed =
      length-filter-filter (λ a. is_terminal m now a && not (expired m now a)) unsurplus stays
        m.jobs (λ a. refl)

  stays_bounded : 0 < m.max_completed_jobs → length (filter stays m.jobs) ≤ m.max_completed_jobs
  unfolding unsurplus
  stays_bounded h = elim (Bool-cases few) [
    | inl e ↦ ground (arith, stays_of_completed, length-filter-le unsurplus (completed m now))
    | inr e ↦ omega (
      arith,
      stays_of_completed,
      length-filter-sort_desc (ended_at m now) unsurplus (completed m now),
      cut_counts m.max_completed_jobs ordered (surplus m now) (λ c k. ground (arith, in_surplus c)),
    )
  ]

  -- Of the jobs that have ended, at most the configured number stay.
  pub prune_bounds :
      0 < m.max_completed_jobs
      → length (filter (is_terminal m now) (prune m now).jobs) ≤ m.max_completed_jobs
  prune_bounds h = omega (arith, bounded_by_stays, stays_bounded h)

  -- Of two ended jobs that have not expired, the one that stays is at least as recent as the one
  -- that goes.
  pub prune_keeps_latest :
      (a b : ℕ)
      → elem a (prune m now).jobs ≡ true
      → is_terminal m now a ≡ true
      → elem b m.jobs ≡ true
      → expired m now b ≡ false
      → elem b (prune m now).jobs ≡ false
      → (m.heap b).ended_at ≤ (m.heap a).ended_at
  unfolding removed
  prune_keeps_latest a b ka ta hb xb gone =
      drop_older (ended_at m now) m.max_completed_jobs a b ordered
        (sort_desc-IsDescending (ended_at m now) (completed m now))
        (ground
          (arith, in_prune a, in_completed a, elem-sort_desc (ended_at m now) a (completed m now)))
        (ground (arith, in_prune a, in_surplus a, in_prune b, in_surplus b))
        (ground (arith, in_prune b, in_surplus b))
