-- ===== src/Orchestration/Restart.antt =====
-- internal/web/media_database_orchestration.go: a container that ran before runs again afterwards.
use emby_migrator.Prelude.{
  ◌≡◌, refl, ◌∙◌, ◌⊎◌, inl, inr, Bool, true, false, none, some, List, [], ◌∷◌, ◌++◌, Text, if_keeps,
  if_cases, option_cases, if◌then◌else◌, arith,
}
use emby_migrator.Prelude.Strings.{trim_space, is_empty, equal_fold}
use emby_migrator.Orchestration.Host.{Host, IsHonest}
use emby_migrator.Orchestration.Run.{
  Failure, restart_failed, rollback_stop_failed, Request, State, start_managed, deferred,
  restart_restored, replace_database, roll_back, check, write, stop_first, with_container, managed,
  apply_media_database_job, same_container_id, initial, fail,
}

-- Whether an error is among those of the job.
abbrev pub is_same : Failure → Failure → Bool
is_same restart_failed restart_failed = true
is_same rollback_stop_failed rollback_stop_failed = true
is_same _ _ = false

abbrev pub has_failure : Failure → List Failure → Bool
has_failure e [] = false
has_failure e (d ∷ ds) = if is_same e d then true else has_failure e ds

has_failure-snoc :
    (e d : Failure) (ds : List Failure)
    → has_failure e (ds ++ d ∷ []) ≡ (if has_failure e ds then true else is_same e d)
has_failure-snoc e d [] = ground arith
has_failure-snoc e d (c ∷ ds) = ground (arith, has_failure-snoc e d ds)

-- The container runs, or its restart is still to come, or the stop of the rollback has failed.
abbrev IsCared : (h : Host) → State h → Type 0
IsCared h s =
    ((h.running s.world ≡ true) ⊎ (s.restart_needed ≡ true))
    ⊎ (has_failure rollback_stop_failed s.errors ≡ true)

-- The container runs, or a failed restart or a failed stop of the rollback is reported.
abbrev pub IsUp : (h : Host) → State h → Type 0
IsUp h s =
    ((h.running s.world ≡ true) ⊎ (has_failure restart_failed s.errors ≡ true))
    ⊎ (has_failure rollback_stop_failed s.errors ≡ true)

module _ (h : Host) (honest : IsHonest h) where
  fail-IsCared : (e : Failure) (s : State h) → IsCared h s → IsCared h (fail h e s)
  fail-IsCared e s c = ground (arith, has_failure-snoc rollback_stop_failed e s.errors)

  start_managed_up :
      (s : State h) → (start_managed h s).0 ≡ true → h.running (start_managed h s).1.world ≡ true
  unfolding start_managed
  start_managed_up s e = ground (arith, honest.started (h.start s.world).1)

  start_managed_frame :
      (s : State h)
      → ((start_managed h s).1.restart_needed ≡ s.restart_needed)
        × ((start_managed h s).1.errors ≡ s.errors)
  unfolding start_managed
  start_managed_frame s = (ground arith, ground arith)

  deferred-IsUp : (s : State h) → IsCared h s → IsUp h (deferred h s)
  unfolding deferred
  deferred-IsUp s c = ground (
    arith,
    start_managed_up s,
    start_managed_frame s,
    has_failure-snoc restart_failed restart_failed (start_managed h s).1.errors,
  )

  restart_restored-IsCared :
      (s : State h) → s.restart_needed ≡ true → IsCared h (restart_restored h s)
  unfolding restart_restored
  restart_restored-IsCared s c = ground (arith, honest.started (h.start s.world).1)

  replace_database-IsCared :
      (s : State h) → h.running s.world ≡ true → IsCared h (replace_database h s)
  unfolding replace_database
  replace_database-IsCared s up =
      if_keeps (IsCared h) (h.stop s.world).0 _ _
        (if_keeps (IsCared h) (h.wait_stopped (h.stop s.world).1).0 _ _
          (if_keeps (IsCared h) (h.restore _).0 _ _ (restart_restored-IsCared _ refl)
            (inl (inr refl)))
          (inl (inr refl)))
        (inr (ground (arith, has_failure-snoc rollback_stop_failed rollback_stop_failed s.errors)))

  roll_back-IsCared :
      (backup : Text) (s : State h) → h.running s.world ≡ true → IsCared h (roll_back h backup s)
  unfolding roll_back
  roll_back-IsCared backup s up =
      if_keeps (IsCared h) (is_empty (trim_space backup)) _ _ (inl (inl up)) (
        option_cases (IsCared h) (h.stat s.world).0 _ _
          (λ _. inl (inl (honest.keeps_stat s.world ∙ up)))
          (λ regular _.
            if_keeps (IsCared h) regular _ _
              (replace_database-IsCared _ (honest.keeps_stat s.world ∙ up))
              (inl (inl (honest.keeps_stat s.world ∙ up)))))

  check-IsCared :
      (backup : Text) (s : State h) → h.running s.world ≡ true → IsCared h (check h backup s)
  unfolding check
  check-IsCared backup s up =
      let u1 = honest.keeps_ready s.world ∙ up in
      let u2 = honest.keeps_verify (h.ready s.world).1 ∙ u1 in
      if_keeps (IsCared h) (h.ready s.world).0 _ _
        (if_keeps (IsCared h) (h.verify (h.ready s.world).1).0 _ _ (inl (inl u2))
          (roll_back-IsCared backup _ u2))
        (inl (inl u1))

  write-IsCared : (s : State h) → s.restart_needed ≡ true → IsCared h (write h true s)
  unfolding write
  write-IsCared s needed =
      option_cases (IsCared h) (h.apply s.world).0 _ _ (λ _. inl (inr needed))
        (λ path _.
          if_cases (IsCared h) (start_managed h _).0 _ _
            (λ ok. check-IsCared path _ (start_managed_up _ ok))
            (λ _. inl (inr ((start_managed_frame _).0 ∙ needed))))

  stop_first-IsCared : (s : State h) → IsCared h (stop_first h s)
  unfolding stop_first
  stop_first-IsCared s =
      if_keeps (IsCared h) (h.stop s.world).0 _ _
        (if_keeps (IsCared h) (h.wait_stopped (h.stop s.world).1).0 _ _ (write-IsCared _ refl)
          (inl (inr refl)))
        (inl (inr refl))

  with_container-IsUp :
      (r : Request) (s : State h) → h.running s.world ≡ true → IsUp h (with_container h r s)
  unfolding with_container
  with_container-IsUp r s up =
      let u = honest.keeps_inspect s.world ∙ up in
      option_cases (IsUp h) (h.inspect s.world).0 _ _ (λ _. inl (inl u))
        (λ found e.
          if_keeps (IsUp h)
            (elim r.hostname [ none ↦ false | some n ↦ same_container_id found.0 n ]) _ _
            (inl (inl u))
            (deferred-IsUp _ (
              if_cases (IsCared h) found.1 _ _
                (λ _. stop_first-IsCared (record s { world = (h.inspect s.world).1 }))
                (λ k. cc (honest.inspected s.world found.0 found.1 e, u)))))

  managed-IsUp : (r : Request) (s : State h) → h.running s.world ≡ true → IsUp h (managed h r s)
  unfolding managed
  managed-IsUp r s up =
      let u1 = honest.keeps_preflight s.world ∙ up in
      let u2 = honest.keeps_ping (h.preflight s.world).1 ∙ u1 in
      if_keeps (IsUp h) (is_empty (trim_space r.container_name)) _ _ (inl (inl up)) (
        if_keeps (IsUp h)
          (elim r.hostname [
            | none ↦ false
            | some n ↦ equal_fold (trim_space n) (trim_space r.container_name)
          ])
          _ _ (inl (inl up))
          (if_keeps (IsUp h) (h.preflight s.world).0 _ _
            (if_keeps (IsUp h) (h.ping (h.preflight s.world).1).0 _ _
              (with_container-IsUp r (record s { world = (h.ping (h.preflight s.world).1).1 }) u2)
              (inl (inl u2)))
            (inl (inl u1))))

  -- With a managed container that runs when the job begins, under an honest Docker engine: whatever
  -- fails, at the end the container runs, or the job reports that its restart failed, or that the stop
  -- for the rollback failed.
  pub ends_running :
      (r : Request) (w : h.World)
      → r.auto_manage_container ≡ true
      → h.running w ≡ true
      → IsUp h (apply_media_database_job h r w)
  unfolding apply_media_database_job
  ends_running r w e up =
      if_cases (IsUp h) r.auto_manage_container _ _ (λ _. managed-IsUp r (initial h w) up) (λ k. cc)
