-- ===== src/Orchestration/Safety.antt =====
-- internal/web/media_database_orchestration.go: the database is written only while the container is
-- down.
use emby_migrator.Prelude.{
  ◌≡◌, ◌∙◌, Bool, true, false, none, some, List, [], ◌∷◌, ◌++◌, Text, All, All-append, if_keeps,
  if_cases, option_cases,
}
use emby_migrator.Prelude.Strings.{trim_space, is_empty, equal_fold}
use emby_migrator.Orchestration.Host.{Host, IsHonest}
use emby_migrator.Orchestration.Run.{
  Event, stopping, starting, applying, restoring, Request, State, start_managed, deferred,
  restart_restored, replace_database, roll_back, check, write, stop_first, with_container, managed,
  apply_media_database_job, same_container_id, initial,
}

-- A write happens while the container does not run.
abbrev pub IsQuiet : Event → Type 0
IsQuiet (stopping r) = Unit
IsQuiet (starting r) = Unit
IsQuiet (applying r) = r ≡ false
IsQuiet (restoring r) = r ≡ false

module _ (h : Host) (honest : IsHonest h) where
  abbrev IsSafe : State h → Type 0
  IsSafe s = All IsQuiet s.events

  more : (es : List Event) (e : Event) → All IsQuiet es → IsQuiet e → All IsQuiet (es ++ e ∷ [])
  more es e safe q = All-append IsQuiet es (e ∷ []) safe (q, tt)

  start_managed-IsSafe : (s : State h) → IsSafe s → IsSafe (start_managed h s).1
  unfolding start_managed
  start_managed-IsSafe s safe =
      if_keeps (λ (p : Bool × State h). IsSafe p.1) (h.start s.world).0 _ _
        (more s.events (starting _) safe tt) (more s.events (starting _) safe tt)

  deferred-IsSafe : (s : State h) → IsSafe s → IsSafe (deferred h s)
  unfolding deferred
  deferred-IsSafe s safe =
      if_keeps IsSafe s.restart_needed _ _
        (if_keeps IsSafe (start_managed h s).0 _ _ (start_managed-IsSafe s safe)
          (start_managed-IsSafe s safe))
        safe

  restart_restored-IsSafe : (s : State h) → IsSafe s → IsSafe (restart_restored h s)
  unfolding restart_restored
  restart_restored-IsSafe s safe =
      let t = more s.events (starting _) safe tt in
      if_keeps IsSafe (h.start s.world).0 _ _
        (if_keeps IsSafe (h.wait_running (h.start s.world).1).0 _ _ t t) t

  replace_database-IsSafe : (s : State h) → IsSafe s → IsSafe (replace_database h s)
  unfolding replace_database
  replace_database-IsSafe s safe =
      let t = more s.events (stopping _) safe tt in
      if_keeps IsSafe (h.stop s.world).0 _ _
        (if_cases IsSafe (h.wait_stopped (h.stop s.world).1).0 _ _
          (λ down.
            let u = more _ (restoring _) t (honest.stopped (h.stop s.world).1 down) in
            if_keeps IsSafe (h.restore _).0 _ _ (restart_restored-IsSafe _ u) u)
          (λ _. t))
        t

  roll_back-IsSafe : (backup : Text) (s : State h) → IsSafe s → IsSafe (roll_back h backup s)
  unfolding roll_back
  roll_back-IsSafe backup s safe = if_keeps IsSafe (is_empty (trim_space backup)) _ _ safe (
      option_cases IsSafe (h.stat s.world).0 _ _ (λ _. safe)
        (λ regular _. if_keeps IsSafe regular _ _ (replace_database-IsSafe _ safe) safe))

  check-IsSafe : (backup : Text) (s : State h) → IsSafe s → IsSafe (check h backup s)
  unfolding check
  check-IsSafe backup s safe =
      if_keeps IsSafe (h.ready s.world).0 _ _
        (if_keeps IsSafe (h.verify (h.ready s.world).1).0 _ _ safe (roll_back-IsSafe backup _ safe))
        safe

  write-IsSafe :
      (was_running : Bool) (s : State h)
      → IsSafe s
      → h.running s.world ≡ false
      → IsSafe (write h was_running s)
  unfolding write
  write-IsSafe was_running s safe down =
      let t = more s.events (applying _) safe down in
      option_cases IsSafe (h.apply s.world).0 _ _ (λ _. t)
        (λ path _.
          if_keeps IsSafe was_running _ _
            (if_keeps IsSafe (start_managed h _).0 _ _
              (check-IsSafe path _ (start_managed-IsSafe _ t)) (start_managed-IsSafe _ t))
            t)

  stop_first-IsSafe : (s : State h) → IsSafe s → IsSafe (stop_first h s)
  unfolding stop_first
  stop_first-IsSafe s safe =
      let t = more s.events (stopping _) safe tt in
      if_keeps IsSafe (h.stop s.world).0 _ _
        (if_cases IsSafe (h.wait_stopped (h.stop s.world).1).0 _ _
          (λ down. write-IsSafe true _ t (honest.stopped (h.stop s.world).1 down)) (λ _. t))
        t

  with_container-IsSafe : (r : Request) (s : State h) → IsSafe s → IsSafe (with_container h r s)
  unfolding with_container
  with_container-IsSafe r s safe =
      option_cases IsSafe (h.inspect s.world).0 _ _ (λ _. safe)
        (λ found e.
          if_keeps IsSafe (elim r.hostname [ none ↦ false | some n ↦ same_container_id found.0 n ])
            _ _ safe
            (deferred-IsSafe _ (
              if_cases IsSafe found.1 _ _
                (λ _. stop_first-IsSafe (record s { world = (h.inspect s.world).1 }) safe)
                (λ k. write-IsSafe false _ safe (honest.inspected s.world found.0 found.1 e ∙ k)))))

  managed-IsSafe : (r : Request) (s : State h) → IsSafe s → IsSafe (managed h r s)
  unfolding managed
  managed-IsSafe r s safe = if_keeps IsSafe (is_empty (trim_space r.container_name)) _ _ safe (
      if_keeps IsSafe
        (elim r.hostname [
          | none ↦ false
          | some n ↦ equal_fold (trim_space n) (trim_space r.container_name)
        ])
        _ _ safe
        (if_keeps IsSafe (h.preflight s.world).0 _ _
          (if_keeps IsSafe (h.ping (h.preflight s.world).1).0 _ _
            (with_container-IsSafe r (record s { world = (h.ping (h.preflight s.world).1).1 }) safe)
            safe)
          safe))

  -- With a managed container, under an honest Docker engine: whatever fails and in whatever way, every
  -- write of the database, by the plan or by the restore of its backup, happens while the container
  -- does not run.
  pub writes_while_down :
      (r : Request) (w : h.World)
      → r.auto_manage_container ≡ true
      → All IsQuiet (apply_media_database_job h r w).events
  unfolding apply_media_database_job
  writes_while_down r w e =
      if_cases IsSafe r.auto_manage_container _ _ (λ _. managed-IsSafe r (initial h w) tt) (λ k. cc)
