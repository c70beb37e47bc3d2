-- ===== src/Orchestration/Run.antt =====
-- internal/web/media_database_orchestration.go: `applyMediaDatabaseJob` and its helpers.
use emby_migrator.Prelude.{
  Bool, true, false, not, ◌&&◌, ◌||◌, Option, none, some, List, [], ◌∷◌, ◌++◌, Text, text_eq,
  if◌then◌else◌,
}
use emby_migrator.Prelude.Strings.{trim_space, to_lower, equal_fold, has_prefix, is_empty}
use emby_migrator.Orchestration.Host.{Host}

-- The errors that the job can end with; `errors.Join` puts several in one list.
pub data Failure : Type 0 where
  plan_unreadable server_id_mismatch no_container own_container : Failure
  preflight_failed docker_unreachable inspect_failed : Failure
  stop_failed wait_stopped_failed apply_failed start_failed : Failure
  not_ready verify_failed rolled_back : Failure
  no_backup backup_unreadable backup_irregular : Failure
  rollback_stop_failed rollback_wait_failed restore_failed rollback_start_failed
        rollback_run_failed :
      Failure
  restart_failed : Failure

-- The calls that touch the container or the database, as they are made, each with whether the
-- container runs at that moment.
pub data Event : Type 0 where
  stopping starting applying restoring : Bool → Event

-- What the job reads of the profile, the plan and the machine. `planned` is the plan's server id;
-- `hostname` is `none` where it could not be read.
pub record Request : Type 0 where
  pub auto_manage_container : Bool
  pub container_name : Text
  pub server_id : Text
  pub planned : Option Text
  pub hostname : Option Text

unfoldable pub same_container_id : Text → Text → Bool
unfolding trim_space to_lower has_prefix
same_container_id container_id hostname =
    let c = to_lower (trim_space container_id) in
    let n = to_lower (trim_space hostname) in
    not (is_empty c) && not (is_empty n) && (has_prefix c n || has_prefix n c)

module _ (h : Host) where
  -- The world, the calls made so far, and the job's result: `Container.Stopped`,
  -- `Container.Restarted`, whether the verification is set, the errors; and `restartNeeded`.
  pub record State : Type 0 where
    pub world : h.World
    pub events : List Event
    pub stopped : Bool
    pub restarted : Bool
    pub verified : Bool
    pub errors : List Failure
    pub restart_needed : Bool

  abbrev pub emit : (Bool → Event) → State → List Event
  emit event s = s.events ++ event (h.running s.world) ∷ []

  -- `return result, err`
  abbrev pub fail : Failure → State → State
  fail e s = record s { errors = s.errors ++ e ∷ [] }

  -- `startManagedContainer`: whether both calls succeeded.
  unfoldable pub start_managed : State → Bool × State
  start_managed s =
      let (ok, w) = h.start s.world in
      let s' = record s { world = w; events = emit starting s } in
      if ok
      then (let (up, w') = h.wait_running w in (up, record s' { world = w' }))
      else (false, s')

  -- The deferred restart.
  unfoldable pub deferred : State → State
  unfolding start_managed
  deferred s =
      if s.restart_needed
      then (let (ok, s') = start_managed s in
          if ok then record s' { restarted = true } else fail restart_failed s')
      else s

  -- `restoreDatabaseFromBackup` from the start of the container on.
  unfoldable pub restart_restored : State → State
  restart_restored s =
      let (ok, w) = h.start s.world in
      let s' = record s { world = w; events = emit starting s } in
      if ok
      then (let (up, w') = h.wait_running w in
          let s'' = record s' { world = w' } in
          if up
          then fail rolled_back (record s'' { restart_needed = false })
          else fail rollback_run_failed s'')
      else fail rollback_start_failed s'

  -- From the stop on, once the backup is known to be a regular file.
  unfoldable pub replace_database : State → State
  unfolding restart_restored
  replace_database s =
      let (ok, w) = h.stop s.world in
      let s1 = record s { world = w; events = emit stopping s } in
      if ok
      then (let (down, w2) = h.wait_stopped w in
          let s2 = record s1 { world = w2; restart_needed = true } in
          if down
          then (let (back, w3) = h.restore w2 in
              let s3 = record s2 { world = w3; events = emit restoring s2 } in
              if back then restart_restored s3 else fail restore_failed s3)
          else fail rollback_wait_failed s2)
      else fail rollback_stop_failed s1

  -- The whole of `restoreDatabaseFromBackup`, with the error that the caller joins to it.
  unfoldable pub roll_back : Text → State → State
  unfolding replace_database
  roll_back backup s =
      let t = fail verify_failed s in
      if is_empty (trim_space backup)
      then fail no_backup t
      else (let (found, w) = h.stat t.world in
          let t' = record t { world = w } in
          elim found [
            | none ↦ fail backup_unreadable t'
            | some regular ↦ if regular then replace_database t' else fail backup_irregular t'
          ])

  -- After a restart that succeeded: the wait for the API and the verification.
  unfoldable pub check : Text → State → State
  unfolding roll_back
  check backup s =
      let (up, w) = h.ready s.world in
      let s1 = record s { world = w } in
      if up
      then (let (same, w2) = h.verify w in
          let s2 = record s1 { world = w2 } in
          if same then record s2 { verified = true } else roll_back backup s2)
      else fail not_ready s1

  -- The write; `was_running` is `container.Running`.
  unfoldable pub write : Bool → State → State
  unfolding start_managed check
  write was_running s =
      let (backup, w) = h.apply s.world in
      let s1 = record s { world = w; events = emit applying s } in
      elim backup [
        | none ↦ fail apply_failed s1
        | some path ↦
            if was_running
            then (let (ok, s2) = start_managed s1 in
                if ok
                then check path (record s2 { restart_needed = false; restarted = true })
                else fail start_failed s2)
            else s1
      ]

  -- The stop of a container that runs.
  unfoldable pub stop_first : State → State
  unfolding write
  stop_first s =
      let (ok, w) = h.stop s.world in
      let s1 = record s { world = w; restart_needed = true; events = emit stopping s } in
      if ok
      then (let (down, w2) = h.wait_stopped w in
          let s2 = record s1 { world = w2 } in
          if down then write true (record s2 { stopped = true }) else fail wait_stopped_failed s2)
      else fail stop_failed s1

  -- From the inspection on, the deferred restart included.
  unfoldable pub with_container : Request → State → State
  unfolding stop_first write deferred same_container_id
  with_container r s =
      let (found, w) = h.inspect s.world in
      let s1 = record s { world = w } in
      elim found [
        | none ↦ fail inspect_failed s1
        | some (id, was_running) ↦
            if elim r.hostname [ none ↦ false | some n ↦ same_container_id id n ]
            then fail own_container s1
            else deferred (if was_running then stop_first s1 else write false s1)
      ]

  -- The managed case of `applyMediaDatabaseJob`.
  unfoldable pub managed : Request → State → State
  unfolding with_container equal_fold trim_space
  managed r s =
      let name = trim_space r.container_name in
      if is_empty name
      then fail no_container s
      else if elim r.hostname [ none ↦ false | some n ↦ equal_fold (trim_space n) name ]
      then fail own_container s
      else (let (same, w) = h.preflight s.world in
          let s1 = record s { world = w } in
          if same
          then (let (up, w2) = h.ping w in
              let s2 = record s1 { world = w2 } in
              if up then with_container r s2 else fail docker_unreachable s2)
          else fail preflight_failed s1)

  -- The case without container management: the operator has stopped the server.
  unfoldable pub manual : Request → State → State
  unfolding write trim_space
  manual r s = elim r.planned [
    | none ↦ fail plan_unreadable s
    | some p ↦
        let plan_id = trim_space p in
        let profile_id = trim_space r.server_id in
        if not (is_empty plan_id) && not (is_empty profile_id) && not (text_eq plan_id profile_id)
        then fail server_id_mismatch s
        else write false s
  ]

  abbrev pub initial : h.World → State
  initial w = record {
    world = w;
    events = [];
    stopped = false;
    restarted = false;
    verified = false;
    errors = [];
    restart_needed = false;
  }

  -- `applyMediaDatabaseJob`
  unfoldable pub apply_media_database_job : Request → h.World → State
  unfolding managed manual
  apply_media_database_job r w =
      if r.auto_manage_container then managed r (initial w) else manual r (initial w)
