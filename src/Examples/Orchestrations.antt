-- ===== src/Examples/Orchestrations.antt =====
-- Applying a plan around a restart (internal/web/media_database_orchestration.go) at simulated hosts.
use emby_migrator.Prelude.{◌≡◌, refl, Bool, true, false, not, some, [], ◌∷◌, codes, All, arith}
use emby_migrator.Prelude.Strings.{trim_space, to_lower, equal_fold, has_prefix}
use emby_migrator.Orchestration.Host.{Host, IsHonest}
use emby_migrator.Orchestration.Run.{
  stopping, starting, applying, restoring, verify_failed, rolled_back, Request,
  apply_media_database_job,
}
use emby_migrator.Orchestration.Safety.{IsQuiet, writes_while_down}
use emby_migrator.Orchestration.Restart.{IsUp, ends_running}

-- The world is whether the container runs; every call succeeds but the verification.
abbrev host : Host
host = record {
  World = Bool;
  running = λ w. w;
  ping = λ w. (true, w);
  preflight = λ w. (true, w);
  inspect = λ w. (some (codes "4f2a", w), w);
  stop = λ w. (true, false);
  wait_stopped = λ w. (not w, w);
  start = λ w. (true, true);
  wait_running = λ w. (w, w);
  apply = λ w. (some (codes "/backup/library.db"), w);
  ready = λ w. (true, w);
  verify = λ w. (false, w);
  stat = λ w. (some true, w);
  restore = λ w. (true, w);
}

host-IsHonest : IsHonest host
host-IsHonest = record {
  stopped = λ w e. ground arith;
  started = λ w e. e;
  inspected = λ w id r e. ground arith;
  keeps_ping = λ w. refl;
  keeps_preflight = λ w. refl;
  keeps_inspect = λ w. refl;
  keeps_apply = λ w. refl;
  keeps_ready = λ w. refl;
  keeps_verify = λ w. refl;
  keeps_stat = λ w. refl;
  keeps_restore = λ w. refl;
}

abbrev request : Request
request = record {
  auto_manage_container = true;
  container_name = codes "emby";
  server_id = codes "s1";
  planned = some (codes "s1");
  hostname = some (codes "migrator");
}

-- The verification fails, and the backup is restored.
rolled_back_run :
    (apply_media_database_job host request true).errors ≡ verify_failed ∷ rolled_back ∷ []
unfolding apply_media_database_job equal_fold trim_space to_lower has_prefix
rolled_back_run = refl

rolled_back_events :
    (apply_media_database_job host request true).events
    ≡ stopping true
      ∷ applying false
      ∷ starting false
      ∷ stopping true
      ∷ restoring false
      ∷ starting false
      ∷ []
unfolding apply_media_database_job equal_fold trim_space to_lower has_prefix
rolled_back_events = refl

writes_while_down_example : All IsQuiet (apply_media_database_job host request true).events
writes_while_down_example = writes_while_down host host-IsHonest request true refl

ends_running_example : IsUp host (apply_media_database_job host request true)
ends_running_example = ends_running host host-IsHonest request true refl refl
