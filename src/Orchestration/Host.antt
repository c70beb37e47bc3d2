-- ===== src/Orchestration/Host.antt =====
-- What internal/web/media_database_orchestration.go calls: the Docker engine (the `dockerController`
-- interface), the exporter's plan operations, and the files. Each call answers and moves the world on;
-- a failed call may have had any effect on the container.
use emby_migrator.Prelude.{◌≡◌, Bool, true, false, Option, some, Text}

pub record Host : Type 1 where
  pub World : Type 0
  -- Whether the target's container runs.
  pub running : World → Bool
  -- `docker.Ping`, and the exporter's online preflight: whether they succeeded.
  pub ping : World → Bool × World
  pub preflight : World → Bool × World
  -- `docker.Inspect`: the container's id and its flag `Running`; `none` is an error.
  pub inspect : World → Option (Text × Bool) × World
  -- `docker.Stop`, `docker.WaitStopped`, `docker.Start`, `docker.WaitRunning`.
  pub stop : World → Bool × World
  pub wait_stopped : World → Bool × World
  pub start : World → Bool × World
  pub wait_running : World → Bool × World
  -- `ApplyMediaDatabasePlan`: the path of the backup it made; `none` is an error.
  pub apply : World → Option Text × World
  -- `waitForEmbyReady`, `VerifyMediaDatabasePlan`.
  pub ready : World → Bool × World
  pub verify : World → Bool × World
  -- `os.Stat` of the backup: whether it is a regular file; `none` is an error.
  pub stat : World → Option Bool × World
  -- `restoreDatabaseFile`
  pub restore : World → Bool × World

-- What the program relies on: the two waits and an inspection report what is the case, and only the
-- engine's stop, start and waits change whether the container runs.
pub record IsHonest (h : Host) : Type 0 where
  pub stopped : (w : h.World) → (h.wait_stopped w).0 ≡ true → h.running (h.wait_stopped w).1 ≡ false
  pub started : (w : h.World) → (h.wait_running w).0 ≡ true → h.running (h.wait_running w).1 ≡ true
  pub inspected :
      (w : h.World) (id : Text) (r : Bool)
      → (h.inspect w).0 ≡ some (id, r)
      → h.running (h.inspect w).1 ≡ r
  pub keeps_ping : (w : h.World) → h.running (h.ping w).1 ≡ h.running w
  pub keeps_preflight : (w : h.World) → h.running (h.preflight w).1 ≡ h.running w
  pub keeps_inspect : (w : h.World) → h.running (h.inspect w).1 ≡ h.running w
  pub keeps_apply : (w : h.World) → h.running (h.apply w).1 ≡ h.running w
  pub keeps_ready : (w : h.World) → h.running (h.ready w).1 ≡ h.running w
  pub keeps_verify : (w : h.World) → h.running (h.verify w).1 ≡ h.running w
  pub keeps_stat : (w : h.World) → h.running (h.stat w).1 ≡ h.running w
  pub keeps_restore : (w : h.World) → h.running (h.restore w).1 ≡ h.running w
