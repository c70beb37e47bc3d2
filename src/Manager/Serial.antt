-- ===== src/Manager/Serial.antt =====
-- internal/job/job.go: what holds of the manager whatever the order of its steps.
use emby_migrator.Prelude.{
  ℕ, suc, ◌≤◌, ◌<◌, ◌≡◌, refl, Bool, true, false, not, ◌&&◌, ◌||◌, Option, none, some, List, [],
  ◌∷◌, All, All-append, Text, arith,
}
use emby_migrator.Job.Types.{running, is_terminal_status, Job}
use emby_migrator.Job.Ops
use emby_migrator.Job.Run.{Op, apply, fresh}
use emby_migrator.Manager.Options.{ManagerOptions}
use emby_migrator.Manager.Sort.{elem}
use emby_migrator.Manager.State.{Manager, Work, update, create, create_at, prune}
use emby_migrator.Manager.Prune.{prune_keeps_live}
use emby_migrator.Manager.Create.{create_total}
use emby_migrator.Manager.Queue
use emby_migrator.Manager.Queue.{Step, Reach}

abbrev pub is_active : {R : Type 0} → Job R → Bool
is_active j = (Ops.is_running j.status || Ops.is_paused j.status) && not j.finished

-- `serial`: only the current job is active; `kept`: a job that has not ended is in the map.
pub record IsSerial {R : Type 0} (m : Manager R) : Type 0 where
  pub serial : (a : ℕ) → is_active (m.heap a) ≡ true → m.current ≡ some a
  pub kept :
      (a : ℕ) → a < m.size → is_terminal_status (m.heap a).status ≡ false → elem a m.jobs ≡ true
  pub bounded : (a : ℕ) → m.current ≡ some a → a < m.size
  pub waiting : All (λ w. w.job < m.size) m.work

below_mono : (n k : ℕ) (ws : List Work) → n ≤ k → All (λ w. w.job < n) ws → All (λ w. w.job < k) ws
below_mono n k [] h t = tt
below_mono n k (w ∷ ws) h t = (omega arith, below_mono n k ws h t.1)

module _ {R : Type 0} where
  apply-is_active :
      (op : Op R) (j : Job R)
      → Queue.is_client op ≡ true
      → (is_active (apply op j) ≡ true → is_active j ≡ true)
        × (is_terminal_status (apply op j).status ≡ false → is_terminal_status j.status ≡ false)
  unfolding apply Ops.start Ops.stop Ops.pause Ops.resume Ops.complete Ops.fail Ops.fail_with_result
      Ops.log Ops.subscribe Ops.finish Ops.unsubscribe
  apply-is_active (Op.start now) j c = cc
  apply-is_active _ j c = (λ h. ground arith, λ h. ground arith)

  call-IsSerial :
      (op : Op R) (a : ℕ) (m : Manager R)
      → Queue.is_client op ≡ true
      → IsSerial m
      → IsSerial (record m { heap = update m.heap a (apply op (m.heap a)) })
  call-IsSerial op a m c h = record {
    serial = λ b k. ground (arith, h.serial a, h.serial b, (apply-is_active op (m.heap a) c).0);
    kept = λ b l k. ground (arith, h.kept a, h.kept b, (apply-is_active op (m.heap a) c).1);
    bounded = h.bounded;
    waiting = h.waiting;
  }

  prune_live :
      (m : Manager R) (now a : ℕ)
      → (is_active ((prune m now).heap a) ≡ is_active (m.heap a))
        × (((prune m now).heap a).status ≡ (m.heap a).status)
  unfolding prune Ops.dispose
  prune_live m now a = (ground arith, ground arith)

  prune_frame :
      (m : Manager R) (now : ℕ)
      → ((prune m now).current ≡ m.current) × ((prune m now).size ≡ m.size)
  unfolding prune
  prune_frame m now = (refl, refl)

  prune_waiting :
      (m : Manager R) (now : ℕ)
      → All (λ w. w.job < m.size) m.work
      → All (λ w. w.job < (prune m now).size) (prune m now).work
  unfolding prune
  prune_waiting m now h = h

  prune-IsSerial : (m : Manager R) (now : ℕ) → IsSerial m → IsSerial (prune m now)
  prune-IsSerial m now h = record {
    serial = λ a k. ground (arith, prune_live m now a, prune_frame m now, h.serial a);
    kept = λ a l k.
        prune_keeps_live m now a (ground (arith, prune_live m now a, prune_frame m now, h.kept a))
          (ground (arith, prune_live m now a));
    bounded = λ a k. ground (arith, prune_frame m now, h.bounded a);
    waiting = prune_waiting m now h.waiting;
  }

  create_at-IsSerial :
      (m : Manager R) (id : ℕ) (t : Text) (path : Option Text)
      → IsSerial m
      → IsSerial (create_at id t path m)
  unfolding create_at elem fresh
  create_at-IsSerial m id t path h = record {
    serial = λ a k. ground (arith, h.serial a);
    kept = λ a l k. ground (arith, h.kept a);
    bounded = λ a k. ground (arith, h.bounded a);
    waiting = below_mono m.size (suc m.size) m.work (omega arith) h.waiting;
  }

  create-IsSerial :
      (m m' : Manager R) (now : ℕ) (t : Text) (path : Option Text)
      → create now t path m ≡ some m'
      → IsSerial m
      → IsSerial m'
  create-IsSerial m m' now t path e h =
      let (id, made, _, _, _) = create_total m now t path in
      let q : m' ≡ create_at id t path m = cc in rw q (create_at-IsSerial m id t path h)

  take-IsSerial :
      (m : Manager R) (now : ℕ) (w : Work) (rest : List Work)
      → m.current ≡ none
      → All (λ v. v.job < m.size) (w ∷ rest)
      → IsSerial m
      → IsSerial (Queue.take_work now w rest m)
  unfolding Queue.take_work Ops.start Ops.finish
  take-IsSerial m now w rest idle l h = record {
    serial = λ a k. ground (arith, h.serial a, h.serial w.job);
    kept = λ a b k. ground (arith, h.kept a, h.kept w.job);
    bounded = λ a k. ground (arith, h.bounded a, l.0);
    waiting = l.1;
  }

  done-IsSerial :
      (m : Manager R) (now a : ℕ)
      → m.current ≡ some a
      → IsSerial m
      → IsSerial (Queue.work_done now a m)
  unfolding Queue.work_done Ops.finish
  done-IsSerial m now a c h = prune-IsSerial _ now (record {
    serial = λ b k. ground (arith, h.serial a, h.serial b);
    kept = λ b l k. ground (arith, h.kept a, h.kept b);
    bounded = λ b k. cc;
    waiting = h.waiting;
  })

  crash-IsSerial :
      (m : Manager R) (now : ℕ) (t : Text) (a : ℕ)
      → m.current ≡ some a
      → IsSerial m
      → IsSerial (Queue.work_crashed now t a m)
  unfolding Queue.work_crashed apply
  crash-IsSerial m now t a c h = done-IsSerial _ now a c (call-IsSerial (Op.fail now t) a m refl h)

  shutdown-IsSerial : (m : Manager R) → IsSerial m → IsSerial (Queue.shutdown m)
  unfolding Queue.shutdown
  shutdown-IsSerial m h = record {
    serial = λ b k. ground (arith, h.serial b);
    kept = λ b l k. ground (arith, h.kept b);
    bounded = h.bounded;
    waiting = h.waiting;
  }

  pub Step-IsSerial : {m m' : Manager R} → Step m m' → IsSerial m → IsSerial m'
  Step-IsSerial {m = m} (Step.made now t path k e) h = create-IsSerial m k now t path e h
  Step-IsSerial {m = m} (Step.submit w l c) h = record {
    serial = h.serial;
    kept = h.kept;
    bounded = h.bounded;
    waiting = All-append (λ v. v.job < m.size) m.work (w ∷ []) h.waiting (l, tt);
  }
  Step-IsSerial {m = m} (Step.take now w rest e idle q) h =
      take-IsSerial m now w rest idle (rw e at h.waiting) h
  Step-IsSerial (Step.quit s idle) h = record {
    serial = h.serial;
    kept = h.kept;
    bounded = h.bounded;
    waiting = h.waiting;
  }
  Step-IsSerial {m = m} (Step.call op a c l) h = call-IsSerial op a m c h
  Step-IsSerial {m = m} (Step.returned now a c) h = done-IsSerial m now a c h
  Step-IsSerial {m = m} (Step.crashed now t a c) h = crash-IsSerial m now t a c h
  Step-IsSerial {m = m} (Step.look now) h = prune-IsSerial m now h
  Step-IsSerial {m = m} Step.stop h = shutdown-IsSerial m h

  Reach-IsSerial : {m m' : Manager R} → IsSerial m → Reach m m' → IsSerial m'
  Reach-IsSerial h Reach.here = h
  Reach-IsSerial h (Reach.next r s) = Step-IsSerial s (Reach-IsSerial h r)

  new_manager-IsSerial : (o : ManagerOptions) → IsSerial (Queue.new_manager {R = R} o)
  unfolding Queue.new_manager fresh
  new_manager-IsSerial o = record {
    serial = λ a k. ground arith;
    kept = λ a l k. absurd (omega arith);
    bounded = λ a k. cc;
    waiting = tt;
  }

  -- Whatever the order of creations, submissions, clients' calls, returns, crashes, prunings and
  -- `Shutdown`: two jobs that are running or paused, and whose work has not returned, are one.
  pub one_at_a_time :
      (o : ManagerOptions) (m : Manager R) (a b : ℕ)
      → Reach (Queue.new_manager o) m
      → is_active (m.heap a) ≡ true
      → is_active (m.heap b) ≡ true
      → a ≡ b
  one_at_a_time o m a b r p q =
      let h = Reach-IsSerial (new_manager-IsSerial o) r in cc (h.serial a p, h.serial b q)

  -- And no job is lost before it has ended: its address is in the manager's map.
  pub live_is_listed :
      (o : ManagerOptions) (m : Manager R) (a : ℕ)
      → Reach (Queue.new_manager o) m
      → a < m.size
      → is_terminal_status (m.heap a).status ≡ false
      → elem a m.jobs ≡ true
  live_is_listed o m a r l t = (Reach-IsSerial (new_manager-IsSerial o) r).kept a l t

  -- After `Shutdown` an idle queue may still start a job: if work with a run function of a job that
  -- has not ended waits, receiving it is a step, after which that job runs.
  pub shutdown_may_start :
      (m : Manager R) (now : ℕ) (w : Work) (rest : List Work)
      → m.work ≡ w ∷ rest
      → m.current ≡ none
      → m.queue_done ≡ false
      → w.has_run ≡ true
      → is_terminal_status (m.heap w.job).status ≡ false
      → (k : Manager R) × Step (Queue.shutdown m) k
        × (k.current ≡ some w.job)
        × ((k.heap w.job).status ≡ running)
  unfolding Queue.shutdown Queue.take_work Ops.start
  shutdown_may_start m now w rest e idle q run live =
      (_, Step.take now w rest e idle q, ground arith, ground arith)
