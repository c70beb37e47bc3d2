-- ===== src/Job/Subscribers.antt =====
-- The channels of a job's log streams (internal/job/job.go): `publishMemoryLocked`, `Subscribe`,
-- its cancel function and `finish`.
use emby_migrator.Prelude.{
  ℕ, suc, ◌+◌, ◌≤◌, ◌≡◌, refl, Bool, true, false, not, Option, some, List, [], ◌∷◌, ◌++◌, map,
  length, get_elem?, All, if_keeps, All-map, All-set, All-get_elem?, All-append, Option-cases,
  Bool-cases, inl, inr, Text, arith,
}
use emby_migrator.Job.Types.{is_terminal_status, LogEntry, Chan, Job}
use emby_migrator.Job.Log.{offer, retire}
use emby_migrator.Job.Ops
use emby_migrator.Job.Run.{Op, apply, run, run_induction, fresh}

-- No send on a closed channel and no second close has happened, a channel is open exactly while it
-- is subscribed, and its buffer holds what is in it.
pub record IsSound (c : Chan) : Type 0 where
  pub calm : c.panicked ≡ false
  pub open_iff : c.closed ≡ not c.subscribed
  pub fits : length c.queue ≤ c.cap

abbrev pub IsClosed : Chan → Type 0
IsClosed c = c.closed ≡ true

length-snoc : {A : Type 0} (xs : List A) (x : A) → length (xs ++ x ∷ []) ≡ suc (length xs)
length-snoc [] x = refl
length-snoc (y ∷ xs) x = omega (arith, length-snoc xs x)

get_elem?-snoc : {A : Type 0} (xs : List A) (x : A) → get_elem? (xs ++ x ∷ []) (length xs) ≡ some x
get_elem?-snoc [] x = refl
get_elem?-snoc (y ∷ xs) x = get_elem?-snoc xs x

offer-IsSound : (e : LogEntry) (c : Chan) → IsSound c → IsSound (offer e c)
unfolding offer
offer-IsSound e c h = ground (arith, length-snoc c.queue e)

offer-IsClosed : (e : LogEntry) (c : Chan) → IsSound c → IsClosed c → IsClosed (offer e c)
unfolding offer
offer-IsClosed e c s h = ground arith

retire-IsSound : (c : Chan) → IsSound c → IsSound (retire c) × IsClosed (retire c)
unfolding retire
retire-IsSound c h = (ground arith, ground arith)

-- What holds of each channel of a job; once the job is finished, every channel is closed.
pub record IsTidy (finished : Bool) (c : Chan) : Type 0 where
  pub sound : IsSound c
  pub shut : finished ≡ true → IsClosed c

offer-IsTidy : (f : Bool) (e : LogEntry) (c : Chan) → IsTidy f c → IsTidy f (offer e c)
offer-IsTidy f e c h = record {
  sound = offer-IsSound e c h.sound;
  shut = λ k. offer-IsClosed e c h.sound (h.shut k);
}

retire-IsTidy : (f g : Bool) (c : Chan) → IsTidy f c → IsTidy g (retire c)
retire-IsTidy f g c h = let (s, k) = retire-IsSound c h.sound in record { sound = s; shut = λ _. k }

module _ {R : Type 0} where
  abbrev pub AreTidy : Job R → Type 0
  AreTidy j = All (IsTidy j.finished) j.chans

  offered : (e : LogEntry) (j : Job R) → AreTidy j → All (IsTidy j.finished) (map (offer e) j.chans)
  offered e j h =
      All-map (IsTidy j.finished) (IsTidy j.finished) (offer e) (offer-IsTidy j.finished e) j.chans
        h

  subscribed-IsTidy : (j : Job R) → AreTidy j → AreTidy (Ops.subscribe j)
  unfolding Ops.subscribe
  subscribed-IsTidy j h = All-append (IsTidy j.finished) j.chans _ h (
    record {
      sound = record { calm = refl; open_iff = ground arith; fits = omega arith };
      shut = λ k. k;
    },
    tt,
  )

  unsubscribed-IsTidy : (i : ℕ) (j : Job R) → AreTidy j → AreTidy (Ops.unsubscribe i j)
  unfolding Ops.unsubscribe
  unsubscribed-IsTidy i j h = elim (Option-cases (get_elem? j.chans i)) [
    | inl e ↦ rw (e, Ops.unsubscribe) h
    | inr (c, e) ↦
        rw (e, Ops.unsubscribe)
          (All-set (IsTidy j.finished) j.chans i (retire c) h (
            retire-IsTidy j.finished j.finished c
              (All-get_elem? (IsTidy j.finished) j.chans i c h e)))
  ]

  finished-IsTidy : (j : Job R) → AreTidy j → AreTidy (Ops.finish j)
  unfolding Ops.finish
  finished-IsTidy j h = elim (Bool-cases j.finished) [
    | inl e ↦ simp e (simp e at h)
    | inr e ↦
        simp e (
          All-map (IsTidy j.finished) (IsTidy true) retire (retire-IsTidy j.finished true) j.chans
            h)
  ]

  apply-IsTidy : (op : Op R) (j : Job R) → AreTidy j → AreTidy (apply op j)
  unfolding apply Ops.start Ops.stop Ops.pause Ops.resume Ops.complete Ops.fail Ops.fail_with_result
      Ops.log
  apply-IsTidy Op.subscribe j h = subscribed-IsTidy j h
  apply-IsTidy (Op.unsubscribe i) j h = unsubscribed-IsTidy i j h
  apply-IsTidy Op.finish j h = finished-IsTidy j h
  apply-IsTidy (Op.log now level text) j h = offered _ j h
  apply-IsTidy (Op.start now) j h =
      if_keeps (λ (p : Job R × Bool). AreTidy p.0) (is_terminal_status j.status) _ _ h h
  apply-IsTidy (Op.stop now) j h =
      if_keeps (λ (p : Job R × Bool). AreTidy p.0) (is_terminal_status j.status) _ _ h
        (offered _ j h)
  apply-IsTidy (Op.pause now) j h =
      if_keeps (λ (p : Job R × Bool). AreTidy p.0) (Ops.is_running j.status) _ _ (offered _ j h) h
  apply-IsTidy (Op.resume now) j h =
      if_keeps (λ (p : Job R × Bool). AreTidy p.0) (Ops.is_paused j.status) _ _ (offered _ j h) h
  apply-IsTidy (Op.complete now r) j h =
      if_keeps AreTidy (is_terminal_status j.status) _ _ h (offered _ j h)
  apply-IsTidy (Op.fail now e) j h =
      if_keeps AreTidy (is_terminal_status j.status) _ _ h (offered _ j h)
  apply-IsTidy (Op.fail_with_result now e r) j h =
      if_keeps AreTidy (is_terminal_status j.status) _ _ h (offered _ j h)

  -- Whatever is called, in whatever order, on a new job: no entry is sent on a closed channel and no
  -- channel is closed twice, a channel is open exactly while it is subscribed, and after `finish`
  -- every channel that was handed out is closed.
  pub run-AreTidy :
      (ops : List (Op R)) (id now : ℕ) (job_type : Text) (limit : ℕ) (path : Option Text)
      → AreTidy (run ops (fresh id now job_type limit path))
  unfolding fresh
  run-AreTidy ops id now job_type limit path =
      run_induction {P = AreTidy} apply-IsTidy ops (fresh id now job_type limit path) tt

  -- A subscriber's channel holds the whole memory log, in order, with room for a hundred more
  -- entries; it is closed at once exactly when the job has finished.
  pub subscribe_replays :
      (j : Job R)
      → (c : Chan) × (get_elem? (Ops.subscribe j).chans (length j.chans) ≡ some c)
        × (c.queue ≡ j.logs)
        × (c.cap ≡ length c.queue + 100)
        × (c.closed ≡ j.finished)
  unfolding Ops.subscribe
  subscribe_replays j = (_, get_elem?-snoc j.chans _, refl, refl, refl)
