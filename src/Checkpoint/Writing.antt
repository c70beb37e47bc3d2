-- ===== src/Checkpoint/Writing.antt =====
-- internal/exporter/service.go: what recording a value does to the store and to the disk.
use emby_migrator.Prelude.{
  ◌+◌, ◌≡◌, refl, sym, ap, subst, Bool, true, false, not, ◌||◌, some, [], ◌∷◌, Bool-cases, inl, inr,
  if◌then◌else◌, if_cases, if_keeps, leb, arith,
}
use emby_migrator.Plan.Binding.{ImportTarget}
use emby_migrator.Checkpoint.Types.{
  Saved, Checkpoint, Kind, Journal, absent, no_access, lines, Disk,
}
use emby_migrator.Checkpoint.Replay.{same_import_target, load_import_checkpoint}
use emby_migrator.Checkpoint.Store.{
  Store, RecordIo, Written, is_absent, is_whole, import_checkpoint_sync_interval, opened, is_torn,
  end_line, usable, check_end, initialize, write_entry, append, recorded_in_memory,
  record_initialized, record_value,
}
use emby_migrator.Checkpoint.View.{
  kind_of, made, is_blank, has_entry, lines_of, is_readable, load_ours,
}
use emby_migrator.Checkpoint.History.{init_ok, record_io, Done}
use emby_migrator.Checkpoint.OurDisk.{is_ended, IsOurDisk}

module _ (target : ImportTarget) (identified : same_import_target target target ≡ true) where
  -- The store: for the target, not closed, and in step with the journal once it is initialized.
  pub record IsOurStore (s : Store) (d : Disk) : Type 0 where
    pub targeted : s.target ≡ target
    pub open_still : s.closed ≡ false
    pub ready :
        s.initialized ≡ true
        → (is_ended d.journal ≡ true) × (has_entry (lines_of d.journal) ≡ true) × (s.dirty ≡ true)

  -- The journal once `initializeLocked` has opened it and ended its last line.
  pub settled : Journal → Journal
  settled j = if is_torn (opened j) then end_line (opened j) else opened j

  pub settled_is :
      (j : Journal)
      → is_readable j ≡ true
      → (is_ended (settled j) ≡ true)
        × (is_readable (settled j) ≡ true)
        × (lines_of (settled j) ≡ lines_of j)
  unfolding settled
  settled_is absent h = (refl, refl, refl)
  settled_is no_access h = absurd (cc)
  settled_is (lines [] ended) h = (refl, refl, refl)
  settled_is (lines (l ∷ ls) true) h = (refl, refl, refl)
  settled_is (lines (l ∷ ls) false) h = (refl, refl, refl)

  pub opened_store : Store → Disk → Checkpoint × Bool → Store
  opened_store s d r = record s {
    checkpoint = usable s r;
    initialized = true;
    dirty = s.dirty || not (is_absent d.journal);
  }

  pub check_end_ok :
      (c : Checkpoint) (s : Store) (d : Disk)
      → check_end init_ok c s d ≡ (
        true,
        record s { checkpoint = c; initialized = true },
        record d { journal = if is_torn d.journal then end_line d.journal else d.journal },
      )
  unfolding check_end
  check_end_ok c s d = elim (Bool-cases (is_torn d.journal)) [
    | inl e ↦ rw e refl
    | inr e ↦ rw e refl
  ]

  -- Initializing with success: the journal is open and its last line ended.
  pub initialize_fresh :
      (s : Store) (d : Disk) (r : Checkpoint × Bool)
      → s.initialized ≡ false
      → load_import_checkpoint d ≡ some r
      → initialize init_ok s d
        ≡ (true, opened_store s d r, record d { journal = settled d.journal })
  unfolding initialize opened_store settled
  initialize_fresh s d r e loaded =
      rw (e, initialize)
        (rw (loaded, initialize)
          (check_end_ok (usable s r) (record s { dirty = s.dirty || not (is_absent d.journal) })
            (record d { journal = opened d.journal })))

  -- A store that can append, and the journal that it appends to.
  pub record IsReady (s : Store) (d : Disk) (s' : Store) (j : Journal) : Type 0 where
    pub done_ok : initialize init_ok s d ≡ (true, s', record d { journal = j })
    pub targeted : s'.target ≡ target
    pub open_still : s'.closed ≡ false
    pub ended : is_ended j ≡ true
    pub readable : is_readable j ≡ true
    pub kept : lines_of j ≡ lines_of d.journal

  pub initialize_again :
      (s : Store) (d : Disk) → s.initialized ≡ true → initialize init_ok s d ≡ (true, s, d)
  unfolding initialize
  initialize_again s d e = rw e refl

  pub get-IsReady :
      (s : Store) (d : Disk) (done : Done)
      → IsOurStore s d
      → IsOurDisk target identified d done
      → (s' : Store) × (j : Journal) × IsReady s d s' j
  unfolding opened_store
  get-IsReady s d done h k = elim (Bool-cases s.initialized) [
    | inl e ↦ (
      s,
      d.journal,
      record {
        done_ok = initialize_again s d e;
        targeted = h.targeted;
        open_still = h.open_still;
        ended = (h.ready e).0;
        readable = k.readable;
        kept = refl;
      },
    )
    | inr e ↦
        (let (r, p) = load_ours target identified d k.base k.present k.file k.readable k.ours in
          let (ended, readable, kept) = settled_is d.journal k.readable in
          (
            opened_store s d r,
            settled d.journal,
            record {
              done_ok = initialize_fresh s d r e p.done;
              targeted = h.targeted;
              open_still = h.open_still;
              ended = ended;
              readable = readable;
              kept = kept;
            },
          ))
  ]

  -- What writing a value leaves.
  pub record IsWritten (avatar : Bool) (v : Saved) (w : Written) (d : Disk) (j : Journal)
      (r : Bool × Store × Disk) : Type 0 where
    pub disk : r.2 ≡ record d { journal = write_entry (made target avatar v) w j }
    pub targeted : r.1.target ≡ target
    pub open_still : r.1.closed ≡ false
    pub dirtied : is_whole w ≡ true → (r.0 ≡ true) × (r.1.dirty ≡ true)

  pub append-IsWritten :
      (avatar : Bool) (v : Saved) (w : Written) (s : Store) (d : Disk)
      → s.target ≡ target
      → s.closed ≡ false
      → IsWritten avatar v w d d.journal (append (kind_of avatar) v (record_io w) s d)
  unfolding append
  append-IsWritten avatar v w s d e o =
      let same : record d { journal = write_entry (made s.target avatar v) w d.journal }
          ≡ record d { journal = write_entry (made target avatar v) w d.journal } =
        ap (λ t. record d { journal = write_entry (made t avatar v) w d.journal }) e in
      if_cases (IsWritten avatar v w d d.journal) (not (is_whole w)) _ _
        (λ k. record {
          disk = same;
          targeted = e;
          open_still = o;
          dirtied = λ z. absurd (ground arith);
        })
        (λ k.
          if_keeps (IsWritten avatar v w d d.journal)
            (leb import_checkpoint_sync_interval (s.records_since_sync + 1)) _ _
            (record { disk = same; targeted = e; open_still = o; dirtied = λ z. (refl, refl) })
            (record { disk = same; targeted = e; open_still = o; dirtied = λ z. (refl, refl) }))

  pub record_value-finish :
      (kind : Kind) (v : Saved) (io : RecordIo) (s : Store) (d : Disk) (s' : Store) (d' : Disk)
      → is_blank v ≡ false
      → s.closed ≡ false
      → initialize io.init s d ≡ (true, s', d')
      → record_value kind v io s d ≡ recorded_in_memory kind v (append kind v io s' d')
  unfolding record_value record_initialized
  record_value-finish kind v io s d s' d' key o e =
      rw (key, record_value) (simp o (ap (record_initialized kind v io) e))

  pub finish-IsWritten :
      (avatar : Bool) (v : Saved) (w : Written) (d : Disk) (j : Journal) (r : Bool × Store × Disk)
      → IsWritten avatar v w d j r
      → IsWritten avatar v w d j (recorded_in_memory (kind_of avatar) v r)
  unfolding recorded_in_memory
  finish-IsWritten avatar v w d j (true, s, d') h = record {
    disk = h.disk;
    targeted = h.targeted;
    open_still = h.open_still;
    dirtied = h.dirtied;
  }
  finish-IsWritten avatar v w d j (false, s, d') h = record {
    disk = h.disk;
    targeted = h.targeted;
    open_still = h.open_still;
    dirtied = h.dirtied;
  }

  pub on_disk :
      (avatar : Bool) (v : Saved) (w : Written) (d : Disk) (j : Journal) (r : Bool × Store × Disk)
      → IsWritten avatar v w (record d { journal = j }) j r
      → IsWritten avatar v w d j r
  on_disk avatar v w d j r h = record {
    disk = h.disk;
    targeted = h.targeted;
    open_still = h.open_still;
    dirtied = h.dirtied;
  }

  pub record_value-IsWritten :
      (avatar : Bool) (v : Saved) (w : Written) (s : Store) (d : Disk) (s' : Store) (j : Journal)
      → is_blank v ≡ false
      → s.closed ≡ false
      → IsReady s d s' j
      → IsWritten avatar v w d j (record_value (kind_of avatar) v (record_io w) s d)
  record_value-IsWritten avatar v w s d s' j key o h =
      subst (IsWritten avatar v w d j)
        (sym (
          record_value-finish (kind_of avatar) v (record_io w) s d s' (record d { journal = j }) key
            o h.done_ok))
        (finish-IsWritten avatar v w d j
          (append (kind_of avatar) v (record_io w) s' (record d { journal = j }))
          (on_disk avatar v w d j
            (append (kind_of avatar) v (record_io w) s' (record d { journal = j }))
            (append-IsWritten avatar v w s' (record d { journal = j }) h.targeted h.open_still)))

  pub record_value_blank :
      (kind : Kind) (v : Saved) (io : RecordIo) (s : Store) (d : Disk)
      → is_blank v ≡ true
      → record_value kind v io s d ≡ (true, s, d)
  unfolding record_value
  record_value_blank kind v io s d key = rw key refl
