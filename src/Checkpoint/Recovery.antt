-- ===== src/Checkpoint/Recovery.antt =====
-- internal/exporter/service.go: after any runs and crashes, what is loaded is what was meant.
use emby_migrator.Prelude.{
  ◌≡◌, refl, sym, ap, ap₂, subst, ◌∙◌, Bool, true, false, some, List, [], ◌∷◌, ◌++◌, Text, All,
  Bool-cases, inl, inr, if◌then◌else◌, if_keeps, arith,
}
use emby_migrator.Plan.Binding.{ImportTarget}
use emby_migrator.Plan.Lookup.{or_else}
use emby_migrator.Checkpoint.Types.{
  Saved, Checkpoint, Entry, Line, entry, malformed, too_long, holds, Journal, absent, lines, Disk,
}
use emby_migrator.Checkpoint.Replay.{same_import_target, read_file, load_import_checkpoint}
use emby_migrator.Checkpoint.Store.{
  Store, Written, whole, record_value, fold_journal, close, new_import_checkpoint_store,
}
use emby_migrator.Checkpoint.View.{
  kind_of, view, made, is_blank, IsOurs, last_entry, has_entry, lines_of, is_readable, load_ours,
}
use emby_migrator.Checkpoint.History.{
  Event, recorded, crashed, closed, crashed_closing, crashed_writing, record_io, close_io, again,
  happen, history, Done, add, is_entry, meant, all_meant,
}
use emby_migrator.Checkpoint.OurDisk.{
  is_ended, IsOurDisk, appended, write_entry-IsOurDisk, folded-IsOurDisk,
}
use emby_migrator.Checkpoint.Writing.{
  IsOurStore, get-IsReady, IsWritten, record_value-IsWritten, record_value_blank,
}

close_idle :
    (remove_ok : Bool) (s : Store) (d : Disk)
    → s.closed ≡ false
    → s.initialized ≡ false
    → (close (close_io remove_ok) s d).2 ≡ d
unfolding close
close_idle remove_ok s d o e = ground (arith)

pub close_busy :
    (remove_ok : Bool) (s : Store) (d : Disk) (c : Checkpoint)
    → s.closed ≡ false
    → s.initialized ≡ true
    → s.dirty ≡ true
    → load_import_checkpoint d ≡ some (c, true)
    → same_import_target c.target s.target ≡ true
    → (close (close_io remove_ok) s d).2 ≡ (
        if remove_ok
        then record { file = holds c; journal = absent }
        else record d { file = holds c })
unfolding close fold_journal
close_busy true s d c o e dirty loaded same = ground (arith)
close_busy false s d c o e dirty loaded same = ground (arith)

module _ (target : ImportTarget) (identified : same_import_target target target ≡ true) where
  has_entry-snoc : (ls : List Line) (e : Entry) → has_entry (ls ++ entry e ∷ []) ≡ true
  has_entry-snoc [] e = refl
  has_entry-snoc (entry f ∷ ls) e = refl
  has_entry-snoc (malformed ∷ ls) e = has_entry-snoc ls e
  has_entry-snoc (too_long ∷ ls) e = has_entry-snoc ls e

  -- What closing leaves on the disk.
  close_leaves :
      (remove_ok : Bool) (s : Store) (d : Disk) (done : Done)
      → IsOurStore target identified s d
      → IsOurDisk target identified d done
      → IsOurDisk target identified (close (close_io remove_ok) s d).2 done
  close_leaves remove_ok s d done h k = elim (Bool-cases s.initialized) [
    | inl e ↦
        (let (r, p) = load_ours target identified d k.base k.present k.file k.readable k.ours in
          let (ended, some_entry, dirty) = h.ready e in
          let found : r.1 ≡ true = ground (arith, p.found) in
          let loaded : load_import_checkpoint d ≡ some (r.0, true) =
            p.done ∙ ap (λ b. some (r.0, b)) found in
          let same : same_import_target r.0.target s.target ≡ true =
            ap₂ same_import_target (p.same some_entry) h.targeted ∙ identified in
          subst (λ d'. IsOurDisk target identified d' done)
            (sym (close_busy remove_ok s d r.0 h.open_still e dirty loaded same))
            (folded-IsOurDisk target identified remove_ok d done r k p))
    | inr e ↦
        subst (λ d'. IsOurDisk target identified d' done)
          (sym (close_idle remove_ok s d h.open_still e)) k
  ]

  -- The next import's store.
  again-IsOurStore :
      (s : Store) (d : Disk) → s.target ≡ target → IsOurStore target identified (again s) d
  again-IsOurStore s d e = record { targeted = e; open_still = refl; ready = λ z. absurd (cc) }

  is_ended-snoc : (ls : List Line) (l : Line) → is_ended (lines (ls ++ l ∷ []) true) ≡ true
  is_ended-snoc [] l = refl
  is_ended-snoc (m ∷ ls) l = refl

  written-IsOurStore :
      (avatar : Bool) (v : Saved) (d : Disk) (j : Journal) (r : Bool × Store × Disk)
      → is_ended j ≡ true
      → IsWritten target identified avatar v whole d j r
      → IsOurStore target identified r.1 r.2
  written-IsOurStore avatar v d j r ended p =
      let e = made target avatar v in
      let journal : r.2.journal ≡ lines (lines_of j ++ entry e ∷ []) true =
        ap (λ (d' : Disk). d'.journal) p.disk ∙ (appended target identified j e ended).0 in
      record {
        targeted = p.targeted;
        open_still = p.open_still;
        ready = λ _. (
          ap is_ended journal ∙ is_ended-snoc (lines_of j) (entry e),
          ap (λ j'. has_entry (lines_of j')) journal ∙ has_entry-snoc (lines_of j) e,
          (p.dirtied refl).1,
        );
      }

  -- Recording a value, or stopping while it is written.
  record_value_leaves :
      (avatar : Bool) (v : Saved) (w : Written) (s : Store) (d : Disk) (done : Done)
      → IsOurStore target identified s d
      → IsOurDisk target identified d done
      → is_blank v ≡ false
      → (j : Journal) × (is_ended j ≡ true)
        × IsWritten target identified avatar v w d j
            (record_value (kind_of avatar) v (record_io w) s d)
        × IsOurDisk target identified
            (record_value (kind_of avatar) v (record_io w) s d).2
            (if is_entry w then add avatar v done else done)
  record_value_leaves avatar v w s d done h k key =
      let (s', j, ready) = get-IsReady target identified s d done h k in
      let p = record_value-IsWritten target identified avatar v w s d s' j key h.open_still ready in
      (
        j,
        ready.ended,
        p,
        subst
            (λ d'. IsOurDisk target identified d' (if is_entry w then add avatar v done else done))
            (sym p.disk)
            (write_entry-IsOurDisk target identified avatar v w d j done key ready.ended
              ready.readable ready.kept k),
      )

  -- A blank key changes nothing, on the disk or in what is meant.
  add_blank :
      (avatar : Bool) (v : Saved) (done : Done) (d : Disk)
      → is_blank v ≡ true
      → IsOurDisk target identified d done
      → IsOurDisk target identified d (add avatar v done)
  add_blank avatar v done d key h = record {
    base = h.base;
    present = h.present;
    file = h.file;
    readable = h.readable;
    ours = h.ours;
    means = λ b k. rw key (h.means b k);
  }

  -- Each event keeps the two in step.
  happen_keeps :
      (e : Event) (s : Store) (d : Disk) (done : Done)
      → IsOurStore target identified s d
      → IsOurDisk target identified d done
      → (let (s', d') = happen e (s, d) in
          IsOurStore target identified s' d' × IsOurDisk target identified d' (meant e done))
  unfolding happen meant
  happen_keeps (recorded avatar v) s d done h k = elim (Bool-cases (is_blank v)) [
    | inl key ↦
        subst
          (λ (r : Bool × Store × Disk).
            IsOurStore target identified r.1 r.2
            × IsOurDisk target identified r.2 (add avatar v done))
          (sym (record_value_blank target identified (kind_of avatar) v (record_io whole) s d key))
          (h, add_blank avatar v done d key k)
    | inr key ↦
        (let (j, ended, p, disk) = record_value_leaves avatar v whole s d done h k key in
          (
            written-IsOurStore avatar v d j (record_value (kind_of avatar) v (record_io whole) s d)
                ended p,
            disk,
          ))
  ]
  happen_keeps crashed s d done h k = (again-IsOurStore s d h.targeted, k)
  happen_keeps closed s d done h k =
      (again-IsOurStore s _ h.targeted, close_leaves true s d done h k)
  happen_keeps crashed_closing s d done h k =
      (again-IsOurStore s _ h.targeted, close_leaves false s d done h k)
  happen_keeps (crashed_writing avatar v w) s d done h k = elim (Bool-cases (is_blank v)) [
    | inl key ↦ (
      again-IsOurStore s _ h.targeted,
      subst
          (λ (r : Bool × Store × Disk).
            IsOurDisk target identified r.2 (if is_entry w then add avatar v done else done))
          (sym (record_value_blank target identified (kind_of avatar) v (record_io w) s d key))
          (if_keeps (IsOurDisk target identified d) (is_entry w) (add avatar v done) done
            (add_blank avatar v done d key k) k),
    )
    | inr key ↦
        (again-IsOurStore s _ h.targeted, (record_value_leaves avatar v w s d done h k key).3)
  ]

  history_keeps :
      (es : List Event) (s : Store) (d : Disk) (done : Done)
      → IsOurStore target identified s d
      → IsOurDisk target identified d done
      → IsOurDisk target identified (history es (s, d)).1 (all_meant es done)
  unfolding history all_meant
  history_keeps [] s d done h k = k
  history_keeps (e ∷ es) s d done h k =
      let (h', k') = happen_keeps e s d done h k in
      history_keeps es (happen e (s, d)).0 (happen e (s, d)).1 (meant e done) h' k'

-- Imports into one target, which has an id or a name and a version: they record values, end, or stop
-- at any moment, also while a line is written and between the last two steps of closing. Whatever
-- happened, the files can be loaded, and hold for the target exactly what was there at first and, under
-- each key, the last value that was written since. This is so whatever the fingerprints of the packages:
-- also the entries of a checkpoint of other package contents are still there.
pub recovery :
    (target : ImportTarget) (fingerprint : Text) (d : Disk) (c : Checkpoint) (present : Bool)
    (es : List Event)
    → same_import_target target target ≡ true
    → d.journal ≡ absent
    → read_file d.file ≡ some (c, present)
    → (r : Checkpoint × Bool) × (load_import_checkpoint
          (history es (new_import_checkpoint_store target fingerprint, d)).1
        ≡ some r)
      × ((avatar : Bool) (k : Text)
          → view target avatar r.0 k ≡ all_meant es (λ b j. view target b c j) avatar k)
unfolding view last_entry
recovery target fingerprint d c present es identified clean file =
    let start : IsOurDisk target identified d (λ b j. view target b c j) = record {
      base = c;
      present = present;
      file = file;
      readable = ap is_readable clean;
      ours = subst (λ j. All (IsOurs target) (lines_of j)) (sym clean) tt;
      means =
          λ b j. ap (λ j'. or_else (last_entry b j (lines_of j')) (view target b c j)) (sym clean);
    } in
    let store : IsOurStore target identified (new_import_checkpoint_store target fingerprint) d =
      record { targeted = refl; open_still = refl; ready = λ z. absurd (cc) } in
    let k =
      history_keeps target identified es (new_import_checkpoint_store target fingerprint) d
        (λ b j. view target b c j) store start in
    let d' = (history es (new_import_checkpoint_store target fingerprint, d)).1 in
    let (r, p) = load_ours target identified d' k.base k.present k.file k.readable k.ours in
    (r, p.done, λ b j. p.views b j ∙ sym (k.means b j))
