-- ===== src/Checkpoint/Resume.antt =====
-- internal/exporter/service.go: which items a later import skips, and for which package.
use emby_migrator.Prelude.{
  ◌≡◌, ◌⊎◌, inl, inr, refl, ap, ◌∙◌, Bool, true, false, none, some, List, [], ◌∷◌, Text,
  text_eq_refl, subst, Bool-cases, Option-cases, arith,
}
use emby_migrator.Plan.Binding.{ImportTarget}
use emby_migrator.Checkpoint.Types.{
  Saved, Checkpoint, entry, missing, holds, absent, lines, Disk, fresh, no_target, put,
}
use emby_migrator.Checkpoint.Replay.{
  Report, same_import_target, same_package_fingerprint, read_file, replay_import_checkpoint_journal,
  replay_lines, replay_entry, base_for, load_import_checkpoint, read_import_checkpoint, done_in,
  resume_reports, resume_successful_items,
}
use emby_migrator.Checkpoint.Store.{
  whole, check_end, initialize, write_line, write_entry, append, recorded_in_memory,
  record_initialized, record_value, new_import_checkpoint_store,
}
use emby_migrator.Checkpoint.Done.{
  IsSameTarget, IsSamePackage, IsDoneMatch, IsDoneSaved, SomeMatch, same_import_target-IsSameTarget,
  same_package_fingerprint-IsSamePackage, should_resume_item_checkpoint-IsDoneSaved,
  done_in-IsDoneMatch,
}
use emby_migrator.Checkpoint.Recovery.{close_busy}
use emby_migrator.Checkpoint.View.{kind_of, is_blank, made}
use emby_migrator.Checkpoint.History.{record_io, recorded, closed, happen, history}

-- A report says that the item is done: it is of an import into the target, of the same package, and has
-- a match of the item that is done.
abbrev pub Says : ImportTarget → Text → Bool → Text → Report → Type 0
Says target fingerprint require k r =
    IsSameTarget r.target target
    × IsSamePackage r.package_fingerprint fingerprint
    × SomeMatch (IsDoneMatch r.dry_run require k) r.matches

abbrev pub SomeReport : (Report → Type 0) → List Report → Type 0
SomeReport P [] = ⊥
SomeReport P (r ∷ rs) = P r ⊎ SomeReport P rs

-- The checkpoint says that the item is done.
abbrev pub IsCheckpointed : Disk → ImportTarget → Text → Bool → Text → Type 0
IsCheckpointed d target fingerprint require k =
    (c : Checkpoint) × (load_import_checkpoint d ≡ some (c, true))
    × IsSameTarget c.target target
    × IsSamePackage c.package_fingerprint fingerprint
    × ((s : Saved) × (c.items k ≡ some s) × IsDoneSaved require s)

resume_reports_sound :
    (target : ImportTarget) (fingerprint : Text) (require : Bool) (rs : List Report) (k : Text)
    → (resume_reports target fingerprint require rs).0 k ≡ true
    → SomeReport (Says target fingerprint require k) rs
unfolding resume_reports
resume_reports_sound target fingerprint require [] k h = absurd (cc)
resume_reports_sound target fingerprint require (r ∷ rs) k h =
    elim (Bool-cases (same_import_target r.target target)) [
      | inr e ↦ inr (resume_reports_sound target fingerprint require rs k (ground arith))
      | inl e ↦ elim (Bool-cases (same_package_fingerprint r.package_fingerprint fingerprint)) [
        | inr f ↦ inr (resume_reports_sound target fingerprint require rs k (ground arith))
        | inl f ↦ elim (Bool-cases (done_in r.dry_run require r.matches k)) [
          | inl g ↦ inl (
            same_import_target-IsSameTarget r.target target e,
            same_package_fingerprint-IsSamePackage r.package_fingerprint fingerprint f,
            done_in-IsDoneMatch r.dry_run require r.matches k g,
          )
          | inr g ↦ inr (resume_reports_sound target fingerprint require rs k (ground arith))
        ]
      ]
    ]

read_import_checkpoint_sound :
    (d : Disk) (target : ImportTarget) (fingerprint : Text) (c : Checkpoint)
    → (read_import_checkpoint d target fingerprint).0 ≡ some c
    → (load_import_checkpoint d ≡ some (c, true))
      × (same_import_target c.target target ≡ true)
      × (same_package_fingerprint c.package_fingerprint fingerprint ≡ true)
unfolding read_import_checkpoint
read_import_checkpoint_sound d target fingerprint c h =
    elim (Option-cases (load_import_checkpoint d)) [
      | inl e ↦ absurd (ground arith)
      | inr ((c', found), e) ↦ elim (Bool-cases found) [
        | inr f ↦ absurd (ground arith)
        | inl f ↦ elim (Bool-cases (same_import_target c'.target target)) [
          | inr g ↦ absurd (ground arith)
          | inl g ↦
              elim (Bool-cases (same_package_fingerprint c'.package_fingerprint fingerprint)) [
                | inr i ↦ absurd (ground arith)
                | inl i ↦
                    (let same : c' ≡ c = ground arith in
                      subst
                        (λ x.
                          (load_import_checkpoint d ≡ some (x, true))
                          × (same_import_target x.target target ≡ true)
                          × (same_package_fingerprint x.package_fingerprint fingerprint ≡ true))
                        same (e ∙ ap (λ b. some (c', b)) f, g, i))
              ]
        ]
      ]
    ]

-- An import that resumes skips an item only if the checkpoint or a report says that it is done. It is of
-- an import into the same server, by its id, or by name and version where neither id is known, or where
-- nothing at all is known of the two; its package's fingerprint is that of the package, or one of the two
-- is blank; and there the item was updated, or matched and, in a report, not in a dry run, none of its
-- images and media information failed, and where media information is asked for it was updated or skipped.
pub resume_sound :
    (d : Disk) (target : ImportTarget) (fingerprint : Text) (require : Bool) (rs : List Report)
    (k : Text)
    → (resume_successful_items d target fingerprint require rs).0 k ≡ true
    → IsCheckpointed d target fingerprint require k
      ⊎ SomeReport (Says target fingerprint require k) rs
unfolding resume_successful_items
resume_sound d target fingerprint require rs k h =
    elim (Bool-cases ((resume_reports target fingerprint require rs).0 k)) [
      | inl e ↦ inr (resume_reports_sound target fingerprint require rs k e)
      | inr e ↦ elim (Option-cases (read_import_checkpoint d target fingerprint).0) [
        | inl f ↦ absurd (ground arith)
        | inr (c, f) ↦ elim (Option-cases (c.items k)) [
          | inl g ↦ absurd (ground arith)
          | inr (s, g) ↦
              (let (loaded, same, print) = read_import_checkpoint_sound d target fingerprint c f in
                inl (
                  c,
                  loaded,
                  same_import_target-IsSameTarget c.target target same,
                  same_package_fingerprint-IsSamePackage c.package_fingerprint fingerprint print,
                  (s, g, should_resume_item_checkpoint-IsDoneSaved s require (ground arith)),
                ))
        ]
      ]
    ]

abbrev pub clean : Disk
clean = record { file = missing; journal = absent }

-- What is left of an import that records one item.
abbrev left_over : ImportTarget → Saved → Checkpoint
left_over target v = record (fresh target []) {
  updated_at = v.updated_at;
  items = put (λ k. none) v.stable_key v;
}

abbrev one_line : ImportTarget → Saved → Disk
one_line target v = record {
  file = missing;
  journal = lines (entry (made target false v) ∷ []) true;
}

module _ (target : ImportTarget) (fingerprint : Text) (v : Saved) (key : is_blank v ≡ false) where
  first_record :
      let (ok, s, d) =
        record_value
          (kind_of false)
          v
          (record_io whole)
          (new_import_checkpoint_store target fingerprint)
          clean in
      (d ≡ one_line target v)
      × (s.target ≡ target)
      × (s.closed ≡ false)
      × (s.initialized ≡ true)
      × (s.dirty ≡ true)
  unfolding record_value record_initialized initialize load_import_checkpoint read_file
      replay_import_checkpoint_journal check_end append write_entry write_line recorded_in_memory
  first_record = (ground arith, ground arith, ground arith, ground arith, ground arith)

  load_one_line :
      same_import_target no_target target ≡ false
      → load_import_checkpoint (one_line target v) ≡ some (left_over target v, true)
  unfolding load_import_checkpoint read_file replay_import_checkpoint_journal replay_lines
      replay_entry base_for
  load_one_line unlike = ground arith

read_left_over :
    (target : ImportTarget) (other : Text) (v : Saved)
    → same_import_target target target ≡ true
    → read_import_checkpoint
        (record { file = holds (left_over target v); journal = absent })
        target
        other
      ≡ (some (left_over target v), false)
unfolding read_import_checkpoint load_import_checkpoint read_file replay_import_checkpoint_journal
    same_package_fingerprint
read_left_over target other v identified = rw identified refl

-- An import into an empty directory that records one item and ends leaves a checkpoint without the
-- package's fingerprint, so that it is used for a package with any other.
pub fingerprint_lost :
    (target : ImportTarget) (fingerprint other : Text) (v : Saved)
    → same_import_target target target ≡ true
    → same_import_target no_target target ≡ false
    → is_blank v ≡ false
    → (let d =
          (history
            (recorded false v ∷ closed ∷ [])
            (new_import_checkpoint_store target fingerprint, clean)).1 in
        (c : Checkpoint) × (read_import_checkpoint d target other ≡ (some c, false))
        × (c.package_fingerprint ≡ [])
        × (c.items v.stable_key ≡ some v))
unfolding history happen
fingerprint_lost target fingerprint other v identified unlike key =
    let (disk, targeted, open_still, ready, dirty) = first_record target fingerprint v key in
    let r =
      record_value (kind_of false) v (record_io whole)
        (new_import_checkpoint_store target fingerprint) clean in
    let shut =
      close_busy true r.1 r.2 (left_over target v) open_still ready dirty
        (ap load_import_checkpoint disk ∙ load_one_line target fingerprint v key unlike)
        (ap (same_import_target target) targeted ∙ identified) in
    (
      left_over target v,
      ap (λ d. read_import_checkpoint d target other) shut
          ∙ read_left_over target other v identified,
      refl,
      ground (arith, text_eq_refl v.stable_key),
    )
