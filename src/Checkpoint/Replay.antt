-- ===== src/Checkpoint/Replay.antt =====
-- internal/exporter/service.go: reading a checkpoint with its journal, and what is resumed from it:
-- `loadImportCheckpoint`, `replayImportCheckpointJournal`, `readImportCheckpoint`,
-- `resumeSuccessfulItems`. The names of the sources, which are only logged, are left out.
use emby_migrator.Prelude.{
  ℕ, Bool, true, false, not, ◌&&◌, ◌||◌, Option, none, some, List, [], ◌∷◌, Text, codes, text_eq,
  ltb, ◌==◌, if◌then◌else◌,
}
use emby_migrator.Prelude.Strings.{trim_space, is_empty}
use emby_migrator.Plan.Binding.{ImportTarget}
use emby_migrator.Checkpoint.Types.{
  Saved, Checkpoint, item, person_avatar, unknown, Entry, Line, entry, malformed, too_long, File,
  missing, unreadable, holds, Journal, absent, no_access, lines, Disk, fresh, zero_checkpoint, put,
}

unfoldable pub same_import_target : ImportTarget → ImportTarget → Bool
same_import_target a b =
    let a_id = trim_space a.server_id in
    let b_id = trim_space b.server_id in
    let a_name = trim_space a.server_name in
    let b_name = trim_space b.server_name in
    let a_version = trim_space a.version in
    let b_version = trim_space b.version in
    if not (is_empty a_id) && not (is_empty b_id)
    then text_eq a_id b_id
    else if not (is_empty a_id) || not (is_empty b_id)
    then false
    else if is_empty a_name && is_empty a_version && is_empty b_name && is_empty b_version
    then true
    else if is_empty a_name || is_empty b_name || is_empty a_version || is_empty b_version
    then false
    else text_eq a_name b_name && text_eq a_version b_version

unfoldable pub same_package_fingerprint : Text → Text → Bool
same_package_fingerprint recorded current =
    if is_empty recorded || is_empty current then true else text_eq recorded current

-- The checkpoint into which an entry goes.
unfoldable pub base_for : Entry → Checkpoint → Checkpoint
base_for e c =
    let base = if same_import_target c.target e.target then c else fresh e.target [] in
    record base { schema_version = 1; target = e.target; updated_at = e.checkpoint.updated_at }

-- One entry of the journal, with `found`.
unfoldable pub replay_entry : Entry → Checkpoint × Bool → Checkpoint × Bool
unfolding base_for
replay_entry e (c, found) =
    if is_empty (trim_space e.checkpoint.stable_key)
    then (c, found)
    else (let b = base_for e c in
        elim e.kind [
          | item ↦ (record b { items = put b.items e.checkpoint.stable_key e.checkpoint }, true)
          | person_avatar ↦ (
            record b { person_avatars = put b.person_avatars e.checkpoint.stable_key e.checkpoint },
            true,
          )
          | unknown ↦ (b, found)
        ])

-- The loop over the lines; `none`: the scanner failed.
unfoldable pub replay_lines : List Line → Checkpoint × Bool → Option (Checkpoint × Bool)
unfolding replay_entry
replay_lines [] s = some s
replay_lines (entry e ∷ ls) s = replay_lines ls (replay_entry e s)
replay_lines (malformed ∷ ls) s = replay_lines ls s
replay_lines (too_long ∷ ls) s = none

unfoldable pub replay_import_checkpoint_journal : Journal → Checkpoint → Option (Checkpoint × Bool)
unfolding replay_lines
replay_import_checkpoint_journal absent c = some (c, false)
replay_import_checkpoint_journal no_access c = none
replay_import_checkpoint_journal (lines ls ended) c = replay_lines ls (c, false)

-- The file's checkpoint, and whether there is one.
unfoldable pub read_file : File → Option (Checkpoint × Bool)
read_file missing = some (zero_checkpoint, false)
read_file unreadable = none
read_file (holds c) = some (c, true)

-- `none`: an error.
unfoldable pub load_import_checkpoint : Disk → Option (Checkpoint × Bool)
unfolding read_file replay_import_checkpoint_journal
load_import_checkpoint d = elim (read_file d.file) [
  | none ↦ none
  | some (c, found) ↦ elim (replay_import_checkpoint_journal d.journal c) [
    | none ↦ none
    | some (replayed, journal_found) ↦ some (if journal_found then (replayed, true) else (c, found))
  ]
]

-- The checkpoint that may be used, and whether there is one of other contents of the package.
unfoldable pub read_import_checkpoint : Disk → ImportTarget → Text → Option Checkpoint × Bool
unfolding load_import_checkpoint
read_import_checkpoint d target fingerprint = elim (load_import_checkpoint d) [
  | none ↦ (none, false)
  | some (c, found) ↦
      if not found || not (same_import_target c.target target)
      then (none, false)
      else if same_package_fingerprint c.package_fingerprint fingerprint
      then (some c, false)
      else (none, true)
]

unfoldable pub should_resume_status : Text → Bool → Bool
should_resume_status status dry_run =
    text_eq status (codes "updated") || (text_eq status (codes "matched") && not dry_run)

-- `ImportMatch`, as far as a later run reads it.
pub record Match : Type 0 where
  pub stable_key : Text
  pub status : Text
  pub image_failures : ℕ
  pub media_info_updated : ℕ
  pub media_info_skipped : ℕ
  pub media_info_failed : ℕ

-- The tests that a match and a checkpoint share.
abbrev pub is_clean : Bool → ℕ → ℕ → ℕ → ℕ → Bool
is_clean require_media_info image_failures failed updated skipped =
    not (ltb 0 image_failures || ltb 0 failed)
    && not (require_media_info && updated == 0 && skipped == 0)

unfoldable pub should_resume_match : Match → Bool → Bool → Bool
unfolding should_resume_status
should_resume_match m dry_run require_media_info =
    is_clean require_media_info m.image_failures m.media_info_failed m.media_info_updated
      m.media_info_skipped
    && should_resume_status m.status dry_run

unfoldable pub should_resume_item_checkpoint : Saved → Bool → Bool
unfolding should_resume_status
should_resume_item_checkpoint s require_media_info =
    is_clean require_media_info s.image_failures s.media_info_failed s.media_info_updated
      s.media_info_skipped
    && should_resume_status s.status false

unfoldable pub should_resume_person_avatar_checkpoint : Saved → Bool
should_resume_person_avatar_checkpoint s = text_eq s.status (codes "uploaded")

-- `ImportReport`, as far as a later run reads it, with the name of its file.
pub record Report : Type 0 where
  pub name : Text
  pub target : ImportTarget
  pub package_fingerprint : Text
  pub dry_run : Bool
  pub matches : List Match

-- The keys of the matches of a report that are done.
unfoldable pub done_in : Bool → Bool → List Match → Text → Bool
unfolding should_resume_match
done_in dry_run require_media_info [] k = false
done_in dry_run require_media_info (m ∷ ms) k =
    (should_resume_match m dry_run require_media_info && text_eq k m.stable_key)
    || done_in dry_run require_media_info ms k

-- The loop over the reports that can be read, the latest first: what is done, and the reports of other
-- contents of the package.
unfoldable pub resume_reports : ImportTarget → Text → Bool → List Report → (Text → Bool) × List Text
unfolding done_in
resume_reports target fingerprint require_media_info [] = (λ k. false, [])
resume_reports target fingerprint require_media_info (r ∷ rs) =
    let (done, mismatched) = resume_reports target fingerprint require_media_info rs in
    if not (same_import_target r.target target)
    then (done, mismatched)
    else if not (same_package_fingerprint r.package_fingerprint fingerprint)
    then (done, r.name ∷ mismatched)
    else (λ k. done_in r.dry_run require_media_info r.matches k || done k, mismatched)

unfoldable pub resume_successful_items :
    Disk → ImportTarget → Text → Bool → List Report → (Text → Bool) × List Text
unfolding resume_reports read_import_checkpoint
resume_successful_items d target fingerprint require_media_info reports =
    let (checkpoint, mismatch) = read_import_checkpoint d target fingerprint in
    let (done, mismatched) = resume_reports target fingerprint require_media_info reports in
    (
      λ k.
          elim checkpoint [
            | none ↦ false
            | some c ↦ elim (c.items k) [
              | none ↦ false
              | some s ↦ should_resume_item_checkpoint s require_media_info
            ]
          ]
          || done k,
      if mismatch then codes "import-checkpoint.json" ∷ mismatched else mismatched,
    )
