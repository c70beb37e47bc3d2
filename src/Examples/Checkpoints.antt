-- ===== src/Examples/Checkpoints.antt =====
-- The checkpoint of an import (internal/exporter/service.go) at concrete runs.
use emby_migrator.Prelude.{
  ◌≡◌, ◌⊎◌, refl, Bool, true, false, none, some, List, [], ◌∷◌, Text, codes, text_eq,
}
use emby_migrator.Prelude.Strings.{trim_space, trim_func, trim_left, is_empty}
use emby_migrator.Plan.Binding.{ImportTarget}
use emby_migrator.Checkpoint.Types.{Saved, Checkpoint, holds, absent, Disk, fresh, put, no_target}
use emby_migrator.Checkpoint.Replay.{
  Report, same_import_target, same_package_fingerprint, load_import_checkpoint, read_file,
  read_import_checkpoint, replay_import_checkpoint_journal, should_resume_item_checkpoint,
  should_resume_status, resume_reports, resume_successful_items,
}
use emby_migrator.Checkpoint.Store.{piece, all_but_end, new_import_checkpoint_store}
use emby_migrator.Checkpoint.View.{view}
use emby_migrator.Checkpoint.History.{
  Event, recorded, crashed, closed, crashed_closing, crashed_writing, history, all_meant,
}
use emby_migrator.Checkpoint.Recovery.{recovery}
use emby_migrator.Checkpoint.Resume.{
  Says, SomeReport, IsCheckpointed, resume_sound, clean, fingerprint_lost,
}

abbrev home : ImportTarget
home = record {
  server_name = codes "home";
  server_id = codes "s1";
  version = codes "4.9.5";
  base_url = [];
}

abbrev saved : Text → Text → Saved
saved key status = record {
  stable_key = key;
  source_name = key;
  target_id = codes "7";
  target_name = key;
  status = status;
  image_failures = 0;
  media_info_updated = 1;
  media_info_skipped = 0;
  media_info_failed = 0;
  updated_at = 5;
}

abbrev alien : Saved
alien = saved (codes "alien") (codes "updated")

-- A run that ends, one that stops in a line, one that stops at a line's end and while it closes.
abbrev runs : List Event
runs =
    recorded false (saved (codes "alien") (codes "matched"))
    ∷ closed
    ∷ recorded false alien
    ∷ crashed_writing false (saved (codes "brazil") (codes "updated")) piece
    ∷ crashed_writing true (saved (codes "ann") (codes "uploaded")) all_but_end
    ∷ recorded false (saved (codes "cube") (codes "matched"))
    ∷ crashed_closing
    ∷ crashed
    ∷ []

home_is_identified : same_import_target home home ≡ true
unfolding same_import_target text_eq trim_space trim_func trim_left
home_is_identified = refl

clean_reads :
    read_file clean.file ≡ some (record (fresh no_target []) { schema_version = 0 }, false)
unfolding read_file
clean_reads = refl

recovery_example :
    (r : Checkpoint × Bool) × (load_import_checkpoint
        (history runs (new_import_checkpoint_store home (codes "f1"), clean)).1
      ≡ some r)
    × ((avatar : Bool) (k : Text)
        → view home avatar r.0 k
          ≡ all_meant runs
              (λ b j. view home b (record (fresh no_target []) { schema_version = 0 }) j)
              avatar
              k)
recovery_example =
    recovery home (codes "f1") clean (record (fresh no_target []) { schema_version = 0 }) false runs
      home_is_identified refl clean_reads

abbrev with_alien : Disk
with_alien = record {
  file = holds (record (fresh home (codes "f1")) { items = put (λ k. none) (codes "alien") alien });
  journal = absent;
}

abbrev old_report : Report
old_report = record {
  name = codes "import-report-1.json";
  target = home;
  package_fingerprint = codes "f0";
  dry_run = false;
  matches = [];
}

alien_is_done :
    (resume_successful_items with_alien home (codes "f1") true (old_report ∷ [])).0 (codes "alien")
    ≡ true
unfolding resume_successful_items resume_reports read_import_checkpoint load_import_checkpoint
    read_file replay_import_checkpoint_journal same_import_target same_package_fingerprint
    should_resume_item_checkpoint should_resume_status text_eq trim_space trim_func trim_left
alien_is_done = refl

resume_sound_example :
    IsCheckpointed with_alien home (codes "f1") true (codes "alien")
    ⊎ SomeReport (Says home (codes "f1") true (codes "alien")) (old_report ∷ [])
resume_sound_example =
    resume_sound with_alien home (codes "f1") true (old_report ∷ []) (codes "alien") alien_is_done

home_is_some : same_import_target no_target home ≡ false
unfolding same_import_target text_eq trim_space trim_func trim_left
home_is_some = refl

alien_is_named : is_empty (trim_space alien.stable_key) ≡ false
unfolding trim_space trim_func trim_left
alien_is_named = refl

fingerprint_lost_example :
    (c : Checkpoint) × (read_import_checkpoint
        (history
          (recorded false alien ∷ closed ∷ [])
          (new_import_checkpoint_store home (codes "f1"), clean)).1
        home
        (codes "f2")
      ≡ (some c, false))
    × (c.package_fingerprint ≡ [])
    × (c.items (codes "alien") ≡ some alien)
fingerprint_lost_example =
    fingerprint_lost home (codes "f1") (codes "f2") alien home_is_identified home_is_some
      alien_is_named
