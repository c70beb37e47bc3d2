-- ===== src/Checkpoint/Types.antt =====
-- internal/exporter/service.go: the checkpoint of an import, its journal, and the files they are in.
-- A Go map is a function; a nil map and an empty one are read alike. The status is its text.
use emby_migrator.Prelude.{ℕ, Bool, Option, none, some, List, [], Text, text_eq, if◌then◌else◌}
use emby_migrator.Plan.Binding.{ImportTarget}

-- `ImportCheckpoint`
pub record Saved : Type 0 where
  pub stable_key : Text
  pub source_name : Text
  pub target_id : Text
  pub target_name : Text
  pub status : Text
  pub image_failures : ℕ
  pub media_info_updated : ℕ
  pub media_info_skipped : ℕ
  pub media_info_failed : ℕ
  pub updated_at : ℕ

-- `importCheckpoint`
pub record Checkpoint : Type 0 where
  pub schema_version : ℕ
  pub target : ImportTarget
  pub package_fingerprint : Text
  pub updated_at : ℕ
  pub items : Text → Option Saved
  pub person_avatars : Text → Option Saved

-- The kinds of journal entries; `unknown` is any other text.
pub data Kind : Type 0 where
  item person_avatar unknown : Kind

-- `importCheckpointJournalEntry`
pub record Entry : Type 0 where
  pub target : ImportTarget
  pub kind : Kind
  pub checkpoint : Saved

-- A line of the journal: an entry, what is no entry, or more than the scanner's buffer.
pub data Line : Type 0 where
  entry : Entry → Line
  malformed too_long : Line

-- The checkpoint's file.
pub data File : Type 0 where
  missing unreadable : File
  holds : Checkpoint → File

-- The journal: its lines, and whether the last one is ended.
pub data Journal : Type 0 where
  absent no_access : Journal
  lines : List Line → Bool → Journal

pub record Disk : Type 0 where
  pub file : File
  pub journal : Journal

abbrev pub no_target : ImportTarget
no_target = record { server_name = []; server_id = []; version = []; base_url = [] }

-- A checkpoint with nothing in it.
abbrev pub fresh : ImportTarget → Text → Checkpoint
fresh target fingerprint = record {
  schema_version = 1;
  target = target;
  package_fingerprint = fingerprint;
  updated_at = 0;
  items = λ k. none;
  person_avatars = λ k. none;
}

-- Go's zero value.
abbrev pub zero_checkpoint : Checkpoint
zero_checkpoint = record (fresh no_target []) { schema_version = 0 }

abbrev pub put : (Text → Option Saved) → Text → Saved → Text → Option Saved
put m key value k = if text_eq k key then some value else m k
