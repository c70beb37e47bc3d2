-- ===== src/Checkpoint/Store.antt =====
-- internal/exporter/service.go: `importCheckpointStore`: what an import writes as it goes.
-- Which of the file operations succeed is an argument of each call. An entry's line is assumed to fit
-- the scanner's buffer, and a checkpoint to have a JSON text.
use emby_migrator.Prelude.{
  ℕ, ◌+◌, Bool, true, false, not, ◌&&◌, ◌||◌, none, some, List, [], ◌∷◌, ◌++◌, Text, leb,
  if◌then◌else◌,
}
use emby_migrator.Prelude.Strings.{trim_space, is_empty}
use emby_migrator.Plan.Binding.{ImportTarget}
use emby_migrator.Checkpoint.Types.{
  Saved, Checkpoint, Kind, item, person_avatar, Entry, Line, entry, malformed, holds, Journal,
  absent, lines, Disk, fresh, zero_checkpoint, put,
}
use emby_migrator.Checkpoint.Replay.{
  same_import_target, same_package_fingerprint, load_import_checkpoint,
}

-- `importCheckpointStore`; it has its journal open once it is initialized.
pub record Store : Type 0 where
  pub target : ImportTarget
  pub fingerprint : Text
  pub checkpoint : Checkpoint
  pub initialized : Bool
  pub dirty : Bool
  pub closed : Bool
  pub records_since_sync : ℕ

abbrev pub new_import_checkpoint_store : ImportTarget → Text → Store
new_import_checkpoint_store target fingerprint = record {
  target = target;
  fingerprint = fingerprint;
  checkpoint = zero_checkpoint;
  initialized = false;
  dirty = false;
  closed = false;
  records_since_sync = 0;
}

-- Which of the operations of `initializeLocked` succeed, in their order.
pub record InitIo : Type 0 where
  pub stat_ok : Bool
  pub mkdir_ok : Bool
  pub open_ok : Bool
  pub size_ok : Bool
  pub read_ok : Bool
  pub newline_ok : Bool
  pub sync_ok : Bool

-- What became of the write of a line: all of it, or a part: nothing, a piece, or all but its end.
pub data Written : Type 0 where
  whole nothing piece all_but_end : Written

pub record RecordIo : Type 0 where
  pub init : InitIo
  pub written : Written
  pub sync_ok : Bool

pub record CloseIo : Type 0 where
  pub sync_ok : Bool
  pub close_ok : Bool
  pub write_ok : Bool
  pub remove_ok : Bool

abbrev pub is_absent : Journal → Bool
is_absent absent = true
is_absent _ = false

-- The journal after it has been opened with O_CREATE.
abbrev pub opened : Journal → Journal
opened absent = lines [] true
opened j = j

-- Whether the journal's last byte is missing its newline.
abbrev pub is_torn : Journal → Bool
is_torn (lines (l ∷ ls) ended) = not ended
is_torn _ = false

abbrev pub end_line : Journal → Journal
end_line (lines ls ended) = lines ls true
end_line j = j

-- What `initializeLocked` takes as the checkpoint.
unfoldable pub usable : Store → Checkpoint × Bool → Checkpoint
usable s (c, found) =
    if not found
      || not (same_import_target c.target s.target)
      || not (same_package_fingerprint c.package_fingerprint s.fingerprint)
    then fresh s.target s.fingerprint
    else c

-- Once the journal is open.
unfoldable pub check_end : InitIo → Checkpoint → Store → Disk → Bool × Store × Disk
check_end io c s d =
    let ready = record s { checkpoint = c; initialized = true } in
    if not io.size_ok
    then (false, s, d)
    else if is_torn d.journal
    then if not io.read_ok || not io.newline_ok
      then (false, s, d)
      else if not io.sync_ok
      then (false, s, record d { journal = end_line d.journal })
      else (true, ready, record d { journal = end_line d.journal })
    else (true, ready, d)

-- Whether it succeeded.
unfoldable pub initialize : InitIo → Store → Disk → Bool × Store × Disk
unfolding usable check_end
initialize io s d = if s.initialized then (true, s, d) else elim (load_import_checkpoint d) [
  | none ↦ (false, s, d)
  | some loaded ↦
      if not io.stat_ok
      then (false, s, d)
      else (let s1 = record s { dirty = s.dirty || not (is_absent d.journal) } in
          if not io.mkdir_ok || not io.open_ok
          then (false, s1, d)
          else check_end io (usable s loaded) s1 (record d { journal = opened d.journal }))
]

-- The last line, to which more has been written before it was ended, is no entry any more.
abbrev pub spoil : List Line → List Line
spoil [] = []
spoil (l ∷ []) = malformed ∷ []
spoil (l ∷ m ∷ ls) = l ∷ spoil (m ∷ ls)

-- A line is written at the end of the journal, and ended or not.
unfoldable pub write_line : Line → Bool → Journal → Journal
write_line l ended (lines [] _) = lines (l ∷ []) ended
write_line l ended (lines (m ∷ ls) true) = lines (m ∷ ls ++ l ∷ []) ended
write_line l ended (lines (m ∷ ls) false) = lines (spoil (m ∷ ls)) ended
write_line l ended j = j

unfoldable pub write_entry : Entry → Written → Journal → Journal
unfolding write_line
write_entry e whole j = write_line (entry e) true j
write_entry e nothing j = j
write_entry e piece j = write_line malformed false j
write_entry e all_but_end j = write_line (entry e) false j

abbrev pub is_whole : Written → Bool
is_whole whole = true
is_whole _ = false

abbrev pub import_checkpoint_sync_interval : ℕ
import_checkpoint_sync_interval = 25

-- `appendLocked`: whether it succeeded.
unfoldable pub append : Kind → Saved → RecordIo → Store → Disk → Bool × Store × Disk
unfolding write_entry
append kind value io s d =
    let e : Entry = record { target = s.target; kind = kind; checkpoint = value } in
    let d1 = record d { journal = write_entry e io.written d.journal } in
    let s1 = record s { dirty = true; records_since_sync = s.records_since_sync + 1 } in
    if not (is_whole io.written)
    then (false, s, d1)
    else if leb import_checkpoint_sync_interval s1.records_since_sync
    then if io.sync_ok then (true, record s1 { records_since_sync = 0 }, d1) else (false, s1, d1)
    else (true, s1, d1)

-- The checkpoint in memory after an entry.
abbrev pub remember : Kind → Saved → Store → Store
remember kind value s =
    let c = record s.checkpoint {
      schema_version = 1;
      target = s.target;
      updated_at = value.updated_at;
    } in
    record s {
      checkpoint = record c {
        items = elim kind [ item ↦ put c.items value.stable_key value | _ ↦ c.items ];
        person_avatars = elim kind [
          | person_avatar ↦ put c.person_avatars value.stable_key value
          | _ ↦ c.person_avatars
        ];
      };
    }

-- The end of `Record`, after the append.
unfoldable pub recorded_in_memory : Kind → Saved → Bool × Store × Disk → Bool × Store × Disk
recorded_in_memory kind value (done, s, d) =
    if done then (true, remember kind value s, d) else (false, s, d)

-- `Record` from the outcome of `initializeLocked` on.
unfoldable pub record_initialized :
    Kind → Saved → RecordIo → Bool × Store × Disk → Bool × Store × Disk
unfolding append recorded_in_memory
record_initialized kind value io (ready, s, d) =
    if ready then recorded_in_memory kind value (append kind value io s d) else (false, s, d)

-- `Record` (of an item) and `RecordPersonAvatar`, with the value that they make.
unfoldable pub record_value : Kind → Saved → RecordIo → Store → Disk → Bool × Store × Disk
unfolding initialize record_initialized
record_value kind value io s d =
    if is_empty (trim_space value.stable_key)
    then (true, s, d)
    else if s.closed
    then (false, s, d)
    else record_initialized kind value io (initialize io.init s d)

-- The end of `Close`, from the load on: the checkpoint is written whole or not at all.
unfoldable pub fold_journal : CloseIo → Store → Disk → Bool × Store × Disk
fold_journal io s d = elim (load_import_checkpoint d) [
  | none ↦ (false, s, d)
  | some (c, found) ↦
      (let s1 =
          if found && same_import_target c.target s.target
          then record s { checkpoint = c }
          else s in
        if not io.write_ok
        then (false, s1, d)
        else (let d1 = record d { file = holds s1.checkpoint } in
            if io.remove_ok then (true, s1, record d1 { journal = absent }) else (false, s1, d1)))
]

unfoldable pub close : CloseIo → Store → Disk → Bool × Store × Disk
unfolding fold_journal
close io s d =
    if s.closed
    then (true, s, d)
    else (let s1 = record s { closed = true } in
        if not s.initialized
        then (true, s1, d)
        else if not io.sync_ok || not io.close_ok
        then (false, s1, d)
        else if not s.dirty
        then if io.remove_ok then (true, s1, record d { journal = absent }) else (false, s1, d)
        else fold_journal io s1 d)
