-- ===== src/Checkpoint/History.antt =====
-- internal/exporter/service.go: runs of imports against one target, with crashes, and what is to be
-- found after them: a map of items and one of avatars.
use emby_migrator.Prelude.{
  Bool, true, false, not, ◌&&◌, Option, some, List, [], ◌∷◌, Text, text_eq, if◌then◌else◌,
}
use emby_migrator.Checkpoint.Types.{Saved, Disk}
use emby_migrator.Checkpoint.Store.{
  Store, InitIo, RecordIo, CloseIo, Written, whole, all_but_end, record_value, close,
  new_import_checkpoint_store,
}
use emby_migrator.Checkpoint.View.{kind_of, is_blank}

-- What happens: a value is recorded; the process stops, or stops while it writes a value's line, or
-- between the two last steps of closing; the import ends. The next import then has a new store.
pub data Event : Type 0 where
  recorded : Bool → Saved → Event
  crashed closed crashed_closing : Event
  crashed_writing : Bool → Saved → Written → Event

abbrev pub init_ok : InitIo
init_ok = record {
  stat_ok = true;
  mkdir_ok = true;
  open_ok = true;
  size_ok = true;
  read_ok = true;
  newline_ok = true;
  sync_ok = true;
}

abbrev pub record_io : Written → RecordIo
record_io w = record { init = init_ok; written = w; sync_ok = true }

abbrev pub close_io : Bool → CloseIo
close_io remove_ok = record {
  sync_ok = true;
  close_ok = true;
  write_ok = true;
  remove_ok = remove_ok;
}

abbrev pub again : Store → Store
again s = new_import_checkpoint_store s.target s.fingerprint

unfoldable pub happen : Event → Store × Disk → Store × Disk
happen (recorded avatar value) (s, d) =
    let (ok, s', d') = record_value (kind_of avatar) value (record_io whole) s d in (s', d')
happen crashed (s, d) = (again s, d)
happen (crashed_writing avatar value w) (s, d) =
    (again s, (record_value (kind_of avatar) value (record_io w) s d).2)
happen closed (s, d) = (again s, (close (close_io true) s d).2)
happen crashed_closing (s, d) = (again s, (close (close_io false) s d).2)

unfoldable pub history : List Event → Store × Disk → Store × Disk
unfolding happen
history [] s = s
history (e ∷ es) s = history es (happen e s)

-- The items and the avatars that are done.
abbrev pub Done : Type 0
Done = Bool → Text → Option Saved

abbrev same : Bool → Bool → Bool
same true b = b
same false b = not b

-- A value is done under its key, unless that is blank.
abbrev pub add : Bool → Saved → Done → Done
add avatar value done b k =
    if is_blank value
    then done b k
    else if same avatar b && text_eq k value.stable_key
    then some value
    else done b k

abbrev pub is_entry : Written → Bool
is_entry whole = true
is_entry all_but_end = true
is_entry _ = false

-- What is meant to happen: only values that are written change what is done.
unfoldable pub meant : Event → Done → Done
meant (recorded avatar value) done = add avatar value done
meant (crashed_writing avatar value w) done = if is_entry w then add avatar value done else done
meant _ done = done

unfoldable pub all_meant : List Event → Done → Done
unfolding meant
all_meant [] done = done
all_meant (e ∷ es) done = all_meant es (meant e done)
