-- ===== src/Database/Backups.antt =====
-- internal/embydb/embydb.go: `cleanupDatabaseBackups`. The directory's entries, which of them can be
-- removed, and the time that a text spells in the names' layout, if it is written just so, are arguments;
-- so are the database's directory and base name, and the clean path of the current backup.
use emby_migrator.Prelude.{
  ℕ, suc, ◌-◌, Bool, not, ◌&&◌, ◌||◌, Option, none, some, List, [], ◌∷◌, ◌++◌, Text, codes, text_eq,
  length, drop, take, leb, ltb, if◌then◌else◌,
}
use emby_migrator.Prelude.Strings.{has_prefix}
use emby_migrator.Prelude.Paths.{clean}

-- An entry of the directory; whether it is a regular file is missing where it cannot be told.
pub record DirEntry : Type 0 where
  pub name : Text
  pub is_symlink : Bool
  pub is_regular : Option Bool

pub record Backup : Type 0 where
  pub path : Text
  pub timestamp : ℕ

pub record Cleanup : Type 0 where
  pub removed : List Backup
  pub pruned : ℕ
  pub warnings : ℕ

abbrev suffix : Text
suffix = codes ".bak"

abbrev has_suffix : Text → Text → Bool
has_suffix t s = leb (length s) (length t) && text_eq (drop (length t - length s) t) s

abbrev pub newer_first : Backup → List Backup → List Backup
newer_first b [] = b ∷ []
newer_first b (c ∷ cs) =
    let rest = newer_first b cs in if ltb b.timestamp c.timestamp then c ∷ rest else b ∷ c ∷ cs

abbrev pub by_age : List Backup → List Backup
by_age [] = []
by_age (b ∷ bs) = newer_first b (by_age bs)

module _ (parse : Text → Option ℕ) (remove : Text → Bool) (directory base current : Text) where
  -- The backup that an entry is, if it is one of the database's by its name.
  abbrev pub as_backup : DirEntry → Option Backup
  as_backup e =
      let prefix = base ++ codes ".emby-migrator-" in
      let text = drop (length prefix) e.name in
      let path = clean (directory ++ b'/' ∷ e.name) in
      if not (has_prefix e.name prefix) || not (has_suffix e.name suffix) || e.is_symlink
      then none
      else elim (parse (take (length text - length suffix) text)) [
        | none ↦ none
        | some time ↦ some (record { path = path; timestamp = time })
      ]

  -- The old backups in the directory.
  unfoldable pub old_backups : List DirEntry → List Backup
  unfolding has_prefix
  old_backups [] = []
  old_backups (e ∷ entries) =
      let rest = old_backups entries in
      elim (as_backup e) [
        | none ↦ rest
        | some b ↦ elim e.is_regular [
          | none ↦ rest
          | some regular ↦ if regular && not (text_eq b.path current) then b ∷ rest else rest
        ]
      ]

  -- Those that cannot be told to be regular files.
  unfoldable pub unreadable : List DirEntry → ℕ
  unfolding has_prefix
  unreadable [] = 0
  unreadable (e ∷ entries) =
      let rest = unreadable entries in
      elim (as_backup e) [
        | none ↦ rest
        | some b ↦ elim e.is_regular [ none ↦ suc rest | some regular ↦ rest ]
      ]

  unfoldable pub remove_all : ℕ → List Backup → Cleanup
  remove_all warnings [] = record { removed = []; pruned = 0; warnings = warnings }
  remove_all warnings (b ∷ bs) =
      let c = remove_all warnings bs in
      if remove b.path
      then record c { removed = b ∷ c.removed; pruned = suc c.pruned }
      else record c { warnings = suc c.warnings }

  -- The current backup takes one of the places.
  unfoldable pub cleanup_database_backups : ℕ → List DirEntry → Cleanup
  unfolding old_backups unreadable remove_all
  cleanup_database_backups keep entries =
      let places = if ltb keep 1 then 1 else keep in
      remove_all (unreadable entries) (drop (places - 1) (by_age (old_backups entries)))
