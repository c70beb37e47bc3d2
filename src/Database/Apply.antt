-- ===== src/Database/Apply.antt =====
-- internal/embydb/embydb.go: `Apply`, and `validateTargetBinding` of identity.go. Other processes may write
-- while the lock is not held: the database is an argument as it is at each of the three moments when the
-- program looks. A transaction that is not committed leaves the database as it was.
use emby_migrator.Prelude.{
  ℕ, suc, ◌+◌, Bool, false, not, ◌&&◌, Option, none, some, List, [], ◌∷◌, map, Text, text_eq,
  length, if◌then◌else◌, ◌==◌,
}
use emby_migrator.Prelude.Result.{Result, refused, ok, and_then, need, unless}
use emby_migrator.Prelude.Strings.{trim_space, is_empty, equal_fold}
use emby_migrator.Plan.Binding.{Tables, Anchor, build_target_binding_digest, media_schema_identity}
use emby_migrator.Database.Values.{Numbers}
use emby_migrator.Database.Tables.{Keep, Db, find_item}
use emby_migrator.Database.Item.{
  ItemPatch, Statement, WriteError, Effect, skipped, applied, name_text, has_name, apply_item,
}
use emby_migrator.Database.Schema.{TableInfo, validate_schema, validate_version_pair}

-- `ApplyOptions`; a blank digest is rebuilt from the items.
pub record ApplyOptions (n : Numbers) : Type 0 where
  pub source_version : Text
  pub target_version : Text
  pub target_server_id : Text
  pub target_binding_digest : Text
  pub target_anchor_count : ℕ
  pub expected_schema_identity : Text
  pub patches : List (ItemPatch n)
  pub overwrite : Bool

pub data ApplyError : Type 0 where
  unsupported_versions no_database no_items locked : ApplyError
  wrong_schema schema_mismatch no_digest binding_mismatch release_failed : ApplyError
  backup_failed locked_after_backup not_prepared not_intact commit_failed : ApplyError
  item_failed : WriteError → ApplyError

-- `ApplyResult`
pub record Counts : Type 0 where
  pub items_applied : ℕ
  pub items_skipped : ℕ
  pub streams_written : ℕ
  pub chapters_written : ℕ

abbrev pub no_counts : Counts
no_counts = record {
  items_applied = 0;
  items_skipped = 0;
  streams_written = 0;
  chapters_written = 0;
}

abbrev pub count : Effect → Counts → Counts
count skipped c = record c { items_skipped = suc c.items_skipped }
count (applied streams chapters) c = record c {
  items_applied = suc c.items_applied;
  streams_written = c.streams_written + streams;
  chapters_written = c.chapters_written + chapters;
}

-- What succeeds, and what the pragmas of SQLite answer. `fails` is told the position of the item.
pub record Engine : Type 0 where
  pub declared_series : Text
  pub is_regular : Bool
  pub begins : Bool
  pub inspect : Text → Option TableInfo
  pub reads : Bool
  pub releases : Bool
  pub backs_up : Bool
  pub begins_again : Bool
  pub prepares : Bool
  pub fails : ℕ → Statement → Bool
  pub is_intact : Bool
  pub commits : Bool

-- What `Apply` leaves: its answer, the database, and the backup if there is one.
pub record Applied (n : Numbers) : Type 0 where
  pub answer : Result ApplyError Counts
  pub database : Db n
  pub backup : Option (Db n)

abbrev pub as_item_error : {A : Type 0} → Result WriteError A → Result ApplyError A
as_item_error (refused x) = refused (item_failed x)
as_item_error (ok a) = ok a

module _ {n : Numbers} (tables : Tables) where
  -- The anchors of the items in the database; nothing where an item is missing or has another name.
  unfoldable pub anchors_in : Db n → List (ItemPatch n) → Option (List Anchor)
  unfolding find_item
  anchors_in db [] = some []
  anchors_in db (item ∷ items) =
      let rest = anchors_in db items in
      elim (find_item item.target_item_id db.items) [
        | none ↦ none
        | some row ↦
            if has_name tables item row
            then elim rest [
              | none ↦ none
              | some anchors ↦
                  some (record { item_id = item.target_item_id; name = name_text row } ∷ anchors)
            ]
            else none
      ]

module _ {n : Numbers} (keep : Keep n) (tables : Tables) (e : Engine) (o : ApplyOptions n) where
  unfoldable pub validate_target_binding : Text → ℕ → Db n → Bool
  unfolding anchors_in
  validate_target_binding digest anchor_count db =
      anchor_count == length o.patches && e.reads && elim (anchors_in tables db o.patches) [
        | none ↦ false
        | some anchors ↦ elim (build_target_binding_digest tables o.target_server_id anchors) [
          | none ↦ false
          | some actual ↦ equal_fold (trim_space actual) (trim_space digest)
        ]
      ]

  -- The digest and the count that are expected.
  unfoldable pub expected_binding : Option (Text × ℕ)
  expected_binding =
      if is_empty (trim_space o.target_binding_digest)
      then elim (build_target_binding_digest tables o.target_server_id (
          map (λ item. record { item_id = item.target_item_id; name = item.target_name })
            o.patches)) [ none ↦ none | some digest ↦ some (digest, length o.patches) ]
      else some (trim_space o.target_binding_digest, o.target_anchor_count)

  -- What is checked before the backup, in a transaction that is rolled back.
  unfoldable pub check_target : Db n → Result {0, 0} ApplyError Unit
  unfolding validate_target_binding expected_binding validate_schema validate_version_pair
  check_target db =
      let expected = trim_space o.expected_schema_identity in
      and_then
        (unless unsupported_versions
          (not (validate_version_pair e.declared_series o.source_version o.target_version)))
        λ _. and_then (unless no_database (not e.is_regular)) λ _.
          and_then (unless no_items (length o.patches == 0)) λ _.
            and_then (unless locked (not e.begins)) λ _.
              and_then (need wrong_schema (validate_schema e.inspect tables)) λ identity.
                and_then
                  (unless schema_mismatch (
                    not (is_empty expected)
                    && not (text_eq expected media_schema_identity)
                    && not (text_eq expected identity)))
                  λ _. and_then (need no_digest expected_binding) λ (digest, anchor_count).
                    and_then
                      (unless binding_mismatch
                        (not (validate_target_binding digest anchor_count db)))
                      λ _. unless release_failed (not e.releases)

  -- The loop over the items, from a position on.
  unfoldable pub apply_items :
      ℕ → List (ItemPatch n) → Counts → Db n → Result ApplyError (Counts × Db n)
  unfolding apply_item
  apply_items position [] counts db = ok (counts, db)
  apply_items position (item ∷ items) counts db =
      and_then (as_item_error (apply_item keep (e.fails position) tables o.overwrite item db))
        λ (effect, next). apply_items (suc position) items (count effect counts) next

  -- The transaction that writes.
  unfoldable pub write_items : Db n → Result ApplyError (Counts × Db n)
  unfolding apply_items
  write_items db = and_then (unless locked_after_backup (not e.begins_again)) λ _.
      and_then (unless not_prepared (not e.prepares)) λ _.
        and_then (apply_items 0 o.patches no_counts db) λ (counts, written).
          and_then (unless not_intact (not e.is_intact))
            λ _. and_then (unless commit_failed (not e.commits)) λ _. ok (counts, written)

  unfoldable pub apply : Db n → Db n → Db n → Applied n
  unfolding check_target write_items
  apply at_check at_backup at_write = elim (check_target at_check) [
    | refused x ↦ record { answer = refused x; database = at_write; backup = none }
    | ok _ ↦
        if not e.backs_up
        then record { answer = refused backup_failed; database = at_write; backup = none }
        else elim (write_items at_write) [
          | refused x ↦ record { answer = refused x; database = at_write; backup = some at_backup }
          | ok (counts, written) ↦ record {
            answer = ok counts;
            database = written;
            backup = some at_backup;
          }
        ]
  ]
