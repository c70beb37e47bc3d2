-- ===== src/Database/Item.antt =====
-- internal/embydb/embydb.go: `applyItem` and `verifyInsertedRow`. Which statements fail is an argument.
-- The tables as they are left by an error are not told: the transaction is rolled back.
use emby_migrator.Prelude.{
  ℕ, suc, Bool, true, false, not, ◌&&◌, ◌||◌, none, some, List, [], ◌∷◌, Text, length, map,
  if◌then◌else◌, ◌==◌,
}
use emby_migrator.Prelude.Result.{Result, ok, and_then, need, unless}
use emby_migrator.Prelude.Strings.{trim_space, is_empty}
use emby_migrator.Plan.Binding.{Tables, equivalent_target_name}
use emby_migrator.Database.Values.{Numbers, Value, Fields, fold_keys, sql_values_equal}
use emby_migrator.Database.Tables.{
  Keep, ItemRow, Row, Db, find_item, count_streams, delete_rows, select_row, insert_row,
  update_item,
}
use emby_migrator.Database.Rows.{
  stream_insert_columns, chapter_columns, stream_row, chapter_row, summary_of,
}

-- `ItemPatch`; a target id that is not positive is 0.
pub record ItemPatch (n : Numbers) : Type 0 where
  pub target_item_id : ℕ
  pub target_name : Text
  pub media_source : Fields n
  pub media_streams : List (Fields n)
  pub chapters : List (Fields n)

-- The statements that an item needs.
pub data Statement : Type 0 where
  finding counting deleting_streams deleting_chapters updating : Statement
  inserting_stream reading_stream inserting_chapter reading_chapter : ℕ → Statement

pub data WriteError : Type 0 where
  invalid_id no_such_item name_mismatch no_streams unknown_stream_type : WriteError
  row_refused row_missing read_back_differs summary_refused : WriteError
  statement_failed : Statement → WriteError

-- Whether the item was written, with how many streams and chapters.
pub data Effect : Type 0 where
  skipped : Effect
  applied : ℕ → ℕ → Effect

abbrev pub name_text : {n : Numbers} → ItemRow n → Text
name_text row = elim row.name [ none ↦ [] | some t ↦ t ]

-- A name that the plan does not give matches any.
abbrev pub has_name : {n : Numbers} → Tables → ItemPatch n → ItemRow n → Bool
has_name tables item row =
    is_empty (trim_space item.target_name)
    || equivalent_target_name tables (name_text row) (trim_space item.target_name)

module _ {n : Numbers} where
  unfoldable pub same_cells : List (Value n) → List (Value n) → Bool
  unfolding sql_values_equal
  same_cells [] actual = true
  same_cells (e ∷ expected) [] = false
  same_cells (e ∷ expected) (a ∷ actual) = sql_values_equal n e a && same_cells expected actual

module _ {n : Numbers} (keep : Keep n) (fails : Statement → Bool) where
  -- Of an inserted row, which is read again by its key.
  unfoldable pub verify_inserted_row :
      Statement → Row n → List (Row n) → Result {0, 0} WriteError Unit
  unfolding same_cells select_row
  verify_inserted_row reading row rows =
      and_then (unless (statement_failed reading) (fails reading)) λ _.
        and_then (need row_missing (select_row row.item_id row.index rows))
          λ shown. unless read_back_differs (not (same_cells row.cells shown.cells))

  unfoldable pub write_row :
      List Text → Statement → Statement → Row n → List (Row n) → Result WriteError (List (Row n))
  unfolding verify_inserted_row insert_row
  write_row columns inserting reading row rows =
      and_then (unless (statement_failed inserting) (fails inserting)) λ _.
        and_then (need row_refused (insert_row keep columns row rows))
          λ written. and_then (verify_inserted_row reading row written) λ _. ok written

  -- The loop over the folded streams, from a position on.
  unfoldable pub write_streams :
      ℕ → ℕ → List (Fields n) → List (Row n) → Result WriteError (List (Row n))
  unfolding write_row stream_row
  write_streams id position [] rows = ok rows
  write_streams id position (stream ∷ streams) rows =
      and_then (need unknown_stream_type (stream_row n id position stream)) λ row.
        and_then
          (write_row stream_insert_columns (inserting_stream position) (reading_stream position) row
            rows)
          λ written. write_streams id (suc position) streams written

  unfoldable pub write_chapters :
      ℕ → ℕ → List (Fields n) → List (Row n) → Result WriteError (List (Row n))
  unfolding write_row chapter_row
  write_chapters id position [] rows = ok rows
  write_chapters id position (chapter ∷ chapters) rows =
      and_then
        (write_row chapter_columns (inserting_chapter position) (reading_chapter position)
          (chapter_row n id position chapter) rows)
        λ written. write_chapters id (suc position) chapters written

  -- From the deletion of the old rows on.
  unfoldable pub rewrite_item : ItemPatch n → Db n → Result WriteError (Effect × Db n)
  unfolding write_streams write_chapters delete_rows update_item summary_of fold_keys
  rewrite_item item db =
      let id = item.target_item_id in
      let streams = map (fold_keys n) item.media_streams in
      and_then (unless no_streams (length item.media_streams == 0)) λ _.
        and_then (unless (statement_failed deleting_streams) (fails deleting_streams)) λ _.
          and_then (unless (statement_failed deleting_chapters) (fails deleting_chapters)) λ _.
            and_then (write_streams id 0 streams (delete_rows id db.streams)) λ new_streams.
              and_then (write_chapters id 0 item.chapters (delete_rows id db.chapters))
                λ new_chapters. and_then (unless (statement_failed updating) (fails updating)) λ _.
                  and_then
                    (need summary_refused (
                      update_item keep id (summary_of n (fold_keys n item.media_source) streams)
                        db.items))
                    λ new_items. ok (
                      applied (length item.media_streams) (length item.chapters),
                      record { items = new_items; streams = new_streams; chapters = new_chapters },
                    )

  unfoldable pub apply_item : Tables → Bool → ItemPatch n → Db n → Result WriteError (Effect × Db n)
  unfolding rewrite_item find_item
  apply_item tables overwrite item db = and_then (unless invalid_id (item.target_item_id == 0)) λ _.
      and_then (unless (statement_failed finding) (fails finding)) λ _.
        and_then (need no_such_item (find_item item.target_item_id db.items)) λ row.
          and_then (unless name_mismatch (not (has_name tables item row))) λ _.
            and_then (unless (statement_failed counting) (fails counting)) λ _.
              if not (count_streams item.target_item_id db == 0) && not overwrite
              then ok (skipped, db)
              else rewrite_item item db
