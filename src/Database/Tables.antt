-- ===== src/Database/Tables.antt =====
-- internal/embydb/embydb.go: the tables of Emby's database that are touched, and the statements of
-- `prepareApplyStatements` on them. What SQLite keeps of a value in a column, by the column's type, is a
-- parameter. A key that is there already is refused, as the schema's unique keys require.
use emby_migrator.Prelude.{
  ℕ, Bool, not, ◌&&◌, Option, none, some, List, [], ◌∷◌, ◌++◌, Text, codes, length, filter,
  if◌then◌else◌, ◌==◌,
}
use emby_migrator.Prelude.Result.{◌>>=◌}
use emby_migrator.Prelude.Int.{ℤ, int_eq}
use emby_migrator.Database.Values.{Numbers, Value, null}

-- What a column keeps of a value that is written; nothing where the driver refuses the value.
abbrev pub Keep : Numbers → Type 0
Keep n = Text → Value n → Option (Value n)

-- A row of MediaItems.
pub record ItemRow (n : Numbers) : Type 0 where
  pub id : ℕ
  pub name : Option Text
  pub run_time_ticks : Value n
  pub total_bitrate : Value n
  pub width : Value n
  pub height : Value n
  pub size : Value n
  pub container : Value n

-- A row of MediaStreams2 or Chapters3: its key, and all of its columns.
pub record Row (n : Numbers) : Type 0 where
  pub item_id : ℕ
  pub index : ℤ
  pub cells : List (Value n)

pub record Db (n : Numbers) : Type 0 where
  pub items : List (ItemRow n)
  pub streams : List (Row n)
  pub chapters : List (Row n)

-- What `updateItem` sets.
pub record Summary (n : Numbers) : Type 0 where
  pub set_run_time_ticks : Value n
  pub set_total_bitrate : Value n
  pub set_width : Value n
  pub set_height : Value n
  pub set_size : Value n
  pub set_container : Value n

module _ {n : Numbers} where
  -- `findItem`
  unfoldable pub find_item : ℕ → List (ItemRow n) → Option (ItemRow n)
  find_item id [] = none
  find_item id (row ∷ rows) =
      let rest = find_item id rows in if row.id == id then some row else rest

  abbrev pub is_of : ℕ → Row n → Bool
  is_of id row = row.item_id == id

  abbrev pub rows_of : ℕ → List (Row n) → List (Row n)
  rows_of id rows = filter (is_of id) rows

  -- `countStreams`
  abbrev pub count_streams : ℕ → Db n → ℕ
  count_streams id db = length (rows_of id db.streams)

  -- `deleteStreams` and `deleteChapters`
  unfoldable pub delete_rows : ℕ → List (Row n) → List (Row n)
  delete_rows id rows = filter (λ row. not (is_of id row)) rows

  abbrev pub has_key : ℕ → ℤ → Row n → Bool
  has_key id index row = row.item_id == id && int_eq row.index index

  -- `selectStream` and `selectChapter`
  unfoldable pub select_row : ℕ → ℤ → List (Row n) → Option (Row n)
  select_row id index [] = none
  select_row id index (row ∷ rows) =
      let rest = select_row id index rows in if has_key id index row then some row else rest

  unfoldable pub kept : Keep n → List Text → List (Value n) → Option (List (Value n))
  kept keep (column ∷ columns) (value ∷ values) =
      let rest = kept keep columns values in
      elim (keep column value) [
        | none ↦ none
        | some v ↦ elim rest [ none ↦ none | some vs ↦ some (v ∷ vs) ]
      ]
  kept keep [] [] = some []
  kept keep _ _ = none

  -- `insertStream` and `insertChapter`
  unfoldable pub insert_row : Keep n → List Text → Row n → List (Row n) → Option (List (Row n))
  unfolding select_row kept
  insert_row keep columns row rows = elim (select_row row.item_id row.index rows) [
    | some old ↦ none
    | none ↦ elim (kept keep columns row.cells) [
      | none ↦ none
      | some cells ↦ some (rows ++ record row { cells = cells } ∷ [])
    ]
  ]

  -- COALESCE(?, column) in an assignment to the column.
  abbrev pub coalesce : Keep n → Text → Value n → Value n → Option (Value n)
  coalesce keep column null old = some old
  coalesce keep column value old = keep column value

  unfoldable pub summarized : Keep n → Summary n → ItemRow n → Option (ItemRow n)
  summarized keep s row = do
    run_time_ticks ← coalesce keep (codes "RunTimeTicks") s.set_run_time_ticks row.run_time_ticks
    total_bitrate ← coalesce keep (codes "TotalBitrate") s.set_total_bitrate row.total_bitrate
    width ← coalesce keep (codes "Width") s.set_width row.width
    height ← coalesce keep (codes "Height") s.set_height row.height
    size ← coalesce keep (codes "Size") s.set_size row.size
    container ← coalesce keep (codes "Container") s.set_container row.container
    some (record row {
      run_time_ticks = run_time_ticks;
      total_bitrate = total_bitrate;
      width = width;
      height = height;
      size = size;
      container = container;
    })

  -- `updateItem`
  unfoldable pub update_item : Keep n → ℕ → Summary n → List (ItemRow n) → Option (List (ItemRow n))
  unfolding summarized
  update_item keep id s [] = some []
  update_item keep id s (row ∷ rows) =
      let rest = update_item keep id s rows in
      elim (if row.id == id then summarized keep s row else some row) [
        | none ↦ none
        | some r ↦ elim rest [ none ↦ none | some rs ↦ some (r ∷ rs) ]
      ]
