-- ===== src/Database/Written.antt =====
-- internal/embydb/embydb.go: what `applyItem` leaves of its item, and of the others.
use emby_migrator.Prelude.{
  ℕ, suc, ◌≡◌, refl, sym, ap, ◌∙◌, Bool, true, Option, some, List, [], ◌∷◌, ◌++◌, append_assoc,
  append-nil, Text, codes, not-false, option_cases,
}
use emby_migrator.Prelude.Result.{ok, and_then-ok, need-ok, unless-ok, ok_injective, some_injective}
use emby_migrator.Database.Values.{Numbers, Fields, pick, stream_type_value}
use emby_migrator.Database.Tables.{
  Keep, ItemRow, Row, Db, find_item, rows_of, select_row, kept, insert_row,
}
use emby_migrator.Database.TableLaws.{AllOf, select_row-end}
use emby_migrator.Database.Rows.{stream_insert_columns, chapter_columns, stream_row, chapter_row}
use emby_migrator.Database.Item.{
  Statement, same_cells, verify_inserted_row, write_row, write_streams, write_chapters,
}

-- What the database holds of one item.
pub record View (n : Numbers) : Type 0 where
  pub stream_rows : List (Row n)
  pub chapter_rows : List (Row n)
  pub item_row : Option (ItemRow n)

abbrev pub view : {n : Numbers} → ℕ → Db n → View n
view id db = record {
  stream_rows = rows_of id db.streams;
  chapter_rows = rows_of id db.chapters;
  item_row = find_item id db.items;
}

module _ {n : Numbers} (keep : Keep n) where
  -- A row that holds what the columns keep of what was planned, and reads as equal to it.
  abbrev pub IsStored : List Text → Row n → Row n → Type 0
  IsStored columns planned row =
      (row.item_id ≡ planned.item_id)
      × (row.index ≡ planned.index)
      × (kept keep columns planned.cells ≡ some row.cells)
      × (same_cells planned.cells row.cells ≡ true)

  insert-IsStored :
      (columns : List Text) (row : Row n) (rows new : List (Row n)) (shown : Row n)
      → insert_row keep columns row rows ≡ some new
      → select_row row.item_id row.index new ≡ some shown
      → same_cells row.cells shown.cells ≡ true
      → (stored : Row n) × IsStored columns row stored × (new ≡ rows ++ stored ∷ [])
  unfolding insert_row
  insert-IsStored columns row rows new shown h k s =
      let Goal : Type 0 =
        (stored : Row n) × IsStored columns row stored × (new ≡ rows ++ stored ∷ []) in
      option_cases (λ o. o ≡ some new → Goal) (select_row row.item_id row.index rows) _ _
        (λ free.
          option_cases (λ o. o ≡ some new → Goal) (kept keep columns row.cells) _ _
            (λ _ h. absurd (cc))
            (λ cells e h.
              let stored : Row n = record row { cells = cells } in
              let made : new ≡ rows ++ stored ∷ [] = sym (some_injective h) in
              let seen : stored ≡ shown = some_injective (
                sym (select_row-end stored rows free)
                ∙ ap (select_row row.item_id row.index) (sym made)
                ∙ k) in
              (stored, (refl, refl, e, ap (λ r. same_cells row.cells r.cells) seen ∙ s), made)))
        (λ _ _ h. absurd (cc)) h

  write_row-IsStored :
      (fails : Statement → Bool) (columns : List Text) (inserting reading : Statement) (row : Row n)
      (rows new : List (Row n))
      → write_row keep fails columns inserting reading row rows ≡ ok new
      → (stored : Row n) × IsStored columns row stored × (new ≡ rows ++ stored ∷ [])
  unfolding write_row verify_inserted_row
  write_row-IsStored fails columns inserting reading row rows new = and_then-ok λ _ e1.
      and_then-ok λ written e2. and_then-ok λ _ e3 h.
        let same : written ≡ new = ok_injective h in
        and_then-ok
          (λ _ _. and_then-ok (λ shown e4 e5.
            let (stored, is, made) =
              insert-IsStored columns row rows written shown (need-ok _ _ _ e2) (need-ok _ _ _ e4)
                (not-false (same_cells row.cells shown.cells) (unless-ok _ _ _ e5)) in
            (stored, is, sym same ∙ made)))
          e3

  -- The rows hold the streams, one each, in their order; the positions count from one on.
  abbrev pub StreamsStored : ℕ → ℕ → List (Fields n) → List (Row n) → Type 0
  StreamsStored id position [] [] = Unit
  StreamsStored id position [] (r ∷ rs) = ⊥
  StreamsStored id position (s ∷ ss) [] = ⊥
  StreamsStored id position (s ∷ ss) (r ∷ rs) =
      ((planned : Row n) × (stream_row n id position s ≡ some planned)
        × IsStored stream_insert_columns planned r)
      × StreamsStored id (suc position) ss rs

  abbrev pub ChaptersStored : ℕ → ℕ → List (Fields n) → List (Row n) → Type 0
  ChaptersStored id position [] [] = Unit
  ChaptersStored id position [] (r ∷ rs) = ⊥
  ChaptersStored id position (s ∷ ss) [] = ⊥
  ChaptersStored id position (s ∷ ss) (r ∷ rs) =
      IsStored chapter_columns (chapter_row n id position s) r
      × ChaptersStored id (suc position) ss rs

  stream_row-id :
      (id position : ℕ) (s : Fields n) (planned : Row n)
      → stream_row n id position s ≡ some planned
      → planned.item_id ≡ id
  unfolding stream_row
  stream_row-id id position s planned =
      option_cases (λ o. o ≡ some planned → planned.item_id ≡ id)
        (stream_type_value n (pick n s (codes "type"))) _ _ (λ _ h. absurd (cc))
        (λ _ _ h. ap (λ r. r.item_id) (sym (some_injective h)))

  chapter_row-id : (id position : ℕ) (c : Fields n) → (chapter_row n id position c).item_id ≡ id
  unfolding chapter_row
  chapter_row-id id position c = refl

  pub write_streams-Stored :
      (fails : Statement → Bool) (id position : ℕ) (streams : List (Fields n))
      (rows new : List (Row n))
      → write_streams keep fails id position streams rows ≡ ok new
      → (added : List (Row n)) × StreamsStored id position streams added
        × AllOf id added
        × (new ≡ rows ++ added)
  unfolding write_streams
  write_streams-Stored fails id position [] rows new h =
      ([], tt, tt, sym (ok_injective h) ∙ sym (append-nil rows))
  write_streams-Stored fails id position (s ∷ streams) rows new h0 =
      and_then-ok
        (λ planned e1. and_then-ok λ written e2 h.
          let row_is = need-ok _ _ _ e1 in
          let (stored, is, made) =
            write_row-IsStored fails stream_insert_columns _ _ planned rows written e2 in
          let (added, are, all, made_all) =
            write_streams-Stored fails id (suc position) streams written new h in
          (
            stored ∷ added,
            ((planned, row_is, is), are),
            (is.0 ∙ stream_row-id id position s planned row_is, all),
            made_all ∙ ap (λ l. l ++ added) made ∙ append_assoc rows (stored ∷ []) added,
          ))
        h0

  pub write_chapters-Stored :
      (fails : Statement → Bool) (id position : ℕ) (chapters : List (Fields n))
      (rows new : List (Row n))
      → write_chapters keep fails id position chapters rows ≡ ok new
      → (added : List (Row n)) × ChaptersStored id position chapters added
        × AllOf id added
        × (new ≡ rows ++ added)
  unfolding write_chapters
  write_chapters-Stored fails id position [] rows new h =
      ([], tt, tt, sym (ok_injective h) ∙ sym (append-nil rows))
  write_chapters-Stored fails id position (c ∷ chapters) rows new h0 =
      and_then-ok
        (λ written e h.
          let (stored, is, made) =
            write_row-IsStored fails chapter_columns _ _ (chapter_row n id position c) rows written
              e in
          let (added, are, all, made_all) =
            write_chapters-Stored fails id (suc position) chapters written new h in
          (
            stored ∷ added,
            (is, are),
            (is.0 ∙ chapter_row-id id position c, all),
            made_all ∙ ap (λ l. l ++ added) made ∙ append_assoc rows (stored ∷ []) added,
          ))
        h0
