-- ===== src/Database/Fit.antt =====
-- internal/embydb/identity.go: what a schema that is accepted has.
use emby_migrator.Prelude.{
  inl, inr, ◌≡◌, ◌⊎◌, ap, ◌∙◌, true, false, not, ◌&&◌, Option, some, List, [], ◌∷◌, Text, codes,
  contains, if_cases, option_cases, All, arith,
}
use emby_migrator.Prelude.Strings.{to_lower}
use emby_migrator.Plan.Binding.{Tables}
use emby_migrator.Database.Rows.{stream_insert_columns, chapter_columns}
use emby_migrator.Database.Schema.{
  item_columns, Index, TableInfo, TableRule, media_schema, lower_names, has_all,
  primary_key_columns, same_ordered_columns, has_unique_index, has_unique_key, table_is_valid,
  checked_tables, validate_schema,
}

-- An index that is over all rows, allows no two with the same values, and is of these columns.
abbrev pub IsKeyIndex : List Text → Index → Type 0
IsKeyIndex key index =
    (index.is_unique ≡ true)
    × (index.is_partial ≡ false)
    × ((columns : List Text) × (index.columns ≡ some columns)
        × (same_ordered_columns columns key ≡ true))

abbrev pub SomeIndex : List Text → List Index → Type 0
SomeIndex key [] = ⊥
SomeIndex key (index ∷ indexes) = IsKeyIndex key index ⊎ SomeIndex key indexes

-- The key is the primary key, or that of an index.
abbrev pub IsUnique : List Text → TableInfo → Type 0
IsUnique key info =
    (same_ordered_columns (primary_key_columns info) key ≡ true)
    ⊎ ((indexes : List Index) × (info.indexes ≡ some indexes) × SomeIndex key indexes)

-- The table is there, with the columns that are written, and its key.
abbrev pub IsFit : (Text → Option TableInfo) → TableRule → Type 0
IsFit inspect rule =
    (info : TableInfo) × (inspect rule.name ≡ some info)
    × All (λ column. contains (lower_names info) (to_lower column) ≡ true) rule.must_have
    × IsUnique rule.key info

-- The tables of the statements, with the columns that rows are inserted and read by.
abbrev pub used_tables : List TableRule
used_tables =
    record {
      name = codes "Chapters3";
      must_have = chapter_columns;
      key = codes "ItemId" ∷ codes "ChapterIndex" ∷ [];
    }
    ∷ record { name = codes "MediaItems"; must_have = item_columns; key = codes "Id" ∷ [] }
    ∷ record {
      name = codes "MediaStreams2";
      must_have = stream_insert_columns;
      key = codes "ItemId" ∷ codes "StreamIndex" ∷ [];
    }
    ∷ []

has_all-All :
    (columns found : List Text)
    → has_all columns found ≡ true
    → All (λ column. contains found (to_lower column) ≡ true) columns
unfolding has_all
has_all-All [] found h = tt
has_all-All (column ∷ columns) found h =
    (ground (arith, h), has_all-All columns found (ground (arith, h)))

has_unique_index-SomeIndex :
    (indexes : List Index) (key : List Text)
    → has_unique_index indexes key ≡ some true
    → SomeIndex key indexes
unfolding has_unique_index
has_unique_index-SomeIndex [] key h = absurd (cc)
has_unique_index-SomeIndex (index ∷ indexes) key h0 =
    let Goal : Type 0 = SomeIndex key (index ∷ indexes) in
    let later : has_unique_index indexes key ≡ some true → Goal =
      λ h. inr (has_unique_index-SomeIndex indexes key h) in
    if_cases (λ o. o ≡ some true → Goal) (index.is_unique && not index.is_partial) _ _
      (λ b.
        option_cases (λ o. o ≡ some true → Goal) index.columns _ _ (λ _ h. absurd (cc))
          (λ columns e.
            if_cases (λ o. o ≡ some true → Goal) (same_ordered_columns columns key) _ _
              (λ same _. inl (ground (arith, b), ground (arith, b), (columns, e, same)))
              (λ _. later)))
      (λ _. later) h0

has_unique_key-IsUnique :
    (info : TableInfo) (key : List Text) → has_unique_key info key ≡ true → IsUnique key info
unfolding has_unique_key
has_unique_key-IsUnique info key =
    if_cases (λ b. b ≡ true → IsUnique key info)
      (same_ordered_columns (primary_key_columns info) key) _ _ (λ same _. inl same)
      (λ _.
        option_cases (λ b. b ≡ true → IsUnique key info) info.indexes _ _ (λ _ h. absurd (cc))
          (λ indexes e.
            option_cases (λ b. b ≡ true → IsUnique key info) (has_unique_index indexes key) _ _
              (λ _ h. absurd (cc))
              (λ b found h.
                inr (indexes, e, has_unique_index-SomeIndex indexes key (found ∙ ap some h)))))

module _ (inspect : Text → Option TableInfo) where
  checked_tables-IsFit :
      (rules : List TableRule) (tables : List (Text × List Text))
      → checked_tables inspect rules ≡ some tables
      → All (IsFit inspect) rules
  unfolding checked_tables table_is_valid
  checked_tables-IsFit [] tables h = tt
  checked_tables-IsFit (rule ∷ rules) tables h0 =
      let Goal : Type 0 = All (IsFit inspect) (rule ∷ rules) in
      option_cases (λ o. o ≡ some tables → Goal) (inspect rule.name) _ _ (λ _ h. absurd (cc))
        (λ info e.
          if_cases (λ o. o ≡ some tables → Goal) (table_is_valid rule info) _ _
            (λ valid.
              option_cases (λ o. o ≡ some tables → Goal) (checked_tables inspect rules) _ _
                (λ _ h. absurd (cc))
                (λ rest f _. (
                  (
                    info,
                    e,
                    has_all-All rule.must_have (lower_names info) (ground (arith, valid)),
                    has_unique_key-IsUnique info rule.key (ground (arith, valid)),
                  ),
                  checked_tables-IsFit rules rest f,
                )))
            (λ _ h. absurd (cc)))
        h0

  -- A database whose schema is accepted has each of the three tables, with every column that is read or
  -- written, and with the key by which the rows are found as its primary key or that of an index that is
  -- unique and over all of the rows: those that the check lists, and those that the statements use.
  pub validate_schema-IsFit :
      (c : Tables) (identity : Text)
      → validate_schema inspect c ≡ some identity
      → All (IsFit inspect) media_schema × All (IsFit inspect) used_tables
  unfolding validate_schema
  validate_schema-IsFit c identity =
      option_cases
        (λ o.
          o ≡ some identity → All (IsFit inspect) media_schema × All (IsFit inspect) used_tables)
        (checked_tables inspect media_schema) _ _ (λ _ h. absurd (cc))
        (λ tables e _. let fit = checked_tables-IsFit media_schema tables e in (fit, fit))
