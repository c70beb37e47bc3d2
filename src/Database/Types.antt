-- ===== src/Database/Types.antt =====
-- internal/embydb/embydb.go: the values that are written into each column.
use emby_migrator.Prelude.{
  inl, inr, ℕ, ◌≡◌, ◌⊎◌, refl, subst, Bool, true, false, some, List, [], ◌∷◌, Text, codes, contains,
  text_eq, option_cases, if◌then◌else◌,
}
use emby_migrator.Prelude.Result.{some_injective}
use emby_migrator.Prelude.Strings.{trim_space, to_lower}
use emby_migrator.Prelude.Int.{ℤ, pos}
use emby_migrator.Database.Values.{
  Numbers, Value, null, boolean, integer, real, text, nested, Fields, as_bit, is_nonzero,
  integer_value, bool_integer, parse_bool, pick, fold_keys, stream_type_value,
}
use emby_migrator.Database.Tables.{Row}
use emby_migrator.Database.Rows.{
  stream_insert_columns, chapter_columns, stream_row, chapter_row, stream_values, index_or,
}

infixr 4 ◌&◌
abbrev ◌&◌ : {A B : Type 0} → A → B → A × B
a & b = (a, b)

-- The columns whose values are 0, 1 or NULL, those of integers, of the row's index, and of paths.
abbrev bit_columns : List Text
bit_columns =
    codes "IsInterlaced"
    ∷ codes "IsDefault"
    ∷ codes "IsForced"
    ∷ codes "IsHearingImpaired"
    ∷ codes "IsExternal"
    ∷ codes "IsAnamorphic"
    ∷ []

abbrev integer_columns : List Text
integer_columns =
    codes "StreamType"
    ∷ codes "StartPositionTicks"
    ∷ codes "ImageDateModified"
    ∷ codes "MarkerType"
    ∷ []

abbrev index_columns : List Text
index_columns = codes "StreamIndex" ∷ codes "ChapterIndex" ∷ []

abbrev path_columns : List Text
path_columns = codes "Path" ∷ codes "ImagePath" ∷ []

-- The key of a column: its name in small letters, but Emby's Height is the plan's width, and Emby's
-- Width its height.
abbrev pub key_of : Text → Text
key_of column =
    if text_eq column (codes "Height")
    then codes "width"
    else if text_eq column (codes "Width")
    then codes "height"
    else to_lower column

module _ {n : Numbers} where
  abbrev pub IsBit : Value n → Type 0
  IsBit value = (value ≡ null) ⊎ (value ≡ integer (pos 0)) ⊎ (value ≡ integer (pos 1))

  abbrev pub IsInteger : Value n → Type 0
  IsInteger value = (i : ℤ) × (value ≡ integer i)

  -- What the column's value must be, in a row of the item `id` with the index `index` that is made of
  -- `fields`.
  abbrev pub IsOfColumn : ℕ → ℤ → Fields n → Text → Value n → Type 0
  IsOfColumn id index fields column value =
      if text_eq column (codes "ItemId")
      then value ≡ integer (pos id)
      else if contains index_columns column
      then value ≡ integer index
      else if contains integer_columns column
      then IsInteger value
      else if contains bit_columns column
      then IsBit value × (value ≡ bool_integer n (pick n fields (key_of column)))
      else if contains path_columns column
      then value ≡ null
      else value ≡ pick n fields (key_of column)

  -- A value for each column, in their order.
  abbrev pub AreOfColumns : ℕ → ℤ → Fields n → List Text → List (Value n) → Type 0
  AreOfColumns id index fields [] [] = Unit
  AreOfColumns id index fields (c ∷ cs) (v ∷ vs) =
      IsOfColumn id index fields c v × AreOfColumns id index fields cs vs
  AreOfColumns id index fields _ _ = ⊥

  as_bit-IsBit : (b : Bool) → IsBit (as_bit n b)
  as_bit-IsBit true = inr (inr refl)
  as_bit-IsBit false = inr (inl refl)

  bool_integer-IsBit : (value : Value n) → IsBit (bool_integer n value)
  unfolding bool_integer
  bool_integer-IsBit null = inl refl
  bool_integer-IsBit (boolean b) = as_bit-IsBit b
  bool_integer-IsBit (text t) =
      option_cases IsBit (parse_bool (trim_space t)) _ _
        (λ _. as_bit-IsBit (is_nonzero n (integer_value n (text t)))) (λ b _. as_bit-IsBit b)
  bool_integer-IsBit (integer i) = as_bit-IsBit (is_nonzero n (integer_value n (integer i)))
  bool_integer-IsBit (real x) = as_bit-IsBit (is_nonzero n (integer_value n (real x)))
  bool_integer-IsBit (nested x) = as_bit-IsBit (is_nonzero n (integer_value n (nested x)))

module _ (n : Numbers) where
  values-AreOfColumns :
      (id : ℕ) (index type : ℤ) (stream : Fields n)
      → AreOfColumns id index stream stream_insert_columns (stream_values n id index type stream)
  unfolding stream_values text_eq contains to_lower
  values-AreOfColumns id index type stream =
      let bit : (key : Text)
          → IsBit (bool_integer n (pick n stream key))
            × (bool_integer n (pick n stream key) ≡ bool_integer n (pick n stream key)) =
        λ key. (bool_integer-IsBit (pick n stream key), refl) in
      refl
      & refl
      & (_, refl)
      & refl
      & refl
      & refl
      & refl
      & refl
      & refl
      & bit (codes "isinterlaced")
      & refl
      & refl
      & refl
      & bit (codes "isdefault")
      & bit (codes "isforced")
      & bit (codes "ishearingimpaired")
      & bit (codes "isexternal")
      & refl
      & refl
      & refl
      & refl
      & refl
      & refl
      & refl
      & bit (codes "isanamorphic")
      & refl
      & refl
      & refl
      & refl
      & refl
      & refl
      & refl
      & refl
      & refl
      & refl
      & refl
      & refl
      & refl
      & refl
      & refl
      & tt

  -- Each value of the row of a stream or of a chapter is the one that its column must have, whatever the
  -- plan holds there: the item's id, the row's index, an integer for a type, a position or a date, 0, 1
  -- or NULL for a flag, as the plan's value says, NULL for a path, and in every other column the plan's
  -- own value of the key of the column's name, with width and height exchanged.
  pub planned-AreOfColumns :
      (id position : ℕ) (raw : Fields n)
      → ((row : Row n)
          → stream_row n id position raw ≡ some row
          → AreOfColumns id row.index raw stream_insert_columns row.cells)
        × AreOfColumns id
            (chapter_row n id position raw).index
            (fold_keys n raw)
            chapter_columns
            (chapter_row n id position raw).cells
  unfolding stream_row chapter_row text_eq contains to_lower
  planned-AreOfColumns id position raw = (
    λ row.
        option_cases
          (λ o. o ≡ some row → AreOfColumns id row.index raw stream_insert_columns row.cells)
          (stream_type_value n (pick n raw (codes "type"))) _ _ (λ _ h. absurd (cc))
          (λ type _ h.
            subst (λ r. AreOfColumns id r.index raw stream_insert_columns r.cells)
              (some_injective h)
              (values-AreOfColumns id (index_or n position (pick n raw (codes "index"))) type raw)),
    refl & refl & (_, refl) & refl & refl & (_, refl) & (_, refl) & tt,
  )
