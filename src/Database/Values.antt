-- ===== src/Database/Values.antt =====
-- internal/embydb/embydb.go: the values of a decoded plan, and what is made of them for a column.
-- Floating point numbers, `reflect.DeepEqual` and what a column keeps of a value are parameters.
use emby_migrator.Prelude.{
  ℕ, Bool, true, false, not, ◌&&◌, ◌||◌, Option, none, some, List, [], ◌∷◌, Text, codes, text_eq,
  contains, drop, ◌^◌, ◌*◌, ◌+◌, ◌-◌, if◌then◌else◌, leb,
}
use emby_migrator.Prelude.Int.{ℤ, pos, neg, int_eq}
use emby_migrator.Prelude.Strings.{trim_space, to_lower, has_prefix}

-- `float64` and the maps and slices inside of a value.
pub record Numbers : Type 1 where
  pub Float : Type 0
  pub Nested : Type 0
  pub truncate : Float → ℤ
  pub from_int : ℤ → Float
  pub float_eq : Float → Float → Bool
  pub deep_equal : Nested → Nested → Bool

-- A value of a decoded JSON object, of an argument of a statement, or of a column.
pub data Value (n : Numbers) : Type 0 where
  null : Value n
  boolean : Bool → Value n
  integer : ℤ → Value n
  real : n.Float → Value n
  text : Text → Value n
  nested : n.Nested → Value n

-- The number that the digits spell; nothing where there are other characters.
abbrev magnitude_from : ℕ → Text → Option ℕ
magnitude_from m [] = some m
magnitude_from m (c ∷ s) =
    let rest = magnitude_from (m * 10 + (c - b'0')) s in
    if leb b'0' c && leb c b'9' then rest else none

abbrev signed : (ℕ → ℤ) → ℕ → Text → Option ℤ
signed sign limit [] = none
signed sign limit (c ∷ s) = elim (magnitude_from 0 (c ∷ s)) [
  | none ↦ none
  | some m ↦ if leb m limit then some (sign m) else none
]

-- `strconv.ParseInt(text, 10, 64)`
unfoldable pub parse_int : Text → Option ℤ
unfolding has_prefix
parse_int t =
    if has_prefix t (codes "-")
    then signed neg (2 ^ 63) (drop 1 t)
    else if has_prefix t (codes "+")
    then signed pos (2 ^ 63 - 1) (drop 1 t)
    else signed pos (2 ^ 63 - 1) t

-- `strconv.ParseBool`
unfoldable pub parse_bool : Text → Option Bool
parse_bool t =
    if contains
      (codes "1" ∷ codes "t" ∷ codes "T" ∷ codes "TRUE" ∷ codes "true" ∷ codes "True" ∷ []) t
    then some true
    else if contains
        (codes "0" ∷ codes "f" ∷ codes "F" ∷ codes "FALSE" ∷ codes "false" ∷ codes "False" ∷ []) t
    then some false
    else none

module _ (n : Numbers) where
  -- A decoded object, as its entries. If two keys are the same once folded, the first one counts; Go
  -- lets either.
  abbrev pub Fields : Type 0
  Fields = List (Text × Value n)

  unfoldable pub fold_keys : Fields → Fields
  fold_keys [] = []
  fold_keys ((key, value) ∷ fields) = (to_lower (trim_space key), value) ∷ fold_keys fields

  -- The values are those of JSON, for which `normalizeSQLiteValue` is the identity.
  unfoldable pub pick : Fields → Text → Value n
  pick [] key = null
  pick ((k, value) ∷ fields) key =
      let rest = pick fields key in if text_eq k key then value else rest

  unfoldable pub integer_value : Value n → Option ℤ
  unfolding parse_int
  integer_value (integer i) = some i
  integer_value (real x) = some (n.truncate x)
  integer_value (text t) = parse_int (trim_space t)
  integer_value _ = none

  abbrev pub as_bit : Bool → Value n
  as_bit true = integer (pos 1)
  as_bit false = integer (pos 0)

  abbrev pub is_nonzero : Option ℤ → Bool
  is_nonzero none = false
  is_nonzero (some i) = not (int_eq i (pos 0))

  unfoldable pub bool_integer : Value n → Value n
  unfolding integer_value parse_bool
  bool_integer null = null
  bool_integer (boolean b) = as_bit b
  bool_integer (text t) = elim (parse_bool (trim_space t)) [
    | none ↦ as_bit (is_nonzero (integer_value (text t)))
    | some b ↦ as_bit b
  ]
  bool_integer value = as_bit (is_nonzero (integer_value value))

  abbrev pub named : List (Text × ℤ) → Text → Option ℤ
  named [] t = none
  named ((name, i) ∷ names) t = let rest = named names t in if text_eq name t then some i else rest

  abbrev pub stream_types : List (Text × ℤ)
  stream_types =
      (codes "audio", pos 1)
      ∷ (codes "video", pos 2)
      ∷ (codes "subtitle", pos 3)
      ∷ (codes "embeddedimage", pos 4)
      ∷ (codes "data", pos 5)
      ∷ []

  abbrev pub marker_types : List (Text × ℤ)
  marker_types =
      (codes "introstart", pos 1) ∷ (codes "introend", pos 2) ∷ (codes "creditsstart", pos 3) ∷ []

  -- The number of a value's name; what is printed of a value that is no text is no name.
  abbrev pub by_name : List (Text × ℤ) → Value n → Option ℤ
  by_name names (text t) = named names (to_lower (trim_space t))
  by_name names _ = none

  unfoldable pub stream_type_value : Value n → Option ℤ
  unfolding integer_value
  stream_type_value value = elim (integer_value value) [
    | some i ↦ some i
    | none ↦ by_name stream_types value
  ]

  unfoldable pub marker_type_value : Value n → ℤ
  unfolding integer_value
  marker_type_value value = elim (integer_value value) [
    | some i ↦ i
    | none ↦ elim (by_name marker_types value) [ some i ↦ i | none ↦ pos 0 ]
  ]

  -- `integerValue` where its second result is not asked for.
  abbrev pub integer_or_zero : Value n → ℤ
  integer_or_zero value = elim (integer_value value) [ some i ↦ i | none ↦ pos 0 ]

  -- The numbers as `numericAsFloat` has them.
  abbrev float_of : Value n → Option n.Float
  float_of (integer i) = some (n.from_int i)
  float_of (real x) = some x
  float_of _ = none

  abbrev numbers_equal : Option n.Float → Option n.Float → Bool
  numbers_equal (some x) (some y) = n.float_eq x y
  numbers_equal _ _ = false

  unfoldable pub sql_values_equal : Value n → Value n → Bool
  sql_values_equal null null = true
  sql_values_equal (text s) (text t) = text_eq s t
  sql_values_equal (boolean a) (boolean b) = (a && b) || (not a && not b)
  sql_values_equal (nested x) (nested y) = n.deep_equal x y
  sql_values_equal (integer i) actual = numbers_equal (some (n.from_int i)) (float_of actual)
  sql_values_equal (real x) actual = numbers_equal (some x) (float_of actual)
  sql_values_equal _ _ = false
