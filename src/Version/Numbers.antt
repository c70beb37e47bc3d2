-- ===== src/Version/Numbers.antt =====
-- internal/web/version_check.go: `normalizeVersionLabel`, `numericVersionParts`, `compareVersionNumbers`.
use emby_migrator.Prelude.{
  ℕ, zero, suc, ◌+◌, ◌-◌, ◌*◌, ◌^◌, ◌&&◌, ◌||◌, Option, none, some, List, [], ◌∷◌, Text, length,
  get_elem?, ltb, leb, ◌==◌, if◌then◌else◌,
}
use emby_migrator.Prelude.Int.{ℤ, pos, negsuc}
use emby_migrator.Prelude.Strings.{trim_space, trim_prefix_char, split}

unfoldable pub normalize_version_label : Text → Text
normalize_version_label value = trim_prefix_char b'V' (trim_prefix_char b'v' (trim_space value))

-- What stands before the first dash or plus.
unfoldable pub before_suffix : Text → Text
before_suffix [] = []
before_suffix (c ∷ s) =
    let rest = before_suffix s in if c == b'-' || c == b'+' then [] else c ∷ rest

-- `strconv.Atoi` on a text without a sign; a number beyond 64 bits is an error.
unfoldable pub digits_from : ℕ → Text → Option ℕ
digits_from n [] = if ltb n (2 ^ 63) then some n else none
digits_from n (c ∷ s) =
    let rest = digits_from (n * 10 + (c - b'0')) s in
    if leb b'0' c && leb c b'9' then rest else none

unfoldable pub atoi : Text → Option ℕ
unfolding digits_from
atoi [] = none
atoi (c ∷ s) = digits_from 0 (c ∷ s)

-- The numbers of the parts, or `nil` where one is no number.
unfoldable pub all_parts : List Text → Option (List ℕ)
unfolding atoi
all_parts [] = some []
all_parts (part ∷ parts) =
    let rest = all_parts parts in
    elim (atoi part) [ none ↦ none | some n ↦ elim rest [ none ↦ none | some ns ↦ some (n ∷ ns) ] ]

unfoldable pub numeric_version_parts : Text → List ℕ
unfolding all_parts before_suffix normalize_version_label
numeric_version_parts value =
    elim (all_parts (split b'.' (before_suffix (normalize_version_label value)))) [
      | none ↦ []
      | some ns ↦ ns
    ]

-- A part that is missing counts as 0.
abbrev pub part_at : List ℕ → ℕ → ℕ
part_at parts index = elim (get_elem? parts index) [ none ↦ 0 | some n ↦ n ]

-- The loop, with `left` more indices from `index` on.
unfoldable pub compare_from : List ℕ → List ℕ → ℕ → ℕ → ℤ
compare_from l r zero index = pos 0
compare_from l r (suc left) index =
    let rest = compare_from l r left (suc index) in
    if ltb (part_at r index) (part_at l index)
    then pos 1
    else if ltb (part_at l index) (part_at r index)
    then negsuc 0
    else rest

unfoldable pub compare_parts : List ℕ → List ℕ → ℤ
unfolding compare_from
compare_parts l r = compare_from l r (if ltb (length l) (length r) then length r else length l) 0

unfoldable pub compare_version_numbers : Text → Text → ℤ
unfolding compare_parts
compare_version_numbers left right =
    compare_parts (numeric_version_parts left) (numeric_version_parts right)
