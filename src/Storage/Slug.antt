-- ===== src/Storage/Slug.antt =====
-- internal/storage/manifest.go: `Slug`, `SafeName` and `UniqueSlug`.
-- Unicode's tables are a parameter: the lower case of a code point, and its classes.
use emby_migrator.Prelude.{
  ℕ, zero, suc, ◌+◌, Bool, true, false, ◌||◌, Option, none, some, List, [], ◌∷◌, ◌++◌, map, Text,
  codes, text_eq, contains, length, take, ltb, ◌==◌, if◌then◌else◌,
}
use emby_migrator.Prelude.Strings.{trim_space, trim_func, is_empty}
use emby_migrator.Prelude.Decimal.{itoa}

pub record Letters : Type 0 where
  pub lower : ℕ → ℕ
  pub is_letter : ℕ → Bool
  pub is_digit : ℕ → Bool

abbrev pub dash : ℕ
dash = b'-'

abbrev pub is_dash : ℕ → Bool
is_dash c = c == dash

abbrev pub unknown : Text
unknown = codes "unknown"

-- The reserved names of Windows.
abbrev pub reserved : List Text
reserved =
    codes "con"
    ∷ codes "prn"
    ∷ codes "aux"
    ∷ codes "nul"
    ∷ codes "com1"
    ∷ codes "com2"
    ∷ codes "com3"
    ∷ codes "com4"
    ∷ codes "com5"
    ∷ codes "com6"
    ∷ codes "com7"
    ∷ codes "com8"
    ∷ codes "com9"
    ∷ codes "lpt1"
    ∷ codes "lpt2"
    ∷ codes "lpt3"
    ∷ codes "lpt4"
    ∷ codes "lpt5"
    ∷ codes "lpt6"
    ∷ codes "lpt7"
    ∷ codes "lpt8"
    ∷ codes "lpt9"
    ∷ []

module _ (l : Letters) where
  -- `unicode.IsLetter(r) || unicode.IsDigit(r)`
  abbrev pub keeps : ℕ → Bool
  keeps r = l.is_letter r || l.is_digit r

  -- The loop over the runes, with `lastDash`.
  unfoldable pub dashed : Bool → Text → Text
  dashed last_dash [] = []
  dashed last_dash (r ∷ s) = elim (keeps r) [
    | true ↦ r ∷ dashed false s
    | false ↦ elim last_dash [ true ↦ dashed true s | false ↦ dash ∷ dashed true s ]
  ]

  -- `strings.Trim(s, "-")`
  abbrev pub trim_dashes : Text → Text
  trim_dashes = trim_func is_dash

  abbrev pub bounded : Text → Text
  bounded out =
      if is_empty out
      then unknown
      else if ltb 120 (length out)
      then trim_dashes (take 120 out)
      else out

  unfoldable pub slug : Text → Text
  unfolding dashed
  slug value = bounded (trim_dashes (dashed false (trim_space (map l.lower value))))

  -- A slug has no space at its ends; its lower case is taken once more.
  unfoldable pub is_windows_reserved_name : Text → Bool
  is_windows_reserved_name name = contains reserved (map l.lower (trim_space name))

  unfoldable pub safe_name : Text → Text
  unfolding slug is_windows_reserved_name
  safe_name value =
      let name = slug value in if is_windows_reserved_name name then codes "safe-" ++ name else name

  -- The name with a number behind it.
  abbrev pub numbered : Text → ℕ → Text
  numbered base i = base ++ dash ∷ itoa i

  -- `UniqueSlug` over a `map[string]int`, as the exporter calls it: the name and the new counts.
  unfoldable pub unique_slug_counted : Text → (Text → ℕ) → Text × (Text → ℕ)
  unique_slug_counted value used =
      let base = safe_name value in
      (
        if used base == 0 then base else numbered base (used base + 1),
        λ k. if text_eq k base then used base + 1 else used k,
      )

  -- The search over a `map[string]bool`, from the number `i` on; `none`: the fuel ran out.
  unfoldable pub free_slug : List Text → Text → ℕ → ℕ → Option Text
  free_slug used base zero i = none
  free_slug used base (suc fuel) i =
      let rest = free_slug used base fuel (suc i) in
      if contains used (numbered base i) then rest else some (numbered base i)

  -- `UniqueSlug` over a `map[string]bool`, whose true keys are `used`.
  unfoldable pub unique_slug : Text → List Text → Option (Text × List Text)
  unfolding free_slug
  unique_slug value used =
      let base = safe_name value in
      if contains used base
      then elim (free_slug used base (suc (length used)) 2) [
        | none ↦ none
        | some name ↦ some (name, name ∷ used)
      ]
      else some (base, base ∷ used)
