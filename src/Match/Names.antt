-- ===== src/Match/Names.antt =====
-- internal/exporter/service.go: comparing items by the names of their files and by their titles, with
-- the case and the white space of ASCII.
use emby_migrator.Prelude.{
  ℕ, Bool, not, ◌&&◌, ◌||◌, Option, none, some, List, [], ◌∷◌, ◌++◌, map, filter, Text, codes,
  text_eq, take, leb, length, ◌==◌, if◌then◌else◌,
}
use emby_migrator.Prelude.Strings.{trim_space, equal_fold, is_empty, has_prefix}
use emby_migrator.Prelude.Paths.{base, without_ext}
use emby_migrator.Storage.Slug.{slug}
use emby_migrator.Match.Types.{Item, Patterns}

-- `strings.ReplaceAll(value, "\\", "/")`
abbrev pub with_slashes : Text → Text
with_slashes value = map (λ c. if c == 92 then b'/' else c) value

unfoldable pub media_path_stem : Text → Text
unfolding base without_ext
media_path_stem value = without_ext (base (with_slashes (trim_space value)))

unfoldable pub search_prefix : Text → ℕ → Text
search_prefix value max_runes =
    let v = trim_space value in if leb (length v) max_runes then v else take max_runes v

-- An item whose type is known to be another does not match.
unfoldable pub has_kind : Text → Item → Bool
has_kind kind item = is_empty kind || is_empty item.kind || text_eq item.kind kind

unfoldable pub media_stem_matches : Text → Text → List Item → List Item
unfolding media_path_stem has_kind
media_stem_matches stem kind items =
    filter (λ item. has_kind kind item && equal_fold (media_path_stem item.path) (trim_space stem))
      items

-- `strings.Index(value, sep)` where it is positive: what stands before it, trimmed.
unfoldable pub before_text : Text → Text → Text → Option Text
before_text sep seen [] = none
before_text sep seen (c ∷ s) =
    let rest = before_text sep (seen ++ c ∷ []) s in
    if has_prefix (c ∷ s) sep && not (is_empty seen)
    then some (trim_space seen)
    else if has_prefix (c ∷ s) sep
    then none
    else rest

abbrev pub cut_at : Text → Text → Text
cut_at sep value = elim (before_text sep [] value) [ none ↦ value | some t ↦ t ]

abbrev suffix_cut : Text → Text → Text → Text
suffix_cut suffix seen [] = seen
suffix_cut suffix seen (c ∷ s) =
    let rest = suffix_cut suffix (seen ++ c ∷ []) s in if text_eq (c ∷ s) suffix then seen else rest

-- `strings.TrimSuffix`
unfoldable pub trim_suffix : Text → Text → Text
trim_suffix value suffix = suffix_cut suffix [] value

module _ (p : Patterns) where
  -- A slug, or nothing where there is none.
  unfoldable pub portable_match_name : Text → Text
  portable_match_name value =
      let v = trim_space value in
      let s = slug p.letters v in if is_empty v || text_eq s (codes "unknown") then [] else s

  abbrev pub is_strict : Text → Item → Bool
  is_strict name item = equal_fold (trim_space item.name) name

  abbrev pub is_portable : Text → Item → Bool
  is_portable name item =
      not (is_empty (portable_match_name name))
      && text_eq (portable_match_name (trim_space item.name)) (portable_match_name name)

  unfoldable pub exact_name_matches : List Item → Text → Text → List Item
  unfolding has_kind portable_match_name
  exact_name_matches items name kind =
      let n = trim_space name in
      let strict = filter (λ item. has_kind kind item && is_strict n item) items in
      elim strict [
        | [] ↦ filter (λ item. has_kind kind item && is_portable n item) items
        | item ∷ rest ↦ item ∷ rest
      ]

  unfoldable pub short_name : Text → Text
  unfolding before_text trim_suffix
  short_name name =
      let n1 = p.cut_short_meta (p.cut_short_dash (trim_space name)) in
      let n2 = cut_at (codes " - ") (cut_at (codes "{") n1) in
      trim_space (trim_suffix n2 (codes "(1080p)"))

unfoldable pub original_title_matches : List Item → Text → Text → List Item
unfolding has_kind
original_title_matches items title kind =
    let t = trim_space title in
    filter
      (λ item.
        has_kind kind item
        && (equal_fold (trim_space item.name) t || equal_fold (trim_space item.original_title) t))
      items

-- The one item to take, or nothing.
unfoldable pub choose_unique_match : List Item → ℕ → Option Item
choose_unique_match matches production_year =
    let chosen =
      if production_year == 0
      then matches
      else filter (λ item. item.production_year == production_year) matches in
    elim chosen [ [] ↦ none | item ∷ rest ↦ elim rest [ [] ↦ some item | _ ∷ _ ↦ none ] ]
