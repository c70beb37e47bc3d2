-- ===== src/Match/Numbers.antt =====
-- internal/exporter/service.go: comparing episodes and seasons by their numbers and their series.
use emby_migrator.Prelude.{
  ℕ, Bool, true, false, not, ◌&&◌, ◌||◌, Option, none, some, List, [], ◌∷◌, ◌++◌, filter, Text,
  codes, text_eq, contains, ◌==◌, if◌then◌else◌,
}
use emby_migrator.Prelude.Strings.{trim_space, equal_fold, is_empty}
use emby_migrator.Prelude.Decimal.{itoa}
use emby_migrator.Prelude.Paths.{base, dir, dot, slash}
use emby_migrator.Storage.Slug.{slug}
use emby_migrator.Version.Numbers.{atoi}
use emby_migrator.Match.Types.{Item, Sought, Patterns}
use emby_migrator.Match.Names.{with_slashes, cut_at}

-- `episodeNumber`
pub record EpisodeNumber : Type 0 where
  pub season : ℕ
  pub episode : ℕ

unfoldable pub season_parent_directory : Text → Text
season_parent_directory value =
    let normalized = with_slashes (trim_space value) in
    let d = dir normalized in
    if is_empty normalized || text_eq d dot || text_eq d (slash ∷ []) then [] else base d

module _ (p : Patterns) where
  unfoldable pub episode_number_from_text : List Text → Option EpisodeNumber
  episode_number_from_text [] = none
  episode_number_from_text (value ∷ values) =
      let rest = episode_number_from_text values in
      elim (p.episode value) [
        | none ↦ rest
        | some (season, episode) ↦ elim (atoi season) [
          | none ↦ rest
          | some s ↦ elim (atoi episode) [
            | none ↦ rest
            | some e ↦ some (record { season = s; episode = e })
          ]
        ]
      ]

  -- The number that is given, or that a text has.
  unfoldable pub episode_number : ℕ → ℕ → Text → Text → Option EpisodeNumber
  unfolding episode_number_from_text
  episode_number index parent path name =
      if index == 0
      then episode_number_from_text (path ∷ name ∷ [])
      else some (record { season = parent; episode = index })

  unfoldable pub first_number : List Text → Option ℕ
  first_number [] = none
  first_number (group ∷ groups) =
      let rest = first_number groups in
      if is_empty group then rest else elim (atoi group) [ none ↦ rest | some n ↦ some n ]

  unfoldable pub season_number_from_text : List Text → Option ℕ
  unfolding first_number
  season_number_from_text [] = none
  season_number_from_text (value ∷ values) =
      let rest = season_number_from_text values in
      elim (first_number (p.season (trim_space value))) [ none ↦ rest | some n ↦ some n ]

  unfoldable pub season_number : ℕ → Text → Text → Option ℕ
  unfolding season_number_from_text
  season_number index path name =
      if index == 0 then season_number_from_text (path ∷ name ∷ []) else some index

  unfoldable pub normalize_series_candidate : Text → Text
  normalize_series_candidate value =
      let v = trim_space value in
      let cut = cut_at (codes "{") (p.cut_series_year (p.cut_series_meta (p.cut_series_brace v))) in
      let s = slug p.letters cut in
      if is_empty v || is_empty cut || text_eq s (codes "unknown") then [] else s

  -- The set, as a list of what is not blank.
  unfoldable pub normalized_season_series_candidates : Text → Text → List Text
  unfolding normalize_series_candidate season_parent_directory
  normalized_season_series_candidates series_name item_path =
      filter (λ t. not (is_empty t))
        (normalize_series_candidate series_name
          ∷ normalize_series_candidate (season_parent_directory item_path)
          ∷ [])

  unfoldable pub string_sets_overlap : List Text → List Text → Bool
  string_sets_overlap [] b = false
  string_sets_overlap (v ∷ a) b = contains b v || string_sets_overlap a b

  abbrev pub is_none_of : List Text → Bool
  is_none_of [] = true
  is_none_of (_ ∷ _) = false

  -- Whether an item's series is the one sought, where that one is known.
  unfoldable pub same_series : List Text → Item → Bool
  unfolding string_sets_overlap
  same_series source item =
      let target = normalized_season_series_candidates item.series_name item.path in
      not (is_none_of target) && string_sets_overlap source target

  unfoldable pub same_episode : EpisodeNumber → Item → Bool
  same_episode source item =
      elim (episode_number item.index_number item.parent_index_number item.path item.name) [
        | none ↦ false
        | some target ↦
            target.episode == source.episode
            && not (
                not (source.season == 0)
                && not (target.season == 0)
                && not (source.season == target.season))
      ]

  unfoldable pub episode_matches : Sought → List Item → List Item
  unfolding same_series same_episode
  episode_matches entry items =
      let series = normalized_season_series_candidates entry.series_name entry.path in
      elim (episode_number entry.index_number entry.parent_index_number entry.path entry.name) [
        | none ↦ []
        | some source ↦
            filter
              (λ item.
                (if is_none_of series
                  then text_eq item.series_name entry.series_name
                  else same_series series item)
                && same_episode source item)
              items
      ]

  abbrev pub same_season : Option ℕ → Item → Bool
  same_season none item = true
  same_season (some n) item = elim (season_number item.index_number item.path item.name) [
    | none ↦ true
    | some m ↦ m == n
  ]

  unfoldable pub season_matches : Sought → List Item → List Item
  unfolding same_series
  season_matches entry items =
      let number = season_number entry.index_number entry.path entry.name in
      let series = normalized_season_series_candidates entry.series_name entry.path in
      if is_none_of series && elim number [ none ↦ true | some _ ↦ false ]
      then []
      else filter
          (λ item.
            (is_empty item.kind || text_eq item.kind (codes "Season"))
            && same_season number item
            && (is_none_of series || same_series series item))
          items

  abbrev pub knows : List Text → Text → Bool
  knows [] t = false
  knows (s ∷ ss) t = equal_fold s t || knows ss t

  -- `add`
  abbrev pub add_term : List Text → Text → List Text
  add_term terms value =
      let v = trim_space value in if is_empty v || knows terms v then terms else terms ++ v ∷ []

  -- "Season 3", and the same in Chinese.
  unfoldable pub season_search_terms : Sought → List Text
  season_search_terms entry =
      let terms = add_term [] entry.name in
      elim (season_number entry.index_number entry.path entry.name) [
        | none ↦ terms
        | some n ↦
            add_term (add_term terms (codes "Season " ++ itoa n))
              (31532 ∷ 32 ∷ itoa n ++ 32 ∷ 23395 ∷ [])
      ]
