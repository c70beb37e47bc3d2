-- ===== src/Match/Find.antt =====
-- internal/exporter/service.go: `findMatchWithCache`: the searches, one after the other. The cache of
-- lookups is left out, since it answers what the server answered; the ids of libraries are part of the
-- client.
use emby_migrator.Prelude.{
  Bool, true, false, not, ◌&&◌, ◌||◌, Option, none, some, List, [], ◌∷◌, ◌++◌, Text, codes, text_eq,
  if◌then◌else◌,
}
use emby_migrator.Prelude.Strings.{trim_space, is_empty}
use emby_migrator.Plan.Binding.{sorted}
use emby_migrator.Match.Types.{Item, Sought, Patterns, Client}
use emby_migrator.Match.Names.{
  media_path_stem, search_prefix, media_stem_matches, exact_name_matches, original_title_matches,
  choose_unique_match, short_name,
}
use emby_migrator.Match.Numbers.{episode_matches, season_matches, season_search_terms}

-- How an item was found.
pub data Strategy : Type 0 where
  season_parent media_file provider_id episode_numbers name_exact short_name_exact
        by_original_title :
      Strategy

-- Why it was not: which search had several results.
pub data Reason : Type 0 where
  season_parent_ambiguous media_file_ambiguous provider_id_ambiguous episode_ambiguous : Reason
  name_ambiguous name_search_ambiguous short_name_ambiguous short_name_search_ambiguous : Reason
  original_title_ambiguous original_title_search_ambiguous : Reason

-- The first error of a search, and the first ambiguity.
pub record Pending : Type 0 where
  pub search_failed : Bool
  pub ambiguous : Option (Reason × List Item)

-- The searches so far: they have settled on an item, or not.
pub data Progress : Type 0 where
  settled : Item → Strategy → Progress
  pending : Pending → Progress

pub data Found : Type 0 where
  matched : Item → Strategy → Found
  ambiguous_match : List Item → Reason → Found
  search_error no_match : Found

unfoldable pub remember_search_err : Pending → Pending
remember_search_err s = record s { search_failed = true }

unfoldable pub remember_ambiguous : Reason → List Item → Pending → Pending
remember_ambiguous reason [] s = s
remember_ambiguous reason (item ∷ items) s = elim s.ambiguous [
  | none ↦ record s { ambiguous = some (reason, item ∷ items) }
  | some a ↦ s
]

-- One match settles the search; several are remembered.
unfoldable pub one_of : Strategy → Reason → List Item → Pending → Progress
unfolding remember_ambiguous
one_of strategy reason [] s = pending s
one_of strategy reason (item ∷ []) s = settled item strategy
one_of strategy reason (item ∷ other ∷ rest) s =
    pending (remember_ambiguous reason (item ∷ other ∷ rest) s)

-- What comes next, where the searches have not settled.
abbrev pub next : (Pending → Progress) → Progress → Progress
next f (settled item strategy) = settled item strategy
next f (pending s) = f s

-- A choice among exact matches, or what is to be remembered.
abbrev pub chosen : Strategy → Option Item → Pending → Progress
chosen strategy none s = pending s
chosen strategy (some item) s = settled item strategy

abbrev ids_with_provider : List (Text × Text) → List Text
ids_with_provider [] = []
ids_with_provider ((provider, id) ∷ rest) =
    let others = ids_with_provider rest in
    if is_empty id then others else (provider ++ b'.' ∷ id) ∷ others

unfoldable pub provider_ids_for_search : List (Text × Text) → List Text
unfolding sorted
provider_ids_for_search ids = sorted (ids_with_provider ids)

module _ (p : Patterns) (client : Client) (entry : Sought) where
  unfoldable pub by_stem : Pending → Progress
  unfolding remember_search_err one_of
  by_stem s =
      let stem = media_path_stem entry.path in
      if is_empty stem
      then pending s
      else elim (client.search_items (search_prefix stem 30) entry.kind 50) [
        | none ↦ pending (remember_search_err s)
        | some items ↦
            if text_eq entry.kind (codes "Season")
            then one_of season_parent season_parent_ambiguous (season_matches p entry items) s
            else one_of media_file media_file_ambiguous (media_stem_matches stem entry.kind items) s
      ]

  unfoldable pub by_providers : List Text → Pending → Progress
  unfolding remember_search_err one_of
  by_providers [] s = pending s
  by_providers (value ∷ values) s =
      next (by_providers values) (elim (client.items_by_provider_id value) [
        | none ↦ pending (remember_search_err s)
        | some items ↦ one_of provider_id provider_id_ambiguous items s
      ])

  unfoldable pub by_episode : Pending → Progress
  unfolding remember_search_err one_of
  by_episode s =
      if text_eq entry.kind (codes "Episode") && not (is_empty entry.series_name)
      then elim (client.search_items entry.series_name (codes "Episode") 300) [
        | none ↦ pending (remember_search_err s)
        | some items ↦ one_of episode_numbers episode_ambiguous (episode_matches p entry items) s
      ]
      else pending s

  unfoldable pub by_season_terms : List Text → Pending → Progress
  unfolding remember_search_err one_of
  by_season_terms [] s = pending s
  by_season_terms (term ∷ terms) s =
      next (by_season_terms terms) (elim (client.search_items term (codes "Season") 300) [
        | none ↦ pending (remember_search_err s)
        | some items ↦ one_of season_parent season_parent_ambiguous (season_matches p entry items) s
      ])

  unfoldable pub by_season : Pending → Progress
  unfolding by_season_terms
  by_season s =
      if text_eq entry.kind (codes "Season")
      then by_season_terms (season_search_terms p entry) s
      else pending s

  -- By name, after the episodes' numbers: exact matches, of the year that is known.
  unfoldable pub by_exact_name : List Item → Pending → Progress
  unfolding remember_ambiguous
  by_exact_name items s =
      let exact = exact_name_matches p items entry.name entry.kind in
      next
        (λ t. pending (
          remember_ambiguous name_search_ambiguous items
            (remember_ambiguous name_ambiguous exact t)))
        (chosen name_exact (choose_unique_match exact entry.production_year) s)

  unfoldable pub by_name : Pending → Progress
  unfolding remember_search_err one_of by_exact_name
  by_name s =
      if is_empty (trim_space entry.name)
      then pending s
      else elim (client.search_items entry.name entry.kind 20) [
        | none ↦ pending (remember_search_err s)
        | some items ↦ next (by_exact_name items) (
            if text_eq entry.kind (codes "Episode")
            then one_of episode_numbers episode_ambiguous (episode_matches p entry items) s
            else pending s)
      ]

  -- What the two last searches do with what they found.
  unfoldable pub among : Strategy → Reason → Reason → List Item → List Item → Pending → Progress
  unfolding remember_ambiguous
  among strategy exact_reason search_reason items exact s =
      next
        (λ t.
          pending
            (remember_ambiguous search_reason items (remember_ambiguous exact_reason exact t)))
        (chosen strategy (choose_unique_match exact entry.production_year) s)

  unfoldable pub by_short_name : Pending → Progress
  unfolding remember_search_err among
  by_short_name s =
      let short = short_name p entry.name in
      if is_empty short || text_eq short entry.name
      then pending s
      else elim (client.search_items short entry.kind 20) [
        | none ↦ pending (remember_search_err s)
        | some [] ↦ pending s
        | some (item ∷ items) ↦
            among short_name_exact short_name_ambiguous short_name_search_ambiguous (item ∷ items)
              (exact_name_matches p (item ∷ items) short entry.kind) s
      ]

  unfoldable pub by_title : Pending → Progress
  unfolding remember_search_err among
  by_title s =
      if is_empty entry.original_title || text_eq entry.original_title entry.name
      then pending s
      else elim (client.search_items entry.original_title entry.kind 20) [
        | none ↦ pending (remember_search_err s)
        | some [] ↦ pending s
        | some (item ∷ items) ↦
            among by_original_title original_title_ambiguous original_title_search_ambiguous
              (item ∷ items) (original_title_matches (item ∷ items) entry.original_title entry.kind)
              s
      ]

  unfoldable pub finish : Progress → Found
  finish (settled item strategy) = matched item strategy
  finish (pending s) = elim s.ambiguous [
    | some (reason, items) ↦ ambiguous_match items reason
    | none ↦ if s.search_failed then search_error else no_match
  ]

  abbrev pub start : Pending
  start = record { search_failed = false; ambiguous = none }

  unfoldable pub find_match : Found
  unfolding by_stem by_providers by_episode by_season by_name by_short_name by_title finish
      provider_ids_for_search
  find_match =
      let ids = provider_ids_for_search entry.provider_ids in
      finish (
        next by_title (
          next by_short_name (
            next by_name
              (next by_season (next by_episode (next (by_providers ids) (by_stem start)))))))
