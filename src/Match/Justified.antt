-- ===== src/Match/Justified.antt =====
-- internal/exporter/service.go: what justifies a match: the tests of the strategies, one by one.
use emby_migrator.Prelude.{
  ℕ, ◌≡◌, ◌⊎◌, inl, inr, refl, sym, ap, ◌∙◌, Bool, true, false, ◌&&◌, ◌||◌, Option, none, some,
  List, [], ◌∷◌, Text, codes, text_eq, filter, All, Bool-cases, if_cases, option_cases,
  if◌then◌else◌, ◌==◌, arith,
}
use emby_migrator.Prelude.Strings.{trim_space, equal_fold, is_empty}
use emby_migrator.Match.Types.{Item, Sought, Patterns, Client}
use emby_migrator.Match.Names.{
  media_path_stem, has_kind, media_stem_matches, is_strict, is_portable, exact_name_matches,
  choose_unique_match, short_name,
}
use emby_migrator.Match.Numbers.{
  is_none_of, normalized_season_series_candidates, same_series, same_episode, same_season,
  season_number, episode_number, episode_matches, season_matches,
}
use emby_migrator.Match.Filters.{
  OnlyOne, none_pass, All-weaken, filter-OnlyOne, filter-filter, filter-cong, sole-eq, List-cases,
  filter-true, filled-nil, filled-cons, nil-OnlyOne,
}
use emby_migrator.Match.Find.{
  Strategy, season_parent, media_file, provider_id, episode_numbers, name_exact, short_name_exact,
  by_original_title, Reason, Pending, Progress, settled, pending, one_of, next, chosen,
}

module _ (p : Patterns) (client : Client) (entry : Sought) where
  -- A search, or a query for a provider's id, answered with the list.
  abbrev pub Returned : List Item → Type 0
  Returned items =
      ((term : Text) × (kind : Text) × (limit : ℕ) × (client.search_items term kind limit
          ≡ some items))
      ⊎ ((value : Text) × (client.items_by_provider_id value ≡ some items))

  -- The year is the one sought, if that is known.
  abbrev pub has_year : Item → Bool
  has_year item = entry.production_year == 0 || item.production_year == entry.production_year

  -- The test by which a strategy compares the item with the one sought.
  unfoldable pub agrees : Strategy → Item → Bool
  agrees season_parent item =
      let series = normalized_season_series_candidates p entry.series_name entry.path in
      (is_empty item.kind || text_eq item.kind (codes "Season"))
      && same_season p (season_number p entry.index_number entry.path entry.name) item
      && (is_none_of p series || same_series p series item)
  agrees media_file item =
      has_kind entry.kind item
      && equal_fold (media_path_stem item.path) (trim_space (media_path_stem entry.path))
  agrees provider_id item = true
  agrees episode_numbers item =
      let series = normalized_season_series_candidates p entry.series_name entry.path in
      elim (episode_number p entry.index_number entry.parent_index_number entry.path entry.name) [
        | none ↦ false
        | some source ↦
            (if is_none_of p series
              then text_eq item.series_name entry.series_name
              else same_series p series item)
            && same_episode p source item
      ]
  agrees name_exact item =
      has_year item && (has_kind entry.kind item && is_strict p (trim_space entry.name) item)
  agrees short_name_exact item =
      has_year item
      && (has_kind entry.kind item && is_strict p (trim_space (short_name p entry.name)) item)
  agrees by_original_title item =
      has_year item
      && (has_kind entry.kind item
          && (equal_fold (trim_space item.name) (trim_space entry.original_title)
              || equal_fold (trim_space item.original_title) (trim_space entry.original_title)))

  -- The weaker test for names: by their letters and digits.
  unfoldable pub resembles : Text → Item → Bool
  resembles name item =
      has_year item && (has_kind entry.kind item && is_portable p (trim_space name) item)

  -- One item, by the strategy's test; by name, where none passes that, one by the weaker test.
  abbrev pub IsOnly : Strategy → List Item → Item → Type 0
  IsOnly name_exact items item =
      OnlyOne (agrees name_exact) items item
      ⊎ (All (λ o. agrees name_exact o ≡ false) items × OnlyOne (resembles entry.name) items item)
  IsOnly short_name_exact items item =
      OnlyOne (agrees short_name_exact) items item
      ⊎ (All (λ o. agrees short_name_exact o ≡ false) items
          × OnlyOne (resembles (short_name p entry.name)) items item)
  IsOnly strategy items item = OnlyOne (agrees strategy) items item

  abbrev pub Justified : Strategy → Item → Type 0
  Justified strategy item = (items : List Item) × Returned items × IsOnly strategy items item

  abbrev pub IsJust : Progress → Type 0
  IsJust (settled item strategy) = Justified strategy item
  IsJust (pending s) = Unit

  pub next-IsJust :
      (f : Pending → Progress) (q : Progress)
      → IsJust q
      → ((s : Pending) → IsJust (f s))
      → IsJust (next f q)
  next-IsJust f (settled item strategy) h k = h
  next-IsJust f (pending s) h k = k s

  pub one_of-IsJust :
      (strategy : Strategy) (reason : Reason) (matches : List Item) (s : Pending)
      → ((item : Item) → matches ≡ item ∷ [] → Justified strategy item)
      → IsJust (one_of strategy reason matches s)
  unfolding one_of
  one_of-IsJust strategy reason [] s h = tt
  one_of-IsJust strategy reason (item ∷ []) s h = h item refl
  one_of-IsJust strategy reason (item ∷ other ∷ rest) s h = tt

  pub chosen-IsJust :
      (strategy : Strategy) (o : Option Item) (s : Pending)
      → ((item : Item) → o ≡ some item → Justified strategy item)
      → IsJust (chosen strategy o s)
  chosen-IsJust strategy none s h = tt
  chosen-IsJust strategy (some item) s h = h item refl

  choose-filter :
      (matches : List Item) (item : Item)
      → choose_unique_match matches entry.production_year ≡ some item
      → filter has_year matches ≡ item ∷ []
  unfolding choose_unique_match
  choose-filter matches item h = elim (Bool-cases (entry.production_year == 0)) [
    | inl e ↦
        filter-true has_year matches (λ o. rw e refl) ∙ sole-eq matches item (ground (arith, h, e))
    | inr e ↦
        filter-cong has_year (λ o. o.production_year == entry.production_year) matches
          (λ o. rw e refl)
        ∙ sole-eq (filter (λ o. o.production_year == entry.production_year) matches) item
            (ground (arith, h, e))
  ]

  pub chosen-OnlyOne :
      (test wanted : Item → Bool) (items : List Item) (item : Item)
      → ((o : Item) → wanted o ≡ (has_year o && test o))
      → choose_unique_match (filter test items) entry.production_year ≡ some item
      → OnlyOne wanted items item
  chosen-OnlyOne test wanted items item same h = filter-OnlyOne wanted items item (
      filter-cong wanted (λ o. has_year o && test o) items same
      ∙ sym (filter-filter has_year test items)
      ∙ choose-filter (filter test items) item h)

  pub exact-IsOnly :
      (strategy : Strategy) (name : Text) (items : List Item) (item : Item)
      → ((o : Item)
          → agrees strategy o
            ≡ (has_year o && (has_kind entry.kind o && is_strict p (trim_space name) o)))
      → choose_unique_match (exact_name_matches p items name entry.kind) entry.production_year
        ≡ some item
      → OnlyOne (agrees strategy) items item
        ⊎ (All (λ o. agrees strategy o ≡ false) items × OnlyOne (resembles name) items item)
  unfolding exact_name_matches resembles
  exact-IsOnly strategy name items item same h =
      let strict : Item → Bool = λ o. has_kind entry.kind o && is_strict p (trim_space name) o in
      let weak : Item → Bool = λ o. has_kind entry.kind o && is_portable p (trim_space name) o in
      elim (List-cases (filter strict items)) [
        | inl e ↦ inr (
          All-weaken (λ o. strict o ≡ false) (λ o. agrees strategy o ≡ false) items
              (λ o k. same o ∙ ground (arith, k)) (none_pass strict items e),
          chosen-OnlyOne weak (resembles name) items item (λ o. refl)
              (ap (λ xs. choose_unique_match xs entry.production_year)
                  (sym (filled-nil (filter strict items) (filter weak items) e))
                ∙ h),
        )
        | inr (x, xs, e) ↦ inl (
            chosen-OnlyOne strict (agrees strategy) items item same (
              ap (λ l. choose_unique_match l entry.production_year)
                (sym (filled-cons (filter strict items) (filter weak items) x xs e))
              ∙ h))
      ]

  pub season-OnlyOne :
      (items : List Item) (item : Item)
      → season_matches p entry items ≡ item ∷ []
      → OnlyOne (agrees season_parent) items item
  unfolding season_matches agrees
  season-OnlyOne items item =
      if_cases (λ l. l ≡ item ∷ [] → OnlyOne (agrees season_parent) items item) _ _ _
        (λ _ k. nil-OnlyOne (agrees season_parent) items item k)
        (λ _ k. filter-OnlyOne (agrees season_parent) items item k)

  pub episode-OnlyOne :
      (items : List Item) (item : Item)
      → episode_matches p entry items ≡ item ∷ []
      → OnlyOne (agrees episode_numbers) items item
  unfolding episode_matches agrees
  episode-OnlyOne items item =
      option_cases (λ l. l ≡ item ∷ [] → OnlyOne (agrees episode_numbers) items item)
        (episode_number p entry.index_number entry.parent_index_number entry.path entry.name) _ _
        (λ _ k. nil-OnlyOne (agrees episode_numbers) items item k)
        (λ source e k.
          filter-OnlyOne (agrees episode_numbers) items item
            (filter-cong (agrees episode_numbers) _ items (λ o. rw (e, agrees) refl) ∙ k))

  pub stem-OnlyOne :
      (items : List Item) (item : Item)
      → media_stem_matches (media_path_stem entry.path) entry.kind items ≡ item ∷ []
      → OnlyOne (agrees media_file) items item
  unfolding media_stem_matches agrees
  stem-OnlyOne items item h = filter-OnlyOne (agrees media_file) items item h
