-- ===== src/Match/Sound.antt =====
-- internal/exporter/service.go: an item is matched only where the search leaves one candidate.
use emby_migrator.Prelude.{
  ℕ, ◌≡◌, inl, inr, refl, subst, ◌∙◌, true, not, ◌&&◌, ◌||◌, some, List, [], ◌∷◌, Text, codes,
  text_eq, if_keeps, option_cases, arith,
}
use emby_migrator.Prelude.Strings.{trim_space, is_empty}
use emby_migrator.Match.Types.{Item, Sought, Patterns, Client}
use emby_migrator.Match.Names.{
  media_path_stem, search_prefix, media_stem_matches, exact_name_matches, original_title_matches,
  choose_unique_match, short_name,
}
use emby_migrator.Match.Numbers.{episode_matches, season_matches, season_search_terms}
use emby_migrator.Match.Filters.{filter-OnlyOne, filter-true}
use emby_migrator.Match.Find.{
  Strategy, season_parent, media_file, provider_id, episode_numbers, name_exact, short_name_exact,
  by_original_title, Reason, Pending, Progress, settled, pending, matched, one_of, by_stem,
  by_providers, by_episode, by_season_terms, by_season, by_exact_name, by_name, among,
  by_short_name, by_title, finish, start, find_match, provider_ids_for_search,
}
use emby_migrator.Match.Justified.{
  IsJust, next-IsJust, one_of-IsJust, chosen-IsJust, season-OnlyOne, episode-OnlyOne, stem-OnlyOne,
  exact-IsOnly, chosen-OnlyOne, agrees, IsOnly, Justified,
}

module _ (p : Patterns) (client : Client) (entry : Sought) where
  -- Each step keeps what it settles on justified.
  searched :
      (strategy : Strategy) (reason : Reason) (term kind : Text) (limit : ℕ)
      (items matches : List Item) (s : Pending)
      → client.search_items term kind limit ≡ some items
      → ((item : Item) → matches ≡ item ∷ [] → IsOnly p client entry strategy items item)
      → IsJust p client entry (one_of strategy reason matches s)
  searched strategy reason term kind limit items matches s e only =
      one_of-IsJust p client entry strategy reason matches s
        (λ item h. (items, inl (term, kind, limit, e), only item h))

  stem-IsJust : (s : Pending) → IsJust p client entry (by_stem p client entry s)
  unfolding by_stem
  stem-IsJust s =
      let stem = media_path_stem entry.path in
      if_keeps (IsJust p client entry) (is_empty stem) _ _ tt (
        option_cases (IsJust p client entry)
          (client.search_items (search_prefix stem 30) entry.kind 50) _ _ (λ _. tt)
          (λ items e.
            if_keeps (IsJust p client entry) (text_eq entry.kind (codes "Season")) _ _
              (searched season_parent _ _ _ _ items (season_matches p entry items) s e
                (season-OnlyOne p client entry items))
              (searched media_file _ _ _ _ items (media_stem_matches stem entry.kind items) s e
                (stem-OnlyOne p client entry items))))

  providers-IsJust :
      (values : List Text) (s : Pending)
      → IsJust p client entry (by_providers p client entry values s)
  unfolding by_providers agrees
  providers-IsJust [] s = tt
  providers-IsJust (value ∷ values) s =
      next-IsJust p client entry (by_providers p client entry values) _
        (option_cases (IsJust p client entry) (client.items_by_provider_id value) _ _ (λ _. tt)
          (λ items e. one_of-IsJust p client entry provider_id _ items s (λ item h. (
            items,
            inr (value, e),
            filter-OnlyOne (λ _. true) items item (filter-true (λ _. true) items (λ _. refl) ∙ h),
          ))))
        (λ t. providers-IsJust values t)

  episode-IsJust : (s : Pending) → IsJust p client entry (by_episode p client entry s)
  unfolding by_episode
  episode-IsJust s =
      if_keeps (IsJust p client entry)
        (text_eq entry.kind (codes "Episode") && not (is_empty entry.series_name)) _ _
        (option_cases (IsJust p client entry)
          (client.search_items entry.series_name (codes "Episode") 300) _ _ (λ _. tt)
          (λ items e.
            searched episode_numbers _ _ _ _ items (episode_matches p entry items) s e
              (episode-OnlyOne p client entry items)))
        tt

  seasons-IsJust :
      (terms : List Text) (s : Pending)
      → IsJust p client entry (by_season_terms p client entry terms s)
  unfolding by_season_terms
  seasons-IsJust [] s = tt
  seasons-IsJust (term ∷ terms) s =
      next-IsJust p client entry (by_season_terms p client entry terms) _
        (option_cases (IsJust p client entry) (client.search_items term (codes "Season") 300) _ _
          (λ _. tt)
          (λ items e.
            searched season_parent _ _ _ _ items (season_matches p entry items) s e
              (season-OnlyOne p client entry items)))
        (λ t. seasons-IsJust terms t)

  season-IsJust : (s : Pending) → IsJust p client entry (by_season p client entry s)
  unfolding by_season
  season-IsJust s =
      if_keeps (IsJust p client entry) (text_eq entry.kind (codes "Season")) _ _
        (seasons-IsJust (season_search_terms p entry) s) tt

  name-IsJust : (s : Pending) → IsJust p client entry (by_name p client entry s)
  unfolding by_name by_exact_name agrees
  name-IsJust s = if_keeps (IsJust p client entry) (is_empty (trim_space entry.name)) _ _ tt (
      option_cases (IsJust p client entry) (client.search_items entry.name entry.kind 20) _ _
        (λ _. tt)
        (λ items e.
          next-IsJust p client entry (by_exact_name p client entry items) _
            (if_keeps (IsJust p client entry) (text_eq entry.kind (codes "Episode")) _ _
              (searched episode_numbers _ _ _ _ items (episode_matches p entry items) s e
                (episode-OnlyOne p client entry items))
              tt)
            (λ t.
              next-IsJust p client entry _ _
                (chosen-IsJust p client entry name_exact _ t (λ item h. (
                  items,
                  inl (_, _, _, e),
                  exact-IsOnly p client entry name_exact entry.name items item (λ _. refl) h,
                )))
                (λ _. tt))))

  -- The two last searches, which do nothing about an empty answer.
  among-IsJust :
      (strategy : Strategy) (reason more : Reason) (term kind : Text) (limit : ℕ)
      (exact : List Item → List Item) (items : List Item) (s : Pending)
      → client.search_items term kind limit ≡ some items
      → ((item : Item)
          → choose_unique_match (exact items) entry.production_year ≡ some item
          → IsOnly p client entry strategy items item)
      → IsJust p client entry (elim items [
        | [] ↦ pending s
        | item ∷ rest ↦
            among p client entry strategy reason more (item ∷ rest) (exact (item ∷ rest)) s
      ])
  unfolding among
  among-IsJust strategy reason more term kind limit exact [] s e only = tt
  among-IsJust strategy reason more term kind limit exact (x ∷ items) s e only =
      next-IsJust p client entry _ _
        (chosen-IsJust p client entry strategy _ s
          (λ item h. (x ∷ items, inl (term, kind, limit, e), only item h)))
        (λ _. tt)

  short-IsJust : (s : Pending) → IsJust p client entry (by_short_name p client entry s)
  unfolding by_short_name agrees
  short-IsJust s =
      if_keeps (IsJust p client entry)
        (is_empty (short_name p entry.name) || text_eq (short_name p entry.name) entry.name) _ _ tt
        (option_cases (IsJust p client entry)
          (client.search_items (short_name p entry.name) entry.kind 20) _ _ (λ _. tt)
          (λ items e.
            among-IsJust short_name_exact _ _ _ _ _
              (λ l. exact_name_matches p l (short_name p entry.name) entry.kind) items s e
              (λ item h.
                exact-IsOnly p client entry short_name_exact (short_name p entry.name) items item
                  (λ _. refl) h)))

  title-IsJust : (s : Pending) → IsJust p client entry (by_title p client entry s)
  unfolding by_title original_title_matches agrees
  title-IsJust s =
      if_keeps (IsJust p client entry)
        (is_empty entry.original_title || text_eq entry.original_title entry.name) _ _ tt
        (option_cases (IsJust p client entry)
          (client.search_items entry.original_title entry.kind 20) _ _ (λ _. tt)
          (λ items e.
            among-IsJust by_original_title _ _ _ _ _
              (λ l. original_title_matches l entry.original_title entry.kind) items s e
              (λ item h.
                chosen-OnlyOne p client entry _ (agrees p client entry by_original_title) items item
                  (λ _. refl) h)))

  finish-IsJust :
      (q : Progress) (item : Item) (strategy : Strategy)
      → IsJust p client entry q
      → finish p client entry q ≡ matched item strategy
      → Justified p client entry strategy item
  unfolding finish
  finish-IsJust (settled x way) item strategy j h =
      let (e, f) : (x ≡ item) × (way ≡ strategy) = (ground (arith, h), ground (arith, h)) in
      subst (λ y. Justified p client entry strategy y) e
        (subst (λ w. Justified p client entry w x) f j)
  finish-IsJust (pending s) item strategy j h = absurd (ground (arith, h))

  -- An item is matched only where some search answered with a list in which it is the one item that
  -- passes the test of the strategy it is said to be found by.
  pub match_sound :
      (item : Item) (strategy : Strategy)
      → find_match p client entry ≡ matched item strategy
      → Justified p client entry strategy item
  unfolding find_match
  match_sound item strategy h =
      let ids = provider_ids_for_search entry.provider_ids in
      finish-IsJust _ item strategy
        (next-IsJust p client entry _ _
          (next-IsJust p client entry _ _
            (next-IsJust p client entry _ _
              (next-IsJust p client entry _ _
                (next-IsJust p client entry _ _
                  (next-IsJust p client entry _ _ (stem-IsJust (start p client entry))
                    (providers-IsJust ids))
                  episode-IsJust)
                season-IsJust)
              name-IsJust)
            short-IsJust)
          title-IsJust)
        h
