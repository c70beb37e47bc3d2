-- ===== src/Import/Fields.antt =====
-- internal/exporter/service.go: the requests of `updateItemMetadata`.
use emby_migrator.Prelude.{
  ℕ, ◌≤◌, ◌≡◌, refl, ◌∙◌, Bool, true, false, not, none, List, [], ◌∷◌, ◌++◌, append_assoc, length,
  Text, codes, text_eq, not-false, if_cases, option_cases, if◌then◌else◌, All, arith,
}
use emby_migrator.Prelude.Result.{ok, result_cases}
use emby_migrator.Prelude.Strings.{to_lower, equal_fold}
use emby_migrator.Import.Payload.{
  Json, Raw, is_media_info_field, lookup, with_default, with_defaults, picked,
  compatibility_metadata_payload, payload_without_media_info, minimal_metadata_payload, Link, Write,
  put_item, put_image, Run, MetadataUpdate, update, gives_up, update_minimal, update_compatible,
  verify_media_info_write, update_item_metadata,
}

module _ (j : Json) where
  -- No entry is a technical field.
  abbrev pub IsPlain : Raw j → Type 0
  IsPlain raw = All (λ e. is_media_info_field e.0 ≡ false) raw

  append-IsPlain : (xs ys : Raw j) → IsPlain xs → IsPlain ys → IsPlain (xs ++ ys)
  append-IsPlain [] ys h k = k
  append-IsPlain (x ∷ xs) ys h k = (h.0, append-IsPlain xs ys h.1 k)

  with_default-IsPlain :
      (key : Text) (value : j.Value) (raw : Raw j)
      → is_media_info_field key ≡ false
      → IsPlain raw
      → IsPlain (with_default j key value raw)
  with_default-IsPlain key value raw is h =
      option_cases IsPlain (lookup j raw key) _ _
        (λ _. append-IsPlain raw ((key, value) ∷ []) h (is, tt)) (λ _ _. h)

  with_defaults-IsPlain : (raw : Raw j) → IsPlain raw → IsPlain (with_defaults j raw)
  unfolding equal_fold to_lower text_eq
  with_defaults-IsPlain raw h =
      with_default-IsPlain (codes "ProviderIds") _ _ refl
        (with_default-IsPlain (codes "Source") _ raw refl h)

  without-IsPlain : (raw : Raw j) → IsPlain (payload_without_media_info j raw)
  unfolding payload_without_media_info
  without-IsPlain [] = tt
  without-IsPlain (e ∷ raw) =
      if_cases IsPlain (not (is_media_info_field e.0)) _ _
        (λ b. (ground (arith, b), without-IsPlain raw)) (λ _. without-IsPlain raw)

  picked-IsPlain :
      (raw : Raw j) (keys : List Text)
      → All (λ key. is_media_info_field key ≡ false) keys
      → IsPlain (picked j raw keys)
  picked-IsPlain raw [] h = tt
  picked-IsPlain raw (key ∷ keys) h =
      option_cases IsPlain (lookup j raw key) _ _ (λ _. picked-IsPlain raw keys h.1)
        (λ v _.
          if_cases IsPlain (j.is_null v) _ _ (λ _. picked-IsPlain raw keys h.1)
            (λ _. (h.0, picked-IsPlain raw keys h.1)))

  minimal-IsPlain : (raw : Raw j) → IsPlain (minimal_metadata_payload j raw)
  unfolding minimal_metadata_payload equal_fold to_lower text_eq
  minimal-IsPlain raw =
      let keys : List Text =
        codes "Id" ∷ codes "Type" ∷ codes "Name" ∷ codes "Source" ∷ codes "ProviderIds" ∷ [] in
      let are : All (λ key. is_media_info_field key ≡ false) keys =
        (refl, (refl, (refl, (refl, (refl, tt))))) in
      with_defaults-IsPlain _ (picked-IsPlain raw keys are)

  -- The write of an item, of its own fields alone where the technical ones were to be written too.
  abbrev pub IsSimpler : Text → Bool → Write j → Type 0
  IsSimpler id included (put_item i raw) = (i ≡ id) × (included ≡ true → IsPlain raw)
  IsSimpler id included (put_image i kind content) = ⊥

module _ (j : Json) {W : Type 0} (link : Link j W) where
  -- At most so many more requests, each of them simpler, and no technical information that counts as written.
  abbrev IsTried : ℕ → Text → Bool → Run j W → MetadataUpdate × Run j W → Type 0
  IsTried limit id included r (result, after) =
      (rest : List (Write j)) × (after.writes ≡ r.writes ++ rest)
      × (length rest ≤ limit)
      × All (IsSimpler j id included) rest
      × (result.media_info_updated ≡ false)

  update_minimal-IsTried :
      (id : Text) (raw : Raw j) (included : Bool) (r : Run j W)
      → IsTried 1 id included r (update_minimal j link id raw included r)
  unfolding update_minimal update
  update_minimal-IsTried id raw true r = (
    put_item id (minimal_metadata_payload j raw) ∷ [],
    refl,
    omega arith,
    ((refl, λ _. minimal-IsPlain j raw), tt),
    refl,
  )
  update_minimal-IsTried id raw false r = (
    put_item id (minimal_metadata_payload j raw) ∷ [],
    refl,
    omega arith,
    ((refl, λ _. minimal-IsPlain j raw), tt),
    refl,
  )

  -- The object of the second request.
  abbrev compatible : Raw j → Bool → Raw j
  compatible raw included =
      let c = compatibility_metadata_payload j raw in
      if included then payload_without_media_info j c else c

  compatible-IsSimpler :
      (id : Text) (raw : Raw j) (included : Bool)
      → IsSimpler j id included (put_item id (compatible raw included))
  compatible-IsSimpler id raw true =
      (refl, λ _. without-IsPlain j (compatibility_metadata_payload j raw))
  compatible-IsSimpler id raw false = (refl, λ h. absurd (cc))

  update_compatible-IsTried :
      (id : Text) (raw : Raw j) (included : Bool) (r : Run j W)
      → IsTried 2 id included r (update_compatible j link id raw included r)
  unfolding update_compatible update
  update_compatible-IsTried id raw included r =
      let first : Write j = put_item id (compatible raw included) in
      let r1 = (update j link id (compatible raw included) r).1 in
      let Goal : MetadataUpdate × Run j W → Type 0 = IsTried 2 id included r in
      let simpler = compatible-IsSimpler id raw included in
      option_cases Goal (update j link id (compatible raw included) r).0 _ _
        (λ _. (
          first ∷ [],
          refl,
          omega arith,
          (simpler, tt),
          if_cases (λ (x : MetadataUpdate). x.media_info_updated ≡ false) included _ _ (λ _. refl)
              (λ _. refl),
        ))
        (λ err _.
          if_cases Goal (gives_up j link included err r1) _ _
            (λ _. (first ∷ [], refl, omega arith, (simpler, tt), refl))
            (λ _.
              let (rest, made, short, are, not_updated) =
                update_minimal-IsTried id raw included r1 in
              (
                first ∷ rest,
                made ∙ append_assoc r.writes (first ∷ []) rest,
                omega (arith, short),
                (simpler, are),
                not_updated,
              )))

  -- The call with the whole item succeeds, and the item that the server answers afterwards has the
  -- technical fields that are expected.
  abbrev pub IsShown : Text → Raw j → Raw j → W → Type 0
  IsShown id raw expected w =
      let (answer, written) = link.update_item id raw w in
      (answer ≡ none)
      × ((i : Text) × (seen : Raw j) × ((link.item id written).0 ≡ ok (i, seen))
          × (j.payload_contains (j.shown seen) expected ≡ true))

  verified-IsShown :
      (id : Text) (raw expected : Raw j) (r : Run j W)
      → (link.update_item id raw r.world).0 ≡ none
      → (verify_media_info_write j link id expected (update j link id raw r).1).0 ≡ true
      → IsShown id raw expected r.world
  unfolding verify_media_info_write update
  verified-IsShown id raw expected r taken =
      result_cases (λ b. b ≡ true → IsShown id raw expected r.world)
        (link.item id (link.update_item id raw r.world).1).0 _ _
        (λ _ _ (h : false ≡ true). absurd (cc)) (λ (i, seen) e h. (taken, (i, seen, e, h)))

  -- The whole item is what the first call sends; at most two more calls follow, without the technical
  -- fields if these were to be written. They count as written only where the first call succeeded and was
  -- the only one, no error is returned, and the item that the server answers afterwards has the expected
  -- fields. A call is one of retryWithTimeout, which may send its request several times.
  pub update_item_metadata-IsSimpler :
      (id : Text) (raw : Raw j) (included : Bool) (expected : Raw j) (r : Run j W)
      → let (result, after) = update_item_metadata j link id raw included expected r in
        (rest : List (Write j)) × (after.writes ≡ r.writes ++ put_item id raw ∷ rest)
        × (length rest ≤ 2)
        × All (IsSimpler j id included) rest
        × (result.media_info_updated ≡ true
            → (included ≡ true)
              × (rest ≡ [])
              × (result.err ≡ none)
              × IsShown id raw expected r.world)
  unfolding update_item_metadata update verify_media_info_write
  update_item_metadata-IsSimpler id raw included expected r =
      let first : Write j = put_item id raw in
      let r1 = (update j link id raw r).1 in
      let shows = (verify_media_info_write j link id expected r1).0 in
      let Goal : MetadataUpdate × Run j W → Type 0 = λ (result, after).
        (rest : List (Write j)) × (after.writes ≡ r.writes ++ first ∷ rest)
        × (length rest ≤ 2)
        × All (IsSimpler j id included) rest
        × (result.media_info_updated ≡ true
            → (included ≡ true)
              × (rest ≡ [])
              × (result.err ≡ none)
              × IsShown id raw expected r.world) in
      option_cases Goal (update j link id raw r).0 _ _
        (λ taken.
          if_cases Goal (not included) _ _
            (λ _. ([], refl, omega arith, tt, λ (h : false ≡ true). absurd (cc)))
            (λ b. (
              [],
              refl,
              omega arith,
              tt,
              if_cases
                  (λ (x : MetadataUpdate).
                    x.media_info_updated ≡ true
                    → (included ≡ true)
                      × (◌≡◌ {A = List (Write j)} [] [])
                      × (x.err ≡ none)
                      × IsShown id raw expected r.world)
                  shows _ _
                  (λ s _.
                    (not-false included b, refl, refl, verified-IsShown id raw expected r taken s))
                  (λ _ (h : false ≡ true). absurd (cc)),
            )))
        (λ err _.
          if_cases Goal (gives_up j link included err r1) _ _
            (λ _. ([], refl, omega arith, tt, λ (h : false ≡ true). absurd (cc)))
            (λ _.
              let (rest, made, short, are, not_updated) =
                update_compatible-IsTried id raw included r1 in
              (
                rest,
                made ∙ append_assoc r.writes (first ∷ []) rest,
                short,
                are,
                λ h. absurd (ground (arith, h, not_updated)),
              )))
