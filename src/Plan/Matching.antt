-- ===== src/Plan/Matching.antt =====
-- internal/exporter/media_database_plan.go: sources that pass the comparison are matched one to one.
use emby_migrator.Prelude.{
  ℕ, zero, suc, ◌≡◌, ◌⊎◌, refl, sym, ap, ◌∙◌, none, All, Text, text_eq→eq, contains, Bool, true,
  false, not, ◌&&◌, some, List, [], ◌∷◌, map, get_elem?, Bool-cases, Option-cases, inl, inr, arith,
}
use emby_migrator.Plan.Readback.{
  Deep, Value, null, number, text, other, Fields, source_exclusions, field, field_agrees, is_null,
  media_readback_values_equal, fold_media_readback_map, verify_media_readback_maps, match_source,
  match_sources, verify_media_database_sources,
}
use emby_migrator.Plan.Binding.{seen_before}

abbrev pub flag_at : List Bool → ℕ → Bool
flag_at [] i = true
flag_at (b ∷ bs) zero = b
flag_at (b ∷ bs) (suc i) = flag_at bs i

module _ (d : Deep) where
  -- Two values of which one is read as the other.
  abbrev AreSame : Value d → Value d → Type 0
  AreSame (number x) (number y) = d.float_eq x y ≡ true
  AreSame (other x) (other y) = d.deep_equal x y ≡ true
  AreSame v w = v ≡ w

  -- The field of the plan is one that servers choose themselves, has no value, is not shown by the server,
  -- or is shown with the same value.
  abbrev pub IsKept : Fields d → Text × Value d → Type 0
  IsKept shown (key, value) =
      (contains source_exclusions key ≡ true)
      ⊎ (value ≡ null)
      ⊎ (field d shown key ≡ none)
      ⊎ ((v : Value d) × (field d shown key ≡ some v) × AreSame value v)

  -- At a place is a source that keeps every field.
  abbrev pub Agrees : Fields d → List (Fields d) → ℕ → Type 0
  Agrees source actual i =
      (c : Fields d) × (get_elem? actual i ≡ some c)
      × All (IsKept (fold_media_readback_map d c)) (fold_media_readback_map d source)

  values-AreSame : (v w : Value d) → media_readback_values_equal d v w ≡ true → AreSame v w
  unfolding media_readback_values_equal
  values-AreSame null null h = refl
  values-AreSame (number x) (number y) h = h
  values-AreSame (text s) (text t) h = ap text (text_eq→eq s t h)
  values-AreSame (other x) (other y) h = h
  values-AreSame _ _ h = absurd (cc)

  null-eq : (v : Value d) → is_null d v ≡ true → v ≡ null
  null-eq null h = refl
  null-eq (number x) h = absurd (cc)
  null-eq (text s) h = absurd (cc)
  null-eq (other x) h = absurd (cc)

  field_agrees-IsKept :
      (shown : Fields d) (key : Text) (value : Value d)
      → field_agrees d source_exclusions shown key value ≡ true
      → IsKept shown (key, value)
  unfolding field_agrees
  field_agrees-IsKept shown key value h = elim (Bool-cases (contains source_exclusions key)) [
    | inl e ↦ inl e
    | inr e ↦ elim (Bool-cases (is_null d value)) [
      | inl f ↦ inr (inl (null-eq value f))
      | inr f ↦ elim (Option-cases (field d shown key)) [
        | inl g ↦ inr (inr (inl g))
        | inr (v, g) ↦ inr (inr (inr (v, g, values-AreSame value v (ground (arith, h, e, f, g)))))
      ]
    ]
  ]

  maps-IsKept :
      (planned shown : Fields d)
      → verify_media_readback_maps d source_exclusions planned shown ≡ true
      → All (IsKept shown) planned
  unfolding verify_media_readback_maps
  maps-IsKept [] shown h = tt
  maps-IsKept ((key, value) ∷ planned) shown h = (
    field_agrees-IsKept shown key value (ground (arith, h)),
    maps-IsKept planned shown (ground (arith, h)),
  )

  -- Each source agrees with one at a place of its own, which is none of those used.
  abbrev pub AreMatched : List (Fields d) → List (Fields d) → List ℕ → Type 0
  AreMatched [] actual used = Unit
  AreMatched (source ∷ planned) actual used =
      (i : ℕ) × (seen_before used i ≡ false)
      × Agrees source actual i
      × AreMatched planned actual (i ∷ used)

  first_place :
      (b : Bool) (c : Fields d) (matched flags : List Bool)
      → (b ≡ false) × (flags ≡ true ∷ matched)
      → (j : ℕ) → flag_at flags j ≡ false
      → (flag_at (b ∷ matched) j ≡ false) × (zero ≡ j → ⊥)
  first_place b c matched flags (e, f) zero h = absurd (cc)
  first_place b c matched flags (e, f) (suc j) h =
      (ap (λ bs. flag_at bs (suc j)) (sym f) ∙ h, λ z. omega arith)

  later_place :
      (b : Bool) (i : ℕ) (matched rest flags : List Bool)
      → flags ≡ b ∷ rest
      → ((j : ℕ) → flag_at rest j ≡ false → (flag_at matched j ≡ false) × (i ≡ j → ⊥))
      → (j : ℕ) → flag_at flags j ≡ false
      → (flag_at (b ∷ matched) j ≡ false) × (suc i ≡ j → ⊥)
  later_place b i matched rest flags f k zero h =
      (ap (λ bs. flag_at bs zero) (sym f) ∙ h, λ z. omega arith)
  later_place b i matched rest flags f k (suc j) h =
      let (free, differs) = k j (ap (λ bs. flag_at bs (suc j)) (sym f) ∙ h) in
      (free, λ z. differs (omega arith))

  match_source_place :
      (source : Fields d) (actual : List (Fields d)) (matched flags : List Bool)
      → match_source d (fold_media_readback_map d source) actual matched ≡ some flags
      → (i : ℕ) × (flag_at matched i ≡ false)
        × Agrees source actual i
        × ((j : ℕ) → flag_at flags j ≡ false → (flag_at matched j ≡ false) × (i ≡ j → ⊥))
  unfolding match_source
  match_source_place source [] matched flags h = absurd (ground arith)
  match_source_place source (c ∷ actual) [] flags h = absurd (ground arith)
  match_source_place source (c ∷ actual) (b ∷ matched) flags h =
      let folded = fold_media_readback_map d source in
      elim (Bool-cases (
        not b
        && verify_media_readback_maps d source_exclusions folded (fold_media_readback_map d c))) [
          | inl e ↦ (
            zero,
            ground arith,
            (c, refl, maps-IsKept folded (fold_media_readback_map d c) (ground (arith, e))),
            first_place b c matched flags (ground arith),
          )
          | inr e ↦ elim (Option-cases (match_source d folded actual matched)) [
            | inl f ↦ absurd (ground arith)
            | inr (rest, f) ↦
                (let (i, free, agrees, keeps) = match_source_place source actual matched rest f in
                  (suc i, free, agrees, later_place b i matched rest flags (ground arith) keeps))
          ]
        ]

  match_sources-AreMatched :
      (planned actual : List (Fields d)) (matched : List Bool) (used : List ℕ)
      → ((j : ℕ) → flag_at matched j ≡ false → seen_before used j ≡ false)
      → match_sources d planned actual matched ≡ true
      → AreMatched planned actual used
  unfolding match_sources seen_before
  match_sources-AreMatched [] actual matched used k h = tt
  match_sources-AreMatched (source ∷ planned) actual matched used k h =
      elim (Option-cases (match_source d (fold_media_readback_map d source) actual matched)) [
        | inl e ↦ absurd (ground arith)
        | inr (flags, e) ↦
            (let (i, free, agrees, keeps) = match_source_place source actual matched flags e in
              (
                i,
                k i free,
                agrees,
                match_sources-AreMatched planned actual flags (i ∷ used)
                    (λ j f. ground (arith, k j, keeps j f)) (ground arith),
              ))
      ]

  -- If the check of the sources passes, each planned source has a source of its own that the server
  -- shows: every field of the plan has the same value there, unless it is one that servers choose
  -- themselves, has no value in the plan, or is not shown at all.
  pub verified_sources_match :
      (planned actual : List (Fields d))
      → verify_media_database_sources d planned actual ≡ true
      → AreMatched planned actual []
  unfolding verify_media_database_sources seen_before
  verified_sources_match [] actual h = tt
  verified_sources_match (source ∷ planned) actual h =
      match_sources-AreMatched (source ∷ planned) actual (map (λ x. false) actual) [] (λ j e. refl)
        (ground arith)
