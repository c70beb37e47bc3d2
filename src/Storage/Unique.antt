-- ===== src/Storage/Unique.antt =====
-- internal/storage/manifest.go: when the names that `UniqueSlug` gives out are different.
use emby_migrator.Prelude.{
  ℕ, zero, suc, ◌+◌, ◌≤◌, ◌<◌, ◌≡◌, ◌⊎◌, refl, sym, ap, ◌∙◌, true, false, some, List, [], ◌∷◌, ◌++◌,
  Text, text_eq, text_eq_iff, text_eq_refl, contains, length, length-append, if◌then◌else◌, ◌==◌,
  Bool-cases, inl, inr, arith,
}
use emby_migrator.Prelude.Decimal.{itoa, itoa-injective}
use emby_migrator.Storage.Slug.{
  Letters, dash, safe_name, numbered, unique_slug_counted, free_slug, unique_slug,
}

without : Text → List Text → List Text
without t [] = []
without t (s ∷ ss) = let rest = without t ss in if text_eq s t then rest else s ∷ rest

length-without-le : (t : Text) (ss : List Text) → length (without t ss) ≤ length ss
unfolding without
length-without-le t [] = omega arith
length-without-le t (s ∷ ss) = ground (arith, length-without-le t ss)

length-without-lt :
    (t : Text) (ss : List Text) → contains ss t ≡ true → length (without t ss) < length ss
unfolding without contains
length-without-lt t [] h = cc
length-without-lt t (s ∷ ss) h = ground (arith, length-without-lt t ss, length-without-le t ss)

contains-without :
    (t u : Text) (ss : List Text)
    → (t ≡ u → ⊥)
    → contains ss u ≡ true
    → contains (without t ss) u ≡ true
unfolding without contains
contains-without t u [] n h = cc
contains-without t u (s ∷ ss) n h =
    ground (arith, contains-without t u ss n, text_eq_iff s t, text_eq_iff s u)

behind : Text → Text → Text
behind [] t = t
behind (c ∷ s) [] = []
behind (c ∷ s) (d ∷ t) = behind s t

behind-append : (s t : Text) → behind s (s ++ t) ≡ t
unfolding behind
behind-append [] t = refl
behind-append (c ∷ s) t = behind-append s t

rest_of : Text → Text
rest_of [] = []
rest_of (c ∷ s) = s

module _ (l : Letters) where
  numbered-injective : (base : Text) (i j : ℕ) → numbered l base i ≡ numbered l base j → i ≡ j
  unfolding rest_of
  numbered-injective base i j e = itoa-injective i j (
      ap rest_of (
        sym (behind-append base (dash ∷ itoa i))
        ∙ ap (behind base) e
        ∙ behind-append base (dash ∷ itoa j)))

  -- Fuel beyond the number of names that can still be met is enough.
  free_slug_total :
      (used left : List Text) (base : Text) (fuel i : ℕ)
      → ((j : ℕ)
          → i ≤ j
          → contains used (numbered l base j) ≡ true
          → contains left (numbered l base j) ≡ true)
      → length left < fuel
      → (name : Text) × (free_slug l used base fuel i ≡ some name) × (contains used name ≡ false)
  unfolding free_slug
  free_slug_total used left base zero i h k = absurd (omega arith)
  free_slug_total used left base (suc fuel) i h k =
      elim (Bool-cases (contains used (numbered l base i))) [
        | inl e ↦
            (let fewer = length-without-lt (numbered l base i) left (h i (omega arith) e) in
              let (name, found, free) =
                free_slug_total used (without (numbered l base i) left) base fuel (suc i)
                  (λ j le m.
                    contains-without (numbered l base i) (numbered l base j) left
                      (λ q. ground (arith, numbered-injective base i j q)) (h j (omega arith) m))
                  (omega arith) in
              (name, rw e found, free))
        | inr e ↦ (numbered l base i, rw e refl, e)
      ]

  -- Over a map of the names in use, `UniqueSlug` always ends, gives a name that is not in use, and
  -- adds it; and the name is that of the value where that is free.
  pub unique_slug_total :
      (value : Text) (used : List Text)
      → (name : Text) × (unique_slug l value used ≡ some (name, name ∷ used))
        × (contains used name ≡ false)
        × ((name ≡ safe_name l value) ⊎ (contains used (safe_name l value) ≡ true))
  unfolding unique_slug
  unique_slug_total value used = elim (Bool-cases (contains used (safe_name l value))) [
    | inl e ↦
        (let (name, found, free) =
            free_slug_total used used (safe_name l value) (suc (length used)) 2 (λ j le m. m)
              (omega arith) in
          (name, rw (e, found) refl, free, inr e))
    | inr e ↦ (safe_name l value, rw e refl, e, inl refl)
  ]

  numbered-longer : (base : Text) (i : ℕ) → numbered l base i ≡ base → ⊥
  numbered-longer base i e =
      let k : length (base ++ dash ∷ itoa i) ≡ length base = ap length e in
      omega (arith, length-append base (dash ∷ itoa i))

  name_at_distinct :
      (base : Text) (m n : ℕ)
      → m < n
      → (if m == 0 then base else numbered l base (m + 1))
        ≡ (if n == 0 then base else numbered l base (n + 1))
      → ⊥
  name_at_distinct base m n lt e =
      ground (arith, numbered-longer base (n + 1), numbered-injective base (m + 1) (n + 1))

  -- Over a map of counts, two calls whose values have the same name get different names if the counts
  -- of that name differ; and a call raises the count of its own name, and of no other.
  pub counted_distinct :
      (v w : Text) (used later : Text → ℕ)
      → safe_name l v ≡ safe_name l w
      → used (safe_name l v) < later (safe_name l w)
      → ((unique_slug_counted l v used).0 ≡ (unique_slug_counted l w later).0 → ⊥)
        × ((k : Text) → used k ≤ (unique_slug_counted l v used).1 k)
        × (used (safe_name l v) < (unique_slug_counted l v used).1 (safe_name l v))
  unfolding unique_slug_counted
  counted_distinct v w used later same lt =
      let lt' : used (safe_name l w) < later (safe_name l w) = ground (arith, same, lt) in
      (
        rw same (λ e.
            name_at_distinct (safe_name l w) (used (safe_name l w)) (later (safe_name l w)) lt' e),
        λ k. ground (arith, text_eq_iff k (safe_name l v)),
        ground (arith, text_eq_iff (safe_name l v) (safe_name l v)),
      )

  -- Over a map of counts, the second of two values with one name gets the name that a third value has
  -- of its own: if the third is called like the first with "-2" behind it, then it gets the directory
  -- of the second.
  pub counted_collision :
      (v w : Text)
      → safe_name l w ≡ numbered l (safe_name l v) 2
      → (let first = unique_slug_counted l v (λ k. 0) in
          let second = unique_slug_counted l v first.1 in
          let third = unique_slug_counted l w second.1 in second.0 ≡ third.0)
  unfolding unique_slug_counted
  counted_collision v w e =
      let here : text_eq (safe_name l v) (safe_name l v) ≡ true = text_eq_refl (safe_name l v) in
      let other : text_eq (safe_name l w) (safe_name l v) ≡ false =
        ground
          (arith, text_eq_iff (safe_name l w) (safe_name l v), numbered-longer (safe_name l v) 2) in
      rw (here, other) (sym e)
