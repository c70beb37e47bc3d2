-- ===== src/Storage/Safe.antt =====
-- internal/storage/manifest.go: what the text of a slug is.
use mathlib.Core.List.{reverse, reverse-cons, reverse-append}
use emby_migrator.Prelude.{
  ℕ, zero, suc, ◌≤◌, ◌≡◌, refl, sym, subst, ◌⊎◌, inl, inr, Bool, true, false, ◌&&◌, ◌||◌, [], ◌∷◌,
  ◌++◌, map, Text, codes, length, length-append, take, All, All-append, leb, ltb, if_cases,
  Bool-cases, arith,
}
use emby_migrator.Prelude.Strings.{trim_left, trim_func, trim_space}
use emby_migrator.Storage.Slug.{Letters, dash, is_dash, unknown, keeps, dashed, bounded, slug}

module _ (p : ℕ → Bool) where
  trim_left_drop : (c : ℕ) (s : Text) → p c ≡ true → trim_left p s ≡ trim_left p (c ∷ s)
  unfolding trim_left
  trim_left_drop c s e = ground (arith, e)

  trim_left_stop : (c : ℕ) (s : Text) → p c ≡ false → c ∷ s ≡ trim_left p (c ∷ s)
  unfolding trim_left
  trim_left_stop c s e = ground (arith, e)

  module _ (P : ℕ → Type 0) where
    All-trim_left : (s : Text) → All P s → All P (trim_left p s)
    unfolding trim_left
    All-trim_left [] h = tt
    All-trim_left (c ∷ s) h = elim (Bool-cases (p c)) [
      | inl e ↦ subst (All P) (trim_left_drop c s e) (All-trim_left s h.1)
      | inr e ↦ subst (All P) (trim_left_stop c s e) h
    ]

    All-reverse : (s : Text) → All P s → All P (reverse s)
    All-reverse [] h = tt
    All-reverse (c ∷ s) h =
        rw (reverse-cons c s) (All-append P (reverse s) (c ∷ []) (All-reverse s h.1) (h.0, tt))

    All-trim_func : (s : Text) → All P s → All P (trim_func p s)
    unfolding trim_func
    All-trim_func s h =
        All-reverse (trim_left p (reverse (trim_left p s))) (
          All-trim_left (reverse (trim_left p s)) (All-reverse (trim_left p s) (All-trim_left s h)))

  length-reverse : (s : Text) → length (reverse s) ≡ length s
  length-reverse [] = refl
  length-reverse (c ∷ s) =
      rw (reverse-cons c s) (omega (arith, length-append (reverse s) (c ∷ []), length-reverse s))

  length-trim_left : (s : Text) → length (trim_left p s) ≤ length s
  unfolding trim_left
  length-trim_left [] = omega arith
  length-trim_left (c ∷ s) = ground (arith, length-trim_left s)

  length-trim_func : (s : Text) → length (trim_func p s) ≤ length s
  unfolding trim_func
  length-trim_func s = omega (
    arith,
    length-reverse (trim_left p (reverse (trim_left p s))),
    length-trim_left (reverse (trim_left p s)),
    length-reverse (trim_left p s),
    length-trim_left s,
  )

  -- The text is not empty, and its first character is not to be trimmed.
  abbrev Begins : Text → Type 0
  Begins s = (c : ℕ) × (t : Text) × (s ≡ c ∷ t) × (p c ≡ false)

  trim_left-Begins : (s : Text) → (trim_left p s ≡ []) ⊎ Begins (trim_left p s)
  unfolding trim_left
  trim_left-Begins [] = inl refl
  trim_left-Begins (c ∷ s) = elim (Bool-cases (p c)) [
    | inl e ↦ subst (λ t. (t ≡ []) ⊎ Begins t) (trim_left_drop c s e) (trim_left-Begins s)
    | inr e ↦ inr (c, s, sym (trim_left_stop c s e), e)
  ]

  trim_left_last :
      (s : Text) (c : ℕ) → p c ≡ false → (t : Text) × (trim_left p (s ++ c ∷ []) ≡ t ++ c ∷ [])
  unfolding trim_left
  trim_left_last [] c h = ([], rw h refl)
  trim_left_last (d ∷ s) c h = elim (Bool-cases (p d)) [
    | inl e ↦ (let (t, k) = trim_left_last s c h in (t, rw e k))
    | inr e ↦ (d ∷ s, rw e refl)
  ]

  -- Trimming the end of a text that begins well leaves its first character.
  trim_right-Begins :
      (c : ℕ) (s : Text) → p c ≡ false → Begins (reverse (trim_left p (reverse (c ∷ s))))
  trim_right-Begins c s h =
      let (t, k) = trim_left_last (reverse s) c h in
      (c, reverse t, rw (reverse-cons c s) (rw k (reverse-append t (c ∷ []))), h)

  trim_func-Begins : (s : Text) → (trim_func p s ≡ []) ⊎ Begins (trim_func p s)
  unfolding trim_func
  trim_func-Begins s = elim (trim_left-Begins s) [
    | inl e ↦ inl (rw e refl)
    | inr (c, t, e, k) ↦
        inr (
          subst (λ u. Begins (reverse (trim_left p (reverse u)))) (sym e) (trim_right-Begins c t k))
  ]

  trim_func_of-Begins : (c : ℕ) (s : Text) → p c ≡ false → Begins (trim_func p (c ∷ s))
  unfolding trim_func
  trim_func_of-Begins c s h =
      subst (λ t. Begins (reverse (trim_left p (reverse t)))) (trim_left_stop c s h)
        (trim_right-Begins c s h)

All-take : (P : ℕ → Type 0) (n : ℕ) (s : Text) → All P s → All P (take n s)
All-take P zero s h = tt
All-take P (suc n) [] h = tt
All-take P (suc n) (c ∷ s) h = (h.0, All-take P n s h.1)

length-take : (n : ℕ) (s : Text) → length (take n s) ≤ n
length-take zero s = omega arith
length-take (suc n) [] = omega arith
length-take (suc n) (c ∷ s) = omega (arith, length-take n s)

-- What Unicode's tables say of the letters from a to z, and of the dash.
pub record IsUnicode (l : Letters) : Type 0 where
  pub latin : (c : ℕ) → leb b'a' c && leb c b'z' ≡ true → l.is_letter c ≡ true
  pub dash_is_none : keeps l dash ≡ false

module _ (l : Letters) where
  -- A letter, a digit or a dash: no separator of paths, and no dot.
  abbrev pub IsAllowed : ℕ → Type 0
  IsAllowed r = keeps l r || is_dash r ≡ true

  -- A name of a file: letters, digits and dashes, the first of which is not a dash.
  pub record IsFileName (bound : ℕ) (s : Text) : Type 0 where
    pub allowed : All IsAllowed s
    pub begins : (c : ℕ) × (t : Text) × (s ≡ c ∷ t) × (keeps l c ≡ true)
    pub short : length s ≤ bound

  dashed_keep :
      (b : Bool) (r : ℕ) (s : Text) → keeps l r ≡ true → r ∷ dashed l false s ≡ dashed l b (r ∷ s)
  unfolding dashed
  dashed_keep b r s e = ground (arith, e)

  dashed_skip : (r : ℕ) (s : Text) → keeps l r ≡ false → dashed l true s ≡ dashed l true (r ∷ s)
  unfolding dashed
  dashed_skip r s e = ground (arith, e)

  dashed_mark :
      (r : ℕ) (s : Text) → keeps l r ≡ false → dash ∷ dashed l true s ≡ dashed l false (r ∷ s)
  unfolding dashed
  dashed_mark r s e = ground (arith, e)

  All-dashed : (last_dash : Bool) (s : Text) → All IsAllowed (dashed l last_dash s)
  unfolding dashed
  All-dashed last_dash [] = tt
  All-dashed true (r ∷ s) = elim (Bool-cases (keeps l r)) [
    | inl e ↦ subst (All IsAllowed) (dashed_keep true r s e) (ground (arith, e), All-dashed false s)
    | inr e ↦ subst (All IsAllowed) (dashed_skip r s e) (All-dashed true s)
  ]
  All-dashed false (r ∷ s) = elim (Bool-cases (keeps l r)) [
    | inl e ↦
        subst (All IsAllowed) (dashed_keep false r s e) (ground (arith, e), All-dashed false s)
    | inr e ↦ subst (All IsAllowed) (dashed_mark r s e) (ground arith, All-dashed true s)
  ]

  allowed-Begins :
      (s : Text)
      → All IsAllowed s
      → Begins is_dash s
      → (c : ℕ) × (t : Text) × (s ≡ c ∷ t) × (keeps l c ≡ true)
  allowed-Begins s h (c, t, e, k) =
      let a : IsAllowed c = (subst (All IsAllowed) e h).0 in (c, t, e, ground arith)

  latin_keeps : IsUnicode l → (c : ℕ) → leb b'a' c && leb c b'z' ≡ true → keeps l c ≡ true
  latin_keeps u c h = ground (arith, u.latin c h)

  unknown-IsFileName : IsUnicode l → IsFileName 120 unknown
  unknown-IsFileName u = record {
    allowed = (
      a 117 refl,
      (a 110 refl, (a 107 refl, (a 110 refl, (a 111 refl, (a 119 refl, (a 110 refl, tt)))))),
    );
    begins = (117, codes "nknown", refl, latin_keeps u 117 refl);
    short = omega arith;
  }
    where
      a : (c : ℕ) → leb b'a' c && leb c b'z' ≡ true → IsAllowed c
      a c h = let k = latin_keeps u c h in ground (arith, k)

  cut-IsFileName :
      (c : ℕ) (t : Text)
      → All IsAllowed (c ∷ t)
      → is_dash c ≡ false
      → IsFileName 120 (bounded l (c ∷ t))
  cut-IsFileName c t h k =
      if_cases (IsFileName 120) (ltb 120 (length (c ∷ t))) _ _
        (λ _. record {
          allowed =
              All-trim_func is_dash IsAllowed (take 120 (c ∷ t)) (All-take IsAllowed 120 (c ∷ t) h);
          begins =
              allowed-Begins (trim_func is_dash (take 120 (c ∷ t)))
                (All-trim_func is_dash IsAllowed (take 120 (c ∷ t))
                  (All-take IsAllowed 120 (c ∷ t) h))
                (trim_func_of-Begins is_dash c (take 119 t) k);
          short =
              omega (arith, length-trim_func is_dash (take 120 (c ∷ t)), length-take 120 (c ∷ t));
        })
        (λ e. record {
          allowed = h;
          begins = (c, t, refl, ground (arith, h.0));
          short = ground arith;
        })

  bounded-IsFileName :
      IsUnicode l → (s : Text) → All IsAllowed s → IsFileName 120 (bounded l (trim_func is_dash s))
  bounded-IsFileName u s h =
      let out = trim_func is_dash s in
      let fine : All IsAllowed out = All-trim_func is_dash IsAllowed s h in
      elim (trim_func-Begins is_dash s) [
        | inl e ↦ subst (λ t. IsFileName 120 (bounded l t)) (sym e) (unknown-IsFileName u)
        | inr (c, t, e, k) ↦
            subst (λ u. IsFileName 120 (bounded l u)) (sym e)
              (cut-IsFileName c t (subst (All IsAllowed) e fine) k)
      ]

  -- A slug is a name of at most 120 letters, digits and dashes, the first not a dash.
  pub slug-IsFileName : IsUnicode l → (value : Text) → IsFileName 120 (slug l value)
  unfolding slug
  slug-IsFileName u value =
      bounded-IsFileName u (dashed l false (trim_space (map l.lower value)))
        (All-dashed false (trim_space (map l.lower value)))
