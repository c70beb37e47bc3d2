-- ===== src/Match/Filters.antt =====
-- Lists of items, filtered: when a filter leaves one item.
use emby_migrator.Prelude.{
  ◌≡◌, ◌⊎◌, inl, inr, refl, sym, ap, ap₂, ◌∙◌, Bool, true, false, ◌&&◌, none, some, List, [], ◌∷◌,
  filter, All, Bool-cases, if◌then◌else◌, arith,
}
use emby_migrator.Match.Types.{Item}

-- The item is in the list.
abbrev pub Has : Item → List Item → Type 0
Has item [] = ⊥
Has item (x ∷ xs) = (item ≡ x) ⊎ Has item xs

-- It passes the test, and no other item of the list does.
abbrev pub OnlyOne : (Item → Bool) → List Item → Item → Type 0
OnlyOne test items item =
    Has item items × (test item ≡ true) × All (λ o. test o ≡ true → o ≡ item) items

pub none_pass :
    (test : Item → Bool) (items : List Item)
    → filter test items ≡ []
    → All (λ o. test o ≡ false) items
none_pass test [] h = tt
none_pass test (x ∷ xs) h = elim (Bool-cases (test x)) [
  | inl e ↦ absurd (ground arith)
  | inr e ↦ (e, none_pass test xs (ground arith))
]

pub All-weaken :
    (P Q : Item → Type 0) (items : List Item) → ((o : Item) → P o → Q o) → All P items → All Q items
All-weaken P Q [] f h = tt
All-weaken P Q (x ∷ xs) f h = (f x h.0, All-weaken P Q xs f h.1)

pub filter-OnlyOne :
    (test : Item → Bool) (items : List Item) (item : Item)
    → filter test items ≡ item ∷ []
    → OnlyOne test items item
filter-OnlyOne test [] item h = absurd (ground arith)
filter-OnlyOne test (x ∷ xs) item h = elim (Bool-cases (test x)) [
  | inl e ↦
      (let same : x ≡ item = ground arith in
        (
          inl (sym same),
          ap test (sym same) ∙ e,
          (
            λ _. same,
            All-weaken _ (λ o. test o ≡ true → o ≡ item) xs (λ o f k. absurd (cc))
                (none_pass test xs (ground arith)),
          ),
        ))
  | inr e ↦
      (let (has, pass, only) = filter-OnlyOne test xs item (ground arith) in
        (inr has, pass, (λ k. absurd (cc), only)))
]

-- Nothing found is not one item.
pub nil-OnlyOne :
    (test : Item → Bool) (items : List Item) (item : Item)
    → [] ≡ item ∷ []
    → OnlyOne test items item
nil-OnlyOne test items item h = absurd (cc)

pub filter-filter :
    (f g : Item → Bool) (xs : List Item) → filter f (filter g xs) ≡ filter (λ x. f x && g x) xs
filter-filter f g [] = refl
filter-filter f g (x ∷ xs) = elim (Bool-cases (g x)) [
  | inl e ↦ elim (Bool-cases (f x)) [
    | inl d ↦ ground (arith, filter-filter f g xs)
    | inr d ↦ ground (arith, filter-filter f g xs)
  ]
  | inr e ↦ elim (Bool-cases (f x)) [
    | inl d ↦ ground (arith, filter-filter f g xs)
    | inr d ↦ ground (arith, filter-filter f g xs)
  ]
]

pub filter-cong :
    (f g : Item → Bool) (xs : List Item) → ((x : Item) → f x ≡ g x) → filter f xs ≡ filter g xs
filter-cong f g [] h = refl
filter-cong f g (x ∷ xs) h =
    ap₂ (λ b rest. if b then x ∷ rest else rest) (h x) (filter-cong f g xs h)

pub sole-eq :
    (xs : List Item) (item : Item)
    → elim xs [ [] ↦ none | x ∷ rest ↦ elim rest [ [] ↦ some x | _ ∷ _ ↦ none ] ] ≡ some item
    → xs ≡ item ∷ []
sole-eq [] item h = absurd (cc)
sole-eq (x ∷ []) item h = ground arith
sole-eq (x ∷ y ∷ xs) item h = absurd (cc)

pub List-cases : (xs : List Item) → (xs ≡ []) ⊎ ((x : Item) × (rest : List Item) × (xs ≡ x ∷ rest))
List-cases [] = inl refl
List-cases (x ∷ rest) = inr (x, rest, refl)

pub filter-true : (f : Item → Bool) (xs : List Item) → ((x : Item) → f x ≡ true) → filter f xs ≡ xs
filter-true f [] h = refl
filter-true f (x ∷ xs) h = rw (h x, filter-true f xs h) refl

-- The first list, or the second where that is empty.
pub filled-nil : (s w : List Item) → s ≡ [] → elim s [ [] ↦ w | item ∷ rest ↦ item ∷ rest ] ≡ w
filled-nil [] w e = refl
filled-nil (x ∷ s) w e = absurd (cc)

pub filled-cons :
    (s w : List Item) (x : Item) (xs : List Item)
    → s ≡ x ∷ xs
    → elim s [ [] ↦ w | item ∷ rest ↦ item ∷ rest ] ≡ s
filled-cons [] w x xs e = absurd (cc)
filled-cons (y ∷ s) w x xs e = refl
