-- ===== src/Database/TableLaws.antt =====
-- internal/embydb/embydb.go: what the statements do to the rows of one item, and of the others.
use emby_migrator.Prelude.{
  inl, inr, ℕ, ◌≡◌, ◌≢◌, refl, sym, ap, ◌∙◌, Bool, true, false, none, some, List, [], ◌∷◌, ◌++◌,
  filter, Bool-cases, if_cases, option_cases, if◌then◌else◌, ◌==◌, All, arith,
}
use emby_migrator.Prelude.Result.{>>=-some, some_injective}
use emby_migrator.Prelude.Int.{int_eq_refl}
use emby_migrator.Database.Values.{Numbers}
use emby_migrator.Database.Tables.{
  Keep, ItemRow, Row, Summary, find_item, is_of, rows_of, delete_rows, has_key, select_row,
  summarized, update_item,
}

filter-append {ℓ} :
    {A : Type ℓ} (p : A → Bool) (xs ys : List A) → filter p (xs ++ ys) ≡ filter p xs ++ filter p ys
filter-append p [] ys = refl
filter-append p (x ∷ xs) ys = elim (Bool-cases (p x)) [
  | inl e ↦ rw (e, filter-append p xs ys) refl
  | inr e ↦ rw (e, filter-append p xs ys) refl
]

module _ {n : Numbers} where
  pub rows_of-append :
      (id : ℕ) (xs ys : List (Row n)) → rows_of id (xs ++ ys) ≡ rows_of id xs ++ rows_of id ys
  rows_of-append id xs ys = filter-append (is_of id) xs ys

  -- All rows are the item's.
  abbrev pub AllOf : ℕ → List (Row n) → Type 0
  AllOf id rows = All (λ row. row.item_id ≡ id) rows

  pub rows_of-all : (id : ℕ) (rows : List (Row n)) → AllOf id rows → rows_of id rows ≡ rows
  rows_of-all id [] h = refl
  rows_of-all id (row ∷ rows) h =
      let e : (row.item_id == id) ≡ true = ground (arith, h.0) in
      rw (e, rows_of-all id rows h.1) refl

  pub rows_of-others :
      (id other : ℕ) (rows : List (Row n)) → other ≢ id → AllOf id rows → rows_of other rows ≡ []
  rows_of-others id other [] ne h = refl
  rows_of-others id other (row ∷ rows) ne h =
      let e : (row.item_id == other) ≡ false = ground (arith, h.0, ne) in
      rw (e, rows_of-others id other rows ne h.1) refl

  pub rows_of-delete : (id : ℕ) (rows : List (Row n)) → rows_of id (delete_rows id rows) ≡ []
  unfolding delete_rows
  rows_of-delete id [] = refl
  rows_of-delete id (row ∷ rows) = elim (Bool-cases (row.item_id == id)) [
    | inl e ↦ rw (e, rows_of-delete id rows) refl
    | inr e ↦ rw (e, e) (rows_of-delete id rows)
  ]

  pub rows_of-delete_others :
      (id other : ℕ) (rows : List (Row n))
      → other ≢ id
      → rows_of other (delete_rows id rows) ≡ rows_of other rows
  unfolding delete_rows
  rows_of-delete_others id other [] ne = refl
  rows_of-delete_others id other (row ∷ rows) ne = elim (Bool-cases (row.item_id == id)) [
    | inl e ↦
        (let f : (row.item_id == other) ≡ false = ground (arith, e, ne) in
          rw (e, f) (rows_of-delete_others id other rows ne))
    | inr e ↦ rw (e, rows_of-delete_others id other rows ne) refl
  ]

  -- Where the key was free, the row at the end is the one that has it.
  pub select_row-end :
      (row : Row n) (rows : List (Row n))
      → select_row row.item_id row.index rows ≡ none
      → select_row row.item_id row.index (rows ++ row ∷ []) ≡ some row
  unfolding select_row
  select_row-end row [] h =
      let e : (row.item_id == row.item_id) ≡ true = ground arith in
      rw (e, int_eq_refl row.index) refl
  select_row-end row (r ∷ rows) h = elim (Bool-cases (has_key row.item_id row.index r)) [
    | inl e ↦ absurd (ground (arith, e, h))
    | inr e ↦ rw e (select_row-end row rows (ground (arith, e, h)))
  ]

  summarized-id :
      (keep : Keep n) (s : Summary n) (row r : ItemRow n)
      → summarized keep s row ≡ some r
      → r.id ≡ row.id
  unfolding summarized
  summarized-id keep s row r = >>=-some λ _ _. >>=-some λ _ _. >>=-some λ _ _.
      >>=-some λ _ _. >>=-some λ _ _. >>=-some λ _ _ h. ap (λ x. x.id) (sym (some_injective h))

  update_cons :
      (keep : Keep n) (id : ℕ) (s : Summary n) (x : ItemRow n) (rows new : List (ItemRow n))
      → update_item keep id s (x ∷ rows) ≡ some new
      → (r : ItemRow n) × (rs : List (ItemRow n)) × ((if x.id == id
            then summarized keep s x
            else some x)
          ≡ some r)
        × (update_item keep id s rows ≡ some rs)
        × (r ∷ rs ≡ new)
  unfolding update_item
  update_cons keep id s x rows new =
      let Goal : Type 0 =
        (r : ItemRow n) × (rs : List (ItemRow n)) × ((if x.id == id
            then summarized keep s x
            else some x)
          ≡ some r)
        × (update_item keep id s rows ≡ some rs)
        × (r ∷ rs ≡ new) in
      option_cases (λ o. o ≡ some new → Goal) (if x.id == id then summarized keep s x else some x) _
        _ (λ _ h. absurd (cc))
        (λ r e.
          option_cases (λ o. o ≡ some new → Goal) (update_item keep id s rows) _ _
            (λ _ h. absurd (cc)) (λ rs f h. (r, rs, e, f, some_injective h)))

  find_item-cons :
      (id : ℕ) (x : ItemRow n) (rows : List (ItemRow n)) (b : Bool)
      → (x.id == id) ≡ b
      → find_item id (x ∷ rows) ≡ (if b then some x else find_item id rows)
  unfolding find_item
  find_item-cons id x rows b e = ap (λ c. if c then some x else find_item id rows) e

  pub find_item-updated :
      (keep : Keep n) (id : ℕ) (s : Summary n) (rows new : List (ItemRow n)) (row : ItemRow n)
      → update_item keep id s rows ≡ some new
      → find_item id rows ≡ some row
      → (r : ItemRow n) × (summarized keep s row ≡ some r) × (find_item id new ≡ some r)
  unfolding find_item
  find_item-updated keep id s [] new row h k = absurd (cc)
  find_item-updated keep id s (x ∷ rows) new row h k =
      let (r, rs, e, f, g) = update_cons keep id s x rows new h in
      elim (Bool-cases (x.id == id)) [
        | inl t ↦
            (let same : x ≡ row = some_injective (sym (find_item-cons id x rows true t) ∙ k) in
              let made : summarized keep s x ≡ some r =
                ap (λ c. if c then summarized keep s x else some x) (sym t) ∙ e in
              let has : (r.id == id) ≡ true =
                ap (λ i. i == id) (summarized-id keep s x r made) ∙ t in
              (
                r,
                ap (summarized keep s) (sym same) ∙ made,
                ap (find_item id) (sym g) ∙ find_item-cons id r rs true has,
              ))
        | inr t ↦
            (let same : x ≡ r =
                some_injective (ap (λ c. if c then summarized keep s x else some x) (sym t) ∙ e) in
              let (q, made, found) =
                find_item-updated keep id s rows rs row f
                  (sym (find_item-cons id x rows false t) ∙ k) in
              let has : (r.id == id) ≡ false = ap (λ i. i.id == id) (sym same) ∙ t in
              (q, made, ap (find_item id) (sym g) ∙ find_item-cons id r rs false has ∙ found))
      ]

  same_id :
      (keep : Keep n) (id : ℕ) (s : Summary n) (x r : ItemRow n)
      → (if x.id == id then summarized keep s x else some x) ≡ some r
      → r.id ≡ x.id
  same_id keep id s x r =
      if_cases (λ o. o ≡ some r → r.id ≡ x.id) (x.id == id) _ _ (λ _. summarized-id keep s x r)
        (λ _ h. ap (λ y. y.id) (sym (some_injective h)))

  pub find_item-others :
      (keep : Keep n) (id other : ℕ) (s : Summary n) (rows new : List (ItemRow n))
      → other ≢ id
      → update_item keep id s rows ≡ some new
      → find_item other new ≡ find_item other rows
  unfolding update_item find_item
  find_item-others keep id other s [] new ne h = ap (find_item other) (sym (some_injective h))
  find_item-others keep id other s (x ∷ rows) new ne h =
      let (r, rs, e, f, g) = update_cons keep id s x rows new h in
      let rest = find_item-others keep id other s rows rs ne f in
      elim (Bool-cases (x.id == other)) [
        | inl t ↦
            (let not_it : (x.id == id) ≡ false = ground (arith, t, ne) in
              let same : x ≡ r =
                some_injective
                  (ap (λ c. if c then summarized keep s x else some x) (sym not_it) ∙ e) in
              ap (find_item other) (sym g)
              ∙ ap (λ y. find_item other (y ∷ rs)) (sym same)
              ∙ find_item-cons other x rs true t
              ∙ sym (find_item-cons other x rows true t))
        | inr t ↦
            (let has : (r.id == other) ≡ false =
                ap (λ i. i == other) (same_id keep id s x r e) ∙ t in
              ap (find_item other) (sym g)
              ∙ find_item-cons other r rs false has
              ∙ rest
              ∙ sym (find_item-cons other x rows false t))
      ]
