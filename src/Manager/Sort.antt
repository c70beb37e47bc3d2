-- ===== src/Manager/Sort.antt =====
-- `sort.Slice` by a time that falls, and membership: what pruning and listing jobs use. Go's sort
-- leaves the order of equal times open; here they keep their order.
use emby_migrator.Prelude.{
  ℕ, zero, suc, ◌≤◌, ◌≡◌, refl, inl, inr, Bool, true, false, List, [], ◌∷◌, length, drop, filter,
  All, ltb, ◌==◌, if◌then◌else◌, arith, Bool-cases,
}

-- Whether an address is in a list.
unfoldable pub elem : ℕ → List ℕ → Bool
elem a [] = false
elem a (b ∷ bs) = if a == b then true else elem a bs

module _ (key : ℕ → ℕ) where
  unfoldable pub insert_desc : ℕ → List ℕ → List ℕ
  insert_desc a [] = a ∷ []
  insert_desc a (b ∷ bs) =
      let rest = insert_desc a bs in if ltb (key a) (key b) then b ∷ rest else a ∷ b ∷ bs

  unfoldable pub sort_desc : List ℕ → List ℕ
  unfolding insert_desc
  sort_desc [] = []
  sort_desc (a ∷ bs) = insert_desc a (sort_desc bs)

  pub elem-insert_desc :
      (c a : ℕ) (bs : List ℕ) → elem c (insert_desc a bs) ≡ (if c == a then true else elem c bs)
  unfolding elem insert_desc
  elem-insert_desc c a [] = refl
  elem-insert_desc c a (b ∷ bs) = ground (arith, elem-insert_desc c a bs)

  pub elem-sort_desc : (c : ℕ) (bs : List ℕ) → elem c (sort_desc bs) ≡ elem c bs
  unfolding elem sort_desc
  elem-sort_desc c [] = refl
  elem-sort_desc c (a ∷ bs) =
      ground (arith, elem-insert_desc c a (sort_desc bs), elem-sort_desc c bs)

  length-filter-insert_desc :
      (p : ℕ → Bool) (a : ℕ) (bs : List ℕ)
      → length (filter p (insert_desc a bs)) ≡ length (filter p (a ∷ bs))
  unfolding insert_desc
  length-filter-insert_desc p a [] = refl
  length-filter-insert_desc p a (b ∷ bs) = ground (arith, length-filter-insert_desc p a bs)

  -- Sorting keeps how many entries pass a test.
  pub length-filter-sort_desc :
      (p : ℕ → Bool) (bs : List ℕ) → length (filter p (sort_desc bs)) ≡ length (filter p bs)
  unfolding sort_desc
  length-filter-sort_desc p [] = refl
  length-filter-sort_desc p (a ∷ bs) =
      ground (arith, length-filter-insert_desc p a (sort_desc bs), length-filter-sort_desc p bs)

  -- Each entry is at least as late as those behind it.
  abbrev pub IsDescending : List ℕ → Type 0
  IsDescending [] = Unit
  IsDescending (a ∷ bs) = All (λ b. key b ≤ key a) bs × IsDescending bs

  All-insert_desc :
      (k a : ℕ) (bs : List ℕ)
      → key a ≤ k
      → All (λ b. key b ≤ k) bs
      → All (λ b. key b ≤ k) (insert_desc a bs)
  unfolding insert_desc
  All-insert_desc k a [] h t = (h, tt)
  All-insert_desc k a (b ∷ bs) h t = elim (Bool-cases (ltb (key a) (key b))) [
    | inl e ↦ rw e (t.0, All-insert_desc k a bs h t.1)
    | inr e ↦ rw e (h, t)
  ]

  weaken : (k l : ℕ) (bs : List ℕ) → k ≤ l → All (λ b. key b ≤ k) bs → All (λ b. key b ≤ l) bs
  weaken k l [] h t = tt
  weaken k l (b ∷ bs) h t = (omega arith, weaken k l bs h t.1)

  insert_desc-IsDescending :
      (a : ℕ) (bs : List ℕ) → IsDescending bs → IsDescending (insert_desc a bs)
  unfolding insert_desc
  insert_desc-IsDescending a [] h = (tt, tt)
  insert_desc-IsDescending a (b ∷ bs) h = elim (Bool-cases (ltb (key a) (key b))) [
    | inl e ↦
        rw e (All-insert_desc (key b) a bs (ground arith) h.0, insert_desc-IsDescending a bs h.1)
    | inr e ↦ rw e ((ground arith, weaken (key b) (key a) bs (ground arith) h.0), h)
  ]

  pub sort_desc-IsDescending : (bs : List ℕ) → IsDescending (sort_desc bs)
  unfolding sort_desc
  sort_desc-IsDescending [] = tt
  sort_desc-IsDescending (a ∷ bs) =
      insert_desc-IsDescending a (sort_desc bs) (sort_desc-IsDescending bs)

  All-elem : (k b : ℕ) (bs : List ℕ) → All (λ c. key c ≤ k) bs → elem b bs ≡ true → key b ≤ k
  unfolding elem
  All-elem k b [] t h = cc
  All-elem k b (c ∷ bs) t h = elim (Bool-cases (b == c)) [
    | inl e ↦ let q : b ≡ c = ground arith in rw q t.0
    | inr e ↦ All-elem k b bs t.1 (ground arith)
  ]

  elem-drop : (n b : ℕ) (bs : List ℕ) → elem b (drop n bs) ≡ true → elem b bs ≡ true
  unfolding elem
  elem-drop zero b bs h = h
  elem-drop (suc n) b [] h = h
  elem-drop (suc n) b (c ∷ bs) h = ground (arith, elem-drop n b bs)

  -- What stands in the front part is at least as late as what is cut off.
  pub drop_older :
      (n a b : ℕ) (bs : List ℕ)
      → IsDescending bs
      → elem a bs ≡ true
      → elem a (drop n bs) ≡ false
      → elem b (drop n bs) ≡ true
      → key b ≤ key a
  unfolding elem
  drop_older zero a b bs s h out cut = cc
  drop_older (suc n) a b [] s h out cut = cc
  drop_older (suc n) a b (c ∷ bs) s h out cut = elim (Bool-cases (a == c)) [
    | inl e ↦
        let q : a ≡ c = ground arith in rw q (All-elem (key c) b bs s.0 (elem-drop n b bs cut))
    | inr e ↦ drop_older n a b bs s.1 (ground arith) out cut
  ]
