-- ===== src/Version/Order.antt =====
-- internal/web/version_check.go: versions are compared by the first part in which they differ.
use emby_migrator.Prelude.{
  ℕ, zero, suc, ◌+◌, ◌≤◌, ◌<◌, ◌≡◌, ◌↔◌, ◌⊎◌, inl, inr, refl, sym, subst, ◌∙◌, List, [], ◌∷◌,
  length, ltb, if◌then◌else◌, Bool-cases, arith,
}
use emby_migrator.Prelude.Int.{pos, negsuc}
use emby_migrator.Version.Numbers.{part_at, compare_from, compare_parts}

-- The first list is greater in some part, and equal in all before it; missing parts are 0.
abbrev pub IsNewer : List ℕ → List ℕ → Type 0
IsNewer l r = (i : ℕ) × (part_at r i < part_at l i) × ((j : ℕ) → j < i → part_at l j ≡ part_at r j)

part_at_beyond : (l : List ℕ) (i : ℕ) → length l ≤ i → part_at l i ≡ 0
part_at_beyond [] i h = refl
part_at_beyond (x ∷ l) zero h = absurd (omega arith)
part_at_beyond (x ∷ l) (suc i) h = part_at_beyond l i (omega arith)

at_or_after : (i j : ℕ) → i ≤ j → (i ≡ j) ⊎ (suc i ≤ j)
at_or_after i j h = elim (Bool-cases (ltb i j)) [
  | inl e ↦ inr (ground arith)
  | inr e ↦ inl (ground arith)
]

compare_from-newer :
    (l r : List ℕ) (left index : ℕ)
    → compare_from l r left index ≡ pos 1
    → (i : ℕ) × (index ≤ i)
      × (part_at r i < part_at l i)
      × ((j : ℕ) → index ≤ j → j < i → part_at l j ≡ part_at r j)
unfolding compare_from
compare_from-newer l r zero index h = cc
compare_from-newer l r (suc left) index h =
    elim (Bool-cases (ltb (part_at r index) (part_at l index))) [
      | inl e ↦ (index, omega arith, ground arith, λ j a b. absurd (omega arith))
      | inr e ↦ elim (Bool-cases (ltb (part_at l index) (part_at r index))) [
        | inl f ↦ absurd (ground arith)
        | inr f ↦
            (let (i, a, d, k) = compare_from-newer l r left (suc index) (ground arith) in
              (
                i,
                omega arith,
                d,
                λ j b c. elim (at_or_after index j b) [
                  | inl same ↦ subst (λ n. part_at l n ≡ part_at r n) same (ground arith)
                  | inr later ↦ k j later c
                ],
              ))
      ]
    ]

newer-compare_from :
    (l r : List ℕ) (left index i : ℕ)
    → index ≤ i
    → i < index + left
    → part_at r i < part_at l i
    → ((j : ℕ) → index ≤ j → j < i → part_at l j ≡ part_at r j)
    → compare_from l r left index ≡ pos 1
unfolding compare_from
newer-compare_from l r zero index i a b d k = absurd (omega arith)
newer-compare_from l r (suc left) index i a b d k = elim (at_or_after index i a) [
  | inl same ↦
      (let here : part_at r index < part_at l index =
          subst (λ n. part_at r n < part_at l n) (sym same) d in
        ground arith)
  | inr later ↦
      (let same = k index (omega arith) (omega arith) in
        let rest =
          newer-compare_from l r left (suc index) i later (omega arith) d
            (λ j e f. k j (omega arith) f) in
        ground arith)
]

compare_from_swap :
    (l r : List ℕ) (left index : ℕ)
    → (compare_from l r left index ≡ negsuc 0) ↔ (compare_from r l left index ≡ pos 1)
unfolding compare_from
compare_from_swap l r zero index = (λ e. cc, λ e. cc)
compare_from_swap l r (suc left) index = (
  λ e. ground (arith, compare_from_swap l r left (suc index)),
  λ e. ground (arith, compare_from_swap l r left (suc index)),
)

differs_below : (l r : List ℕ) (i : ℕ) → part_at r i < part_at l i → i < length l
differs_below l r i h = elim (Bool-cases (ltb i (length l))) [
  | inl e ↦ ground arith
  | inr e ↦ absurd (ground (arith, part_at_beyond l i (ground arith)))
]

IsNewer-within :
    (l r : List ℕ) (n : ℕ) → length l ≤ n → (compare_from l r n 0 ≡ pos 1) ↔ IsNewer l r
IsNewer-within l r n h = (
  λ e. let (i, a, d, k) = compare_from-newer l r n 0 e in (i, d, λ j c. k j (omega arith) c),
  λ (i, d, k).
      newer-compare_from l r n 0 i (omega arith) (omega (arith, differs_below l r i d)) d
        (λ j a c. k j c),
)

IsNewer-trans : (a b c : List ℕ) → IsNewer a b → IsNewer b c → IsNewer a c
IsNewer-trans a b c (i, d, k) (j, e, m) = elim (Bool-cases (ltb i j)) [
  | inl f ↦ (i, omega (arith, d, m i (ground arith)), λ n h. k n h ∙ m n (ground arith))
  | inr f ↦ elim (at_or_after j i (ground arith)) [
    | inl same ↦
        (let d' : part_at b j < part_at a j = subst (λ n. part_at b n < part_at a n) (sym same) d in
          (j, omega (arith, d', e), λ n h. k n (omega arith) ∙ m n h))
    | inr later ↦ (j, omega (arith, k j later, e), λ n h. k n (omega arith) ∙ m n h)
  ]
]

-- Comparing version numbers: the answer is 1 exactly where the left one is greater in the first part
-- in which they differ (a missing part is 0), and -1 exactly where the right one is.
pub compare_first_difference :
    (l r : List ℕ)
    → ((compare_parts l r ≡ pos 1) ↔ IsNewer l r) × ((compare_parts l r ≡ negsuc 0) ↔ IsNewer r l)
unfolding compare_parts
compare_first_difference l r =
    let n = if ltb (length l) (length r) then length r else length l in
    let back = IsNewer-within r l n (ground arith) in
    let swap = compare_from_swap l r n 0 in
    (IsNewer-within l r n (ground arith), (λ e. back.0 (swap.0 e), λ e. swap.1 (back.1 e)))

-- What is newer than a newer version is newer.
pub newer_trans :
    (a b c : List ℕ)
    → compare_parts a b ≡ pos 1
    → compare_parts b c ≡ pos 1
    → compare_parts a c ≡ pos 1
newer_trans a b c x y = (compare_first_difference a c).0.1 (
    IsNewer-trans a b c ((compare_first_difference a b).0.0 x)
      ((compare_first_difference b c).0.0 y))
