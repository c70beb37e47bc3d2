-- ===== src/Plan/Lookup.antt =====
-- internal/exporter/media_database_plan.go: what a merged plan holds under a key.
use emby_migrator.Prelude.{
  ℕ, zero, suc, ◌≡◌, refl, sym, ap, ◌∙◌, Bool, Option, none, some, List, [], ◌∷◌, ◌++◌, Text,
  text_eq, text_eq_iff, length, set, if◌then◌else◌, option_cases, arith,
}
use emby_migrator.Plan.Merge.{
  PlanItem, Merged, add, merge_previous, put, merge_current, merge_media_database_plan_items,
}

abbrev pub or_else : {A : Type 0} → Option A → Option A → Option A
or_else none o = o
or_else (some a) o = some a

abbrev moved : Option ℕ → Bool → Option ℕ
moved (some i) b = some (suc i)
moved none b = if b then some 0 else none

pub or_else-none : {A : Type 0} → (o : Option A) → or_else o none ≡ o
or_else-none none = refl
or_else-none (some a) = refl

module _ {V : Type 0} where
  -- The last item with the key, and its place.
  unfoldable pub last_of : Text → List (PlanItem V) → Option (PlanItem V)
  last_of k [] = none
  last_of k (y ∷ ys) = or_else (last_of k ys) (if text_eq k y.stable_key then some y else none)

  place : Text → List (PlanItem V) → Option ℕ
  place k [] = none
  place k (y ∷ ys) = moved (place k ys) (text_eq k y.stable_key)

  place-snoc :
      (k : Text) (xs : List (PlanItem V)) (x : PlanItem V)
      → place k (xs ++ x ∷ []) ≡ (if text_eq k x.stable_key then some (length xs) else place k xs)
  unfolding place
  place-snoc k [] x = refl
  place-snoc k (y ∷ xs) x = ground (arith, place-snoc k xs x)

  last_of-snoc :
      (k : Text) (xs : List (PlanItem V)) (x : PlanItem V)
      → last_of k (xs ++ x ∷ []) ≡ (if text_eq k x.stable_key then some x else last_of k xs)
  unfolding last_of
  last_of-snoc k [] x = ground arith
  last_of-snoc k (y ∷ xs) x = ground (arith, last_of-snoc k xs x)

  last_of-none : (k : Text) (xs : List (PlanItem V)) → place k xs ≡ none → last_of k xs ≡ none
  unfolding place last_of
  last_of-none k [] h = refl
  last_of-none k (y ∷ xs) h = ground (arith, last_of-none k xs)

  place-set :
      (k : Text) (xs : List (PlanItem V)) (i : ℕ) (x : PlanItem V)
      → place x.stable_key xs ≡ some i
      → place k (set xs i x) ≡ place k xs
  unfolding place
  place-set k [] i x h = refl
  place-set k (y ∷ xs) zero x h = ground (arith, text_eq_iff x.stable_key y.stable_key)
  place-set k (y ∷ xs) (suc i) x h = ground (arith, place-set k xs i x)

  last_of-set :
      (k : Text) (xs : List (PlanItem V)) (i : ℕ) (x : PlanItem V)
      → place x.stable_key xs ≡ some i
      → last_of k (set xs i x) ≡ (if text_eq k x.stable_key then some x else last_of k xs)
  unfolding place last_of
  last_of-set k [] i x h = cc
  last_of-set k (y ∷ xs) zero x h = ground (
    arith,
    text_eq_iff x.stable_key y.stable_key,
    text_eq_iff k x.stable_key,
    last_of-none x.stable_key xs,
  )
  last_of-set k (y ∷ xs) (suc i) x h = ground (arith, last_of-set k xs i x)

  -- The index tells the place of the last item of each key.
  abbrev IsIndexed : Merged V → Type 0
  IsIndexed m = (k : Text) → m.index k ≡ place k m.items

  -- What the list holds under a key after an item has been put.
  abbrev Puts : Merged V → PlanItem V → Merged V → Type 0
  Puts m x m' =
      (k : Text)
      → last_of k m'.items ≡ (if text_eq k x.stable_key then some x else last_of k m.items)

  add-IsIndexed :
      (m : Merged V) (x : PlanItem V) → IsIndexed m → IsIndexed (add m x) × Puts m x (add m x)
  unfolding add
  add-IsIndexed m x h =
      (λ k. ground (arith, h k, place-snoc k m.items x), λ k. last_of-snoc k m.items x)

  put-IsIndexed :
      (m : Merged V) (x : PlanItem V) → IsIndexed m → IsIndexed (put m x) × Puts m x (put m x)
  unfolding put
  put-IsIndexed m x h =
      option_cases (λ m'. IsIndexed m' × Puts m x m') (m.index x.stable_key) (add m x)
        (λ i. record m { items = set m.items i x }) (λ e. add-IsIndexed m x h)
        (λ i e.
          let at : place x.stable_key m.items ≡ some i = sym (h x.stable_key) ∙ e in
          (λ k. h k ∙ sym (place-set k m.items i x at), λ k. last_of-set k m.items i x at))

  merge_previous-last_of :
      (xs : List (PlanItem V)) (m : Merged V)
      → IsIndexed m
      → IsIndexed (merge_previous xs m)
        × ((k : Text)
            → last_of k (merge_previous xs m).items ≡ or_else (last_of k xs) (last_of k m.items))
  unfolding merge_previous last_of
  merge_previous-last_of [] m h = (h, λ k. refl)
  merge_previous-last_of (x ∷ xs) m h =
      let (indexed, puts) = add-IsIndexed m x h in
      let (rest, found) = merge_previous-last_of xs (add m x) indexed in
      (rest, λ k. ground (arith, found k, puts k))

  merge_current-last_of :
      (xs : List (PlanItem V)) (m : Merged V)
      → IsIndexed m
      → (k : Text)
      → last_of k (merge_current xs m).items ≡ or_else (last_of k xs) (last_of k m.items)
  unfolding merge_current last_of
  merge_current-last_of [] m h k = refl
  merge_current-last_of (x ∷ xs) m h k =
      let (indexed, puts) = put-IsIndexed m x h in
      ground (arith, merge_current-last_of xs (put m x) indexed k, puts k)

  -- A merged plan holds, under each key, the last item that the current import has for it, or else the
  -- last of the previous plan: no item is lost, and the latest wins.
  pub merge_lookup :
      (previous current : List (PlanItem V)) (k : Text)
      → last_of k (merge_media_database_plan_items previous current)
        ≡ or_else (last_of k current) (last_of k previous)
  unfolding merge_media_database_plan_items last_of place
  merge_lookup previous current k =
      let (indexed, found) =
        merge_previous-last_of previous (record { items = []; index = λ j. none }) (λ j. refl) in
      merge_current-last_of current
        (merge_previous previous (record { items = []; index = λ j. none })) indexed k
      ∙ ap (or_else (last_of k current)) (found k ∙ or_else-none (last_of k previous))
