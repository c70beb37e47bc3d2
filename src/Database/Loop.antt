-- ===== src/Database/Loop.antt =====
-- internal/embydb/embydb.go: the loop of `Apply` over the items of a plan.
use emby_migrator.Prelude.{
  ℕ, suc, ◌≡◌, ◌≢◌, sym, ap, subst, ◌∙◌, Bool, false, List, [], ◌∷◌, map, All, arith,
}
use emby_migrator.Prelude.Result.{Result, refused, ok, and_then-ok, ok_injective}
use emby_migrator.Plan.Binding.{Tables, seen_before}
use emby_migrator.Plan.Bound.{AreNew}
use emby_migrator.Database.Values.{Numbers}
use emby_migrator.Database.Tables.{Keep, Db}
use emby_migrator.Database.Item.{ItemPatch, WriteError, Effect}
use emby_migrator.Database.Apply.{ApplyOptions, Counts, count, Engine, as_item_error, apply_items}
use emby_migrator.Database.Written.{view}
use emby_migrator.Database.Step.{AreUntouched, IsOutcome, IsNamed, apply_item-IsOutcome}

-- The counts of the effects, one after the other.
abbrev pub tally : List Effect → Counts → Counts
tally [] c = c
tally (effect ∷ effects) c = tally effects (count effect c)

pub as_item_error-ok :
    {A : Type 0} (r : Result WriteError A) (a : A) → as_item_error r ≡ ok a → r ≡ ok a
as_item_error-ok (refused x) a h = absurd (cc)
as_item_error-ok (ok b) a h = ap ok (ok_injective h)

seen_before-other :
    (m n : ℕ) (ms : List ℕ) → seen_before (m ∷ ms) n ≡ false → (n ≢ m) × (seen_before ms n ≡ false)
unfolding seen_before
seen_before-other m n ms h = ((λ z. absurd (ground (arith, h, z))), ground (arith, h))

module _ {n : Numbers} where
  abbrev pub ids : List (ItemPatch n) → List ℕ
  ids items = map (λ item. item.target_item_id) items

  -- No two items have the same id.
  abbrev pub AreDistinct : List (ItemPatch n) → Type 0
  AreDistinct [] = Unit
  AreDistinct (item ∷ items) =
      All (λ other. other.target_item_id ≢ item.target_item_id) items × AreDistinct items

  -- New ids differ from any that no new id is.
  new-others :
      (m : ℕ) (above : List ℕ) (items : List (ItemPatch n))
      → AreNew above (ids items)
      → ((k : ℕ) → seen_before above k ≡ false → k ≢ m)
      → All (λ other. other.target_item_id ≢ m) items
  new-others m above [] new far = tt
  new-others m above (item ∷ items) new far = (
    far item.target_item_id new.1,
    new-others m (item.target_item_id ∷ above) items new.2
        (λ k h. far k (seen_before-other item.target_item_id k above h).1),
  )

  pub AreNew-AreDistinct :
      (seen : List ℕ) (items : List (ItemPatch n)) → AreNew seen (ids items) → AreDistinct items
  AreNew-AreDistinct seen [] new = tt
  AreNew-AreDistinct seen (item ∷ items) new = (
    new-others item.target_item_id (item.target_item_id ∷ seen) items new.2
        (λ k h. (seen_before-other item.target_item_id k seen h).0),
    AreNew-AreDistinct (item.target_item_id ∷ seen) items new.2,
  )

  -- The items that the plan does not name are as they were.
  abbrev pub OthersUntouched : List (ItemPatch n) → Db n → Db n → Type 0
  OthersUntouched items before after =
      (other : ℕ)
      → All (λ item. other ≢ item.target_item_id) items
      → AreUntouched other before after

  symmetric :
      (id : ℕ) (items : List (ItemPatch n))
      → All (λ item. item.target_item_id ≢ id) items
      → All (λ item. id ≢ item.target_item_id) items
  symmetric id [] h = tt
  symmetric id (item ∷ items) h = ((λ e. h.0 (sym e)), symmetric id items h.1)

module _ {n : Numbers} (keep : Keep n) (tables : Tables) (overwrite : Bool) where
  -- Each item had its name before, and its effect is what happened to it.
  abbrev pub AreOutcomes : List (ItemPatch n) → List Effect → Db n → Db n → Type 0
  AreOutcomes [] [] before after = Unit
  AreOutcomes [] (e ∷ es) before after = ⊥
  AreOutcomes (item ∷ items) [] before after = ⊥
  AreOutcomes (item ∷ items) (e ∷ es) before after =
      (IsNamed tables item (view item.target_item_id before)
        × IsOutcome keep overwrite item e (view item.target_item_id before)
            (view item.target_item_id after))
      × AreOutcomes items es before after

  -- An earlier change of another item does not matter to the outcomes.
  earlier :
      (id : ℕ) (items : List (ItemPatch n)) (es : List Effect) (first before after : Db n)
      → All (λ item. item.target_item_id ≢ id) items
      → ((other : ℕ) → other ≢ id → AreUntouched other first before)
      → AreOutcomes items es before after
      → AreOutcomes items es first after
  earlier id [] [] first before after ne same h = tt
  earlier id [] (e ∷ es) first before after ne same h = h
  earlier id (item ∷ items) [] first before after ne same h = h
  earlier id (item ∷ items) (e ∷ es) first before after ne same h = (
    subst
        (λ v.
          IsNamed tables item v
          × IsOutcome keep overwrite item e v (view item.target_item_id after))
        (same item.target_item_id ne.0) h.0,
    earlier id items es first before after ne.1 same h.1,
  )

module _ {n : Numbers} (keep : Keep n) (tables : Tables) (e : Engine) (o : ApplyOptions n) where
  -- The loop's answer, as the effects of its items.
  abbrev pub AreApplied : List (ItemPatch n) → Counts → Db n → Counts → Db n → Type 0
  AreApplied items before db after written =
      (effects : List Effect) × AreOutcomes keep tables o.overwrite items effects db written
      × (after ≡ tally effects before)
      × OthersUntouched items db written

  pub apply_items-AreApplied :
      (position : ℕ) (items : List (ItemPatch n)) (before after : Counts) (db written : Db n)
      → AreDistinct items
      → apply_items keep tables e o position items before db ≡ ok (after, written)
      → AreApplied items before db after written
  unfolding apply_items
  apply_items-AreApplied position [] before after db written distinct h =
      let pair = ok_injective h in
      ([], tt, sym (ap (λ p. p.0) pair), λ other _. ap (λ p. view other p.1) (sym pair))
  apply_items-AreApplied position (item ∷ items) before after db written distinct h0 =
      and_then-ok
        (λ (effect, next) e1 h.
          let id = item.target_item_id in
          let (named, outcome, others) =
            apply_item-IsOutcome keep (e.fails position) tables o.overwrite item db next effect
              (as_item_error-ok _ _ e1) in
          let (effects, outcomes, counts, rest) =
            apply_items-AreApplied (suc position) items (count effect before) after next written
              distinct.1 h in
          let kept = rest id (symmetric id items distinct.0) in
          (
            effect ∷ effects,
            (
              (
                named,
                subst (IsOutcome keep o.overwrite item effect (view id db)) (sym kept) outcome,
              ),
              earlier keep tables o.overwrite id items effects db next written distinct.0 others
                  outcomes,
            ),
            counts,
            λ other ne. rest other ne.1 ∙ others other ne.0,
          ))
        h0
