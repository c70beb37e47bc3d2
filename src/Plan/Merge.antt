-- ===== src/Plan/Merge.antt =====
-- internal/exporter/media_database_plan.go: the items of a plan, and `mergeMediaDatabasePlanItems`.
-- The technical fields of a media source, a stream or a chapter are one value of a type `V`.
use emby_migrator.Prelude.{
  ℕ, Option, none, some, List, [], ◌∷◌, ◌++◌, Text, text_eq, length, set, if◌then◌else◌,
}

-- `MediaDatabasePlanItem`
pub record PlanItem (V : Type 0) : Type 0 where
  pub stable_key : Text
  pub source_name : Text
  pub target_item_id : Text
  pub target_name : Text
  pub media_source : Option V
  pub media_sources : List V
  pub media_streams : List V
  pub chapters : List V

-- `merged` and `index`.
pub record Merged (V : Type 0) : Type 0 where
  pub items : List (PlanItem V)
  pub index : Text → Option ℕ

module _ {V : Type 0} where
  -- `index[item.StableKey] = len(merged)` and the append.
  unfoldable pub add : Merged V → PlanItem V → Merged V
  add m item = record {
    items = m.items ++ item ∷ [];
    index = λ k. if text_eq k item.stable_key then some (length m.items) else m.index k;
  }

  unfoldable pub merge_previous : List (PlanItem V) → Merged V → Merged V
  merge_previous [] m = m
  merge_previous (item ∷ items) m = merge_previous items (add m item)

  unfoldable pub put : Merged V → PlanItem V → Merged V
  put m item = elim (m.index item.stable_key) [
    | some position ↦ record m { items = set m.items position item }
    | none ↦ add m item
  ]

  unfoldable pub merge_current : List (PlanItem V) → Merged V → Merged V
  merge_current [] m = m
  merge_current (item ∷ items) m = merge_current items (put m item)

  unfoldable pub merge_media_database_plan_items :
      List (PlanItem V) → List (PlanItem V) → List (PlanItem V)
  unfolding merge_current merge_previous
  merge_media_database_plan_items previous current =
      (merge_current current
        (merge_previous previous (record { items = []; index = λ k. none }))).items
