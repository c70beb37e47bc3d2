-- ===== src/Plan/Bound.antt =====
-- internal/exporter/media_database_plan.go: what a plan whose binding is accepted is bound to.
use emby_migrator.Prelude.{
  ℕ, ◌<◌, ◌≡◌, refl, ap, subst, ◌∙◌, true, false, some, List, [], ◌∷◌, Text, text_eq, text_eq→eq,
  text_eq_refl, length, Option-cases, inl, inr, arith,
}
use emby_migrator.Prelude.Strings.{trim_space, trim_func, trim_left, to_lower, equal_fold, is_empty}
use emby_migrator.Plan.Merge.{PlanItem}
use emby_migrator.Plan.Binding.{
  Tables, Binding, Plan, Anchor, media_schema_identity, positive_id, seen_before, canonical,
  build_target_binding_digest, anchors_of, binding_of, build_media_database_binding,
  is_known_schema_identity, validate_media_database_plan_binding,
}

constant_is_known : is_known_schema_identity media_schema_identity ≡ true
unfolding is_known_schema_identity text_eq trim_space trim_func trim_left
constant_is_known = refl

equal_fold_refl : (s : Text) → equal_fold s s ≡ true
unfolding equal_fold
equal_fold_refl s = text_eq_refl (to_lower s)

-- The items' ids are numbers, `ids` in their order.
abbrev pub HaveIds : {V : Type 0} → List (PlanItem V) → List ℕ → Type 0
HaveIds [] [] = Unit
HaveIds [] (n ∷ ns) = ⊥
HaveIds (x ∷ xs) [] = ⊥
HaveIds (x ∷ xs) (n ∷ ns) = (positive_id x.target_item_id ≡ some n) × HaveIds xs ns

-- The ids are positive, differ from each other, and are not among those seen.
abbrev pub AreNew : List ℕ → List ℕ → Type 0
AreNew seen [] = Unit
AreNew seen (n ∷ ns) = (0 < n) × (seen_before seen n ≡ false) × AreNew (n ∷ seen) ns

abbrev pub ids_of : List Anchor → List ℕ
ids_of [] = []
ids_of (a ∷ as') = a.item_id ∷ ids_of as'

module _ (c : Tables) where
  pub canonical-AreNew :
      (seen : List ℕ) (anchors : List Anchor) (lines : List Text)
      → canonical c seen anchors ≡ some lines
      → AreNew seen (ids_of anchors)
  unfolding canonical
  canonical-AreNew seen [] lines h = tt
  canonical-AreNew seen (a ∷ anchors) lines h =
      elim (Option-cases (canonical c (a.item_id ∷ seen) anchors)) [
        | inl e ↦ absurd (ground arith)
        | inr (rest, e) ↦
            (ground arith, ground arith, canonical-AreNew (a.item_id ∷ seen) anchors rest e)
      ]

module _ (c : Tables) {V : Type 0} where
  built_identity :
      (server_id : Text) (items : List (PlanItem V)) (b : Binding)
      → build_media_database_binding c server_id items ≡ some b
      → b.schema_identity ≡ media_schema_identity
  unfolding build_media_database_binding binding_of
  built_identity server_id items b h = elim (Option-cases (anchors_of c items)) [
    | inl e ↦ absurd (ground arith)
    | inr (anchors, e) ↦
        elim (Option-cases (build_target_binding_digest c (trim_space server_id) anchors)) [
          | inl f ↦ absurd (ground arith)
          | inr (digest, f) ↦ ground arith
        ]
  ]

  -- A plan that carries the binding that was built from its items and its server passes the check.
  pub binding_roundtrip :
      (plan : Plan V)
      → plan.schema_version ≡ 2
      → build_media_database_binding c plan.target.server_id plan.items ≡ some plan.database_binding
      → validate_media_database_plan_binding c plan ≡ some plan.database_binding
  unfolding validate_media_database_plan_binding
  binding_roundtrip plan version built =
      let b = plan.database_binding in
      let known : is_known_schema_identity b.schema_identity ≡ true =
        ap is_known_schema_identity (built_identity plan.target.server_id plan.items b built)
        ∙ constant_is_known in
      ground (arith, text_eq_refl b.target_server_id, equal_fold_refl b.anchor_digest)

  anchors_of-HaveIds :
      (items : List (PlanItem V)) (anchors : List Anchor)
      → anchors_of c items ≡ some anchors
      → HaveIds items (ids_of anchors) × (length anchors ≡ length items)
  unfolding anchors_of
  anchors_of-HaveIds [] [] h = (tt, refl)
  anchors_of-HaveIds [] (a ∷ anchors) h = absurd (ground arith)
  anchors_of-HaveIds (x ∷ xs) anchors h = elim (Option-cases (positive_id x.target_item_id)) [
    | inl e ↦ absurd (ground arith)
    | inr (n, e) ↦ elim (Option-cases (anchors_of c xs)) [
      | inl f ↦ absurd (ground arith)
      | inr (rest, f) ↦
          (let same : record { item_id = n; name = x.target_name } ∷ rest ≡ anchors =
              ground arith in
            let (ids, count) = anchors_of-HaveIds xs rest f in
            subst
              (λ (as' : List Anchor).
                HaveIds (x ∷ xs) (ids_of as') × (length as' ≡ length (x ∷ xs)))
              same ((e, ids), omega (arith, count)))
    ]
  ]

  binding_of_sound :
      (server_id : Text) (items : List (PlanItem V)) (b : Binding)
      → binding_of c server_id items ≡ some b
      → (ids : List ℕ) × HaveIds items ids
        × AreNew [] ids
        × (b.target_server_id ≡ server_id)
        × (b.anchor_count ≡ length items)
        × (0 < b.anchor_count)
  unfolding binding_of build_target_binding_digest
  binding_of_sound server_id items b h = elim (Option-cases (anchors_of c items)) [
    | inl e ↦ absurd (ground arith)
    | inr (anchors, e) ↦
        elim anchors
            as (λ (as' : List Anchor).
              anchors_of c items ≡ some as'
              → (ids : List ℕ) × HaveIds items ids
                × AreNew [] ids
                × (b.target_server_id ≡ server_id)
                × (b.anchor_count ≡ length items)
                × (0 < b.anchor_count)) [
                  | [] ↦ λ f. absurd (ground arith)
                  | a ∷ rest ↦ λ f. elim (Option-cases (canonical c [] (a ∷ rest))) [
                    | inl g ↦ absurd (ground arith)
                    | inr (lines, g) ↦
                        (let (ids, count) = anchors_of-HaveIds items (a ∷ rest) f in
                          (
                            ids_of (a ∷ rest),
                            ids,
                            canonical-AreNew c [] (a ∷ rest) lines g,
                            ground arith,
                            ground (arith, count),
                            ground arith,
                          ))
                  ]
                ]
          e
  ]

  -- A plan of the current schema that passes is for a server that has an id, the one in its binding;
  -- its binding counts its items, of which there is at least one; and the items' ids are positive
  -- numbers that differ from each other.
  pub validated_plan_sound :
      (plan : Plan V) (b : Binding)
      → plan.schema_version ≡ 2
      → validate_media_database_plan_binding c plan ≡ some b
      → (is_empty (trim_space plan.target.server_id) ≡ false)
        × (b.target_server_id ≡ trim_space plan.target.server_id)
        × (b.anchor_count ≡ length plan.items)
        × (0 < b.anchor_count)
        × ((ids : List ℕ) × HaveIds plan.items ids × AreNew [] ids)
  unfolding validate_media_database_plan_binding build_media_database_binding
  validated_plan_sound plan b version h =
      elim (Option-cases (binding_of c (trim_space plan.target.server_id) plan.items)) [
        | inl e ↦ absurd (ground arith)
        | inr (rebuilt, e) ↦
            (let (ids, have, new, name, count, some_anchor) =
                binding_of_sound (trim_space plan.target.server_id) plan.items rebuilt e in
              (
                ground arith,
                text_eq→eq b.target_server_id rebuilt.target_server_id (ground arith) ∙ name,
                ground (arith, count),
                ground (arith, some_anchor),
                (ids, have, new),
              ))
      ]
