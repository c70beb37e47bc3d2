-- ===== src/Plan/Binding.antt =====
-- internal/exporter/media_database_plan.go and internal/embydb/identity.go: the binding of a plan to a
-- server: how it is built, and how it is checked before the database is touched.
-- SHA-256 (as a hexadecimal text) and Unicode's tables are parameters. Anchors are compared by code
-- point, which is the order of their bytes.
use emby_migrator.Prelude.{
  ℕ, Bool, true, false, not, ◌&&◌, ◌||◌, Option, none, some, List, [], ◌∷◌, ◌++◌, map, filter, Text,
  codes, text_eq, length, drop, ltb, leb, ◌==◌, if◌then◌else◌,
}
use emby_migrator.Prelude.Strings.{trim_space, equal_fold, has_prefix, is_empty}
use emby_migrator.Prelude.Decimal.{itoa}
use emby_migrator.Version.Numbers.{atoi}
use emby_migrator.Plan.Merge.{PlanItem}

pub record Tables : Type 0 where
  pub sha256_hex : Text → Text
  pub lower : ℕ → ℕ
  pub is_letter : ℕ → Bool
  pub is_digit : ℕ → Bool

-- `ImportTarget`, as far as a plan is checked by it.
pub record ImportTarget : Type 0 where
  pub server_name : Text
  pub server_id : Text
  pub version : Text
  pub base_url : Text

-- `MediaDatabaseBinding`
pub record Binding : Type 0 where
  pub target_server_id : Text
  pub schema_identity : Text
  pub anchor_count : ℕ
  pub anchor_digest : Text

-- `MediaDatabasePlan`
pub record Plan (V : Type 0) : Type 0 where
  pub schema_version : ℕ
  pub source_emby_version : Text
  pub target_emby_version : Text
  pub target : ImportTarget
  pub database_binding : Binding
  pub created_at : ℕ
  pub items : List (PlanItem V)

-- `TargetAnchor`
pub record Anchor : Type 0 where
  pub item_id : ℕ
  pub name : Text

abbrev pub media_schema_identity : Text
media_schema_identity = codes "emby-library-media-v1"

-- A sign, if any, and a number: `strconv.ParseInt(strings.TrimSpace(value), 10, 64)` with the test that
-- the number is positive. Both failures have one error.
unfoldable pub positive_id : Text → Option ℕ
unfolding atoi
positive_id value =
    let text = trim_space value in
    let digits = if has_prefix text (codes "+") then drop 1 text else text in
    elim (atoi digits) [ none ↦ none | some n ↦ if n == 0 then none else some n ]

-- `strings.Compare` by code points: whether the first text comes before the second or is the same.
unfoldable pub text_leb : Text → Text → Bool
text_leb [] t = true
text_leb (c ∷ s) [] = false
text_leb (c ∷ s) (d ∷ t) = ltb c d || (c == d && text_leb s t)

abbrev pub insert : Text → List Text → List Text
insert t [] = t ∷ []
insert t (s ∷ ss) = let rest = insert t ss in if text_leb t s then t ∷ s ∷ ss else s ∷ rest

-- `sort.Strings`
unfoldable pub sorted : List Text → List Text
sorted [] = []
sorted (t ∷ ts) = insert t (sorted ts)

-- `strings.Join(parts, "\n")`
unfoldable pub joined : List Text → Text
joined [] = []
joined (t ∷ []) = t
joined (t ∷ s ∷ ss) = t ++ 10 ∷ joined (s ∷ ss)

unfoldable pub seen_before : List ℕ → ℕ → Bool
seen_before [] n = false
seen_before (m ∷ ms) n = m == n || seen_before ms n

module _ (c : Tables) where
  unfoldable pub portable_target_name : Text → Text
  portable_target_name value =
      filter (λ r. c.is_letter r || c.is_digit r) (map c.lower (trim_space value))

  unfoldable pub equivalent_target_name : Text → Text → Bool
  unfolding portable_target_name
  equivalent_target_name database_name plan_name =
      let d = trim_space database_name in
      let p = trim_space plan_name in
      equal_fold d p
      || (not (is_empty (portable_target_name d))
          && text_eq (portable_target_name d) (portable_target_name p))

  -- The loop over the anchors: the lines, or nothing where an anchor is refused.
  unfoldable pub canonical : List ℕ → List Anchor → Option (List Text)
  unfolding seen_before
  canonical seen [] = some []
  canonical seen (a ∷ anchors) =
      let name = portable_target_name a.name in
      let rest = canonical (a.item_id ∷ seen) anchors in
      if a.item_id == 0 || is_empty name || seen_before seen a.item_id
      then none
      else elim rest [ none ↦ none | some lines ↦ some ((itoa a.item_id ++ 0 ∷ name) ∷ lines) ]

  abbrev digest_of : Text → List Text → Text
  digest_of server_id lines = c.sha256_hex (trim_space server_id ++ 10 ∷ joined (sorted lines))

  unfoldable pub build_target_binding_digest : Text → List Anchor → Option Text
  build_target_binding_digest server_id [] = none
  build_target_binding_digest server_id (a ∷ anchors) = elim (canonical [] (a ∷ anchors)) [
    | none ↦ none
    | some lines ↦ some (digest_of server_id lines)
  ]

  unfoldable pub anchors_of : {V : Type 0} → List (PlanItem V) → Option (List Anchor)
  anchors_of [] = some []
  anchors_of (item ∷ items) =
      let rest = anchors_of items in
      elim (positive_id item.target_item_id) [
        | none ↦ none
        | some id ↦ elim rest [
          | none ↦ none
          | some anchors ↦ some (record { item_id = id; name = item.target_name } ∷ anchors)
        ]
      ]

  -- What both builders do once the server's id has been trimmed.
  unfoldable pub binding_of : {V : Type 0} → Text → List (PlanItem V) → Option Binding
  unfolding anchors_of
  binding_of server_id items = elim (anchors_of items) [
    | none ↦ none
    | some anchors ↦ elim (build_target_binding_digest server_id anchors) [
      | none ↦ none
      | some digest ↦ some (record {
        target_server_id = server_id;
        schema_identity = media_schema_identity;
        anchor_count = length anchors;
        anchor_digest = digest;
      })
    ]
  ]

  unfoldable pub build_media_database_binding :
      {V : Type 0} → Text → List (PlanItem V) → Option Binding
  unfolding binding_of
  build_media_database_binding server_id items =
      if is_empty (trim_space server_id) then none else binding_of (trim_space server_id) items

  unfoldable pub build_legacy_media_database_binding :
      {V : Type 0} → Text → List (PlanItem V) → Option Binding
  unfolding binding_of
  build_legacy_media_database_binding server_id items = binding_of (trim_space server_id) items

abbrev is_hex : ℕ → Bool
is_hex r = (leb b'0' r && leb r b'9') || (leb b'a' r && leb r b'f')

abbrev all_hex : Text → Bool
all_hex [] = true
all_hex (r ∷ s) = is_hex r && all_hex s

unfoldable pub is_known_schema_identity : Text → Bool
is_known_schema_identity identity =
    let i = trim_space identity in
    if text_eq i media_schema_identity
    then true
    else has_prefix i (codes "emby-media-") && length (drop 11 i) == 16 && all_hex (drop 11 i)

module _ (c : Tables) {V : Type 0} where
  unfoldable pub validate_media_database_plan_binding : Plan V → Option Binding
  unfolding is_known_schema_identity build_media_database_binding
      build_legacy_media_database_binding
  validate_media_database_plan_binding plan =
      let binding = plan.database_binding in
      if plan.schema_version == 2
      then elim (build_media_database_binding c plan.target.server_id plan.items) [
        | none ↦ none
        | some rebuilt ↦
            if not (text_eq binding.target_server_id rebuilt.target_server_id)
              || not (binding.anchor_count == rebuilt.anchor_count)
              || not (equal_fold binding.anchor_digest rebuilt.anchor_digest)
              || not (is_known_schema_identity binding.schema_identity)
            then none
            else some binding
      ]
      else build_legacy_media_database_binding c plan.target.server_id plan.items
