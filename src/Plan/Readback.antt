-- ===== src/Plan/Readback.antt =====
-- internal/exporter/media_database_plan.go: the comparison of what a plan holds with what the server
-- shows after the write: `verifyMediaReadbackMaps`, `verifyMediaDatabaseSources` and its helpers.
-- A number is a float64, whose type, equality and truncation are parameters, as is
-- `reflect.DeepEqual` on what is no number and no text. A Go map is the list of its entries.
use emby_migrator.Prelude.{
  Bool, true, false, not, ◌&&◌, ◌||◌, Option, none, some, List, [], ◌∷◌, map, Text, codes, text_eq,
  contains, length, ltb, if◌then◌else◌,
}
use emby_migrator.Prelude.Strings.{trim_space, to_lower}

pub record Deep : Type 1 where
  pub Float : Type 0
  pub Nested : Type 0
  pub float_eq : Float → Float → Bool
  pub deep_equal : Nested → Nested → Bool

-- The values of a decoded JSON object.
pub data Value (d : Deep) : Type 0 where
  null : Value d
  number : d.Float → Value d
  text : Text → Value d
  other : d.Nested → Value d

abbrev pub source_exclusions : List Text
source_exclusions =
    codes "id"
    ∷ codes "path"
    ∷ codes "etag"
    ∷ codes "name"
    ∷ codes "isremote"
    ∷ codes "supportsdirectplay"
    ∷ codes "supportsdirectstream"
    ∷ codes "supportstranscoding"
    ∷ codes "mediastreams"
    ∷ []

module _ (d : Deep) where
  abbrev pub Fields : Type 0
  Fields = List (Text × Value d)

  -- `foldMediaReadbackMap`
  unfoldable pub fold_media_readback_map : Fields → Fields
  fold_media_readback_map [] = []
  fold_media_readback_map ((key, value) ∷ fields) =
      (to_lower (trim_space key), value) ∷ fold_media_readback_map fields

  unfoldable pub field : Fields → Text → Option (Value d)
  field [] key = none
  field ((k, value) ∷ fields) key =
      let rest = field fields key in if text_eq k key then some value else rest

  unfoldable pub media_readback_values_equal : Value d → Value d → Bool
  media_readback_values_equal null null = true
  media_readback_values_equal (number x) (number y) = d.float_eq x y
  media_readback_values_equal (text s) (text t) = text_eq s t
  media_readback_values_equal (other x) (other y) = d.deep_equal x y
  media_readback_values_equal _ _ = false

  abbrev pub is_null : Value d → Bool
  is_null null = true
  is_null _ = false

  -- Whether a field of the plan is passed over, or agrees with the server's.
  unfoldable pub field_agrees : List Text → Fields → Text → Value d → Bool
  unfolding media_readback_values_equal field
  field_agrees exclusions actual key value =
      contains exclusions key || is_null value || elim (field actual key) [
        | none ↦ true
        | some shown ↦ media_readback_values_equal value shown
      ]

  -- Whether `verifyMediaReadbackMaps` returns no error.
  unfoldable pub verify_media_readback_maps : List Text → Fields → Fields → Bool
  unfolding field_agrees
  verify_media_readback_maps exclusions [] actual = true
  verify_media_readback_maps exclusions ((key, value) ∷ planned) actual =
      field_agrees exclusions actual key value
      && verify_media_readback_maps exclusions planned actual

  -- The inner loop of `verifyMediaDatabaseSources`: the flags `matched` after the first free candidate
  -- that agrees, or nothing where there is none.
  unfoldable pub match_source : Fields → List Fields → List Bool → Option (List Bool)
  match_source folded (candidate ∷ candidates) (taken ∷ matched) =
      let rest = match_source folded candidates matched in
      if not taken
        && verify_media_readback_maps source_exclusions folded (fold_media_readback_map candidate)
      then some (true ∷ matched)
      else elim rest [ none ↦ none | some flags ↦ some (taken ∷ flags) ]
  match_source folded _ _ = none

  unfoldable pub match_sources : List Fields → List Fields → List Bool → Bool
  unfolding match_source
  match_sources [] actual matched = true
  match_sources (source ∷ planned) actual matched =
      elim (match_source (fold_media_readback_map source) actual matched) [
        | none ↦ false
        | some flags ↦ match_sources planned actual flags
      ]

  unfoldable pub verify_media_database_sources : List Fields → List Fields → Bool
  unfolding match_sources
  verify_media_database_sources [] actual = true
  verify_media_database_sources (source ∷ planned) actual =
      if ltb (length actual) (length (source ∷ planned))
      then false
      else match_sources (source ∷ planned) actual (map (λ x. false) actual)
