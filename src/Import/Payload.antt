-- ===== src/Import/Payload.antt =====
-- internal/exporter/service.go: the objects that are sent to the server for an item, and what is tried
-- where it refuses them: `updateItemMetadata`. A JSON object is the list of its entries.
use emby_migrator.Prelude.{
  Bool, true, false, not, ◌&&◌, ◌||◌, Option, none, some, List, [], ◌∷◌, ◌++◌, Text, codes, text_eq,
  filter, if◌then◌else◌,
}
use emby_migrator.Prelude.Result.{Result, refused, ok}
use emby_migrator.Prelude.Strings.{to_lower, equal_fold}
use emby_migrator.Import.Retry.{Failure, has_any}

-- JSON's values, with null, "Unknown" and {}; and three functions on objects: the technical fields of one
-- that is to be written (`mediaInfoPayloadFromRaw`), those of one that the server shows
-- (`sanitizedMediaInfoPayload`), and whether the latter have the former (`mediaInfoPayloadContains`).
pub record Json : Type 1 where
  pub Value : Type 0
  pub is_null : Value → Bool
  pub unknown : Value
  pub no_ids : Value
  pub technical : List (Text × Value) → List (Text × Value)
  pub shown : List (Text × Value) → List (Text × Value)
  pub payload_contains : List (Text × Value) → List (Text × Value) → Bool

abbrev pub Raw : Json → Type 0
Raw j = List (Text × j.Value)

abbrev pub is_media_info_field : Text → Bool
is_media_info_field key =
    equal_fold key (codes "MediaSources")
    || equal_fold key (codes "MediaStreams")
    || equal_fold key (codes "Chapters")

unfoldable pub should_retry_with_minimal_metadata : Failure → Bool
unfolding has_any to_lower
should_retry_with_minimal_metadata err =
    has_any (codes "http 400" ∷ codes "value cannot be null" ∷ codes "parameter 'source'" ∷ [])
      (to_lower err.text)

module _ (j : Json) where
  unfoldable pub lookup : Raw j → Text → Option j.Value
  lookup [] key = none
  lookup ((k, value) ∷ raw) key =
      let rest = lookup raw key in if text_eq k key then some value else rest

  abbrev pub with_default : Text → j.Value → Raw j → Raw j
  with_default key value raw = elim (lookup raw key) [
    | some v ↦ raw
    | none ↦ raw ++ (key, value) ∷ []
  ]

  abbrev pub with_defaults : Raw j → Raw j
  with_defaults raw =
      with_default (codes "ProviderIds") j.no_ids (with_default (codes "Source") j.unknown raw)

  unfoldable pub compatibility_metadata_payload : Raw j → Raw j
  unfolding lookup equal_fold
  compatibility_metadata_payload raw =
      with_defaults (filter (λ e. not (equal_fold e.0 (codes "Studios"))) raw)

  unfoldable pub payload_without_media_info : Raw j → Raw j
  unfolding equal_fold
  payload_without_media_info raw = filter (λ e. not (is_media_info_field e.0)) raw

  abbrev pub picked : Raw j → List Text → Raw j
  picked raw [] = []
  picked raw (key ∷ keys) =
      let rest = picked raw keys in
      elim (lookup raw key) [ none ↦ rest | some v ↦ if j.is_null v then rest else (key, v) ∷ rest ]

  unfoldable pub minimal_metadata_payload : Raw j → Raw j
  unfolding lookup
  minimal_metadata_payload raw = with_defaults (
      picked raw
        (codes "Id" ∷ codes "Type" ∷ codes "Name" ∷ codes "Source" ∷ codes "ProviderIds" ∷ []))

-- The server, each call with its retries, and whether the import was cancelled.
pub record Link (j : Json) (W : Type 0) : Type 0 where
  pub update_item : Text → Raw j → W → Option Failure × W
  pub upload_image : Text → Text → Text → W → Option Failure × W
  pub item : Text → W → Result Failure (Text × Raw j) × W
  pub has_ended : W → Bool

-- What is asked of the server to change: an item, or an image of one. It stands for one call of
-- retryWithTimeout, in which the request is sent once or several times, or not at all where the import was
-- cancelled before.
pub data Write (j : Json) : Type 0 where
  put_item : Text → Raw j → Write j
  put_image : Text → Text → Text → Write j

pub record Run (j : Json) (W : Type 0) : Type 0 where
  pub world : W
  pub writes : List (Write j)

-- `metadataUpdateResult`
pub record MetadataUpdate : Type 0 where
  pub err : Option Failure
  pub media_info_updated : Bool
  pub media_info_failed : Bool
  pub degraded : Bool

abbrev pub plain : Option Failure → MetadataUpdate
plain err = record {
  err = err;
  media_info_updated = false;
  media_info_failed = false;
  degraded = false;
}

-- The technical fields were not kept.
abbrev pub without_media_info : Option Failure → MetadataUpdate
without_media_info err = record {
  err = err;
  media_info_updated = false;
  media_info_failed = true;
  degraded = true;
}

module _ (j : Json) {W : Type 0} (link : Link j W) where
  unfoldable pub update : Text → Raw j → Run j W → Option Failure × Run j W
  update id raw r =
      let (answer, w) = link.update_item id raw r.world in
      (answer, record { world = w; writes = r.writes ++ put_item id raw ∷ [] })

  unfoldable pub verify_media_info_write : Text → Raw j → Run j W → Bool × Run j W
  verify_media_info_write id expected r =
      let (answer, w) = link.item id r.world in
      let shows : Bool = elim answer [
        | refused e ↦ false
        | ok (i, raw) ↦ j.payload_contains (j.shown raw) expected
      ] in
      (shows, record r { world = w })

  -- Whether nothing simpler is tried.
  abbrev pub gives_up : Bool → Failure → Run j W → Bool
  gives_up included err r =
      link.has_ended r.world || (not included && not (should_retry_with_minimal_metadata err))

  unfoldable pub update_minimal : Text → Raw j → Bool → Run j W → MetadataUpdate × Run j W
  unfolding update minimal_metadata_payload
  update_minimal id raw included r =
      let (answer, r1) = update id (minimal_metadata_payload j raw) r in
      (if included then without_media_info answer else plain answer, r1)

  unfoldable pub update_compatible : Text → Raw j → Bool → Run j W → MetadataUpdate × Run j W
  unfolding update_minimal compatibility_metadata_payload payload_without_media_info
      should_retry_with_minimal_metadata
  update_compatible id raw included r =
      let compatible = compatibility_metadata_payload j raw in
      let (answer, r1) =
        update id (if included then payload_without_media_info j compatible else compatible) r in
      elim answer [
        | none ↦ (if included then without_media_info none else plain none, r1)
        | some err ↦
            if gives_up included err r1
            then (plain (some err), r1)
            else update_minimal id raw included r1
      ]

  unfoldable pub update_item_metadata :
      Text → Raw j → Bool → Raw j → Run j W → MetadataUpdate × Run j W
  unfolding update_compatible verify_media_info_write
  update_item_metadata id raw included expected r =
      let (answer, r1) = update id raw r in
      elim answer [
        | none ↦
            if not included
            then (plain none, r1)
            else (let (shows, r2) = verify_media_info_write id expected r1 in
                (
                  if shows
                      then record (plain none) { media_info_updated = true }
                      else without_media_info none,
                  r2,
                ))
        | some err ↦
            if gives_up included err r1
            then (record (plain (some err)) { media_info_failed = included }, r1)
            else update_compatible id raw included r1
      ]
