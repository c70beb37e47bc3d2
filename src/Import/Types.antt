-- ===== src/Import/Types.antt =====
-- internal/exporter/service.go: what `importItem` is given, and what it answers.
use emby_migrator.Prelude.{
  ℕ, Bool, true, false, not, ◌&&◌, Option, List, [], ◌∷◌, Text, codes, contains, map, filter,
}
use emby_migrator.Prelude.Result.{Result}
use emby_migrator.Prelude.Strings.{to_lower, trim_space, equal_fold, is_empty}
use emby_migrator.Import.Retry.{Failure, has_any}
use emby_migrator.Import.Payload.{Json, Raw}

-- `ImportRequest`
pub record ImportRequest : Type 0 where
  pub dry_run : Bool
  pub skip_images : Bool
  pub import_media_info : Bool
  pub media_info_mode : Text

-- What `findMatchWithCache` answers.
pub record Found (j : Json) : Type 0 where
  pub error : Option Failure
  pub id : Text
  pub raw : Raw j
  pub reason : Text

pub record Image : Type 0 where
  pub kind : Text
  pub path : Text

-- What importItem reads of the package for an item: an error of its info.json, the object that is made of
-- what the server has (`mergeItemMetadata`, with the technical fields or without; and whether it has them),
-- whether there is any technical information (`packageMediaInfoPayload`), the images, and their contents
-- (`safePackagePath` and the reading of the file).
pub record Entry (j : Json) : Type 0 where
  pub info_error : Option Failure
  pub merge_item_metadata : Raw j → Bool → Result Failure (Raw j × Bool)
  pub has_media_info : Bool
  pub images : List Image
  pub read_image : Text → Option Text

pub data ImportStatus : Type 0 where
  failed ambiguous unmatched matched updated : ImportStatus

-- `ImportMatch`
pub record ImportMatch : Type 0 where
  pub target_id : Text
  pub status : ImportStatus
  pub images_pushed : ℕ
  pub image_failures : ℕ
  pub image_errors : List Text
  pub media_info_updated : ℕ
  pub media_info_failed : ℕ
  pub media_info_skipped : ℕ
  pub media_info_planned : ℕ
  pub media_info_degraded : Bool

abbrev pub new_match : Text → ImportStatus → ImportMatch
new_match id status = record {
  target_id = id;
  status = status;
  images_pushed = 0;
  image_failures = 0;
  image_errors = [];
  media_info_updated = 0;
  media_info_failed = 0;
  media_info_skipped = 0;
  media_info_planned = 0;
  media_info_degraded = false;
}

abbrev pub with_status : ImportStatus → ImportMatch → ImportMatch
with_status status m = record m { status = status }

unfoldable pub is_ambiguous_reason : Text → Bool
unfolding has_any
is_ambiguous_reason reason = has_any (codes "ambiguous" ∷ []) reason

unfoldable pub database_media_info_enabled : ImportRequest → Bool
database_media_info_enabled req =
    req.import_media_info && not (equal_fold (trim_space req.media_info_mode) (codes "legacy-http"))

-- `allowedImageTypes`, the keys of the map.
unfoldable pub allowed_image_types : List Text → List Text
unfolding trim_space to_lower
allowed_image_types kinds =
    filter (λ kind. not (is_empty kind)) (map (λ kind. trim_space (to_lower kind)) kinds)

abbrev pub is_selected : List Text → Image → Bool
is_selected [] image = true
is_selected (kind ∷ kinds) image = contains (kind ∷ kinds) (to_lower image.kind)
