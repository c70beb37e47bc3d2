-- ===== src/Examples/Imports.antt =====
-- An operation that times out once, and an item that is imported.
use emby_migrator.Prelude.{
  ℕ, zero, suc, ◌+◌, ◌≤◌, ◌<◌, ◌≡◌, refl, true, false, Option, none, some, List, [], ◌∷◌, Text,
  codes, text_eq, contains, filter, length, All, if◌then◌else◌, ◌==◌,
}
use emby_migrator.Prelude.Result.{ok}
use emby_migrator.Prelude.Strings.{is_empty, to_lower, trim_space, equal_fold}
use emby_migrator.Import.Retry.{
  Failure, is_transient_import_error, succeeded, Retried, retry_with_timeout,
}
use emby_migrator.Import.Attempts.{IsTransient, Says, retry_bounded}
use emby_migrator.Import.Payload.{
  Json, Raw, is_media_info_field, Link, Write, put_item, put_image, Run, update,
  update_item_metadata,
}
use emby_migrator.Import.Types.{ImportRequest, Found, Entry}
use emby_migrator.Import.Item.{import_item}
use emby_migrator.Import.Fields.{IsSimpler, IsShown, update_item_metadata-IsSimpler}

abbrev timed_out : Failure
timed_out = record { text = codes "i/o TIMEOUT"; is_canceled = false; is_deadline_exceeded = false }

abbrev once : ℕ → Option Failure
once zero = some timed_out
once (suc n) = none

second_succeeds : retry_with_timeout once (λ m. none) 3 ≡ (succeeded, 2)
unfolding retry_with_timeout
second_succeeds = refl

retry_bounded_example :
    let (r, calls) = retry_with_timeout once (λ m. none) 3 in
    (calls ≤ 3)
    × ((k : ℕ) → suc k < calls → IsTransient once (λ m. none) 3 k)
    × Says once (λ m. none) 3 r calls
unfolding emby_migrator.Import.Retry.allowed
retry_bounded_example = retry_bounded once (λ m. none) 3

-- Objects whose values are texts; one holds another where it has as many entries.
abbrev json : Json
json = record {
  Value = Text;
  is_null = is_empty;
  unknown = codes "Unknown";
  no_ids = codes "{}";
  technical = filter (λ e. is_media_info_field e.0);
  shown = filter (λ e. is_media_info_field e.0);
  payload_contains = λ actual expected. length actual == length expected;
}

-- A server that refuses the first request.
abbrev refused_first : Option Failure
refused_first =
    some (record { text = codes "HTTP 400"; is_canceled = false; is_deadline_exceeded = false })

abbrev film : Raw json
film =
    (codes "Name", codes "Film")
    ∷ (codes "Studios", codes "A")
    ∷ (codes "Chapters", codes "one")
    ∷ []

abbrev link : Link json ℕ
link = record {
  update_item = λ id raw w. (if w == 1 then refused_first else none, w + 1);
  upload_image = λ id kind content w. (none, w + 1);
  item = λ id w. (ok (id, (codes "Name", codes "Film") ∷ []), w + 1);
  has_ended = λ w. false;
}

abbrev request : ImportRequest
request = record {
  dry_run = false;
  skip_images = false;
  import_media_info = true;
  media_info_mode = codes "Legacy-HTTP";
}

abbrev entry : Entry json
entry = record {
  info_error = none;
  merge_item_metadata = λ raw with_media. ok (film, with_media);
  has_media_info = true;
  images =
      record { kind = codes "Primary"; path = codes "p.jpg" }
      ∷ record { kind = codes "Logo"; path = codes "l.png" }
      ∷ [];
  read_image = λ path. some path;
}

abbrev found : Found json
found = record {
  error = none;
  id = codes "7";
  raw = (codes "Name", codes "Film") ∷ [];
  reason = codes "provider";
}

abbrev nothing_yet : Run json ℕ
nothing_yet = record { world = 0; writes = [] }

abbrev kinds : List Text
kinds = codes " primary" ∷ []

-- The item goes through without its technical fields and its studios; one image is selected.
second_request_succeeds :
    (import_item json link request kinds entry found (λ raw detail. detail) nothing_yet).1.writes
    ≡ put_item (codes "7") film
      ∷ put_item (codes "7") (
          (codes "Name", codes "Film")
          ∷ (codes "Source", codes "Unknown")
          ∷ (codes "ProviderIds", codes "{}")
          ∷ [])
      ∷ put_image (codes "7") (codes "Primary") (codes "p.jpg")
      ∷ []
unfolding import_item trim_space to_lower text_eq contains equal_fold update
second_request_succeeds = refl

update_item_metadata-IsSimpler_example :
    let (result, after) = update_item_metadata json link (codes "7") film true [] nothing_yet in
    (rest : List (Write json)) × (after.writes ≡ put_item (codes "7") film ∷ rest)
    × (length rest ≤ 2)
    × All (IsSimpler json (codes "7") true) rest
    × (result.media_info_updated ≡ true
        → (true ≡ true)
          × (rest ≡ [])
          × (result.err ≡ none)
          × IsShown json link (codes "7") film [] 0)
update_item_metadata-IsSimpler_example =
    update_item_metadata-IsSimpler json link (codes "7") film true [] nothing_yet
