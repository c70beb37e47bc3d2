-- ===== src/Import/Item.antt =====
-- internal/exporter/service.go: `importItem` and `importItemImages`. The answer of the search is an
-- argument, as is what is read of the package; texts of messages are left out.
use emby_migrator.Prelude.{
  suc, Bool, true, false, not, ◌&&◌, ◌||◌, Option, none, some, List, [], ◌∷◌, ◌++◌, Text,
  if◌then◌else◌,
}
use emby_migrator.Prelude.Result.{refused, ok}
use emby_migrator.Prelude.Strings.{is_empty}
use emby_migrator.Import.Retry.{Failure}
use emby_migrator.Import.Payload.{
  Json, Raw, Link, put_image, Run, MetadataUpdate, payload_without_media_info, update_item_metadata,
}
use emby_migrator.Import.Types.{
  ImportRequest, Found, Image, Entry, ImportStatus, failed, ambiguous, unmatched, matched, updated,
  ImportMatch, new_match, with_status, is_ambiguous_reason, database_media_info_enabled,
  allowed_image_types, is_selected,
}

module _ (j : Json) {W : Type 0} (link : Link j W) (req : ImportRequest)
    (image_types : List Text) where
  unfoldable pub upload : Text → Text → Text → Run j W → Option Failure × Run j W
  upload id kind content r =
      let (answer, w) = link.upload_image id kind content r.world in
      (answer, record { world = w; writes = r.writes ++ put_image id kind content ∷ [] })

  abbrev pub pushed : ImportMatch → ImportMatch
  pushed m = record m { images_pushed = suc m.images_pushed }

  abbrev pub not_pushed : Text → ImportMatch → ImportMatch
  not_pushed kind m = record m {
    image_failures = suc m.image_failures;
    image_errors = m.image_errors ++ kind ∷ [];
  }

  unfoldable pub import_image :
      Entry j → Text → Image → ImportMatch → Run j W → ImportMatch × Run j W
  unfolding upload allowed_image_types
  import_image entry id image m r =
      if not (is_selected (allowed_image_types image_types) image)
      then (m, r)
      else elim (entry.read_image image.path) [
        | none ↦ (not_pushed image.kind m, r)
        | some content ↦
            (let (answer, r1) = upload id image.kind content r in
              (
                elim answer as (λ _. ImportMatch) [
                  | none ↦ pushed m
                  | some e ↦ not_pushed image.kind m
                ],
                r1,
              ))
      ]

  unfoldable pub import_item_images :
      Entry j → Text → List Image → ImportMatch → Run j W → ImportMatch × Run j W
  unfolding import_image
  import_item_images entry id [] m r = (m, r)
  import_item_images entry id (image ∷ images) m r =
      let (m1, r1) = import_image entry id image m r in import_item_images entry id images m1 r1

  -- From the update of the metadata on; `note` is what is noted of its outcome.
  unfoldable pub write_item :
      Entry j
      → Text
      → Raw j
      → Bool
      → Raw j
      → (MetadataUpdate → ImportMatch → ImportMatch)
      → ImportMatch
      → Run j W
      → ImportMatch × Run j W
  unfolding update_item_metadata import_item_images
  write_item entry id raw included expected note m r =
      let (result, r1) = update_item_metadata j link id raw included expected r in
      let (m2, r2) =
        if req.skip_images
        then (note result m, r1)
        else import_item_images entry id entry.images (note result m) r1 in
      (
        with_status (elim result.err as (λ _. ImportStatus) [ none ↦ updated | some e ↦ failed ])
            m2,
        r2,
      )

  unfoldable pub note_plan : Entry j → ImportMatch → ImportMatch
  note_plan entry m =
      if entry.has_media_info
      then record m { media_info_planned = 1 }
      else record m { media_info_skipped = 1 }

  -- The technical information goes into the plan for the database.
  unfoldable pub import_with_plan :
      Entry j → Found j → ImportMatch → Run j W → ImportMatch × Run j W
  unfolding write_item note_plan
  import_with_plan entry found m r = elim (entry.merge_item_metadata found.raw false) [
    | refused e ↦ (with_status failed m, r)
    | ok (raw, _) ↦
        if req.dry_run
        then (with_status matched (note_plan entry m), r)
        else write_item entry found.id raw false [] (λ _ n. n) (note_plan entry m) r
  ]

  -- What the server has of an item; nothing where it cannot be read.
  unfoldable pub target_details :
      Found j → (Raw j → Raw j → Raw j) → Run j W → Option (Raw j) × Run j W
  target_details found merge_details r =
      if not req.import_media_info
      then (some found.raw, r)
      else (let (answer, w) = link.item found.id r.world in
          (
            elim answer as (λ _. Option (Raw j)) [
              | refused e ↦ none
              | ok (id, raw) ↦ if is_empty id then none else some (merge_details found.raw raw)
            ],
            record r { world = w },
          ))

  -- What is noted of the update's outcome.
  unfoldable pub note_media_info : MetadataUpdate → ImportMatch → ImportMatch
  note_media_info result m =
      let m1 = if result.media_info_updated then record m { media_info_updated = 1 } else m in
      if result.media_info_failed
      then record m1 { media_info_failed = 1; media_info_degraded = result.degraded }
      else m1

  -- What is noted before the update.
  unfoldable pub note_target : Bool → Bool → Bool → ImportMatch → ImportMatch
  note_target readable included is_there m =
      if not req.import_media_info
      then m
      else if not readable
      then record m { media_info_failed = 1; media_info_degraded = true }
      else if not included || is_there
      then record m { media_info_skipped = 1 }
      else if req.dry_run
      then record m { media_info_planned = 1 }
      else m

  -- The technical information is sent to the server, if it is asked for at all and the server has not got
  -- it. `mergeExportItemDetails` is an argument.
  unfoldable pub import_with_server :
      Entry j → Found j → (Raw j → Raw j → Raw j) → ImportMatch → Run j W → ImportMatch × Run j W
  unfolding write_item target_details note_target note_media_info payload_without_media_info
  import_with_server entry found merge_details m r0 =
      let (details, r) = target_details found merge_details r0 in
      let readable : Bool = elim details [ none ↦ false | some d ↦ true ] in
      let current : Raw j = elim details [ none ↦ found.raw | some d ↦ d ] in
      elim (entry.merge_item_metadata current (req.import_media_info && readable)) [
        | refused e ↦ (with_status failed m, r)
        | ok (raw, included) ↦
            let expected = j.technical raw in
            let is_there = j.payload_contains (j.shown current) expected in
            let is_kept = req.import_media_info && readable && included && is_there in
            let m1 = note_target readable included is_there m in
            let sent = if is_kept then payload_without_media_info j raw else raw in
            if req.dry_run
            then (with_status matched m1, r)
            else write_item entry found.id sent (included && not is_kept) expected note_media_info
                m1 r
      ]

  unfoldable pub import_item :
      Entry j → Found j → (Raw j → Raw j → Raw j) → Run j W → ImportMatch × Run j W
  unfolding import_with_plan import_with_server is_ambiguous_reason database_media_info_enabled
  import_item entry found merge_details r = elim found.error [
    | some e ↦ (new_match [] failed, r)
    | none ↦
        if is_ambiguous_reason found.reason
        then (new_match [] ambiguous, r)
        else if is_empty found.id
        then (new_match [] unmatched, r)
        else elim entry.info_error [
          | some e ↦ (new_match found.id failed, r)
          | none ↦
              if database_media_info_enabled req
              then import_with_plan entry found (new_match found.id matched) r
              else import_with_server entry found merge_details (new_match found.id matched) r
        ]
  ]
