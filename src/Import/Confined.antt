-- ===== src/Import/Confined.antt =====
-- internal/exporter/service.go: what `importItem` asks of the server, and what it counts.
use emby_migrator.Prelude.{
  ◌+◌, ◌≡◌, ◌≢◌, ◌⊎◌, false, none, List, ◌∷◌, ◌++◌, length, Text, if◌then◌else◌, All,
}
use emby_migrator.Prelude.Strings.{is_empty}
use emby_migrator.Import.Payload.{Json, Raw, Link, Write, put_item, Run}
use emby_migrator.Import.Types.{
  ImportRequest, Found, Entry, failed, updated, ImportMatch, is_ambiguous_reason,
}
use emby_migrator.Import.Images.{IsTo, selected}

module _ (j : Json) {W : Type 0} (link : Link j W) (req : ImportRequest)
    (image_types : List Text) where
  -- Nothing is written, and the item does not count as updated.
  abbrev IsIdle : Run j W → ImportMatch → Run j W → Type 0
  IsIdle r m after = (after.writes ≡ r.writes) × (m.status ≢ updated)

  -- The item is sent, and then nothing is asked for but of that item; the images are each counted once,
  -- unless they are skipped.
  abbrev IsSent : Entry j → Text → Run j W → ImportMatch → Run j W → Type 0
  IsSent entry id r m after =
      (req.dry_run ≡ false)
      × ((m.status ≡ updated) ⊎ (m.status ≡ failed))
      × (m.images_pushed + m.image_failures
          ≡ (if req.skip_images then 0 else length (selected j link req image_types entry.images)))
      × ((raw : Raw j) × (ws : List (Write j)) × (after.writes ≡ r.writes ++ put_item id raw ∷ ws)
          × All (IsTo j id) ws)

  -- The search found one item, and the package could be read.
  abbrev IsFound : Entry j → Found j → Type 0
  IsFound entry found =
      (found.error ≡ none)
      × (is_ambiguous_reason found.reason ≡ false)
      × (is_empty found.id ≡ false)
      × (entry.info_error ≡ none)

  abbrev pub IsConfined : Entry j → Found j → Run j W → ImportMatch × Run j W → Type 0
  IsConfined entry found r (m, after) =
      IsIdle r m after ⊎ (IsFound entry found × IsSent entry found.id r m after)

  -- The images are not counted by what is noted of the technical information.
  abbrev IsFresh : ImportMatch → Type 0
  IsFresh m = m.images_pushed + m.image_failures ≡ 0
