-- ===== src/Database/Done.antt =====
-- internal/embydb/embydb.go: what the second run of `Apply` finds of an item.
use emby_migrator.Prelude.{
  ℕ, suc, ◌≡◌, ◌≢◌, refl, sym, ap, ◌∙◌, Bool, true, none, some, List, [], ◌∷◌, map, length,
}
use emby_migrator.Prelude.Result.{some_injective, >>=-some}
use emby_migrator.Plan.Binding.{Tables}
use emby_migrator.Database.Values.{Numbers, Fields, fold_keys}
use emby_migrator.Database.Tables.{Keep, ItemRow, Row, Db, Summary, summarized}
use emby_migrator.Database.Item.{ItemPatch, Effect, skipped, applied, has_name, name_text}
use emby_migrator.Database.Apply.{anchors_in}
use emby_migrator.Database.Written.{View, StreamsStored}
use emby_migrator.Database.Step.{IsOutcome, IsNamed}
use emby_migrator.Database.Loop.{AreOutcomes}

module _ {n : Numbers} (keep : Keep n) where
  summarized-name :
      (s : Summary n) (row r : ItemRow n) → summarized keep s row ≡ some r → r.name ≡ row.name
  unfolding summarized
  summarized-name s row r = >>=-some λ _ _. >>=-some λ _ _. >>=-some λ _ _.
      >>=-some λ _ _. >>=-some λ _ _. >>=-some λ _ _ h. ap (λ x. x.name) (sym (some_injective h))

  -- An item that was processed has its name still, and streams.
  abbrev pub IsDone : ItemPatch n → View n → View n → Type 0
  IsDone item before after =
      ((old : ItemRow n) × (new : ItemRow n) × (before.item_row ≡ some old)
        × (after.item_row ≡ some new)
        × (new.name ≡ old.name))
      × (length after.stream_rows ≢ 0)

  StreamsStored-length :
      (id position : ℕ) (ss : List (Fields n)) (rows : List (Row n))
      → StreamsStored keep id position ss rows
      → length rows ≡ length ss
  StreamsStored-length id position [] [] h = refl
  StreamsStored-length id position (s ∷ ss) [] h = absurd h
  StreamsStored-length id position [] (r ∷ rs) h = absurd h
  StreamsStored-length id position (s ∷ ss) (r ∷ rs) h =
      ap suc (StreamsStored-length id (suc position) ss rs h.1)

  streams_length : (ss : List (Fields n)) → length (map (fold_keys n) ss) ≡ length ss
  streams_length [] = refl
  streams_length (s ∷ ss) = ap suc (streams_length ss)

  pub IsOutcome-IsDone :
      (tables : Tables) (overwrite : Bool) (item : ItemPatch n) (effect : Effect)
      (before after : View n)
      → IsNamed tables item before
      → IsOutcome keep overwrite item effect before after
      → IsDone item before after
  IsOutcome-IsDone tables overwrite item skipped before after (row, found, _)
        (_, some_stream, same) =
      (
        (row, row, found, ap (λ v. v.item_row) same ∙ found, refl),
        λ z. some_stream (ap (λ v. length v.stream_rows) (sym same) ∙ z),
      )
  IsOutcome-IsDone tables overwrite item (applied streams chapters) before after _ (_, _, _, made) =
      (
        (made.old_row, made.new_row, made.had, made.has, summarized-name _ _ _ made.updated),
        λ z. made.has_streams (
            sym (streams_length item.media_streams)
            ∙ sym (StreamsStored-length _ _ _ _ made.streams)
            ∙ z),
      )

module _ {n : Numbers} (keep : Keep n) (tables : Tables) where
  pub has_name-same :
      (item : ItemPatch n) (old new : ItemRow n)
      → new.name ≡ old.name
      → has_name tables item new ≡ has_name tables item old
  has_name-same item old new same =
      ap (λ name. has_name tables item (record old { name = name })) same

  -- Where every item is done, the items are there with the names that they had.
  pub anchors_in-again :
      (overwrite : Bool) (items : List (ItemPatch n)) (effects : List Effect) (before after : Db n)
      → AreOutcomes keep tables overwrite items effects before after
      → anchors_in tables after items ≡ anchors_in tables before items
  unfolding anchors_in
  anchors_in-again overwrite [] effects before after h = refl
  anchors_in-again overwrite (item ∷ items) [] before after h = absurd h
  anchors_in-again overwrite (item ∷ items) (e ∷ effects) before after h =
      let rest = anchors_in-again overwrite items effects before after h.1 in
      let ((old, new, had, has, same), _) =
        IsOutcome-IsDone keep tables overwrite item e _ _ h.0.0 h.0.1 in
      let (first, was, known) = h.0.0 in
      let kept_name : has_name tables item old ≡ true =
        ap (has_name tables item) (some_injective (sym had ∙ was)) ∙ known in
      let new_name = has_name-same item old new same ∙ kept_name in
      let shown : name_text new ≡ name_text old =
        ap (λ name. name_text (record old { name = name })) same in
      rw (anchors_in, has, had, new_name, kept_name, rest)
        (ap
          (λ t. elim (anchors_in tables before items) [
            | none ↦ none
            | some anchors ↦ some (record { item_id = item.target_item_id; name = t } ∷ anchors)
          ])
          shown)
