-- ===== src/Database/Step.antt =====
-- internal/embydb/embydb.go: one step of `Apply`'s loop, which is `applyItem`.
use emby_migrator.Prelude.{
  inl, inr, ℕ, ◌≡◌, ◌≢◌, ◌⊎◌, refl, sym, ap, subst, ◌∙◌, Bool, true, false, not, ◌&&◌, some, List,
  ◌++◌, append-nil, map, length, not-false, Bool-cases, if_cases, ◌==◌, arith,
}
use emby_migrator.Prelude.Result.{ok, and_then-ok, need-ok, unless-ok, ok_injective}
use emby_migrator.Plan.Binding.{Tables}
use emby_migrator.Database.Values.{Numbers, fold_keys}
use emby_migrator.Database.Tables.{
  Keep, ItemRow, Row, Db, find_item, rows_of, count_streams, delete_rows, summarized,
}
use emby_migrator.Database.TableLaws.{
  AllOf, rows_of-append, rows_of-all, rows_of-others, rows_of-delete, rows_of-delete_others,
  find_item-updated, find_item-others,
}
use emby_migrator.Database.Rows.{summary_of}
use emby_migrator.Database.Item.{
  ItemPatch, Statement, Effect, skipped, applied, has_name, rewrite_item, apply_item,
}
use emby_migrator.Database.Written.{
  View, view, StreamsStored, ChaptersStored, write_streams-Stored, write_chapters-Stored,
}

module _ {n : Numbers} where
  -- The rows of an item after its old ones were deleted and new ones added; the others' are as they were.
  replaced :
      (id other : ℕ) (rows added new : List (Row n))
      → AllOf id added
      → new ≡ delete_rows id rows ++ added
      → (rows_of id new ≡ added) × (other ≢ id → rows_of other new ≡ rows_of other rows)
  replaced id other rows added new all made = (
    ap (rows_of id) made
        ∙ rows_of-append id (delete_rows id rows) added
        ∙ ap (λ l. l ++ rows_of id added) (rows_of-delete id rows)
        ∙ rows_of-all id added all,
    λ ne.
        ap (rows_of other) made
        ∙ rows_of-append other (delete_rows id rows) added
        ∙ ap (λ l. rows_of other (delete_rows id rows) ++ l) (rows_of-others id other added ne all)
        ∙ append-nil (rows_of other (delete_rows id rows))
        ∙ rows_of-delete_others id other rows ne,
  )

  same_view :
      {v w : View n}
      → v.stream_rows ≡ w.stream_rows
      → v.chapter_rows ≡ w.chapter_rows
      → v.item_row ≡ w.item_row
      → v ≡ w
  same_view p q r = λ i. record { stream_rows = p i; chapter_rows = q i; item_row = r i }

  -- Of the item with that id nothing is changed.
  abbrev pub AreUntouched : ℕ → Db n → Db n → Type 0
  AreUntouched id db next = view id next ≡ view id db

  -- The item's row is there and has the name that the plan gives.
  abbrev pub IsNamed : Tables → ItemPatch n → View n → Type 0
  IsNamed tables item v =
      (row : ItemRow n) × (v.item_row ≡ some row) × (has_name tables item row ≡ true)

module _ {n : Numbers} (keep : Keep n) where
  -- What an item that is written has: its streams and chapters alone, as planned, and what the columns of
  -- its row keep of the plan's summary.
  pub record Rewritten (item : ItemPatch n) (before after : View n) : Type 0 where
    pub has_streams : length item.media_streams ≢ 0
    pub streams :
        StreamsStored keep item.target_item_id 0
          (map (fold_keys n) item.media_streams)
          after.stream_rows
    pub chapters : ChaptersStored keep item.target_item_id 0 item.chapters after.chapter_rows
    pub old_row : ItemRow n
    pub new_row : ItemRow n
    pub had : before.item_row ≡ some old_row
    pub has : after.item_row ≡ some new_row
    pub updated :
        summarized keep
          (summary_of n (fold_keys n item.media_source) (map (fold_keys n) item.media_streams))
          old_row
        ≡ some new_row

  rewrite_item-Rewritten :
      (fails : Statement → Bool) (item : ItemPatch n) (db next : Db n) (row : ItemRow n)
      (effect : Effect)
      → find_item item.target_item_id db.items ≡ some row
      → rewrite_item keep fails item db ≡ ok (effect, next)
      → (effect ≡ applied (length item.media_streams) (length item.chapters))
        × Rewritten item (view item.target_item_id db) (view item.target_item_id next)
        × ((other : ℕ) → other ≢ item.target_item_id → AreUntouched other db next)
  unfolding rewrite_item
  rewrite_item-Rewritten fails item db next row effect found =
      let id = item.target_item_id in
      let s = summary_of n (fold_keys n item.media_source) (map (fold_keys n) item.media_streams) in
      and_then-ok λ _ e1. and_then-ok λ _ e2. and_then-ok λ _ e3. and_then-ok λ ss e4.
        and_then-ok λ cs e5. and_then-ok λ _ e6. and_then-ok λ is e7 h.
          let done : Db n = record { items = is; streams = ss; chapters = cs } in
          let pair = ok_injective h in
          let same : done ≡ next = ap (λ p. p.1) pair in
          let nonempty = unless-ok _ _ _ e1 in
          let (ss', s_stored, s_all, s_made) =
            write_streams-Stored keep fails id 0 _ (delete_rows id db.streams) ss e4 in
          let (cs', c_stored, c_all, c_made) =
            write_chapters-Stored keep fails id 0 _ (delete_rows id db.chapters) cs e5 in
          let (r, made, now) =
            find_item-updated keep id s db.items is row (need-ok _ _ _ e7) found in
          let s_now = (replaced id id db.streams ss' ss s_all s_made).0 in
          let c_now = (replaced id id db.chapters cs' cs c_all c_made).0 in
          (
            sym (ap (λ p. p.0) pair),
            record {
              has_streams = λ z. absurd (ground (arith, nonempty, z));
              streams =
                  subst (StreamsStored keep id 0 (map (fold_keys n) item.media_streams))
                    (sym s_now ∙ ap (λ d. rows_of id d.streams) same) s_stored;
              chapters =
                  subst (ChaptersStored keep id 0 item.chapters)
                    (sym c_now ∙ ap (λ d. rows_of id d.chapters) same) c_stored;
              old_row = row;
              new_row = r;
              had = found;
              has = sym (ap (λ d. find_item id d.items) same) ∙ now;
              updated = made;
            },
            λ other ne.
                ap (view other) (sym same)
                ∙ same_view ((replaced id other db.streams ss' ss s_all s_made).1 ne)
                    ((replaced id other db.chapters cs' cs c_all c_made).1 ne)
                    (find_item-others keep id other s db.items is ne (need-ok _ _ _ e7)),
          )

  -- What the loop did with an item: it kept what was there, or it wrote the item.
  abbrev pub IsOutcome : Bool → ItemPatch n → Effect → View n → View n → Type 0
  IsOutcome overwrite item skipped before after =
      (overwrite ≡ false) × (length before.stream_rows ≢ 0) × (after ≡ before)
  IsOutcome overwrite item (applied streams chapters) before after =
      ((overwrite ≡ true) ⊎ (length before.stream_rows ≡ 0))
      × (streams ≡ length item.media_streams)
      × (chapters ≡ length item.chapters)
      × Rewritten item before after

  pub apply_item-IsOutcome :
      (fails : Statement → Bool) (tables : Tables) (overwrite : Bool) (item : ItemPatch n)
      (db next : Db n) (effect : Effect)
      → apply_item keep fails tables overwrite item db ≡ ok (effect, next)
      → IsNamed tables item (view item.target_item_id db)
        × IsOutcome overwrite item effect
            (view item.target_item_id db)
            (view item.target_item_id next)
        × ((other : ℕ) → other ≢ item.target_item_id → AreUntouched other db next)
  unfolding apply_item
  apply_item-IsOutcome fails tables overwrite item db next effect =
      let id = item.target_item_id in
      let Goal : Type 0 =
        IsNamed tables item (view id db)
        × IsOutcome overwrite item effect (view id db) (view id next)
        × ((other : ℕ) → other ≢ id → AreUntouched other db next) in
      and_then-ok λ _ e1. and_then-ok λ _ e2. and_then-ok λ row e3. and_then-ok λ _ e4.
        and_then-ok λ _ e5 h.
          let found = need-ok _ _ _ e3 in
          let named : IsNamed tables item (view id db) =
            (row, found, not-false _ (unless-ok _ _ _ e4)) in
          if_cases (λ o. o ≡ ok (effect, next) → Goal)
            (not (count_streams id db == 0) && not overwrite) _ _
            (λ b h.
              let pair = ok_injective h in
              let same : db ≡ next = ap (λ p. p.1) pair in
              (
                named,
                subst (λ x. IsOutcome overwrite item x (view id db) (view id next))
                    (ap (λ p. p.0) pair)
                    (
                      ground (arith, b),
                      (λ z. absurd (ground (arith, b, z))),
                      ap (view id) (sym same),
                    ),
                λ other _. ap (view other) (sym same),
              ))
            (λ b h.
              let (is, made, others) =
                rewrite_item-Rewritten fails item db next row effect found h in
              (
                named,
                subst (λ x. IsOutcome overwrite item x (view id db) (view id next)) (sym is)
                    (
                      elim (Bool-cases overwrite) [
                        | inl t ↦ inl t
                        | inr f ↦ inr (ground (arith, b, f))
                      ],
                      refl,
                      refl,
                      made,
                    ),
                others,
              ))
            h
