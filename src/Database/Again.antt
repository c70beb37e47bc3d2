-- ===== src/Database/Again.antt =====
-- internal/embydb/embydb.go: `Apply` on a database that it has written before.
use emby_migrator.Prelude.{
  ℕ, suc, ◌+◌, ◌≡◌, ◌≢◌, refl, sym, ap, subst, ◌∙◌, not-false, Bool, true, false, not, Option, none,
  some, List, [], ◌∷◌, length, if_cases, if◌then◌else◌, ◌==◌, arith,
}
use emby_migrator.Prelude.Result.{
  Result, refused, ok, and_then, unless, need, and_then-ok, unless-ok, ok_injective, some_injective,
  result_cases,
}
use emby_migrator.Plan.Binding.{Tables}
use emby_migrator.Database.Values.{Numbers}
use emby_migrator.Database.Tables.{Keep, Db}
use emby_migrator.Database.Item.{
  ItemPatch, Statement, Effect, skipped, finding, counting, has_name, apply_item,
}
use emby_migrator.Database.Apply.{
  ApplyOptions, ApplyError, backup_failed, Counts, no_counts, count, Engine, Applied, anchors_in,
  expected_binding, validate_target_binding, check_target, as_item_error, apply_items, write_items,
  apply,
}
use emby_migrator.Database.Written.{view}
use emby_migrator.Database.Step.{IsNamed}
use emby_migrator.Database.Whole.{check_target-IsAccepted, write_items-AreApplied}
use emby_migrator.Database.Loop.{AreOutcomes, as_item_error-ok}
use emby_migrator.Database.Done.{IsOutcome-IsDone, has_name-same, anchors_in-again}

abbrev pub skip : ℕ → Counts → Counts
skip k c = record c { items_skipped = c.items_skipped + k }

-- The options of a run that keeps what is there.
abbrev pub keeping : {n : Numbers} → ApplyOptions n → ApplyOptions n
keeping o = record o { overwrite = false }

module _ {n : Numbers} (keep : Keep n) (tables : Tables) where
  skip_item :
      (fails : Statement → Bool) (item : ItemPatch n) (db : Db n)
      → (item.target_item_id == 0) ≡ false
      → fails finding ≡ false
      → fails counting ≡ false
      → IsNamed tables item (view item.target_item_id db)
      → length (view item.target_item_id db).stream_rows ≢ 0
      → apply_item keep fails tables false item db ≡ ok (skipped, db)
  unfolding apply_item and_then unless need
  skip_item fails item db positive finds counts (row, found, named) some_stream =
      let b : (length (view item.target_item_id db).stream_rows == 0) ≡ false =
        ground (arith, some_stream) in
      rw (positive, finds, found, named, counts, b) refl

  -- The reading statements of the items do not fail.
  abbrev AreRead : Engine → ℕ → List (ItemPatch n) → Type 0
  AreRead e position [] = Unit
  AreRead e position (item ∷ items) =
      ((item.target_item_id == 0) ≡ false)
      × (e.fails position finding ≡ false)
      × (e.fails position counting ≡ false)
      × AreRead e (suc position) items

  apply_items-AreRead :
      (e : Engine) (o : ApplyOptions n) (position : ℕ) (items : List (ItemPatch n)) (c : Counts)
      (db : Db n) (made : Counts × Db n)
      → apply_items keep tables e o position items c db ≡ ok made
      → AreRead e position items
  unfolding apply_items apply_item
  apply_items-AreRead e o position [] c db made h = tt
  apply_items-AreRead e o position (item ∷ items) c db made h0 =
      and_then-ok
        (λ (effect, next) e1 h.
          let rest = apply_items-AreRead e o (suc position) items (count effect c) next made h in
          and_then-ok
            (λ _ f1. and_then-ok λ _ f2. and_then-ok λ _ _. and_then-ok λ _ _.
              and_then-ok
                λ _ f5 _. (unless-ok _ _ _ f1, unless-ok _ _ _ f2, unless-ok _ _ _ f5, rest))
            (as_item_error-ok _ _ e1))
        h0

  apply_items-again :
      (e : Engine) (o : ApplyOptions n) (position : ℕ) (items : List (ItemPatch n))
      (effects : List Effect) (c : Counts) (overwrite : Bool) (before after : Db n)
      → o.overwrite ≡ false
      → AreRead e position items
      → AreOutcomes keep tables overwrite items effects before after
      → apply_items keep tables e o position items c after ≡ ok (skip (length items) c, after)
  unfolding apply_items and_then
  apply_items-again e o position [] effects c overwrite before after off reads h =
      ap (λ k. ok (record c { items_skipped = k }, after)) (omega arith)
  apply_items-again e o position (item ∷ items) [] c overwrite before after off reads h = absurd h
  apply_items-again e o position (item ∷ items) (x ∷ effects) c overwrite before after off reads h =
      let ((old, new, had, has, same), some_stream) =
        IsOutcome-IsDone keep tables overwrite item x _ _ h.0.0 h.0.1 in
      let (first, was, known) = h.0.0 in
      let kept_name : has_name tables item old ≡ true =
        ap (has_name tables item) (some_injective (sym had ∙ was)) ∙ known in
      let rest =
        apply_items-again e o (suc position) items effects (count skipped c) overwrite before after
          off reads.3 h.1 in
      let named : IsNamed tables item (view item.target_item_id after) =
        (new, has, has_name-same keep tables item old new same ∙ kept_name) in
      let skips =
        skip_item (e.fails position) item after reads.0 reads.1 reads.2 named some_stream in
      subst
        (λ b.
          and_then (as_item_error (apply_item keep (e.fails position) tables b item after))
            (λ (effect, next).
              apply_items keep tables e o (suc position) items (count effect c) next)
          ≡ ok (skip (suc (length items)) c, after))
        (sym off)
        (rw (skips, rest) (ap (λ k. ok (record c { items_skipped = k }, after)) (omega arith)))

  check_target-again :
      (e : Engine) (o : ApplyOptions n) (before after : Db n)
      → anchors_in tables after o.patches ≡ anchors_in tables before o.patches
      → check_target keep tables e o before ≡ ok tt
      → check_target keep tables e (keeping o) after ≡ ok tt
  unfolding check_target validate_target_binding expected_binding
  check_target-again e o before after same h = rw same h

module _ {n : Numbers} (keep : Keep n) (tables : Tables) (e : Engine) (o : ApplyOptions n) where
  writes_ok :
      (db : Db n) (made : Counts × Db n)
      → e.begins_again ≡ true
      → e.prepares ≡ true
      → e.is_intact ≡ true
      → e.commits ≡ true
      → apply_items keep tables e o 0 o.patches no_counts db ≡ ok made
      → write_items keep tables e o db ≡ ok made
  unfolding write_items and_then unless
  writes_ok db made begins prepares intact commits h =
      rw (begins, prepares, h, intact, commits) refl

  run-ok :
      (db written : Db n) (counts : Counts)
      → check_target keep tables e o db ≡ ok tt
      → e.backs_up ≡ true
      → write_items keep tables e o db ≡ ok (counts, written)
      → apply keep tables e o db db db
        ≡ record { answer = ok counts; database = written; backup = some db }
  unfolding apply
  run-ok db written counts checked backs done =
      let stopped : ApplyError → Option (Db n) → Applied n =
        λ x b. record { answer = refused x; database = db; backup = b } in
      let last : Result ApplyError (Counts × Db n) → Applied n = λ w. elim w [
        | refused x ↦ stopped x (some db)
        | ok (c, d) ↦ record { answer = ok c; database = d; backup = some db }
      ] in
      let middle : Bool → Applied n =
        λ b. if not b then stopped backup_failed none else last (write_items keep tables e o db) in
      ap (λ c. elim c [ refused x ↦ stopped x none | ok _ ↦ middle e.backs_up ]) checked
      ∙ ap middle backs
      ∙ ap last done

module _ {n : Numbers} (keep : Keep n) (tables : Tables) (e : Engine) (o : ApplyOptions n) where
  apply-ok :
      (db : Db n) (counts : Counts)
      → (apply keep tables e o db db db).answer ≡ ok counts
      → (check_target keep tables e o db ≡ ok tt)
        × (e.backs_up ≡ true)
        × (write_items keep tables e o db ≡ ok (counts, (apply keep tables e o db db db).database))
  unfolding apply
  apply-ok db counts h0 =
      let Goal : Applied n → Type 0 = λ a.
        a.answer ≡ ok counts
        → (check_target keep tables e o db ≡ ok tt)
          × (e.backs_up ≡ true)
          × (write_items keep tables e o db ≡ ok (counts, a.database)) in
      result_cases Goal (check_target keep tables e o db) _ _ (λ _ _ h. absurd (cc))
        (λ _ accepted.
          if_cases Goal (not e.backs_up) _ _ (λ _ h. absurd (cc))
            (λ b.
              result_cases Goal (write_items keep tables e o db) _ _ (λ _ _ h. absurd (cc))
                (λ (c, w) done h.
                  (accepted, not-false _ b, done ∙ ap (λ k. ok (k, w)) (ok_injective h)))))
        h0

  again :
      (db written : Db n) (counts : Counts)
      → check_target keep tables e o db ≡ ok tt
      → write_items keep tables e o db ≡ ok (counts, written)
      → (check_target keep tables e (keeping o) written ≡ ok tt)
        × (write_items keep tables e (keeping o) written
            ≡ ok (skip (length o.patches) no_counts, written))
  unfolding write_items
  again db written counts checked h =
      let distinct = (check_target-IsAccepted keep tables e o db checked).distinct in
      let (effects, outcomes, _, _) =
        write_items-AreApplied keep tables e o db written counts distinct h in
      (
        check_target-again keep tables e o db written
            (anchors_in-again keep tables o.overwrite o.patches effects db written outcomes)
            checked,
        (and_then-ok
            (λ _ e1. and_then-ok λ _ e2. and_then-ok λ made e3. and_then-ok λ _ e4.
              and_then-ok λ _ e5 _.
                let reads = apply_items-AreRead keep tables e o 0 o.patches no_counts db made e3 in
                let skips =
                  apply_items-again keep tables e (keeping o) 0 o.patches effects no_counts
                    o.overwrite db written refl reads outcomes in
                let begins : e.begins_again ≡ true = not-false _ (unless-ok _ _ _ e1) in
                let prepares : e.prepares ≡ true = not-false _ (unless-ok _ _ _ e2) in
                let intact : e.is_intact ≡ true = not-false _ (unless-ok _ _ _ e4) in
                let commits : e.commits ≡ true = not-false _ (unless-ok _ _ _ e5) in
                writes_ok keep tables e (keeping o) written _ begins prepares intact commits skips)
            h),
      )

  -- A second run, that keeps what is there, on the database that the first one left, succeeds: it skips
  -- every item, and leaves the database as it is. No other process writes meanwhile.
  pub apply-again :
      (db : Db n) (counts : Counts)
      → (apply keep tables e o db db db).answer ≡ ok counts
      → let written = (apply keep tables e o db db db).database in
        apply keep tables e (keeping o) written written written ≡ record {
          answer = ok (skip (length o.patches) no_counts);
          database = written;
          backup = some written;
        }
  unfolding apply
  apply-again db counts h =
      let (checked, backs, done) = apply-ok db counts h in
      let (checks, writes) =
        again db (apply keep tables e o db db db).database counts checked done in
      run-ok keep tables e (keeping o) _ _ _ checks backs writes
