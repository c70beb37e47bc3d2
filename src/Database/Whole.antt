-- ===== src/Database/Whole.antt =====
-- internal/embydb/embydb.go: what `Apply` promises as a whole.
use emby_migrator.Prelude.{
  ℕ, ◌≡◌, ◌≢◌, refl, sym, ap, subst, ◌∙◌, not-false, true, not, ◌&&◌, some, List, [], ◌∷◌, length,
  Text, if_cases, option_cases, ◌==◌, All, arith,
}
use emby_migrator.Prelude.Result.{
  refused, ok, and_then-ok, need-ok, unless-ok, ok_injective, some_injective, result_cases,
}
use emby_migrator.Plan.Binding.{Tables, Anchor, canonical, build_target_binding_digest}
use emby_migrator.Plan.Bound.{AreNew, ids_of, canonical-AreNew}
use emby_migrator.Database.Schema.{validate_schema, validate_version_pair}
use emby_migrator.Prelude.Strings.{trim_space, equal_fold}
use emby_migrator.Database.Values.{Numbers}
use emby_migrator.Database.Tables.{Keep, Db, find_item}
use emby_migrator.Database.Item.{ItemPatch, has_name}
use emby_migrator.Database.Apply.{
  ApplyOptions, Counts, no_counts, Engine, Applied, anchors_in, expected_binding,
  validate_target_binding, check_target, write_items, apply,
}
use emby_migrator.Database.Written.{view}
use emby_migrator.Database.Step.{IsNamed}
use emby_migrator.Database.Loop.{
  ids, AreDistinct, AreNew-AreDistinct, AreApplied, apply_items-AreApplied,
}

module _ {n : Numbers} (keep : Keep n) (tables : Tables) (e : Engine) (o : ApplyOptions n) where
  -- The anchors are the items', in their order, and every item is found with its name.
  anchors_in-found :
      (db : Db n) (items : List (ItemPatch n)) (anchors : List Anchor)
      → anchors_in tables db items ≡ some anchors
      → (ids_of anchors ≡ ids items)
        × All (λ item. IsNamed tables item (view item.target_item_id db)) items
  unfolding anchors_in
  anchors_in-found db [] anchors h = (ap ids_of (sym (some_injective h)), tt)
  anchors_in-found db (item ∷ items) anchors h0 =
      let Goal : Type 0 =
        (ids_of anchors ≡ ids (item ∷ items))
        × All (λ i. IsNamed tables i (view i.target_item_id db)) (item ∷ items) in
      option_cases (λ x. x ≡ some anchors → Goal) (find_item item.target_item_id db.items) _ _
        (λ _ h. absurd (cc))
        (λ row found.
          if_cases (λ x. x ≡ some anchors → Goal) (has_name tables item row) _ _
            (λ named.
              option_cases (λ x. x ≡ some anchors → Goal) (anchors_in tables db items) _ _
                (λ _ h. absurd (cc))
                (λ rest f h.
                  let (same, all) = anchors_in-found db items rest f in
                  (
                    ap ids_of (sym (some_injective h)) ∙ ap (λ l. item.target_item_id ∷ l) same,
                    ((row, found, named), all),
                  )))
            (λ _ h. absurd (cc)))
        h0

  -- What the check before the backup makes sure of: a supported pair of versions, a schema that is known,
  -- at least one item, no item twice, every item there with its name, and the digest that is expected.
  pub record IsAccepted (db : Db n) : Type 0 where
    pub supported : validate_version_pair e.declared_series o.source_version o.target_version ≡ true
    pub identity : Text
    pub known : validate_schema e.inspect tables ≡ some identity
    pub some_item : length o.patches ≢ 0
    pub distinct : AreDistinct o.patches
    pub named : All (λ item. IsNamed tables item (view item.target_item_id db)) o.patches
    pub digest : Text
    pub actual : Text
    pub expected : expected_binding keep tables e o ≡ some (digest, length o.patches)
    pub anchors : List Anchor
    pub built : build_target_binding_digest tables o.target_server_id anchors ≡ some actual
    pub are : anchors_in tables db o.patches ≡ some anchors
    pub equal : equal_fold (trim_space actual) (trim_space digest) ≡ true

  digest-AreNew :
      (anchors : List Anchor) (actual : Text)
      → build_target_binding_digest tables o.target_server_id anchors ≡ some actual
      → AreNew [] (ids_of anchors)
  unfolding build_target_binding_digest
  digest-AreNew [] actual h = absurd (cc)
  digest-AreNew (a ∷ anchors) actual h0 =
      option_cases (λ x. x ≡ some actual → AreNew [] (ids_of (a ∷ anchors)))
        (canonical tables [] (a ∷ anchors)) _ _ (λ _ h. absurd (cc))
        (λ lines e _. canonical-AreNew tables [] (a ∷ anchors) lines e) h0

  -- What `validate_target_binding` reads, where it accepts.
  binding-read :
      (digest : Text) (anchor_count : ℕ) (db : Db n)
      → validate_target_binding keep tables e o digest anchor_count db ≡ true
      → (anchor_count ≡ length o.patches)
        × (anchors : List Anchor) × (actual : Text) × (anchors_in tables db o.patches
            ≡ some anchors)
        × (build_target_binding_digest tables o.target_server_id anchors ≡ some actual)
        × (equal_fold (trim_space actual) (trim_space digest) ≡ true)
  unfolding validate_target_binding
  binding-read digest anchor_count db h0 =
      let Goal : Type 0 =
        (anchor_count ≡ length o.patches)
        × (anchors : List Anchor) × (actual : Text) × (anchors_in tables db o.patches
            ≡ some anchors)
        × (build_target_binding_digest tables o.target_server_id anchors ≡ some actual)
        × (equal_fold (trim_space actual) (trim_space digest) ≡ true) in
      option_cases (λ x. (anchor_count == length o.patches && e.reads && x) ≡ true → Goal)
        (anchors_in tables db o.patches) _ _ (λ _ h. absurd (ground (arith, h)))
        (λ anchors are.
          option_cases (λ x. (anchor_count == length o.patches && e.reads && x) ≡ true → Goal)
            (build_target_binding_digest tables o.target_server_id anchors) _ _
            (λ _ h. absurd (ground (arith, h)))
            (λ actual built h. (ground (arith, h), anchors, actual, are, built, ground (arith, h))))
        h0

  pub check_target-IsAccepted :
      (db : Db n) → check_target keep tables e o db ≡ ok tt → IsAccepted db
  unfolding check_target
  check_target-IsAccepted db = and_then-ok λ _ e1. and_then-ok λ _ e2. and_then-ok λ _ e3.
      and_then-ok λ _ e4. and_then-ok λ identity e5. and_then-ok λ _ e6.
        and_then-ok λ (digest, anchor_count) e7. and_then-ok λ _ e8 h.
          let (counted, anchors, actual, are, built, equal) =
            binding-read digest anchor_count db (not-false _ (unless-ok _ _ _ e8)) in
          let (same, named) = anchors_in-found db o.patches anchors are in
          record {
            supported = not-false _ (unless-ok _ _ _ e1);
            identity = identity;
            known = need-ok _ _ _ e5;
            some_item = λ z. absurd (ground (arith, unless-ok _ _ _ e3, z));
            distinct =
                AreNew-AreDistinct [] o.patches
                  (subst (AreNew []) same (digest-AreNew anchors actual built));
            named = named;
            digest = digest;
            actual = actual;
            expected = need-ok _ _ _ e7 ∙ ap (λ k. some (digest, k)) counted;
            anchors = anchors;
            built = built;
            are = are;
            equal = equal;
          }

  pub write_items-AreApplied :
      (db written : Db n) (counts : Counts)
      → AreDistinct o.patches
      → write_items keep tables e o db ≡ ok (counts, written)
      → AreApplied keep tables e o o.patches no_counts db counts written
  unfolding write_items
  write_items-AreApplied db written counts distinct = and_then-ok λ _ e1. and_then-ok λ _ e2.
      and_then-ok λ (c, w) e3. and_then-ok λ _ e4. and_then-ok λ _ e5 h.
        let pair = ok_injective h in
        subst (λ p. AreApplied keep tables e o o.patches no_counts db p.0 p.1) pair
          (apply_items-AreApplied keep tables e o 0 o.patches no_counts c db w distinct e3)

  -- What is promised, by the answer.
  abbrev pub IsPromised : Db n → Db n → Db n → Applied n → Type 0
  IsPromised at_check at_backup at_write a = elim a.answer [
    | refused x ↦ a.database ≡ at_write
    | ok counts ↦
        IsAccepted at_check
        × (a.backup ≡ some at_backup)
        × AreApplied keep tables e o o.patches no_counts at_write counts a.database
  ]

  -- Where the answer is an error, the database is as it was. Where it is not, the database was accepted, a
  -- backup was made of it, each item of the plan is either kept, because it has streams already and nothing
  -- is to be overwritten, or holds the planned streams, chapters and summary and no other streams and
  -- chapters, every stored row reads as equal to the planned one, the counts are those of the items, and
  -- what the database holds of any other item is as it was.
  pub apply-IsPromised :
      (at_check at_backup at_write : Db n)
      → IsPromised at_check at_backup at_write (apply keep tables e o at_check at_backup at_write)
  unfolding apply
  apply-IsPromised at_check at_backup at_write =
      let Promised = IsPromised at_check at_backup at_write in
      result_cases Promised (check_target keep tables e o at_check) _ _ (λ _ _. refl)
        (λ _ accepted.
          if_cases Promised (not e.backs_up) _ _ (λ _. refl)
            (λ _.
              result_cases Promised (write_items keep tables e o at_write) _ _ (λ _ _. refl)
                (λ (counts, written) done.
                  let is = check_target-IsAccepted at_check accepted in
                  (is, refl, write_items-AreApplied at_write written counts is.distinct done))))
