-- ===== src/Checkpoint/Done.antt =====
-- internal/exporter/service.go: what it means that an earlier import was of the same target and package,
-- and that an item of it is done.
use emby_migrator.Prelude.{
  ℕ, ◌≡◌, ◌≢◌, ◌⊎◌, inl, inr, refl, sym, Bool, true, false, ◌&&◌, List, [], ◌∷◌, Text, codes,
  text_eq, text_eq→eq, Bool-cases, arith,
}
use emby_migrator.Prelude.Strings.{trim_space, is_empty}
use emby_migrator.Plan.Binding.{ImportTarget}
use emby_migrator.Checkpoint.Types.{Saved}
use emby_migrator.Checkpoint.Replay.{
  Match, same_import_target, same_package_fingerprint, is_clean, should_resume_status,
  should_resume_match, should_resume_item_checkpoint, done_in,
}

-- Both texts are the same, and not blank.
abbrev IsSameText : Text → Text → Type 0
IsSameText s t = (is_empty (trim_space s) ≡ false) × (trim_space s ≡ trim_space t)

abbrev IsBlank : Text → Type 0
IsBlank t = is_empty (trim_space t) ≡ true

-- The same server: by the id, or, where neither has one, by name and version; two targets of which
-- nothing is known count as the same.
abbrev pub IsSameTarget : ImportTarget → ImportTarget → Type 0
IsSameTarget a b =
    IsSameText a.server_id b.server_id
    ⊎ (IsBlank a.server_id
        × IsBlank b.server_id
        × ((IsSameText a.server_name b.server_name × IsSameText a.version b.version)
            ⊎ (IsBlank a.server_name
                × IsBlank a.version
                × IsBlank b.server_name
                × IsBlank b.version)))

-- The same contents of the package, or one of the two is not known.
abbrev pub IsSamePackage : Text → Text → Type 0
IsSamePackage recorded current = (recorded ≡ current) ⊎ (recorded ≡ []) ⊎ (current ≡ [])

-- The item was updated, or matched by an import that was no dry run; nothing of it failed; and its media
-- information was written or was there, where that is asked for.
abbrev pub IsDone : Bool → Bool → Text → ℕ → ℕ → ℕ → ℕ → Type 0
IsDone dry_run require status image_failures failed updated skipped =
    ((status ≡ codes "updated") ⊎ ((status ≡ codes "matched") × (dry_run ≡ false)))
    × (image_failures ≡ 0)
    × (failed ≡ 0)
    × (require ≡ true → (updated ≢ 0) ⊎ (skipped ≢ 0))

abbrev pub IsDoneMatch : Bool → Bool → Text → Match → Type 0
IsDoneMatch dry_run require k m =
    (m.stable_key ≡ k)
    × IsDone dry_run require m.status m.image_failures m.media_info_failed m.media_info_updated
        m.media_info_skipped

abbrev pub IsDoneSaved : Bool → Saved → Type 0
IsDoneSaved require s =
    IsDone false require s.status s.image_failures s.media_info_failed s.media_info_updated
      s.media_info_skipped

abbrev pub SomeMatch : (Match → Type 0) → List Match → Type 0
SomeMatch P [] = ⊥
SomeMatch P (m ∷ ms) = P m ⊎ SomeMatch P ms

empty-eq : (t : Text) → is_empty t ≡ true → t ≡ []
empty-eq [] h = refl
empty-eq (c ∷ t) h = absurd (cc)

pub same_import_target-IsSameTarget :
    (a b : ImportTarget) → same_import_target a b ≡ true → IsSameTarget a b
unfolding same_import_target
same_import_target-IsSameTarget a b h =
    let a_id = is_empty (trim_space a.server_id) in
    let b_id = is_empty (trim_space b.server_id) in
    let an = is_empty (trim_space a.server_name) in
    let bn = is_empty (trim_space b.server_name) in
    let av = is_empty (trim_space a.version) in
    let bv = is_empty (trim_space b.version) in
    elim (Bool-cases a_id) [
      | inr e ↦ elim (Bool-cases b_id) [
        | inr f ↦ inl (
          e,
          text_eq→eq (trim_space a.server_id) (trim_space b.server_id) (ground (arith, h, e, f)),
        )
        | inl f ↦ absurd (ground (arith, h, e, f))
      ]
      | inl e ↦ elim (Bool-cases b_id) [
        | inr f ↦ absurd (ground (arith, h, e, f))
        | inl f ↦ elim (Bool-cases (an && av && bn && bv)) [
          | inl g ↦ inr (
            e,
            f,
            inr (ground (arith, g), ground (arith, g), ground (arith, g), ground (arith, g)),
          )
          | inr g ↦ inr (
            e,
            f,
            inl (
              (
                ground (arith, h, e, f, g),
                text_eq→eq (trim_space a.server_name) (trim_space b.server_name)
                    (ground (arith, h, e, f, g)),
              ),
              (
                ground (arith, h, e, f, g),
                text_eq→eq (trim_space a.version) (trim_space b.version)
                    (ground (arith, h, e, f, g)),
              ),
            ),
          )
        ]
      ]
    ]

pub same_package_fingerprint-IsSamePackage :
    (recorded current : Text)
    → same_package_fingerprint recorded current ≡ true
    → IsSamePackage recorded current
unfolding same_package_fingerprint
same_package_fingerprint-IsSamePackage recorded current h = elim (Bool-cases (is_empty recorded)) [
  | inl e ↦ inr (inl (empty-eq recorded e))
  | inr e ↦ elim (Bool-cases (is_empty current)) [
    | inl f ↦ inr (inr (empty-eq current f))
    | inr f ↦ inl (text_eq→eq recorded current (ground (arith, h, e, f)))
  ]
]

status-IsDone :
    (status : Text) (dry_run : Bool)
    → should_resume_status status dry_run ≡ true
    → (status ≡ codes "updated") ⊎ ((status ≡ codes "matched") × (dry_run ≡ false))
unfolding should_resume_status
status-IsDone status dry_run h = elim (Bool-cases (text_eq status (codes "updated"))) [
  | inl e ↦ inl (text_eq→eq status (codes "updated") e)
  | inr e ↦ inr (text_eq→eq status (codes "matched") (ground (arith, h, e)), ground (arith, h, e))
]

clean-IsDone :
    (dry_run require : Bool) (status : Text) (image_failures failed updated skipped : ℕ)
    → (is_clean require image_failures failed updated skipped
        && should_resume_status status dry_run)
      ≡ true
    → IsDone dry_run require status image_failures failed updated skipped
clean-IsDone dry_run require status image_failures failed updated skipped h = (
  status-IsDone status dry_run (ground (arith, h)),
  ground (arith, h),
  ground (arith, h),
  λ r. ground (arith, h, r),
)

pub should_resume_item_checkpoint-IsDoneSaved :
    (s : Saved) (require : Bool)
    → should_resume_item_checkpoint s require ≡ true
    → IsDoneSaved require s
unfolding should_resume_item_checkpoint
should_resume_item_checkpoint-IsDoneSaved s require h =
    clean-IsDone false require s.status _ _ _ _ h

pub done_in-IsDoneMatch :
    (dry_run require : Bool) (ms : List Match) (k : Text)
    → done_in dry_run require ms k ≡ true
    → SomeMatch (IsDoneMatch dry_run require k) ms
unfolding done_in should_resume_match
done_in-IsDoneMatch dry_run require [] k h = absurd (cc)
done_in-IsDoneMatch dry_run require (m ∷ ms) k h =
    elim (Bool-cases (should_resume_match m dry_run require && text_eq k m.stable_key)) [
      | inl e ↦ inl (
        sym (text_eq→eq k m.stable_key (ground (arith, e))),
        clean-IsDone dry_run require m.status _ _ _ _ (ground (arith, e)),
      )
      | inr e ↦ inr (done_in-IsDoneMatch dry_run require ms k (ground (arith, h, e)))
    ]
