-- ===== src/Package/Intact.antt =====
-- internal/exporter/service.go: what a package is that `ValidateExportPackage` finds nothing wrong with.
use emby_migrator.Prelude.{
  suc, ◌≡◌, ◌⊎◌, inl, inr, refl, true, false, not, ◌&&◌, Option, none, some, List, [], ◌∷◌, Text,
  codes, ◌==◌, All, Bool-cases, if_cases, option_cases, arith,
}
use emby_migrator.Prelude.Strings.{trim_space, is_empty, equal_fold}
use emby_migrator.Package.Types.{found, FileInfo, FileSystem, answer_cases}
use emby_migrator.Prelude.Result.{ok, result_cases}
use emby_migrator.Package.Paths.{safe_package_path}
use emby_migrator.Package.Validate.{
  FileEntry, PackageItem, PackagePerson, Manifest, Scope, of_manifest, of_info, of_raw, of_avatar,
  of_image, PackageValidation, nothing_checked, is_ok, check_size, check_sum, check_found,
  check_file, only_path, check_images, label_of, check_item, check_items, check_people,
  validate_export_package,
}
use emby_migrator.Package.Shows.{
  Shows, shows_worse, shows_invalid, shows_same, shows_both, shows_too, shows_from, wrong_is_none,
}

module _ (fs : FileSystem) (root : Text) where
  abbrev HasSize : FileEntry → FileInfo → Type 0
  HasSize file info = (file.size ≡ 0) ⊎ (info.size ≡ file.size)

  abbrev HasSum : FileEntry → Text → Type 0
  HasSum file path =
      (is_empty (trim_space file.sha256) ≡ true)
      ⊎ ((sum : Text) × (fs.sha256 path ≡ some sum)
          × (equal_fold sum (trim_space file.sha256) ≡ true))

  -- The file is inside the package, is there, and has the size and the checksum that are recorded.
  abbrev pub Intact : FileEntry → Type 0
  Intact file =
      (path : Text) × (info : FileInfo) × (safe_package_path fs root file.path ≡ ok path)
      × (fs.stat path ≡ found info)
      × (info.is_dir ≡ false)
      × HasSize file info
      × HasSum file path

  abbrev pub IntactImage : Option FileEntry → Type 0
  IntactImage none = Unit
  IntactImage (some image) = Intact image

  -- Its description, its raw data if there are any, and its images, unless it was skipped.
  abbrev pub IntactItem : PackageItem → Type 0
  IntactItem item =
      (item.skipped ≡ true)
      ⊎ (Intact (only_path item.info_path)
          × ((is_empty (trim_space item.raw_path) ≡ true) ⊎ Intact (only_path item.raw_path))
          × All Intact item.images)

  abbrev pub IntactPackage : Manifest → Type 0
  IntactPackage manifest =
      Intact (only_path (codes "manifest.json"))
      × All IntactItem manifest.items
      × All (λ p. IntactImage p.image) manifest.people

  size-Shows :
      (scope : Scope) (file : FileEntry) (info : FileInfo) (v : PackageValidation)
      → Shows v (check_size fs root scope file info v) (HasSize file info)
  unfolding check_size
  size-Shows scope file info v =
      if_cases (λ w. Shows v w (HasSize file info))
        (not (file.size == 0) && not (info.size == file.size)) _ _
        (λ _.
          shows_worse v (record v { size_mismatches = suc v.size_mismatches }) _ scope file.path
            (omega arith))
        (λ e. shows_same v (elim (Bool-cases (file.size == 0)) [
          | inl f ↦ inl (ground (arith, f))
          | inr f ↦ inr (ground (arith, e, f))
        ]))

  sum-Shows :
      (scope : Scope) (file : FileEntry) (path : Text) (v : PackageValidation)
      → Shows v (check_sum fs root scope file path v) (HasSum file path)
  unfolding check_sum
  sum-Shows scope file path v =
      let P : PackageValidation → Type 0 = λ w. Shows v w (HasSum file path) in
      if_cases P (is_empty (trim_space file.sha256)) _ _ (λ e. shows_same v (inl e))
        (λ _.
          option_cases P (fs.sha256 path) _ _ (λ _. shows_invalid _ scope [] v)
            (λ sum e.
              if_cases P (equal_fold sum (trim_space file.sha256)) _ _
                (λ f. shows_same v (inr (sum, e, f)))
                (λ _.
                  shows_worse v (record v { checksum_mismatches = suc v.checksum_mismatches }) _
                    scope file.path (omega arith))))

  file-Shows :
      (scope : Scope) (file : FileEntry) (v : PackageValidation)
      → Shows v (check_file fs root scope file v) (Intact file)
  unfolding check_file check_found
  file-Shows scope file v =
      let w : PackageValidation = record v { checked_files = suc v.checked_files } in
      let P : PackageValidation → Type 0 = λ x. Shows v x (Intact file) in
      let Q : PackageValidation → Type 0 = λ x. Shows w x (Intact file) in
      if_cases P (is_empty (trim_space file.path)) _ _ (λ _. shows_invalid _ scope [] v)
        (λ _. shows_from v w _ refl (
          result_cases Q (safe_package_path fs root file.path) _ _
            (λ e _. shows_invalid _ scope file.path w)
            (λ path e.
              answer_cases Q (fs.stat path) _ _ _
                (λ info f.
                  if_cases Q info.is_dir _ _ (λ _. shows_invalid _ scope file.path w)
                    (λ g.
                      shows_too (λ (size, sum). (path, info, e, f, g, size, sum))
                        (shows_both (size-Shows scope file info w) (sum-Shows scope file path _))))
                (λ _.
                  shows_worse w (record w { missing_files = suc w.missing_files }) _ scope file.path
                    (omega arith))
                (λ _. shows_invalid _ scope [] w))))

  images-Shows :
      (label : Text) (images : List FileEntry) (v : PackageValidation)
      → Shows v (check_images fs root label images v) (All Intact images)
  unfolding check_images
  images-Shows label [] v = shows_same v tt
  images-Shows label (image ∷ images) v =
      shows_both (file-Shows (of_image label image.type) image v) (images-Shows label images _)

  item-Shows :
      (item : PackageItem) (v : PackageValidation)
      → Shows v (check_item fs root item v) (IntactItem item)
  unfolding check_item
  item-Shows item v =
      if_cases (λ w. Shows v w (IntactItem item)) item.skipped _ _ (λ e. shows_same v (inl e))
        (λ _. shows_too inr (
          shows_too (λ ((a, b), c). (a, b, c))
            (shows_both
              (shows_both (file-Shows (of_info (label_of item)) (only_path item.info_path) v) (
                if_cases
                  (λ x.
                    Shows
                      (check_file fs root (of_info (label_of item)) (only_path item.info_path) v) x
                      ((is_empty (trim_space item.raw_path) ≡ true)
                        ⊎ Intact (only_path item.raw_path)))
                  (is_empty (trim_space item.raw_path)) _ _ (λ e. shows_same _ (inl e))
                  (λ _.
                    shows_too inr
                      (file-Shows (of_raw (label_of item)) (only_path item.raw_path) _))))
              (images-Shows (label_of item) item.images _))))

  items-Shows :
      (items : List PackageItem) (v : PackageValidation)
      → Shows v (check_items fs root items v) (All IntactItem items)
  unfolding check_items
  items-Shows [] v = shows_same v tt
  items-Shows (item ∷ items) v = shows_both (item-Shows item v) (items-Shows items _)

  avatar-Shows :
      (name : Text) (image : Option FileEntry) (v : PackageValidation)
      → Shows v
          (elim image [ none ↦ v | some i ↦ check_file fs root (of_avatar name) i v ])
          (IntactImage image)
  avatar-Shows name none v = shows_same v tt
  avatar-Shows name (some image) v = file-Shows (of_avatar name) image v

  people-Shows :
      (people : List PackagePerson) (v : PackageValidation)
      → Shows v (check_people fs root people v) (All (λ p. IntactImage p.image) people)
  unfolding check_people
  people-Shows [] v = shows_same v tt
  people-Shows (person ∷ people) v =
      shows_both (avatar-Shows person.name person.image v) (people-Shows people _)

  -- Where the check of a package finds nothing wrong, the manifest, the description, raw data and
  -- images of each item that was not skipped, and each person's image lead to a file inside of the
  -- package that is there, is no directory, and has the size and the checksum recorded, if they are.
  pub validated-Intact :
      (manifest : Manifest)
      → is_ok (validate_export_package fs root manifest) ≡ true
      → IntactPackage manifest
  unfolding validate_export_package
  validated-Intact manifest h =
      let shown =
        shows_both
          (shows_both (file-Shows of_manifest (only_path (codes "manifest.json")) nothing_checked)
            (items-Shows manifest.items _))
          (people-Shows manifest.people _) in
      let ((manifest_is, items_are), people_are) = shown.fact (wrong_is_none _ h) in
      (manifest_is, items_are, people_are)
