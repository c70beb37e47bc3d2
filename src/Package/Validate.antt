-- ===== src/Package/Validate.antt =====
-- internal/exporter/service.go: `ValidateExportPackage`. An error is what its message is made of: what is
-- wrong, with which file, and the path that is named.
use emby_migrator.Prelude.{
  ℕ, suc, Bool, not, ◌&&◌, Option, none, some, List, [], ◌∷◌, ◌++◌, Text, codes, length, leb,
  if◌then◌else◌, ◌==◌,
}
use emby_migrator.Prelude.Strings.{trim_space, is_empty, equal_fold}
use emby_migrator.Package.Types.{found, missing, unreadable, FileInfo, FileSystem}
use emby_migrator.Prelude.Result.{refused, ok}
use emby_migrator.Package.Paths.{safe_package_path}

-- `storage.FileEntry`; a size that is not positive is 0.
pub record FileEntry : Type 0 where
  pub type : Text
  pub path : Text
  pub size : ℕ
  pub sha256 : Text

-- `storage.ItemEntry`, as far as it is checked.
pub record PackageItem : Type 0 where
  pub name : Text
  pub stable_key : Text
  pub skipped : Bool
  pub info_path : Text
  pub raw_path : Text
  pub images : List FileEntry

-- `storage.PersonEntry`
pub record PackagePerson : Type 0 where
  pub name : Text
  pub image : Option FileEntry

pub record Manifest : Type 0 where
  pub items : List PackageItem
  pub people : List PackagePerson

pub data Trouble : Type 0 where
  path_empty path_invalid file_missing unreadable_file is_directory : Trouble
  size_differs unreadable_content checksum_differs : Trouble

-- The label of a file: of which part of the package, and of which item.
pub data Scope : Type 0 where
  of_manifest : Scope
  of_info of_raw of_avatar : Text → Scope
  of_image : Text → Text → Scope

pub record PackageValidation : Type 0 where
  pub checked_files : ℕ
  pub missing_files : ℕ
  pub invalid_paths : ℕ
  pub size_mismatches : ℕ
  pub checksum_mismatches : ℕ
  pub errors : List (Trouble × Scope × Text)

abbrev pub nothing_checked : PackageValidation
nothing_checked = record {
  checked_files = 0;
  missing_files = 0;
  invalid_paths = 0;
  size_mismatches = 0;
  checksum_mismatches = 0;
  errors = [];
}

-- `addError`: the first eight are kept.
unfoldable pub add_error : Trouble → Scope → Text → PackageValidation → PackageValidation
add_error trouble scope path v =
    if leb 8 (length v.errors)
    then v
    else record v { errors = v.errors ++ (trouble, scope, path) ∷ [] }

abbrev pub bad_path : Trouble → Scope → Text → PackageValidation → PackageValidation
bad_path trouble scope path v =
    add_error trouble scope path (record v { invalid_paths = suc v.invalid_paths })

-- `OK`
unfoldable pub is_ok : PackageValidation → Bool
is_ok v =
    v.missing_files == 0
    && v.invalid_paths == 0
    && v.size_mismatches == 0
    && v.checksum_mismatches == 0

-- An entry that has a path only.
abbrev pub only_path : Text → FileEntry
only_path path = record { type = []; path = path; size = 0; sha256 = [] }

abbrev pub label_of : PackageItem → Text
label_of item = if is_empty (trim_space item.name) then item.stable_key else item.name

module _ (fs : FileSystem) (root : Text) where
  unfoldable pub check_size : Scope → FileEntry → FileInfo → PackageValidation → PackageValidation
  unfolding add_error
  check_size scope file info v =
      if not (file.size == 0) && not (info.size == file.size)
      then add_error size_differs scope file.path
          (record v { size_mismatches = suc v.size_mismatches })
      else v

  unfoldable pub check_sum : Scope → FileEntry → Text → PackageValidation → PackageValidation
  unfolding add_error
  check_sum scope file path v =
      if is_empty (trim_space file.sha256) then v else elim (fs.sha256 path) [
        | none ↦ bad_path unreadable_content scope [] v
        | some sum ↦
            if equal_fold sum (trim_space file.sha256)
            then v
            else add_error checksum_differs scope file.path
                (record v { checksum_mismatches = suc v.checksum_mismatches })
      ]

  unfoldable pub check_found : Scope → FileEntry → Text → PackageValidation → PackageValidation
  unfolding check_size check_sum
  check_found scope file path v = elim (fs.stat path) [
    | missing ↦
        add_error file_missing scope file.path (record v { missing_files = suc v.missing_files })
    | unreadable ↦ bad_path unreadable_file scope [] v
    | found info ↦
        if info.is_dir
        then bad_path is_directory scope file.path v
        else check_sum scope file path (check_size scope file info v)
  ]

  -- `check`
  unfoldable pub check_file : Scope → FileEntry → PackageValidation → PackageValidation
  unfolding check_found safe_package_path add_error
  check_file scope file v =
      let w : PackageValidation = record v { checked_files = suc v.checked_files } in
      if is_empty (trim_space file.path)
      then bad_path path_empty scope [] v
      else elim (safe_package_path fs root file.path) [
        | refused e ↦ bad_path path_invalid scope file.path w
        | ok path ↦ check_found scope file path w
      ]

  unfoldable pub check_images : Text → List FileEntry → PackageValidation → PackageValidation
  unfolding check_file
  check_images label [] v = v
  check_images label (image ∷ images) v =
      check_images label images (check_file (of_image label image.type) image v)

  unfoldable pub check_item : PackageItem → PackageValidation → PackageValidation
  unfolding check_file check_images
  check_item item v =
      let label = label_of item in
      if item.skipped
      then v
      else let v1 = check_file (of_info label) (only_path item.info_path) v in
        let v2 =
          if is_empty (trim_space item.raw_path)
          then v1
          else check_file (of_raw label) (only_path item.raw_path) v1 in
        check_images label item.images v2

  unfoldable pub check_items : List PackageItem → PackageValidation → PackageValidation
  unfolding check_item
  check_items [] v = v
  check_items (item ∷ items) v = check_items items (check_item item v)

  unfoldable pub check_people : List PackagePerson → PackageValidation → PackageValidation
  unfolding check_file
  check_people [] v = v
  check_people (person ∷ people) v =
      check_people people
        (elim person.image [ none ↦ v | some image ↦ check_file (of_avatar person.name) image v ])

  unfoldable pub validate_export_package : Manifest → PackageValidation
  unfolding check_items check_people
  validate_export_package manifest = check_people manifest.people (
      check_items manifest.items
        (check_file of_manifest (only_path (codes "manifest.json")) nothing_checked))
