-- ===== src/Examples/PackagePaths.antt =====
-- Paths and the check of a package, on a file system with one package.
use emby_migrator.Prelude.{
  ℕ, ◌≡◌, refl, Bool, true, false, Option, none, some, List, [], ◌∷◌, ◌++◌, Text, codes, text_eq,
  if◌then◌else◌,
}
use emby_migrator.Package.Types.{
  Answer, found, missing, unreadable, FileInfo, FileSystem, Outcome, PathError, escapes,
  escapes_through_link,
}
use emby_migrator.Prelude.Result.{refused, ok}
use emby_migrator.Package.Paths.{safe_package_path, resolve_export_path}
use emby_migrator.Package.Inside.{
  IsSafe, IsAllowed, safe_package_path-IsSafe, resolve_export_path-IsAllowed,
}
use emby_migrator.Package.Validate.{
  PackageItem, PackagePerson, FileEntry, Manifest, is_ok, validate_export_package,
}
use emby_migrator.Package.Intact.{IntactPackage, validated-Intact}

abbrev a_directory : Answer FileInfo
a_directory = found (record { is_dir = true; size = 0 })

abbrev a_file : Answer FileInfo
a_file = found (record { is_dir = false; size = 3 })

-- `/d/p` is a package; `/d/p/link` leads out of it; any other path is a file as it stands.
abbrev files : FileSystem
files = record {
  working_directory = none;
  eval_symlinks =
      λ t. if text_eq t (codes "/d/p/link") then found (codes "/etc/passwd") else found t;
  stat = λ t. if text_eq t (codes "/d/p") then a_directory else a_file;
  is_symlink = λ t. text_eq t (codes "/d/p/link");
  sha256 = λ t. some (codes "abc123");
}

link_is_refused :
    safe_package_path files (codes "/d/p") (codes "link") ≡ refused escapes_through_link
unfolding safe_package_path emby_migrator.Prelude.Result.and_then
    emby_migrator.Prelude.Result.unless emby_migrator.Prelude.Strings.trim_space
    emby_migrator.Prelude.Strings.split emby_migrator.Prelude.Result.need
    emby_migrator.Prelude.Strings.has_prefix emby_migrator.Package.Types.answered
link_is_refused = refl

parent_is_refused : safe_package_path files (codes "/d/p") (codes "items/../../q") ≡ refused escapes
unfolding safe_package_path emby_migrator.Prelude.Result.and_then
    emby_migrator.Prelude.Result.unless emby_migrator.Prelude.Strings.trim_space
    emby_migrator.Prelude.Strings.split emby_migrator.Prelude.Result.need
    emby_migrator.Prelude.Strings.has_prefix emby_migrator.Package.Types.answered
parent_is_refused = refl

info_is_safe :
    safe_package_path files (codes "/d/p") (codes "items/./info.json")
    ≡ ok (codes "/d/p/items/info.json")
unfolding safe_package_path emby_migrator.Prelude.Result.and_then
    emby_migrator.Prelude.Result.unless emby_migrator.Prelude.Strings.trim_space
    emby_migrator.Prelude.Strings.split emby_migrator.Prelude.Result.need
    emby_migrator.Prelude.Strings.has_prefix emby_migrator.Package.Types.answered
info_is_safe = refl

safe_package_path-IsSafe_example : IsSafe files (codes "/d/p") (codes "/d/p/items/info.json")
safe_package_path-IsSafe_example =
    safe_package_path-IsSafe files (codes "/d/p") (codes "items/./info.json")
      (codes "/d/p/items/info.json") info_is_safe

package_is_allowed :
    resolve_export_path files (codes "/d") [] (codes " p/ ") ≡ ok (codes "/d/p", codes "p")
unfolding resolve_export_path emby_migrator.Prelude.Result.and_then
    emby_migrator.Prelude.Result.unless emby_migrator.Prelude.contains
    emby_migrator.Prelude.Strings.trim_space emby_migrator.Prelude.Result.need
    emby_migrator.Prelude.Strings.has_prefix emby_migrator.Package.Types.answered
package_is_allowed = refl

resolve_export_path-IsAllowed_example :
    IsAllowed files (codes "/d") [] (codes " p/ ") (codes "/d/p")
resolve_export_path-IsAllowed_example =
    resolve_export_path-IsAllowed files (codes "/d") [] (codes " p/ ") (codes "/d/p") (codes "p")
      package_is_allowed

abbrev manifest : Manifest
manifest = record {
  items =
      record {
        name = codes "Film";
        stable_key = codes "k";
        skipped = false;
        info_path = codes "items/info.json";
        raw_path = [];
        images =
            record {
              type = codes "Primary";
              path = codes "a.jpg";
              size = 3;
              sha256 = codes "ABC123";
            }
            ∷ [];
      }
      ∷ [];
  people = record { name = codes "P"; image = none } ∷ [];
}

package_is_ok : is_ok (validate_export_package files (codes "/d/p") manifest) ≡ true
unfolding validate_export_package safe_package_path emby_migrator.Prelude.Result.and_then
    emby_migrator.Prelude.Result.unless emby_migrator.Prelude.Strings.trim_space
    emby_migrator.Prelude.Strings.split emby_migrator.Prelude.Result.need
    emby_migrator.Prelude.Strings.has_prefix emby_migrator.Package.Types.answered
    emby_migrator.Package.Validate.is_ok emby_migrator.Prelude.Strings.equal_fold
    emby_migrator.Package.Validate.check_file
package_is_ok = refl

validated-Intact_example : IntactPackage files (codes "/d/p") manifest
validated-Intact_example = validated-Intact files (codes "/d/p") manifest package_is_ok
