-- ===== src/Package/Paths.antt =====
-- internal/exporter/service.go: `safePackagePath`, `ResolveExportPath`, and what they call.
use emby_migrator.Prelude.{
  Bool, true, false, not, ◌&&◌, ◌||◌, Option, none, some, List, [], ◌∷◌, ◌++◌, map, Text, codes,
  text_eq, contains, if◌then◌else◌,
}
use emby_migrator.Prelude.Strings.{trim_space, is_empty, has_prefix, split}
use mathlib.Core.List.{reverse}
use emby_migrator.Prelude.Paths.{
  is_abs, elements, joined_by_slash, or_dot, clean, base, slash, dot, dot_dot,
}
use emby_migrator.Match.Names.{with_slashes}
use emby_migrator.Package.Types.{
  Answer, found, missing, unreadable, FileSystem, path_required, must_be_relative, no_directory,
  escapes, root_unresolved, path_unresolved, unresolved_link, escapes_through_link, not_allowed,
  not_found, resolves_outside, Outcome, answered,
}
use emby_migrator.Prelude.Result.{refused, ok, and_then, need, unless}

-- `filepath.Join` of two paths.
unfoldable pub join : Text → Text → Text
unfolding clean
join a b = if is_empty a then (if is_empty b then [] else clean b) else clean (a ++ slash ∷ b)

-- What is left of two lists without what they start with in common.
unfoldable pub strip_common : List Text → List Text → List Text × List Text
strip_common [] ts = ([], ts)
strip_common (b ∷ bs) [] = (b ∷ bs, [])
strip_common (b ∷ bs) (t ∷ ts) =
    let rest = strip_common bs ts in if text_eq b t then rest else (b ∷ bs, t ∷ ts)

-- `filepath.Rel` of absolute paths; it is called with no others.
unfoldable pub rel : Text → Text → Option Text
unfolding strip_common
rel root target =
    let (up, down) = strip_common (elements root) (elements target) in
    if is_abs root && is_abs target
    then some (or_dot (joined_by_slash (map (λ _. dot_dot) up ++ down)))
    else none

-- A relative path that starts with `..`, or is none.
unfoldable pub goes_up : Text → Bool
goes_up r = text_eq r dot_dot || has_prefix r (b'.' ∷ b'.' ∷ slash ∷ []) || is_abs r

module _ (fs : FileSystem) where
  -- `filepath.Abs`
  unfoldable pub abs : Text → Option Text
  unfolding join
  abs p =
      if is_abs p
      then some (clean p)
      else elim fs.working_directory [ none ↦ none | some d ↦ some (join d p) ]

  -- From the elements of an absolute path, the last one first, up to a parent that exists. The parents
  -- of a cleaned path are the beginnings of its elements.
  unfoldable pub canonicalize_missing_from : List Text → List Text → Answer Text
  canonicalize_missing_from [] below = missing
  canonicalize_missing_from (e ∷ up) below =
      let further = canonicalize_missing_from up (e ∷ below) in
      elim (fs.eval_symlinks (slash ∷ joined_by_slash (reverse up))) [
        | found parent ↦ found (join parent (joined_by_slash (e ∷ below)))
        | missing ↦ further
        | unreadable ↦ unreadable
      ]

  unfoldable pub canonicalize_missing_package_path : Text → Answer Text
  unfolding canonicalize_missing_from
  canonicalize_missing_package_path path = canonicalize_missing_from (reverse (elements path)) []

  -- The path without symbolic links, also where there is no file yet.
  unfoldable pub canonical_path : Text → Outcome Text
  unfolding canonicalize_missing_package_path
  canonical_path full = elim (fs.eval_symlinks full) [
    | found path ↦ ok path
    | unreadable ↦ refused path_unresolved
    | missing ↦
        if fs.is_symlink full
        then refused unresolved_link
        else answered path_unresolved path_unresolved (canonicalize_missing_package_path full)
  ]

  unfoldable pub safe_package_path : Text → Text → Outcome Text
  unfolding rel goes_up canonical_path abs
  safe_package_path root rel_path =
      let cleaned = clean rel_path in
      and_then (unless path_required (is_empty (trim_space rel_path))) λ _.
        and_then (unless must_be_relative (is_abs cleaned)) λ _.
          and_then (need no_directory (abs root)) λ root_abs.
            and_then (need no_directory (abs (join root_abs cleaned))) λ full.
              and_then (need no_directory (rel root_abs full)) λ r.
                and_then (unless escapes (text_eq r dot || goes_up r)) λ _.
                  and_then (answered root_unresolved root_unresolved (fs.eval_symlinks root_abs))
                    λ canonical_root. and_then (canonical_path full) λ canonical.
                      and_then (need no_directory (rel canonical_root canonical)) λ c.
                        and_then (unless escapes_through_link (text_eq c dot || goes_up c)) λ _.
                          ok (elim (fs.stat full) [
                            | found _ ↦ canonical
                            | missing ↦ full
                            | unreadable ↦ canonical
                          ])

  -- The root as it is compared: without symbolic links, where it exists.
  unfoldable pub canonical_root_of : Text → Option Text
  unfolding abs
  canonical_root_of root = elim (abs root) [
    | none ↦ none
    | some r ↦ some (elim (fs.eval_symlinks r) [ found c ↦ c | missing ↦ r | unreadable ↦ r ])
  ]

  unfoldable pub path_within_any_root : Text → List Text → Bool
  unfolding rel goes_up canonical_root_of
  path_within_any_root candidate [] = false
  path_within_any_root candidate (root ∷ roots) =
      let rest = path_within_any_root candidate roots in
      elim (abs candidate) [
        | none ↦ false
        | some c ↦ elim (canonical_root_of root) [
          | none ↦ rest
          | some r ↦ elim (rel r c) [ none ↦ rest | some t ↦ if goes_up t then rest else true ]
        ]
      ]

  -- The directory of a package, and its name; first the directory of exports, and the roots that
  -- imports may come from.
  unfoldable pub resolve_export_path : Text → List Text → Text → Outcome (Text × Text)
  unfolding path_within_any_root base split
  resolve_export_path exports import_roots export_path =
      let raw = trim_space export_path in
      let cleaned = clean raw in
      and_then (unless not_allowed (contains (split slash (with_slashes raw)) dot_dot)) λ _.
        and_then (unless path_required (text_eq cleaned dot || is_empty cleaned)) λ _.
          and_then (need no_directory (abs exports)) λ exports_dir.
            and_then
              (need no_directory
                (if is_abs cleaned then abs cleaned else abs (join exports_dir cleaned)))
              λ resolved.
                let allowed_roots = exports_dir ∷ (if is_abs cleaned then import_roots else []) in
                and_then (unless not_allowed (not (path_within_any_root resolved allowed_roots)))
                  λ _.
                    and_then
                      (answered not_found path_unresolved
                        (fs.stat (join resolved (codes "manifest.json"))))
                      λ _.
                        and_then
                          (answered path_unresolved path_unresolved (fs.eval_symlinks resolved))
                          λ real.
                            and_then
                              (unless resolves_outside
                                (not (path_within_any_root real allowed_roots)))
                              λ _. ok (resolved, base resolved)
