-- ===== src/Package/Inside.antt =====
-- internal/exporter/service.go: the paths that are let through lead to nowhere else than the package,
-- or the directories that packages may be in.
use emby_migrator.Prelude.{
  not-false, ◌≡◌, ◌⊎◌, inl, inr, sym, ap, ◌∙◌, true, false, some, List, [], ◌∷◌, Text, codes,
  if◌then◌else◌, if_cases, option_cases, arith,
}
use emby_migrator.Prelude.Strings.{trim_space}
use emby_migrator.Prelude.Paths.{is_abs, clean}
use emby_migrator.Package.Types.{
  found, missing, unreadable, FileInfo, FileSystem, answered-ok, answer_cases,
}
use emby_migrator.Prelude.Result.{ok, and_then-ok, need-ok, unless-ok, ok_injective}
use emby_migrator.Package.Paths.{
  join, rel, goes_up, abs, canonicalize_missing_package_path, canonical_path, safe_package_path,
  canonical_root_of, path_within_any_root, resolve_export_path,
}
use emby_migrator.Package.Relative.{Within, Inside, rel-Within, rel-Inside}

module _ (fs : FileSystem) where
  -- The path without symbolic links; if there is no file, through the parents that exist.
  abbrev pub Canonical : Text → Text → Type 0
  Canonical full canonical =
      (fs.eval_symlinks full ≡ found canonical)
      ⊎ ((fs.eval_symlinks full ≡ missing)
          × (fs.is_symlink full ≡ false)
          × (canonicalize_missing_package_path fs full ≡ found canonical))

  canonical_path-Canonical :
      (full canonical : Text) → canonical_path fs full ≡ ok canonical → Canonical full canonical
  unfolding canonical_path
  canonical_path-Canonical full canonical =
      answer_cases (λ o. o ≡ ok canonical → Canonical full canonical) (fs.eval_symlinks full) _ _ _
        (λ path e h. inl (e ∙ ap found (ground (arith, h))))
        (λ e.
          if_cases (λ o. o ≡ ok canonical → Canonical full canonical) (fs.is_symlink full) _ _
            (λ _ h. absurd (cc)) (λ f h. inr (e, f, answered-ok _ _ _ _ h)))
        (λ e h. absurd (cc))

  path_taken :
      (full canonical path : Text)
      → elim (fs.stat full) [ found _ ↦ canonical | missing ↦ full | unreadable ↦ canonical ] ≡ path
      → (path ≡ canonical) ⊎ ((path ≡ full) × (fs.stat full ≡ missing))
  path_taken full canonical path =
      answer_cases (λ t. t ≡ path → (path ≡ canonical) ⊎ ((path ≡ full) × (fs.stat full ≡ missing)))
        (fs.stat full) _ _ _ (λ _ _ h. inl (sym h)) (λ e h. inr (sym h, e)) (λ _ h. inl (sym h))

  -- A path in a package, by where it lies.
  pub record IsSafe (root path : Text) : Type 0 where
    pub root_abs : Text
    pub full : Text
    pub canonical_root : Text
    pub canonical : Text
    pub root_is : abs fs root ≡ some root_abs
    pub canonical_root_is : fs.eval_symlinks root_abs ≡ found canonical_root
    pub canonical_is : Canonical full canonical
    pub full-Inside : Inside root_abs full
    pub canonical-Inside : Inside canonical_root canonical
    pub path_is : (path ≡ canonical) ⊎ ((path ≡ full) × (fs.stat full ≡ missing))

  -- A path that is let through belongs to a name that stays in the package: taken literally it is
  -- inside the package's directory, and without its symbolic links it is inside that directory
  -- without its own. It is answered as it is without links, or literally where there is no file.
  pub safe_package_path-IsSafe :
      (root rel_path path : Text) → safe_package_path fs root rel_path ≡ ok path → IsSafe root path
  unfolding safe_package_path
  safe_package_path-IsSafe root rel_path path = and_then-ok λ _ e1. and_then-ok λ _ e2.
      and_then-ok λ root_abs e3. and_then-ok λ full e4. and_then-ok λ r e5. and_then-ok λ _ e6.
        and_then-ok λ canonical_root e7. and_then-ok λ canonical e8. and_then-ok λ c e9.
          and_then-ok λ _ e10 h. record {
            root_abs = root_abs;
            full = full;
            canonical_root = canonical_root;
            canonical = canonical;
            root_is = need-ok _ _ _ e3;
            canonical_root_is = answered-ok _ _ _ _ e7;
            canonical_is = canonical_path-Canonical full canonical e8;
            full-Inside = rel-Inside root_abs full r (need-ok _ _ _ e5) (unless-ok _ _ _ e6);
            canonical-Inside =
                rel-Inside canonical_root canonical c (need-ok _ _ _ e9) (unless-ok _ _ _ e10);
            path_is = (path_taken full canonical path (ok_injective h));
          }

  -- The roots that the candidate is compared with: one of them has it.
  abbrev pub WithinOne : Text → List Text → Type 0
  WithinOne candidate [] = ⊥
  WithinOne candidate (root ∷ roots) =
      ((r : Text) × (c : Text) × (canonical_root_of fs root ≡ some r)
        × (abs fs candidate ≡ some c)
        × Within r c)
      ⊎ WithinOne candidate roots

  path_within_any_root-WithinOne :
      (candidate : Text) (roots : List Text)
      → path_within_any_root fs candidate roots ≡ true
      → WithinOne candidate roots
  unfolding path_within_any_root
  path_within_any_root-WithinOne candidate [] h = absurd (cc)
  path_within_any_root-WithinOne candidate (root ∷ roots) h0 =
      let onwards = λ (h : path_within_any_root fs candidate roots ≡ true).
        inr (path_within_any_root-WithinOne candidate roots h) in
      option_cases (λ b. b ≡ true → WithinOne candidate (root ∷ roots)) (abs fs candidate) _ _
        (λ _ h. absurd (cc))
        (λ c e.
          option_cases (λ b. b ≡ true → WithinOne candidate (root ∷ roots))
            (canonical_root_of fs root) _ _ (λ _. onwards)
            (λ r f.
              option_cases (λ b. b ≡ true → WithinOne candidate (root ∷ roots)) (rel r c) _ _
                (λ _. onwards)
                (λ t g.
                  if_cases (λ b. b ≡ true → WithinOne candidate (root ∷ roots)) (goes_up t) _ _
                    (λ _. onwards) (λ k _. inl (r, c, f, e, rel-Within r c t g k)))))
        h0

  -- A package's directory, by where it lies.
  pub record IsAllowed (exports : Text) (import_roots : List Text) (export_path resolved : Text)
      : Type 0 where
    pub exports_dir : Text
    pub real : Text
    pub manifest : FileInfo
    pub exports_are : abs fs exports ≡ some exports_dir
    pub real_is : fs.eval_symlinks resolved ≡ found real
    pub has_manifest : fs.stat (join resolved (codes "manifest.json")) ≡ found manifest
    pub real-WithinOne :
        WithinOne real
          (exports_dir ∷ (if is_abs (clean (trim_space export_path)) then import_roots else []))

  -- A directory that is let through as a package has a manifest, and without its symbolic links it
  -- is one of the allowed roots or lies in one: for an absolute path they are the directory of exports
  -- and the roots of imports, for a relative path the directory of exports alone.
  pub resolve_export_path-IsAllowed :
      (exports : Text) (import_roots : List Text) (export_path resolved name : Text)
      → resolve_export_path fs exports import_roots export_path ≡ ok (resolved, name)
      → IsAllowed exports import_roots export_path resolved
  unfolding resolve_export_path
  resolve_export_path-IsAllowed exports import_roots export_path resolved name = and_then-ok λ _ e1.
      and_then-ok λ _ e2. and_then-ok λ exports_dir e3. and_then-ok λ dir e4. and_then-ok λ _ e5.
        and_then-ok λ manifest e6. and_then-ok λ real e7. and_then-ok λ _ e8 h.
          let same : dir ≡ resolved = ap (λ q. q.0) (ok_injective h) in
          record {
            exports_dir = exports_dir;
            real = real;
            manifest = manifest;
            exports_are = need-ok _ _ _ e3;
            real_is = ap fs.eval_symlinks (sym same) ∙ answered-ok _ _ _ _ e7;
            has_manifest =
                ap (λ d. fs.stat (join d (codes "manifest.json"))) (sym same)
                ∙ answered-ok _ _ _ _ e6;
            real-WithinOne =
                path_within_any_root-WithinOne real
                  (exports_dir
                    ∷ (if is_abs (clean (trim_space export_path)) then import_roots else []))
                  (not-false _ (unless-ok _ _ _ e8));
          }
