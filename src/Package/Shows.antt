-- ===== src/Package/Shows.antt =====
-- internal/exporter/service.go: what is wrong with a package is counted, and never forgotten.
use emby_migrator.Prelude.{
  ℕ, suc, ◌+◌, ◌≤◌, ◌≡◌, refl, sym, ◌∙◌, true, Text, length, leb, if_keeps, arith,
}
use emby_migrator.Package.Validate.{Trouble, Scope, PackageValidation, add_error, bad_path, is_ok}

-- How much is wrong.
abbrev pub wrong : PackageValidation → ℕ
wrong v = v.missing_files + v.invalid_paths + v.size_mismatches + v.checksum_mismatches

wrong-add_error :
    (t : Trouble) (scope : Scope) (path : Text) (v : PackageValidation)
    → wrong (add_error t scope path v) ≡ wrong v
unfolding add_error
wrong-add_error t scope path v =
    if_keeps (λ w. wrong w ≡ wrong v) (leb 8 (length v.errors)) _ _ refl refl

-- Nothing that was wrong is forgotten; and if nothing is added, then the fact holds.
pub record Shows (v w : PackageValidation) (Fact : Type 0) : Type 0 where
  pub keeps : wrong v ≤ wrong w
  pub fact : wrong w ≡ wrong v → Fact

pub shows_worse :
    {Fact : Type 0} (v u : PackageValidation) (t : Trouble) (scope : Scope) (path : Text)
    → wrong u ≡ suc (wrong v)
    → Shows v (add_error t scope path u) Fact
shows_worse v u t scope path h =
    let e = wrong-add_error t scope path u in
    record { keeps = omega (arith, e, h); fact = λ k. absurd (omega (arith, e, h, k)) }

pub shows_invalid :
    {Fact : Type 0} (t : Trouble) (scope : Scope) (path : Text) (v : PackageValidation)
    → Shows v (bad_path t scope path v) Fact
shows_invalid t scope path v =
    shows_worse v (record v { invalid_paths = suc v.invalid_paths }) t scope path (omega arith)

pub shows_same : {Fact : Type 0} (v : PackageValidation) → Fact → Shows v v Fact
shows_same v fact = record { keeps = omega arith; fact = λ _. fact }

pub shows_both :
    {Fact More : Type 0} {v w x : PackageValidation}
    → Shows v w Fact
    → Shows w x More
    → Shows v x (Fact × More)
shows_both h k =
    let a = h.keeps in
    let b = k.keeps in
    record {
      keeps = omega (arith, a, b);
      fact = λ e. (h.fact (omega (arith, a, b, e)), k.fact (omega (arith, a, b, e)));
    }

pub shows_too :
    {Fact More : Type 0} {v w : PackageValidation} → (Fact → More) → Shows v w Fact → Shows v w More
shows_too f h = record { keeps = h.keeps; fact = λ e. f (h.fact e) }

pub shows_from :
    {Fact : Type 0} (v w x : PackageValidation)
    → wrong w ≡ wrong v
    → Shows w x Fact
    → Shows v x Fact
shows_from v w x e h =
    let k = h.keeps in record { keeps = omega (arith, e, k); fact = λ f. h.fact (f ∙ sym e) }

pub wrong_is_none : (v : PackageValidation) → is_ok v ≡ true → wrong v ≡ 0
unfolding is_ok
wrong_is_none v h = ground (arith, h)
