-- ===== src/Package/Types.antt =====
-- internal/exporter/service.go: what the paths of a package are looked up in, and why one is refused.
use emby_migrator.Prelude.{ℕ, Bool, Option, Text, ◌≡◌, refl, arith}
use emby_migrator.Prelude.Result.{Result, refused, ok}

-- What the file system answers: `os.IsNotExist` is told apart from other errors.
pub data Answer {ℓ} (A : Type ℓ) : Type ℓ where
  found : A → Answer A
  missing unreadable : Answer A

-- `os.FileInfo`, as far as it is read.
pub record FileInfo : Type 0 where
  pub is_dir : Bool
  pub size : ℕ

-- The file system: `os.Getwd`, `filepath.EvalSymlinks`, `os.Stat`, whether `os.Lstat` answers with a
-- symbolic link, and the SHA-256 of a file's content in hexadecimal, `none` where it is not read.
pub record FileSystem : Type 0 where
  pub working_directory : Option Text
  pub eval_symlinks : Text → Answer Text
  pub stat : Text → Answer FileInfo
  pub is_symlink : Text → Bool
  pub sha256 : Text → Option Text

pub data PathError : Type 0 where
  path_required must_be_relative no_directory escapes : PathError
  root_unresolved path_unresolved unresolved_link escapes_through_link : PathError
  not_allowed not_found resolves_outside : PathError

-- Go's pair of a value and an error.
abbrev pub Outcome {ℓ} : Type ℓ → Type ℓ
Outcome A = Result PathError A

unfoldable pub answered {ℓ} : {A : Type ℓ} → PathError → PathError → Answer A → Outcome A
answered absent broken (found a) = ok a
answered absent broken missing = refused absent
answered absent broken unreadable = refused broken

pub answered-ok {ℓ} :
    {A : Type ℓ} (absent broken : PathError) (o : Answer A) (a : A)
    → answered absent broken o ≡ ok a
    → o ≡ found a
unfolding answered
answered-ok absent broken (found b) a h = ground (arith, h)
answered-ok absent broken missing a h = absurd (cc)
answered-ok absent broken unreadable a h = absurd (cc)

pub answer_cases {ℓ κ μ} :
    {A : Type ℓ} {B : Type μ} (P : B → Type κ) (o : Answer A) (f : A → B) (x y : B)
    → ((a : A) → o ≡ found a → P (f a))
    → (o ≡ missing → P x)
    → (o ≡ unreadable → P y)
    → P (elim o [ found a ↦ f a | missing ↦ x | unreadable ↦ y ])
answer_cases P (found a) f x y h k l = h a refl
answer_cases P missing f x y h k l = k refl
answer_cases P unreadable f x y h k l = l refl
