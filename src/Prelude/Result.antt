-- ===== src/Prelude/Result.antt =====
-- Go's pair of a value and an error, as a value: chains of it, and what a chain that succeeds says.
use mathlib.Core.Path.{◌≡◌, refl, ap}
use mathlib.Core.Bool.{Bool, true, false}
use mathlib.Core.Option.{Option, none, some}
use native.Mathlib.Omega.{arith}

pub data Result {ε ℓ} (E : Type ε) (A : Type ℓ) : Type (ε ⊔ ℓ) where
  refused : E → Result E A
  ok : A → Result E A

module _ {ε} {E : Type ε} where
  unfoldable pub and_then {ℓ κ} :
      {A : Type ℓ} {B : Type κ} → Result E A → (A → Result E B) → Result E B
  and_then (refused e) f = refused e
  and_then (ok a) f = f a

  unfoldable pub need {ℓ} : {A : Type ℓ} → E → Option A → Result E A
  need e none = refused e
  need e (some a) = ok a

  -- Refused where the test holds.
  unfoldable pub unless : E → Bool → Result E (Unit {0})
  unless e true = refused e
  unless e false = ok tt

  -- Where the whole is a value, so is the first part, and so is the rest.
  pub and_then-ok {ℓ κ μ} :
      {A : Type ℓ} {B : Type κ} {C : Type μ} {o : Result E A} {f : A → Result E B} {b : B}
      → ((a : A) → o ≡ ok a → f a ≡ ok b → C)
      → and_then o f ≡ ok b
      → C
  unfolding and_then
  and_then-ok {o = refused e} k h = absurd (cc)
  and_then-ok {o = ok a} k h = k a refl h

  pub need-ok {ℓ} : {A : Type ℓ} (e : E) (o : Option A) (a : A) → need e o ≡ ok a → o ≡ some a
  unfolding need
  need-ok e none a h = absurd (cc)
  need-ok e (some b) a h = ground (arith, h)

  pub unless-ok : (e : E) (b : Bool) (u : Unit {0}) → unless e b ≡ ok u → b ≡ false
  unfolding unless
  unless-ok e true u h = absurd (cc)
  unless-ok e false u h = refl

  abbrev value_or {ℓ} : {A : Type ℓ} → A → Result E A → A
  value_or a (refused e) = a
  value_or a (ok b) = b

  pub ok_injective {ℓ} : {A : Type ℓ} {a b : A} → ◌≡◌ {A = Result E A} (ok a) (ok b) → a ≡ b
  ok_injective {a = a} h = ap (value_or a) h

  pub result_cases {ℓ κ μ} :
      {A : Type ℓ} {B : Type μ} (P : B → Type κ) (o : Result E A) (f : E → B) (g : A → B)
      → ((e : E) → o ≡ refused e → P (f e))
      → ((a : A) → o ≡ ok a → P (g a))
      → P (elim o [ refused e ↦ f e | ok a ↦ g a ])
  result_cases P (refused e) f g h k = h e refl
  result_cases P (ok a) f g h k = k a refl

-- The chain of two computations that may have no value.
infixl 5 ◌>>=◌
unfoldable pub ◌>>=◌ {ℓ κ} : {A : Type ℓ} {B : Type κ} → Option A → (A → Option B) → Option B
none >>= f = none
some a >>= f = f a

pub >>=-some {ℓ κ μ} :
    {A : Type ℓ} {B : Type κ} {C : Type μ} {o : Option A} {f : A → Option B} {b : B}
    → ((a : A) → o ≡ some a → f a ≡ some b → C)
    → (o >>= f) ≡ some b
    → C
unfolding ◌>>=◌
>>=-some {o = none} k h = absurd (cc)
>>=-some {o = some a} k h = k a refl h

abbrev some_or {ℓ} : {A : Type ℓ} → A → Option A → A
some_or a none = a
some_or a (some b) = b

pub some_injective {ℓ} : {A : Type ℓ} {a b : A} → ◌≡◌ {A = Option A} (some a) (some b) → a ≡ b
some_injective {a = a} h = ap (some_or a) h
