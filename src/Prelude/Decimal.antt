-- ===== src/Prelude/Decimal.antt =====
-- `strconv.Itoa` on numbers that are not negative, and that it is injective.
use Prim.Native.Nat.{ℕ, zero, suc, ◌+◌, ◌-◌, ◌*◌, ◌/◌, ◌%◌, ◌<◌}
use mathlib.Core.Path.{◌≡◌, sym, ◌∙◌, ap}
use mathlib.Core.Logic.{inl, inr}
use mathlib.Core.List.{[], ◌∷◌, reverse, reverse-reverse}
use native.Mathlib.Omega.{arith}
use emby_migrator.Prelude.Tests.{ltb, if◌then◌else◌, Bool-cases}
use emby_migrator.Prelude.Lists.{Text}

-- The digits from the last one on; the fuel is more than the number.
unfoldable pub last_digits : ℕ → ℕ → Text
last_digits zero n = []
last_digits (suc fuel) n =
    let rest = last_digits fuel (n / 10) in if ltb n 10 then (48 + n) ∷ [] else (48 + n % 10) ∷ rest

unfoldable pub itoa : ℕ → Text
unfolding last_digits
itoa n = reverse (last_digits (suc n) n)

value : Text → ℕ
value [] = 0
value (c ∷ s) = (c - 48) + 10 * value s

value-last_digits : (fuel n : ℕ) → n < fuel → value (last_digits fuel n) ≡ n
unfolding value last_digits
value-last_digits zero n h = elim h [ ]
value-last_digits (suc fuel) n h = elim (Bool-cases (ltb n 10)) [
  | inl e ↦ rw (e, value) (omega arith)
  | inr e ↦ rw (e, value) (ground (arith, value-last_digits fuel (n / 10)))
]

-- Different numbers have different texts.
pub itoa-injective : (m n : ℕ) → itoa m ≡ itoa n → m ≡ n
unfolding itoa
itoa-injective m n e =
    let digits : last_digits (suc m) m ≡ last_digits (suc n) n =
      sym (reverse-reverse (last_digits (suc m) m))
      ∙ ap reverse e
      ∙ reverse-reverse (last_digits (suc n) n) in
    sym (value-last_digits (suc m) m (omega arith))
    ∙ ap value digits
    ∙ value-last_digits (suc n) n (omega arith)
