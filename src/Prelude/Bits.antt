-- ===== src/Prelude/Bits.antt =====
-- The operations on binary digits: what it says that a result is 0.
use Prim.Native.Nat.{bit_or, bit_xor, bit_or-bitwise, bit_xor-bitwise, digits, bitwise, differ, max}
use emby_migrator.Prelude.{ℕ, zero, suc, ◌/◌, ◌%◌, ◌≤◌, ◌≡◌, refl, sym, ◌∙◌, arith}

differ-zero : (x y : ℕ) → differ x y ≡ 0 → x ≡ y
differ-zero zero y e = omega arith
differ-zero (suc x) zero e = omega arith
differ-zero (suc x) (suc y) e = let h = differ-zero x y e in omega arith

max-zero : (x y : ℕ) → max x y ≡ 0 → (x ≡ 0) × (y ≡ 0)
max-zero zero y e = (refl, omega arith)
max-zero (suc x) zero e = absurd (omega arith)
max-zero (suc x) (suc y) e = absurd (omega arith)

digits-differ_zero : (n a b : ℕ) → a ≤ n → digits (λ b. b) differ n a b ≡ 0 → a ≡ b
digits-differ_zero zero a b l e = omega arith
digits-differ_zero (suc n) zero b l e = omega arith
digits-differ_zero (suc n) (suc a) b l e =
    let low = differ-zero (suc a % 2) (b % 2) (omega arith) in
    let high = digits-differ_zero n (suc a / 2) (b / 2) (omega arith) (omega arith) in omega arith

digits-max_zero : (n a b : ℕ) → a ≤ n → digits (λ b. b) max n a b ≡ 0 → (a ≡ 0) × (b ≡ 0)
digits-max_zero zero a b l e = (omega arith, e)
digits-max_zero (suc n) zero b l e = (refl, e)
digits-max_zero (suc n) (suc a) b l e =
    let low = max-zero (suc a % 2) (b % 2) (omega arith) in
    let high = digits-max_zero n (suc a / 2) (b / 2) (omega arith) (omega arith) in
    absurd (omega arith)

-- An exclusive or of 0 says that the numbers are the same.
pub bit_xor-zero : (a b : ℕ) → bit_xor a b ≡ 0 → a ≡ b
bit_xor-zero a b e =
    let h : bit_xor a b ≡ bitwise (λ b. b) differ a b = λ i. bit_xor-bitwise a b i in
    digits-differ_zero a a b (omega arith) (sym h ∙ e)

-- An or of 0 says that both numbers are 0.
pub bit_or-zero : (a b : ℕ) → bit_or a b ≡ 0 → (a ≡ 0) × (b ≡ 0)
bit_or-zero a b e =
    let h : bit_or a b ≡ bitwise (λ b. b) max a b = λ i. bit_or-bitwise a b i in
    digits-max_zero a a b (omega arith) (sym h ∙ e)
