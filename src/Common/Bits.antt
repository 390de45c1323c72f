-- ===== src/Common/Bits.antt =====
-- The native `bit_xor` and `bit_or` against 0, from the digit recursion that they stand for.
use Prim.Native.Nat.{
  ℕ, zero, suc, ◌/◌, ◌%◌, ◌≤◌, max, bit_or, bit_xor, digits, bit_or-bitwise, bit_xor-bitwise,
  differ,
}
use mathlib.Core.Path.{◌≡◌, refl, sym, ◌∙◌, ap}
use native.Mathlib.Omega.{arith}

differ-eq_zero : (p q : ℕ) → differ p q ≡ 0 → p ≡ q
differ-eq_zero zero q h = sym h
differ-eq_zero (suc p) zero h = absurd (omega arith)
differ-eq_zero (suc p) (suc q) h = ap suc (differ-eq_zero p q h)

differ_self : (p : ℕ) → differ p p ≡ 0
differ_self zero = refl
differ_self (suc p) = differ_self p

abbrev xor_digits : ℕ → ℕ → ℕ → ℕ
xor_digits n a b = digits (λ b. b) differ n a b

xor_digits-eq_zero : (n a b : ℕ) → a ≤ n → xor_digits n a b ≡ 0 → a ≡ b
xor_digits-eq_zero zero zero b le h = sym h
xor_digits-eq_zero zero (suc a) b le h = absurd (omega arith)
xor_digits-eq_zero (suc n) zero b le h = sym h
xor_digits-eq_zero (suc n) (suc a) b le h =
    let high : suc a / 2 ≡ b / 2 =
      xor_digits-eq_zero n (suc a / 2) (b / 2) (omega arith) (omega arith) in
    let low : suc a % 2 ≡ b % 2 = differ-eq_zero (suc a % 2) (b % 2) (omega arith) in omega arith

xor_digits_self : (n a : ℕ) → a ≤ n → xor_digits n a a ≡ 0
xor_digits_self zero zero le = refl
xor_digits_self zero (suc a) le = absurd (omega arith)
xor_digits_self (suc n) zero le = refl
xor_digits_self (suc n) (suc a) le =
    omega (arith, xor_digits_self n (suc a / 2) (omega arith), differ_self (suc a % 2))

pub bit_xor-eq_zero : (a b : ℕ) → bit_xor a b ≡ 0 → a ≡ b
bit_xor-eq_zero a b h = xor_digits-eq_zero a a b (omega arith) (sym (bit_xor-bitwise a b) ∙ h)

pub bit_xor_self : (a : ℕ) → bit_xor a a ≡ 0
bit_xor_self a = bit_xor-bitwise a a ∙ xor_digits_self a a (omega arith)

abbrev or_digits : ℕ → ℕ → ℕ → ℕ
or_digits n a b = digits (λ b. b) max n a b

or_digits-eq_zero : (n a b : ℕ) → a ≤ n → or_digits n a b ≡ 0 → (a ≡ 0) × (b ≡ 0)
or_digits-eq_zero zero zero b le h = (refl, h)
or_digits-eq_zero zero (suc a) b le h = absurd (omega arith)
or_digits-eq_zero (suc n) zero b le h = (refl, h)
or_digits-eq_zero (suc n) (suc a) b le h =
    let (p, q) = or_digits-eq_zero n (suc a / 2) (b / 2) (omega arith) (omega arith) in omega arith

pub bit_or-eq_zero : (a b : ℕ) → bit_or a b ≡ 0 → (a ≡ 0) × (b ≡ 0)
bit_or-eq_zero a b h = or_digits-eq_zero a a b (omega arith) (sym (bit_or-bitwise a b) ∙ h)

pub bit_or_zeros : bit_or 0 0 ≡ 0
bit_or_zeros = refl
