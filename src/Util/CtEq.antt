-- ===== src/Util/CtEq.antt =====
-- anchor-core/src/util.rs: what `ct_eq_32` decides.
use dsm_unplugged.Common.{
  ℕ, ◌≡◌, refl, sym, ap, ◌∙◌, ◌↔◌, ◌⊎◌, inl, inr, true, false, Array, nil, cons, bit_or, bit_xor,
  ==_iff, Bool-cases,
}
use dsm_unplugged.Common.Bits.{bit_xor-eq_zero, bit_xor_self, bit_or-eq_zero, bit_or_zeros}
use dsm_unplugged.Util.{ct_diff, ct_eq_32}
use mathlib.Core.Path.{ap₂}

ct_diff-eq_zero : {n : ℕ} (diff : ℕ) (a b : Array n) → ct_diff diff a b ≡ 0 → (diff ≡ 0) × (a ≡ b)
unfolding ct_diff
ct_diff-eq_zero diff nil nil h = (h, refl)
ct_diff-eq_zero diff (cons x a) (cons y b) h =
    let (p, q) = ct_diff-eq_zero (bit_or diff (bit_xor x y)) a b h in
    let (d, e) = bit_or-eq_zero diff (bit_xor x y) p in (d, ap₂ cons (bit_xor-eq_zero x y e) q)

ct_diff_self : {n : ℕ} (a : Array n) → ct_diff 0 a a ≡ 0
unfolding ct_diff
ct_diff_self nil = refl
ct_diff_self (cons x a) =
    ap (λ (d : ℕ). ct_diff d a a) (ap (bit_or 0) (bit_xor_self x) ∙ bit_or_zeros) ∙ ct_diff_self a

-- `ct_eq_32` accepts two arrays exactly when they are equal byte for byte.
pub ct_eq_32_iff : (a b : Array 32) → (ct_eq_32 a b ≡ true) ↔ (a ≡ b)
unfolding ct_eq_32
ct_eq_32_iff a b = (
  λ h. (ct_diff-eq_zero 0 a b ((==_iff _ 0).0 h)).1,
  λ e. (==_iff (ct_diff 0 a b) 0).1 (ap (ct_diff 0 a) (sym e) ∙ ct_diff_self a),
)

pub eq-ct_eq_32 : (a b : Array 32) → ct_eq_32 a b ≡ true → a ≡ b
eq-ct_eq_32 a b h = (ct_eq_32_iff a b).0 h

pub ct_eq_32-of_eq : (a b : Array 32) → a ≡ b → ct_eq_32 a b ≡ true
ct_eq_32-of_eq a b e = (ct_eq_32_iff a b).1 e

pub ct_eq_32_self : (a : Array 32) → ct_eq_32 a a ≡ true
ct_eq_32_self a = (ct_eq_32_iff a a).1 refl

-- To split on a comparison of two arrays.
pub ct_eq_32_cases :
    (a b : Array 32) → ((ct_eq_32 a b ≡ true) × (a ≡ b)) ⊎ ((ct_eq_32 a b ≡ false) × ¬ (a ≡ b))
ct_eq_32_cases a b = elim (Bool-cases (ct_eq_32 a b)) [
  | inl e ↦ inl (e, eq-ct_eq_32 a b e)
  | inr e ↦ inr (e, λ p. cc (e, (ct_eq_32_iff a b).1 p))
]
