-- ===== src/Util.antt =====
-- anchor-core/src/util.rs: length-prefixed fields, constant-time equality, little-endian integers.
pub mod CtEq
pub mod Encoding
use dsm_unplugged.Common.{
  ℕ, zero, suc, ◌+◌, ◌*◌, ◌/◌, ◌%◌, ◌^◌, Bool, List, [], ◌∷◌, ◌++◌, length, Array, nil, cons,
  to_vec, bit_or, bit_xor, ◌==◌,
}

-- `to_le_bytes` of an unsigned integer of `n` bytes.
pub le_bytes : (n : ℕ) → ℕ → Array n
le_bytes zero v = nil
le_bytes (suc n) v = cons (v % 256) (le_bytes n (v / 256))

-- `from_le_bytes`.
unfoldable pub from_le_bytes : List ℕ → ℕ
from_le_bytes [] = 0
from_le_bytes (b ∷ bs) = b + 256 * from_le_bytes bs

unfoldable pub u16_le : ℕ → Array 2
unfolding le_bytes
u16_le v = le_bytes 2 v

unfoldable pub u32_le : ℕ → Array 4
unfolding le_bytes
u32_le v = le_bytes 4 v

unfoldable pub u64_le : ℕ → Array 8
unfolding le_bytes
u64_le v = le_bytes 8 v

-- `field.len() as u32` keeps the low 32 bits.
unfoldable pub push_var : List ℕ → List ℕ → List ℕ
unfolding u32_le
push_var buf field = (buf ++ to_vec (u32_le (length field % 2 ^ 32))) ++ field

-- The loop of `ct_eq_32`: `diff |= a[i] ^ b[i]` over both arrays.
ct_diff : {n : ℕ} → ℕ → Array n → Array n → ℕ
ct_diff diff nil nil = diff
ct_diff diff (cons x a) (cons y b) = ct_diff (bit_or diff (bit_xor x y)) a b

unfoldable pub ct_eq_32 : Array 32 → Array 32 → Bool
unfolding ct_diff
ct_eq_32 a b = ct_diff 0 a b == 0
