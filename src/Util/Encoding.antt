-- ===== src/Util/Encoding.antt =====
-- anchor-core/src/util.rs: fields are read back from a concatenation of fields.
use dsm_unplugged.Common.{
  ℕ, zero, suc, ◌/◌, ◌%◌, ◌^◌, ◌<◌, ◌≡◌, refl, sym, ap, ◌∙◌, List, [], ◌∷◌, ◌++◌, length, Array,
  to_vec, to_vec-append_injective, append_assoc, arith, IsBytes,
}
use dsm_unplugged.Util.{le_bytes, from_le_bytes, u16_le, u32_le, u64_le, push_var}

pub le_bytes-IsBytes : (n v : ℕ) → IsBytes (le_bytes n v)
unfolding le_bytes
le_bytes-IsBytes zero v = tt
le_bytes-IsBytes (suc n) v = (omega arith, le_bytes-IsBytes n (v / 256))

-- `from_le_bytes` reads back what `to_le_bytes` wrote, for a value of that width.
pub from_le_bytes-le_bytes : (n v : ℕ) → v < 256 ^ n → from_le_bytes (to_vec (le_bytes n v)) ≡ v
unfolding from_le_bytes le_bytes to_vec
from_le_bytes-le_bytes zero v h = omega arith
from_le_bytes-le_bytes (suc n) v h = omega (arith, from_le_bytes-le_bytes n (v / 256) (omega arith))

pub le_bytes_injective :
    (n v w : ℕ) → v < 256 ^ n → w < 256 ^ n → le_bytes n v ≡ le_bytes n w → v ≡ w
le_bytes_injective n v w hv hw e =
    sym (from_le_bytes-le_bytes n v hv)
    ∙ ap (λ (a : Array n). from_le_bytes (to_vec a)) e
    ∙ from_le_bytes-le_bytes n w hw

pub u16_le_injective : (v w : ℕ) → v < 2 ^ 16 → w < 2 ^ 16 → u16_le v ≡ u16_le w → v ≡ w
unfolding u16_le
u16_le_injective v w hv hw e = le_bytes_injective 2 v w hv hw e

pub u32_le_injective : (v w : ℕ) → v < 2 ^ 32 → w < 2 ^ 32 → u32_le v ≡ u32_le w → v ≡ w
unfolding u32_le
u32_le_injective v w hv hw e = le_bytes_injective 4 v w hv hw e

pub u64_le_injective : (v w : ℕ) → v < 2 ^ 64 → w < 2 ^ 64 → u64_le v ≡ u64_le w → v ≡ w
unfolding u64_le
u64_le_injective v w hv hw e = le_bytes_injective 8 v w hv hw e

pub append_injective :
    (f g xs ys : List ℕ) → length f ≡ length g → f ++ xs ≡ g ++ ys → (f ≡ g) × (xs ≡ ys)
append_injective [] [] xs ys h e = (refl, e)
append_injective [] (y ∷ g) xs ys h e = absurd (omega arith)
append_injective (x ∷ f) [] xs ys h e = absurd (omega arith)
append_injective (x ∷ f) (y ∷ g) xs ys h e =
    let (p, q) = append_injective f g xs ys (omega arith) (cc) in (cc p, q)

-- A field that `push_var` wrote, as a string of its own.
abbrev pub var_field : List ℕ → List ℕ
var_field f = to_vec (u32_le (length f % 2 ^ 32)) ++ f

pub push_var-var_field : (buf f : List ℕ) → push_var buf f ≡ buf ++ var_field f
unfolding push_var
push_var-var_field buf f = append_assoc buf _ f

-- A length-prefixed field at the front of a buffer is read back, and so is what follows it.
pub var_field_injective :
    (f g xs ys : List ℕ)
    → length f < 2 ^ 32
    → length g < 2 ^ 32
    → var_field f ++ xs ≡ var_field g ++ ys
    → (f ≡ g) × (xs ≡ ys)
var_field_injective f g xs ys hf hg e =
    let (p, q) =
      to_vec-append_injective (u32_le (length f % 2 ^ 32)) (u32_le (length g % 2 ^ 32)) (f ++ xs)
        (g ++ ys) (sym (append_assoc _ f xs) ∙ e ∙ append_assoc _ g ys) in
    let same : length f % 2 ^ 32 ≡ length g % 2 ^ 32 =
      u32_le_injective (length f % 2 ^ 32) (length g % 2 ^ 32) (omega arith) (omega arith) p in
    append_injective f g xs ys (omega arith) q
