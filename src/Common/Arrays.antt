-- ===== src/Common/Arrays.antt =====
-- Fixed-size byte arrays, `[u8; n]`. A byte is a native number; `IsBytes` states its range.
use Prim.Native.Nat.{ℕ, zero, suc, ◌<◌}
use mathlib.Core.Path.{◌≡◌, refl, ap, ap₂}
use mathlib.Core.List.{List, [], ◌∷◌, ◌++◌}
use native.Mathlib.Omega.{arith}
use dsm_unplugged.Common.Lists.{length, All}

pub data Array : ℕ → Type 0 where
  nil : Array zero
  cons : {n : ℕ} → ℕ → Array n → Array (suc n)

-- `.to_vec()`, and an array read as a slice.
unfoldable pub to_vec : {n : ℕ} → Array n → List ℕ
to_vec nil = []
to_vec (cons x a) = x ∷ to_vec a

-- `[b; n]`
abbrev pub fill : (n : ℕ) → ℕ → Array n
fill zero b = nil
fill (suc n) b = cons b (fill n b)

-- `let mut a = [0u8; n]; a.copy_from_slice(v)`, for a slice of the array's length.
unfoldable pub copy_from_slice : (n : ℕ) → List ℕ → Array n
copy_from_slice zero v = nil
copy_from_slice (suc n) [] = cons 0 (copy_from_slice n [])
copy_from_slice (suc n) (x ∷ v) = cons x (copy_from_slice n v)

abbrev pub IsByte : ℕ → Type 0
IsByte b = b < 256

abbrev pub IsBytes : {n : ℕ} → Array n → Type 0
IsBytes nil = Unit {0}
IsBytes (cons x a) = IsByte x × IsBytes a

-- `Vec<u8>` and `&[u8]`
abbrev pub AreBytes : List ℕ → Type 0
AreBytes v = All IsByte v

pub to_vec-AreBytes : {n : ℕ} (a : Array n) → IsBytes a → AreBytes (to_vec a)
unfolding to_vec
to_vec-AreBytes nil h = tt
to_vec-AreBytes (cons x a) (p, h) = (p, to_vec-AreBytes a h)

pub AreBytes-to_vec : {n : ℕ} (a : Array n) → AreBytes (to_vec a) → IsBytes a
unfolding to_vec
AreBytes-to_vec nil h = tt
AreBytes-to_vec (cons x a) (p, h) = (p, AreBytes-to_vec a h)

pub copy_from_slice-IsBytes : (n : ℕ) (v : List ℕ) → AreBytes v → IsBytes (copy_from_slice n v)
unfolding copy_from_slice
copy_from_slice-IsBytes zero v h = tt
copy_from_slice-IsBytes (suc n) [] h = (omega arith, copy_from_slice-IsBytes n [] tt)
copy_from_slice-IsBytes (suc n) (x ∷ v) (p, h) = (p, copy_from_slice-IsBytes n v h)

pub length-to_vec : {n : ℕ} (a : Array n) → length (to_vec a) ≡ n
unfolding to_vec
length-to_vec nil = refl
length-to_vec (cons x a) = ap suc (length-to_vec a)

pub copy_from_slice-to_vec : {n : ℕ} (a : Array n) → copy_from_slice n (to_vec a) ≡ a
unfolding to_vec copy_from_slice
copy_from_slice-to_vec nil = refl
copy_from_slice-to_vec (cons x a) = ap (cons x) (copy_from_slice-to_vec a)

pub to_vec-copy_from_slice : (n : ℕ) (v : List ℕ) → length v ≡ n → to_vec (copy_from_slice n v) ≡ v
unfolding to_vec copy_from_slice
to_vec-copy_from_slice zero [] h = refl
to_vec-copy_from_slice zero (x ∷ v) h = absurd (omega arith)
to_vec-copy_from_slice (suc n) [] h = absurd (omega arith)
to_vec-copy_from_slice (suc n) (x ∷ v) h = ap (◌∷◌ x) (to_vec-copy_from_slice n v (omega arith))

-- A fixed-width field at the front of a buffer is read back, and so is what follows it.
pub to_vec-append_injective :
    {n : ℕ} (a b : Array n) (xs ys : List ℕ) → to_vec a ++ xs ≡ to_vec b ++ ys → (a ≡ b) × (xs ≡ ys)
unfolding to_vec
to_vec-append_injective nil nil xs ys h = (refl, h)
to_vec-append_injective (cons x a) (cons y b) xs ys h =
    let (p, q) = to_vec-append_injective a b xs ys (cc) in let e : x ≡ y = cc in (ap₂ cons e p, q)
