-- ===== src/Hash.antt =====
-- anchor-core/src/hash.rs: `H` and the keyed KDF over a BLAKE3 that the crate takes from outside.
pub mod Binding
use Prim.Native.String.{String}
use dsm_unplugged.Common.{ℕ, ◌≡◌, List, [], ◌∷◌, ◌++◌, Array, IsBytes}
use dsm_unplugged.Domain.{as_bytes}
use mathlib.Core.List.{foldl}

-- The crate `blake3`: `update` appends to the message, so two updates are one of both inputs, and
-- `finalize` gives 32 bytes.
pub record Blake3 : Type 1 where
  pub Hasher : Type 0
  pub new : Hasher
  pub new_keyed : Array 32 → Hasher
  pub update : Hasher → List ℕ → Hasher
  pub finalize : Hasher → Array 32
  pub update_update : (s : Hasher) (xs ys : List ℕ) → update (update s xs) ys ≡ update s (xs ++ ys)
  pub finalize-IsBytes : (s : Hasher) → IsBytes (finalize s)

module _ ⦃b : Blake3⦄ where
  unfoldable pub h : String → List (List ℕ) → Array 32
  h domain fields = b.finalize (foldl b.update (b.update b.new (as_bytes domain)) fields)

  unfoldable pub kdf : Array 32 → String → List (List ℕ) → Array 32
  kdf secret domain fields =
      b.finalize (foldl b.update (b.update (b.new_keyed secret) (as_bytes domain)) fields)

  pub h-IsBytes : (domain : String) (fields : List (List ℕ)) → IsBytes (h domain fields)
  unfolding h
  h-IsBytes domain fields = b.finalize-IsBytes _

  pub kdf-IsBytes :
      (secret : Array 32) (domain : String) (fields : List (List ℕ))
      → IsBytes (kdf secret domain fields)
  unfolding kdf
  kdf-IsBytes secret domain fields = b.finalize-IsBytes _
