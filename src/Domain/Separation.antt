-- ===== src/Domain/Separation.antt =====
-- anchor-core/src/domain.rs: no tag is a prefix of another, so inputs under two tags differ.
use Prim.Native.String.{String}
use dsm_unplugged.Common.{
  ℕ, ◌≡◌, refl, Bool, true, false, ◌&&◌, List, [], ◌∷◌, ◌++◌, ◌==◌, All, arith,
}
use dsm_unplugged.Domain.{
  as_bytes, transition_digest_v1, root_advance_input_v1, root_advance_witness_key_v1, pk_hash_v1,
  cert_message_v1, wots_chain_v1, wots_sk_v1, wots_pk_v1,
}

-- The two strings differ at a position that both have.
mismatch : List ℕ → List ℕ → Bool
mismatch [] ys = false
mismatch (x ∷ xs) [] = false
mismatch (x ∷ xs) (y ∷ ys) =
    let rest = mismatch xs ys in elim (x == y) [ true ↦ rest | false ↦ true ]

mismatch_sound : (xs ys us vs : List ℕ) → mismatch xs ys ≡ true → xs ++ us ≡ ys ++ vs → ⊥
unfolding mismatch
mismatch_sound [] ys us vs h e = cc
mismatch_sound (x ∷ xs) [] us vs h e = cc
mismatch_sound (x ∷ xs) (y ∷ ys) us vs h e = ground (arith, mismatch_sound xs ys us vs)

-- No input that begins with one tag is an input that begins with the other.
abbrev pub Separated : String → String → Type 0
Separated s t = (us vs : List ℕ) → as_bytes s ++ us ≡ as_bytes t ++ vs → ⊥

abbrev pub PairwiseSeparated : List String → Type 0
PairwiseSeparated [] = Unit {0}
PairwiseSeparated (s ∷ ss) = All (Separated s) ss × PairwiseSeparated ss

-- The tags of domain.rs, in order.
abbrev pub tags : List String
tags =
    transition_digest_v1 ∷ root_advance_input_v1 ∷ root_advance_witness_key_v1 ∷ pk_hash_v1
    ∷ cert_message_v1 ∷ wots_chain_v1 ∷ wots_sk_v1 ∷ wots_pk_v1 ∷ []

mismatch_all : String → List String → Bool
mismatch_all s [] = true
mismatch_all s (t ∷ ts) = mismatch (as_bytes s) (as_bytes t) && mismatch_all s ts

mismatch_pairs : List String → Bool
mismatch_pairs [] = true
mismatch_pairs (s ∷ ss) = mismatch_all s ss && mismatch_pairs ss

mismatch_all_sound :
    (s : String) (ts : List String) → mismatch_all s ts ≡ true → All (Separated s) ts
unfolding mismatch_all
mismatch_all_sound s [] h = tt
mismatch_all_sound s (t ∷ ts) h = (
  λ us vs. mismatch_sound (as_bytes s) (as_bytes t) us vs (ground arith),
  mismatch_all_sound s ts (ground arith),
)

mismatch_pairs_sound : (ss : List String) → mismatch_pairs ss ≡ true → PairwiseSeparated ss
unfolding mismatch_pairs
mismatch_pairs_sound [] h = tt
mismatch_pairs_sound (s ∷ ss) h =
    (mismatch_all_sound s ss (ground arith), mismatch_pairs_sound ss (ground arith))

-- Under any two of the eight tags of domain.rs the inputs of `h` and `kdf` are different byte
-- strings, whatever fields follow the tags.
pub tags-PairwiseSeparated : PairwiseSeparated tags
unfolding mismatch mismatch_all mismatch_pairs
tags-PairwiseSeparated = mismatch_pairs_sound tags refl
