-- ===== src/Sig/Unique.antt =====
-- anchor-core/src/sig.rs: a key accepts one signature for a digest, or two messages that are
-- hashed at the same place of two verifications collide.
use dsm_unplugged.Common.{
  ℕ, zero, suc, ◌+◌, ◌-◌, ◌*◌, ◌≤◌, ◌≡◌, refl, sym, ap, ◌∙◌, ◌⊎◌, inl, inr, true, List, [], ◌∷◌,
  ◌++◌, length, take, drop, length-drop, append-nil, Array, IsBytes, to_vec, copy_from_slice,
  to_vec-copy_from_slice, to_vec-append_injective, arith, take-drop,
}
use dsm_unplugged.Util.CtEq.{ct_eq_32_iff}
use dsm_unplugged.Domain.{wots_chain_v1, wots_pk_v1}
use dsm_unplugged.Hash.{Blake3}
use dsm_unplugged.Hash.Binding.{
  Collides, CollidesAt, CollidesAt-left, CollidesAt-right, message, h_injective,
}
use dsm_unplugged.Sig.{
  digits, chain_step, chain, join_tops, compress, keygen, sign, recompute_from, verify, sig_len,
  chain_size,
}
use dsm_unplugged.Sig.RoundTrip.{length-digits, verify-sign}
use mathlib.Core.Path.{ap₂}

drop_past_end : (n : ℕ) (xs : List ℕ) → length xs ≤ n → drop n xs ≡ []
drop_past_end zero [] h = refl
drop_past_end zero (x ∷ xs) h = absurd (omega arith)
drop_past_end (suc n) [] h = refl
drop_past_end (suc n) (x ∷ xs) h = drop_past_end n xs (omega arith)

drop-drop : (n m : ℕ) (xs : List ℕ) → drop n (drop m xs) ≡ drop (m + n) xs
drop-drop n zero xs = ap (λ (k : ℕ). drop k xs) (omega arith)
drop-drop n (suc m) [] =
    drop_past_end n [] (omega arith) ∙ sym (drop_past_end (suc m + n) [] (omega arith))
drop-drop n (suc m) (x ∷ xs) =
    let e : suc (m + n) ≡ suc m + n = omega arith in
    drop-drop n m xs ∙ ap (λ (k : ℕ). drop k (x ∷ xs)) e

length-take_whole : (n : ℕ) (xs : List ℕ) → n ≤ length xs → length (take n xs) ≡ n
length-take_whole zero xs h = refl
length-take_whole (suc n) [] h = absurd (omega arith)
length-take_whole (suc n) (x ∷ xs) h = ap suc (length-take_whole n xs (omega arith))

-- The element of a signature at chain `i`.
abbrev pub element : List ℕ → ℕ → Array 32
element sig i = copy_from_slice 32 (take chain_size (drop (i * chain_size) sig))

-- A signature from chain `i` on is its element there and the rest.
element_split :
    (sig : List ℕ) (i : ℕ)
    → suc i * chain_size ≤ length sig
    → drop (i * chain_size) sig ≡ to_vec (element sig i) ++ drop (suc i * chain_size) sig
element_split sig i h =
    let rest = drop (i * chain_size) sig in
    let e : i * chain_size + chain_size ≡ suc i * chain_size = omega arith in
    let whole =
      to_vec-copy_from_slice 32 (take chain_size rest)
        (length-take_whole chain_size rest (omega (arith, length-drop (i * chain_size) sig))) in
    sym (take-drop chain_size rest)
    ∙ ap (λ (l : List ℕ). l ++ drop chain_size rest) (sym whole)
    ∙ ap (◌++◌ (to_vec (element sig i)))
        (drop-drop chain_size (i * chain_size) sig ∙ ap (λ (k : ℕ). drop k sig) e)

module _ ⦃b : Blake3⦄ where
  -- The messages that are hashed when a chain is advanced.
  abbrev pub chain_hashes : Array 32 → ℕ → List (List ℕ)
  chain_hashes x zero = []
  chain_hashes x (suc n) = message wots_chain_v1 (to_vec x ∷ []) ∷ chain_hashes (chain_step x) n

  -- The messages that `verify` hashes for the chains from `i` on.
  abbrev pub recompute_hashes : List ℕ → ℕ → List ℕ → List (List ℕ)
  recompute_hashes sig i [] = []
  recompute_hashes sig i (d ∷ ds) =
      chain_hashes (element sig i) (15 - d) ++ recompute_hashes sig (suc i) ds

  -- All that `verify` hashes: the chain tops, and what leads to them.
  abbrev pub verify_hashes : Array 32 → List ℕ → List (List ℕ)
  verify_hashes digest sig =
      message wots_pk_v1 (join_tops (recompute_from sig 0 (digits digest)) ∷ [])
      ∷ recompute_hashes sig 0 (digits digest)

  length-chain_hashes :
      (x y : Array 32) (n : ℕ) → length (chain_hashes x n) ≡ length (chain_hashes y n)
  length-chain_hashes x y zero = refl
  length-chain_hashes x y (suc n) = ap suc (length-chain_hashes (chain_step x) (chain_step y) n)

  chain_injective :
      (x y : Array 32) (n : ℕ)
      → chain x n ≡ chain y n
      → (x ≡ y) ⊎ CollidesAt (chain_hashes x n) (chain_hashes y n)
  unfolding chain
  chain_injective x y zero e = inl e
  chain_injective x y (suc n) e = elim (chain_injective (chain_step x) (chain_step y) n e) [
    | inr c ↦ inr (inr c)
    | inl s ↦ elim (h_injective wots_chain_v1 (to_vec x ∷ []) (to_vec y ∷ []) s) [
      | inr c ↦ inr (inl c)
      | inl v ↦ inl (to_vec-append_injective x y [] [] v).0
    ]
  ]

  -- Signatures with the same chain tops from chain `i` on agree from there on.
  recompute_injective :
      (sig sig' : List ℕ) (i : ℕ) (ds : List ℕ)
      → length sig ≡ (i + length ds) * chain_size
      → length sig' ≡ (i + length ds) * chain_size
      → join_tops (recompute_from sig i ds) ≡ join_tops (recompute_from sig' i ds)
      → (drop (i * chain_size) sig ≡ drop (i * chain_size) sig')
        ⊎ CollidesAt (recompute_hashes sig i ds) (recompute_hashes sig' i ds)
  unfolding recompute_from join_tops
  recompute_injective sig sig' i [] h h' e = inl (
      drop_past_end (i * chain_size) sig (omega arith)
      ∙ sym (drop_past_end (i * chain_size) sig' (omega arith)))
  recompute_injective sig sig' i (d ∷ ds) h h' e =
      let (top, tops) =
        to_vec-append_injective (chain (element sig i) (15 - d)) (chain (element sig' i) (15 - d))
          (join_tops (recompute_from sig (suc i) ds)) (join_tops (recompute_from sig' (suc i) ds))
          e in
      let xs = chain_hashes (element sig i) (15 - d) in
      let ys = chain_hashes (element sig' i) (15 - d) in
      elim (chain_injective (element sig i) (element sig' i) (15 - d) top) [
        | inr c ↦ inr (CollidesAt-left xs ys _ _ c)
        | inl here ↦
            elim (recompute_injective sig sig' (suc i) ds (omega arith) (omega arith) tops) [
              | inr c ↦ inr (
                  CollidesAt-right xs ys _ _
                    (length-chain_hashes (element sig i) (element sig' i) (15 - d)) c)
              | inl later ↦ inl (
                  element_split sig i (omega arith)
                  ∙ ap₂ ◌++◌ (ap to_vec here) later
                  ∙ sym (element_split sig' i (omega arith)))
            ]
      ]

  compress_injective :
      (ts us : List (Array 32))
      → compress ts ≡ compress us
      → (join_tops ts ≡ join_tops us)
        ⊎ Collides (message wots_pk_v1 (join_tops ts ∷ [])) (message wots_pk_v1 (join_tops us ∷ []))
  unfolding compress
  compress_injective ts us e =
      elim (h_injective wots_pk_v1 (join_tops ts ∷ []) (join_tops us ∷ []) e) [
        | inr c ↦ inr c
        | inl v ↦ inl (sym (append-nil (join_tops ts)) ∙ v ∙ append-nil (join_tops us))
      ]

  -- What `verify` accepts has the right length and recomputes to the key.
  verify_accepts :
      (pk : List ℕ) (digest : Array 32) (sig : List ℕ)
      → verify pk digest sig ≡ true
      → (length sig ≡ sig_len)
        × (compress (recompute_from sig 0 (digits digest)) ≡ copy_from_slice 32 pk)
  unfolding verify
  verify_accepts pk digest sig h =
      let same =
        (ct_eq_32_iff (compress (recompute_from sig 0 (digits digest)))
          (copy_from_slice 32 pk)).0 in
      ground (arith, same)

  -- Two signatures that `verify` accepts under one public key for one digest are equal, or messages
  -- that it hashes at the same place for the two collide.
  verify_unique :
      (pk : List ℕ) (digest : Array 32) (sig sig' : List ℕ)
      → verify pk digest sig ≡ true
      → verify pk digest sig' ≡ true
      → (sig ≡ sig') ⊎ CollidesAt (verify_hashes digest sig) (verify_hashes digest sig')
  verify_unique pk digest sig sig' v v' =
      let (n, e) = verify_accepts pk digest sig v in
      let (n', e') = verify_accepts pk digest sig' v' in
      let ds = digits digest in
      let size = length-digits digest in
      elim (compress_injective (recompute_from sig 0 ds) (recompute_from sig' 0 ds) (e ∙ sym e')) [
        | inr c ↦ inr (inl c)
        | inl tops ↦ elim (recompute_injective sig sig' 0 ds (omega arith) (omega arith) tops) [
          | inl same ↦ inl same
          | inr c ↦ inr (inr c)
        ]
      ]

  -- For every seed and every digest of bytes: whatever `verify` accepts for the digest under the
  -- public key of `keygen` is the signature that `sign` makes with its secret key, or BLAKE3 maps two
  -- different messages to one value that `verify` hashes at the same place for the two signatures:
  -- the same step of the same chain, or the chain tops.
  pub verify-sign_only :
      (seed digest : Array 32) (sig : List ℕ)
      → IsBytes digest
      → verify (keygen seed).1 digest sig ≡ true
      → (sig ≡ sign (keygen seed).0 digest)
        ⊎ CollidesAt (verify_hashes digest sig) (verify_hashes digest (sign (keygen seed).0 digest))
  verify-sign_only seed digest sig bytes v =
      verify_unique (keygen seed).1 digest sig (sign (keygen seed).0 digest) v
        (verify-sign seed digest bytes)
