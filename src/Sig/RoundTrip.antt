-- ===== src/Sig/RoundTrip.antt =====
-- anchor-core/src/sig.rs: a signature verifies under the key pair that made it.
use dsm_unplugged.Common.{
  All-append, ℕ, zero, suc, ◌+◌, ◌-◌, ◌*◌, ◌≤◌, ◌≡◌, refl, sym, ap, ◌∙◌, true, List, [], ◌∷◌, ◌++◌,
  length, length-append, take, drop, take-append, drop-append, All, append_assoc, Array, nil, cons,
  IsBytes, to_vec, copy_from_slice, length-to_vec, copy_from_slice-to_vec, arith, append-nil,
}
use dsm_unplugged.Util.CtEq.{ct_eq_32_iff}
use dsm_unplugged.Hash.{Blake3}
use dsm_unplugged.Tropic.{IsCorrect}
use dsm_unplugged.Sig.{
  nibbles, digits, chain_step, chain, chain_secret, compress, tops_from, keygen, sign_from, sign,
  recompute_from, verify, wots_blake3, len, sig_len, chain_size,
}
use mathlib.Core.Path.{ap₂}

abbrev pub IsDigit : ℕ → Type 0
IsDigit d = d ≤ 15

pub nibbles-IsDigit : {n : ℕ} (d : Array n) → IsBytes d → All IsDigit (nibbles d)
unfolding nibbles
nibbles-IsDigit nil v = tt
nibbles-IsDigit (cons b d) (vb, vd) = (omega arith, (omega arith, nibbles-IsDigit d vd))

digits-IsDigit : (d : Array 32) → IsBytes d → All IsDigit (digits d)
unfolding digits
digits-IsDigit d v = All-append _ (nibbles d) _ (nibbles-IsDigit d v) (omega arith)

pub length-nibbles : {n : ℕ} (d : Array n) → length (nibbles d) ≡ 2 * n
unfolding nibbles
length-nibbles nil = refl
length-nibbles (cons b d) = omega (arith, length-nibbles d)

pub length-digits : (d : Array 32) → length (digits d) ≡ len
unfolding digits
length-digits d = length-append (nibbles d) _ ∙ omega (arith, length-nibbles d)

-- The slice of a signature behind `i` elements.
pub slice_at :
    (done : List ℕ) (v : Array 32) (rest : List ℕ) (i : ℕ)
    → length done ≡ i * chain_size
    → copy_from_slice 32 (take chain_size (drop (i * chain_size) (done ++ (to_vec v ++ rest)))) ≡ v
slice_at done v rest i e =
    let cut : drop (i * chain_size) (done ++ (to_vec v ++ rest)) ≡ to_vec v ++ rest =
      ap (λ (k : ℕ). drop k (done ++ (to_vec v ++ rest))) (sym e) ∙ drop-append done _ in
    let front : take chain_size (to_vec v ++ rest) ≡ to_vec v =
      ap (λ (k : ℕ). take k (to_vec v ++ rest)) (sym (length-to_vec v))
      ∙ take-append (to_vec v) rest in
    ap (λ (l : List ℕ). copy_from_slice 32 (take chain_size l)) cut
    ∙ ap (copy_from_slice 32) front
    ∙ copy_from_slice-to_vec v

-- A whole array is its own first 32 bytes.
pub seed_of_key : (seed : Array 32) → copy_from_slice 32 (take 32 (to_vec seed)) ≡ seed
seed_of_key seed =
    ap (λ (l : List ℕ). copy_from_slice 32 (take 32 l)) (sym (append-nil (to_vec seed)))
    ∙ slice_at [] seed [] 0 refl

module _ ⦃b : Blake3⦄ where
  -- A chain in two parts.
  pub chain-chain : (x : Array 32) (m n : ℕ) → chain (chain x m) n ≡ chain x (m + n)
  unfolding chain
  chain-chain x zero n = let e : n ≡ zero + n = omega arith in ap (chain x) e
  chain-chain x (suc m) n =
      let e : suc (m + n) ≡ suc m + n = omega arith in
      chain-chain (chain_step x) m n ∙ ap (chain x) e

  chain_top : (x : Array 32) (d : ℕ) → d ≤ 15 → chain (chain x d) (15 - d) ≡ chain x 15
  chain_top x d h =
      let e : d + (15 - d) ≡ 15 = omega arith in chain-chain x d (15 - d) ∙ ap (chain x) e

  length-sign_from :
      (seed : Array 32) (i : ℕ) (ds : List ℕ)
      → length (sign_from seed i ds) ≡ length ds * chain_size
  unfolding sign_from
  length-sign_from seed i [] = refl
  length-sign_from seed i (d ∷ ds) =
      length-append (to_vec (chain (chain_secret seed i) d)) _
      ∙ omega
          (arith, length-to_vec (chain (chain_secret seed i) d), length-sign_from seed (suc i) ds)

  -- The sizes of what the scheme makes, and a key that is not empty.
  pub length-sign : (sk : List ℕ) (digest : Array 32) → length (sign sk digest) ≡ sig_len
  unfolding sign
  length-sign sk digest =
      length-sign_from (copy_from_slice 32 (take 32 sk)) 0 (digits digest)
      ∙ ap (λ (n : ℕ). n * chain_size) (length-digits digest)

  pub length-keygen :
      (seed : Array 32) → (length (keygen seed).0 ≡ 32) × (length (keygen seed).1 ≡ 32)
  unfolding keygen
  length-keygen seed = (length-to_vec seed, length-to_vec _)

  -- What follows the first `i` elements of a signature gives the chain tops from `i` on.
  recompute_from-sign_from :
      (seed : Array 32) (done : List ℕ) (i : ℕ) (ds : List ℕ)
      → length done ≡ i * chain_size
      → All IsDigit ds
      → recompute_from (done ++ sign_from seed i ds) i ds ≡ tops_from seed i (length ds)
  unfolding sign_from recompute_from tops_from
  recompute_from-sign_from seed done i [] e h = refl
  recompute_from-sign_from seed done i (d ∷ ds) e (hd, hds) =
      let v : Array 32 = chain (chain_secret seed i) d in
      let rest : List ℕ = sign_from seed (suc i) ds in
      let wider : length (done ++ to_vec v) ≡ suc i * chain_size =
        length-append done (to_vec v) ∙ omega (arith, length-to_vec v) in
      ap₂ ◌∷◌
        (ap (λ (a : Array 32). chain a (15 - d)) (slice_at done v rest i e) ∙ chain_top _ d hd)
        (ap (λ (l : List ℕ). recompute_from l (suc i) ds) (sym (append_assoc done (to_vec v) rest))
          ∙ recompute_from-sign_from seed (done ++ to_vec v) (suc i) ds wider hds)

  -- `verify` accepts what has the right lengths and recomputes to the key.
  verify_true :
      (pk : List ℕ) (digest : Array 32) (sig : List ℕ)
      → length pk ≡ 32
      → length sig ≡ sig_len
      → compress (recompute_from sig 0 (digits digest)) ≡ copy_from_slice 32 pk
      → verify pk digest sig ≡ true
  unfolding verify
  verify_true pk digest sig hp hs e =
      let same =
        (ct_eq_32_iff (compress (recompute_from sig 0 (digits digest))) (copy_from_slice 32 pk)).1
          e in
      ground (arith, same)

  -- For every seed and every digest of bytes, the signature that `sign` makes with the secret key of
  -- `keygen` is accepted by `verify` under its public key.
  pub verify-sign :
      (seed digest : Array 32)
      → IsBytes digest
      → verify (keygen seed).1 digest (sign (keygen seed).0 digest) ≡ true
  unfolding sign keygen
  verify-sign seed digest v =
      let sk = copy_from_slice 32 (take 32 (to_vec seed)) in
      verify_true _ digest _ (length-to_vec _) (length-sign (to_vec seed) digest) (
        ap compress (
          recompute_from-sign_from sk [] 0 (digits digest) refl (digits-IsDigit digest v)
          ∙ ap (tops_from sk 0) (length-digits digest)
          ∙ ap (λ (k : Array 32). tops_from k 0 len) (seed_of_key seed))
        ∙ sym (copy_from_slice-to_vec _))

  pub wots_blake3-IsCorrect : IsCorrect wots_blake3
  wots_blake3-IsCorrect seed digest v = verify-sign seed digest v
