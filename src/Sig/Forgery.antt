-- ===== src/Sig/Forgery.antt =====
-- anchor-core/src/sig.rs: what a signature on a second digest has to contain.
use dsm_unplugged.Common.{
  ℕ, zero, suc, ◌+◌, ◌-◌, ◌*◌, ◌<◌, ◌≡◌, ◌≢◌, refl, sym, ap, subst, ◌∙◌, ◌⊎◌, inl, inr, true, List,
  [], ◌∷◌, ◌++◌, length, length-append, append_assoc, Array, IsBytes, to_vec, length-to_vec,
  copy_from_slice, ltb, Bool-cases, take, arith,
}
use dsm_unplugged.Hash.{Blake3}
use dsm_unplugged.Hash.Binding.{CollidesAt}
use dsm_unplugged.Sig.{
  digits, chain, chain_secret, keygen, sign_from, sign, verify, len, chain_size,
}
use dsm_unplugged.Sig.RoundTrip.{length-digits, slice_at, seed_of_key, chain-chain}
use dsm_unplugged.Sig.Checksum.{AllLe, digits_incomparable}
use dsm_unplugged.Sig.Unique.{element, verify_hashes, verify-sign_only}

-- The digit at chain `i`.
abbrev pub digit : List ℕ → ℕ → ℕ
digit [] i = 0
digit (d ∷ ds) zero = d
digit (d ∷ ds) (suc i) = digit ds i

-- Of two lists of one length, the first is nowhere above the second, or it is at some place.
above_somewhere :
    (xs ys : List ℕ)
    → length xs ≡ length ys
    → AllLe xs ys ⊎ ((i : ℕ) × (i < length xs) × (digit ys i < digit xs i))
above_somewhere [] [] e = inl tt
above_somewhere [] (y ∷ ys) e = absurd (omega arith)
above_somewhere (x ∷ xs) [] e = absurd (omega arith)
above_somewhere (x ∷ xs) (y ∷ ys) e = elim (Bool-cases (ltb y x)) [
  | inl lower ↦ inr (0, omega arith, ground arith)
  | inr not_lower ↦ elim (above_somewhere xs ys (omega arith)) [
    | inl rest ↦ inl (ground arith, rest)
    | inr (i, small, lower) ↦ inr (suc i, omega arith, lower)
  ]
]

module _ ⦃b : Blake3⦄ where
  element-sign_from :
      (seed : Array 32) (done : List ℕ) (i : ℕ) (ds : List ℕ) (k : ℕ)
      → length done ≡ i * chain_size
      → k < length ds
      → element (done ++ sign_from seed i ds) (i + k)
        ≡ chain (chain_secret seed (i + k)) (digit ds k)
  unfolding sign_from
  element-sign_from seed done i [] k e h = absurd (omega arith)
  element-sign_from seed done i (d ∷ ds) zero e h =
      let v : Array 32 = chain (chain_secret seed i) d in
      let here : i ≡ i + 0 = omega arith in
      subst
        (λ (j : ℕ).
          element (done ++ (to_vec v ++ sign_from seed (suc i) ds)) j
          ≡ chain (chain_secret seed j) d)
        here (slice_at done v (sign_from seed (suc i) ds) i e)
  element-sign_from seed done i (d ∷ ds) (suc k) e h =
      let v : Array 32 = chain (chain_secret seed i) d in
      let next : suc i + k ≡ i + suc k = omega arith in
      let wider : length (done ++ to_vec v) ≡ suc i * chain_size =
        length-append done (to_vec v) ∙ omega (arith, length-to_vec v) in
      subst
        (λ (j : ℕ).
          element (done ++ (to_vec v ++ sign_from seed (suc i) ds)) j
          ≡ chain (chain_secret seed j) (digit ds k))
        next
        (ap (λ (l : List ℕ). element l (suc i + k))
            (sym (append_assoc done (to_vec v) (sign_from seed (suc i) ds)))
          ∙ element-sign_from seed (done ++ to_vec v) (suc i) ds k wider (omega arith))

  -- A signature holds, at each chain, its secret advanced by the digit.
  element-sign :
      (seed digest : Array 32) (i : ℕ)
      → i < len
      → element (sign (keygen seed).0 digest) i
        ≡ chain (chain_secret seed i) (digit (digits digest) i)
  unfolding sign keygen
  element-sign seed digest i h =
      let sk = copy_from_slice 32 (take 32 (to_vec seed)) in
      let here : 0 + i ≡ i = omega arith in
      let own =
        element-sign_from sk [] 0 (digits digest) i refl (omega (arith, length-digits digest)) in
      subst
        (λ (j : ℕ).
          element (sign_from sk 0 (digits digest)) j
          ≡ chain (chain_secret sk j) (digit (digits digest) i))
        here own
      ∙ ap (λ (k : Array 32). chain (chain_secret k i) (digit (digits digest) i)) (seed_of_key seed)

  -- A signature on a second digest walks a chain backwards. Let `d` and `e` be different digests of
  -- bytes. Whatever `verify` accepts for `e` under a public key of `keygen` holds, at some chain
  -- where the digit of `e` is the smaller, an element that lies before the one in the signature of
  -- `d`: advanced by the difference of the digits it gives that one. Or BLAKE3 maps two different
  -- messages to one value that `verify` hashes at the same place for this signature and for the one
  -- that `sign` makes for `e`.
  pub forgery_inverts_chain :
      (seed d e : Array 32) (sig : List ℕ)
      → IsBytes d
      → IsBytes e
      → d ≢ e
      → verify (keygen seed).1 e sig ≡ true
      → ((i : ℕ) × (i < len)
          × (digit (digits e) i < digit (digits d) i)
          × (chain (element sig i) (digit (digits d) i - digit (digits e) i)
              ≡ element (sign (keygen seed).0 d) i))
        ⊎ CollidesAt (verify_hashes e sig) (verify_hashes e (sign (keygen seed).0 e))
  forgery_inverts_chain seed d e sig vd ve n v = elim (verify-sign_only seed e sig ve v) [
    | inr c ↦ inr c
    | inl same ↦
        let ld = length-digits d in
        let le = length-digits e in
        elim (above_somewhere (digits d) (digits e) (omega arith)) [
          | inl below ↦ absurd (n (digits_incomparable d e vd ve below))
          | inr (i, small, lower) ↦
              let within : i < len = omega arith in
              let x = digit (digits e) i in
              let y = digit (digits d) i in
              let total : x + (y - x) ≡ y = omega arith in
              inl (
                i,
                within,
                lower,
                ap (λ (l : List ℕ). chain (element l i) (y - x)) same
                    ∙ ap (λ (a : Array 32). chain a (y - x)) (element-sign seed e i within)
                    ∙ chain-chain (chain_secret seed i) x (y - x)
                    ∙ ap (chain (chain_secret seed i)) total
                    ∙ sym (element-sign seed d i within),
              )
        ]
  ]
