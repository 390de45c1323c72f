-- ===== src/RootAdvance/Binding.antt =====
-- anchor-core/src/root_advance.rs: what the digests bind. Equal values come from equal fields, or two
-- of the messages that are hashed for them collide.
use dsm_unplugged.Common.{
  ℕ, ◌^◌, ◌<◌, ◌≡◌, refl, sym, ◌∙◌, ◌⊎◌, inl, inr, List, [], ◌∷◌, append-nil, Array,
}
use dsm_unplugged.Util.Encoding.{u16_le_injective}
use dsm_unplugged.Domain.{transition_digest_v1, root_advance_input_v1, pk_hash_v1, cert_message_v1}
use dsm_unplugged.Hash.{Blake3, h}
use dsm_unplugged.Hash.Binding.{Collides, CollidesAt, message, h_injective}
use dsm_unplugged.RootAdvance.{
  Transition, IsInRange, enc_transition, transition_digest, witness_input, pk_hash, cert_message,
}
use dsm_unplugged.RootAdvance.Encoding.{enc_transition_injective}
use dsm_unplugged.RootAdvance.Fields.{
  message_fields, input_fields, message_fields_injective, input_fields_injective,
}

-- The messages that are hashed for D, for P_hw, for X and for M.
abbrev pub digest_preimage : ⦃b : Blake3⦄ → Transition → List ℕ
digest_preimage t = message transition_digest_v1 (enc_transition t ∷ [])

abbrev pub key_preimage : ⦃b : Blake3⦄ → List ℕ → List ℕ
key_preimage k = message pk_hash_v1 (k ∷ [])

abbrev pub input_preimage : ⦃b : Blake3⦄ → Transition → Array 32 → ℕ → Array 32 → List ℕ
input_preimage t a q c = message root_advance_input_v1 (input_fields t (transition_digest t) a q c)

abbrev pub message_preimage :
    ⦃b : Blake3⦄ → Transition → Array 32 → List ℕ → Array 32 → ℕ → Array 32 → List ℕ
message_preimage t x k a q c =
    message cert_message_v1 (message_fields t (transition_digest t) x (pk_hash k) a q c)

module _ ⦃b : Blake3⦄ where
  -- Two transition packages in range with one digest are the same, or their encodings collide.
  transition_digest_binds :
      (t u : Transition)
      → IsInRange t
      → IsInRange u
      → transition_digest t ≡ transition_digest u
      → (t ≡ u) ⊎ Collides (digest_preimage t) (digest_preimage u)
  unfolding transition_digest
  transition_digest_binds t u rt ru e =
      elim (h_injective transition_digest_v1 (enc_transition t ∷ []) (enc_transition u ∷ []) e) [
        | inl p ↦ inl (enc_transition_injective t u rt ru (sym (append-nil _) ∙ p ∙ append-nil _))
        | inr c ↦ inr c
      ]

  pk_hash_binds :
      (k l : List ℕ) → pk_hash k ≡ pk_hash l → (k ≡ l) ⊎ Collides (key_preimage k) (key_preimage l)
  unfolding pk_hash
  pk_hash_binds k l e = elim (h_injective pk_hash_v1 (k ∷ []) (l ∷ []) e) [
    | inl p ↦ inl (sym (append-nil _) ∙ p ∙ append-nil _)
    | inr c ↦ inr c
  ]

  message-preimage :
      (t : Transition) (x : Array 32) (k : List ℕ) (a : Array 32) (q : ℕ) (c : Array 32)
      → cert_message t (transition_digest t) x (pk_hash k) a q c
        ≡ h cert_message_v1 (message_fields t (transition_digest t) x (pk_hash k) a q c)
  unfolding cert_message
  message-preimage t x k a q c = refl

  input-preimage :
      (t : Transition) (a : Array 32) (q : ℕ) (c : Array 32)
      → witness_input t (transition_digest t) a q c
        ≡ h root_advance_input_v1 (input_fields t (transition_digest t) a q c)
  unfolding witness_input
  input-preimage t a q c = refl

  -- The signed message binds all that the certificate is about. For packages in range and 16-bit
  -- slots, two messages M that were made from recomputed digests and from the hashes of the public
  -- keys are equal only if the packages, the witness inputs, the public keys, the anchors, the slots
  -- and the receiver challenges are, or BLAKE3 maps two different ones of the messages that are
  -- hashed for the two M to one value: those for M, those for the transition digests or those for the
  -- key hashes.
  pub cert_message_binds :
      (t u : Transition) (x x' : Array 32) (k k' : List ℕ) (a a' : Array 32) (q q' : ℕ)
      (c c' : Array 32)
      → IsInRange t
      → IsInRange u
      → q < 2 ^ 16
      → q' < 2 ^ 16
      → cert_message t (transition_digest t) x (pk_hash k) a q c
        ≡ cert_message u (transition_digest u) x' (pk_hash k') a' q' c'
      → ((t ≡ u) × (x ≡ x') × (k ≡ k') × (a ≡ a') × (q ≡ q') × (c ≡ c'))
        ⊎ CollidesAt
            (message_preimage t x k a q c ∷ digest_preimage t ∷ key_preimage k ∷ [])
            (message_preimage u x' k' a' q' c' ∷ digest_preimage u ∷ key_preimage k' ∷ [])
  cert_message_binds t u x x' k k' a a' q q' c c' rt ru hq hq' e =
      elim (h_injective cert_message_v1 (message_fields t (transition_digest t) x (pk_hash k) a q c)
        (message_fields u (transition_digest u) x' (pk_hash k') a' q' c')
        (sym (message-preimage t x k a q c) ∙ e ∙ message-preimage u x' k' a' q' c')) [
          | inr n ↦ inr (inl n)
          | inl f ↦
              let (ed, ex, ep, ea, eq, ec) =
                message_fields_injective t u _ _ x x' _ _ a a' q q' c c' f in
              elim (transition_digest_binds t u rt ru ed) [
                | inr n ↦ inr (inr (inl n))
                | inl et ↦ elim (pk_hash_binds k k' ep) [
                  | inr n ↦ inr (inr (inr (inl n)))
                  | inl ek ↦ inl (et, ex, ek, ea, u16_le_injective q q' hq hq' eq, ec)
                ]
              ]
        ]

  -- The witness input X binds the package, the anchor, the slot and the receiver challenge. For
  -- packages in range and 16-bit slots, two inputs X that were made from recomputed digests are equal
  -- only if these are, or BLAKE3 maps two different ones of the messages that are hashed for the two
  -- X to one value: those for X, or those for the transition digests.
  pub witness_input_binds :
      (t u : Transition) (a a' : Array 32) (q q' : ℕ) (c c' : Array 32)
      → IsInRange t
      → IsInRange u
      → q < 2 ^ 16
      → q' < 2 ^ 16
      → witness_input t (transition_digest t) a q c ≡ witness_input u (transition_digest u) a' q' c'
      → ((t ≡ u) × (a ≡ a') × (q ≡ q') × (c ≡ c'))
        ⊎ CollidesAt
            (input_preimage t a q c ∷ digest_preimage t ∷ [])
            (input_preimage u a' q' c' ∷ digest_preimage u ∷ [])
  witness_input_binds t u a a' q q' c c' rt ru hq hq' e =
      elim (h_injective root_advance_input_v1 (input_fields t (transition_digest t) a q c)
        (input_fields u (transition_digest u) a' q' c')
        (sym (input-preimage t a q c) ∙ e ∙ input-preimage u a' q' c')) [
          | inr n ↦ inr (inl n)
          | inl f ↦
              let (ed, ea, eq, ec) = input_fields_injective t u _ _ a a' q q' c c' f in
              elim (transition_digest_binds t u rt ru ed) [
                | inr n ↦ inr (inr (inl n))
                | inl et ↦ inl (et, ea, u16_le_injective q q' hq hq' eq, ec)
              ]
        ]
