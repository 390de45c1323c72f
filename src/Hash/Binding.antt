-- ===== src/Hash/Binding.antt =====
-- anchor-core/src/hash.rs: equal values of `h` come from equal inputs, or these collide.
use Prim.Native.String.{String}
use dsm_unplugged.Common.{
  ℕ, ◌≡◌, ◌≢◌, sym, ap, ◌∙◌, ◌⊎◌, inl, inr, List, [], ◌∷◌, ◌++◌, concat, length, append_assoc,
  append-nil, Array, arith,
}
use dsm_unplugged.Domain.{as_bytes}
use dsm_unplugged.Hash.{Blake3, h, kdf}
use mathlib.Core.List.{foldl, append_cancel_left}
use native.Mathlib.Decide.{ℕ_discrete}

bytes_discrete : Discrete (List ℕ)
bytes_discrete = hlevel ℕ_discrete

module _ ⦃b : Blake3⦄ where
  -- The hash of one message.
  pub digest : List ℕ → Array 32
  digest m = b.finalize (b.update b.new m)

  -- The keyed hash of one message.
  pub keyed_digest : Array 32 → List ℕ → Array 32
  keyed_digest k m = b.finalize (b.update (b.new_keyed k) m)

  -- Two given messages that differ and have one hash.
  abbrev pub Collides : List ℕ → List ℕ → Type 0
  Collides x y = (x ≢ y) × (digest x ≡ digest y)

  -- Two runs hash messages in this order, and at some place theirs collide.
  abbrev pub CollidesAt : List (List ℕ) → List (List ℕ) → Type 0
  CollidesAt [] ys = ⊥
  CollidesAt (x ∷ xs) [] = ⊥
  CollidesAt (x ∷ xs) (y ∷ ys) = Collides x y ⊎ CollidesAt xs ys

  pub CollidesAt-left :
      (xs ys xs' ys' : List (List ℕ)) → CollidesAt xs ys → CollidesAt (xs ++ xs') (ys ++ ys')
  CollidesAt-left [] ys xs' ys' c = absurd c
  CollidesAt-left (x ∷ xs) [] xs' ys' c = absurd c
  CollidesAt-left (x ∷ xs) (y ∷ ys) xs' ys' (inl c) = inl c
  CollidesAt-left (x ∷ xs) (y ∷ ys) xs' ys' (inr c) = inr (CollidesAt-left xs ys xs' ys' c)

  pub CollidesAt-right :
      (xs ys xs' ys' : List (List ℕ))
      → length xs ≡ length ys
      → CollidesAt xs' ys'
      → CollidesAt (xs ++ xs') (ys ++ ys')
  CollidesAt-right [] [] xs' ys' e c = c
  CollidesAt-right [] (y ∷ ys) xs' ys' e c = absurd (omega arith)
  CollidesAt-right (x ∷ xs) [] xs' ys' e c = absurd (omega arith)
  CollidesAt-right (x ∷ xs) (y ∷ ys) xs' ys' e c =
      inr (CollidesAt-right xs ys xs' ys' (omega arith) c)

  foldl_update :
      (s : b.Hasher) (m : List ℕ) (fields : List (List ℕ))
      → foldl b.update (b.update s m) fields ≡ b.update s (m ++ concat fields)
  foldl_update s m [] = ap (b.update s) (sym (append-nil m))
  foldl_update s m (f ∷ fs) =
      ap (λ (t : b.Hasher). foldl b.update t fs) (b.update_update s m f)
      ∙ foldl_update s (m ++ f) fs
      ∙ ap (b.update s) (append_assoc m f (concat fs))

  -- What `h` hashes: the tag and the fields one after the other.
  abbrev pub message : String → List (List ℕ) → List ℕ
  message domain fields = as_bytes domain ++ concat fields

  -- `h` hashes the tag and the fields one after the other, and `kdf` does so under its key.
  pub h-digest :
      (domain : String) (fields : List (List ℕ))
      → h domain fields ≡ digest (as_bytes domain ++ concat fields)
  unfolding h digest
  h-digest domain fields = ap b.finalize (foldl_update b.new (as_bytes domain) fields)

  pub kdf-keyed_digest :
      (k : Array 32) (domain : String) (fields : List (List ℕ))
      → kdf k domain fields ≡ keyed_digest k (as_bytes domain ++ concat fields)
  unfolding kdf keyed_digest
  kdf-keyed_digest k domain fields =
      ap b.finalize (foldl_update (b.new_keyed k) (as_bytes domain) fields)

  digest_injective : (x y : List ℕ) → digest x ≡ digest y → (x ≡ y) ⊎ Collides x y
  digest_injective x y e = elim (bytes_discrete x y) [ yes p ↦ inl p | no n ↦ inr (n, e) ]

  -- Under one tag, equal values of `h` come from equal concatenations of fields, or what is hashed
  -- collides.
  pub h_injective :
      (domain : String) (fs gs : List (List ℕ))
      → h domain fs ≡ h domain gs
      → (concat fs ≡ concat gs) ⊎ Collides (message domain fs) (message domain gs)
  h_injective domain fs gs e =
      elim (digest_injective (message domain fs) (message domain gs)
        (sym (h-digest domain fs) ∙ e ∙ h-digest domain gs)) [
          | inl p ↦ inl (append_cancel_left (as_bytes domain) (concat fs) (concat gs) p)
          | inr c ↦ inr c
        ]
