-- ===== src/RootAdvance/Fields.antt =====
-- anchor-core/src/root_advance.rs: what the digests X and M hash, field by field.
use dsm_unplugged.Common.{ℕ, ◌≡◌, List, [], ◌∷◌, concat, Array, to_vec, to_vec-append_injective}
use dsm_unplugged.Util.{u16_le, u64_le}
use dsm_unplugged.RootAdvance.{Transition}

-- The fields of M.
abbrev pub message_fields :
    Transition → Array 32 → Array 32 → Array 32 → Array 32 → ℕ → Array 32 → List (List ℕ)
message_fields t d x p a q c =
    to_vec t.prev_root
    ∷ to_vec t.next_root
    ∷ to_vec (u64_le t.anchor_counter)
    ∷ to_vec (u64_le t.next_anchor_counter)
    ∷ to_vec d
    ∷ to_vec x
    ∷ to_vec p
    ∷ to_vec t.recipient_device_id
    ∷ to_vec t.object_id
    ∷ to_vec t.authority_policy_hash
    ∷ to_vec a
    ∷ to_vec (u16_le q)
    ∷ to_vec c
    ∷ []

-- The fields of X.
abbrev pub input_fields : Transition → Array 32 → Array 32 → ℕ → Array 32 → List (List ℕ)
input_fields t d a q c =
    to_vec t.prev_root
    ∷ to_vec t.next_root
    ∷ to_vec (u64_le t.anchor_counter)
    ∷ to_vec (u64_le t.next_anchor_counter)
    ∷ to_vec d
    ∷ to_vec t.recipient_device_id
    ∷ to_vec t.object_id
    ∷ to_vec t.authority_policy_hash
    ∷ to_vec a
    ∷ to_vec (u16_le q)
    ∷ to_vec c
    ∷ []

pub message_fields_injective :
    (t u : Transition) (d d' x x' p p' a a' : Array 32) (q q' : ℕ) (c c' : Array 32)
    → concat (message_fields t d x p a q c) ≡ concat (message_fields u d' x' p' a' q' c')
    → (d ≡ d') × (x ≡ x') × (p ≡ p') × (a ≡ a') × (u16_le q ≡ u16_le q') × (c ≡ c')
message_fields_injective t u d d' x x' p p' a a' q q' c c' e =
    let (p0, r0) = to_vec-append_injective t.prev_root u.prev_root _ _ e in
    let (p1, r1) = to_vec-append_injective t.next_root u.next_root _ _ r0 in
    let (p2, r2) =
      to_vec-append_injective (u64_le t.anchor_counter) (u64_le u.anchor_counter) _ _ r1 in
    let (p3, r3) =
      to_vec-append_injective (u64_le t.next_anchor_counter) (u64_le u.next_anchor_counter) _ _
        r2 in
    let (p4, r4) = to_vec-append_injective d d' _ _ r3 in
    let (p5, r5) = to_vec-append_injective x x' _ _ r4 in
    let (p6, r6) = to_vec-append_injective p p' _ _ r5 in
    let (p7, r7) = to_vec-append_injective t.recipient_device_id u.recipient_device_id _ _ r6 in
    let (p8, r8) = to_vec-append_injective t.object_id u.object_id _ _ r7 in
    let (p9, r9) = to_vec-append_injective t.authority_policy_hash u.authority_policy_hash _ _ r8 in
    let (p10, r10) = to_vec-append_injective a a' _ _ r9 in
    let (p11, r11) = to_vec-append_injective (u16_le q) (u16_le q') _ _ r10 in
    let (p12, r12) = to_vec-append_injective c c' _ _ r11 in (p4, p5, p6, p10, p11, p12)

pub input_fields_injective :
    (t u : Transition) (d d' a a' : Array 32) (q q' : ℕ) (c c' : Array 32)
    → concat (input_fields t d a q c) ≡ concat (input_fields u d' a' q' c')
    → (d ≡ d') × (a ≡ a') × (u16_le q ≡ u16_le q') × (c ≡ c')
input_fields_injective t u d d' a a' q q' c c' e =
    let (p0, r0) = to_vec-append_injective t.prev_root u.prev_root _ _ e in
    let (p1, r1) = to_vec-append_injective t.next_root u.next_root _ _ r0 in
    let (p2, r2) =
      to_vec-append_injective (u64_le t.anchor_counter) (u64_le u.anchor_counter) _ _ r1 in
    let (p3, r3) =
      to_vec-append_injective (u64_le t.next_anchor_counter) (u64_le u.next_anchor_counter) _ _
        r2 in
    let (p4, r4) = to_vec-append_injective d d' _ _ r3 in
    let (p5, r5) = to_vec-append_injective t.recipient_device_id u.recipient_device_id _ _ r4 in
    let (p6, r6) = to_vec-append_injective t.object_id u.object_id _ _ r5 in
    let (p7, r7) = to_vec-append_injective t.authority_policy_hash u.authority_policy_hash _ _ r6 in
    let (p8, r8) = to_vec-append_injective a a' _ _ r7 in
    let (p9, r9) = to_vec-append_injective (u16_le q) (u16_le q') _ _ r8 in
    let (p10, r10) = to_vec-append_injective c c' _ _ r9 in (p4, p8, p9, p10)
