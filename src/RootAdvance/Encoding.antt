-- ===== src/RootAdvance/Encoding.antt =====
-- anchor-core/src/root_advance.rs: `enc(Δ)` determines Δ.
use dsm_unplugged.Common.{
  ℕ, ◌≡◌, sym, ◌∙◌, List, [], ◌++◌, append_assoc, append-nil, to_vec, to_vec-append_injective,
}
use dsm_unplugged.Util.{u32_le, u64_le}
use dsm_unplugged.Util.Encoding.{
  var_field, var_field_injective, push_var-var_field, u32_le_injective, u64_le_injective,
}
use dsm_unplugged.RootAdvance.{Transition, IsInRange, enc_transition}

-- The fields of a transition package, each as the bytes that it has on the wire.
abbrev layout : Transition → List ℕ
layout t =
    to_vec t.relationship_id
    ++ (to_vec t.object_id
        ++ (to_vec t.sender_device_id
            ++ (to_vec t.recipient_device_id
                ++ (to_vec t.prev_root
                    ++ (to_vec t.next_root
                        ++ (to_vec (u64_le t.anchor_counter)
                            ++ (to_vec (u64_le t.next_anchor_counter)
                                ++ (to_vec (u32_le t.action_type)
                                    ++ (var_field t.action_fields
                                        ++ (to_vec t.payload_hash
                                            ++ (var_field t.old_leaf_proof
                                                ++ (var_field t.new_leaf_proof
                                                    ++ (to_vec t.authority_policy_hash)))))))))))))

enc_transition-layout : (t : Transition) → enc_transition t ≡ layout t
unfolding enc_transition
enc_transition-layout t = simp (push_var-var_field, append_assoc)

layout_injective : (t u : Transition) → IsInRange t → IsInRange u → layout t ≡ layout u → t ≡ u
layout_injective t u rt ru e =
    let (p0, r0) = to_vec-append_injective t.relationship_id u.relationship_id _ _ e in
    let (p1, r1) = to_vec-append_injective t.object_id u.object_id _ _ r0 in
    let (p2, r2) = to_vec-append_injective t.sender_device_id u.sender_device_id _ _ r1 in
    let (p3, r3) = to_vec-append_injective t.recipient_device_id u.recipient_device_id _ _ r2 in
    let (p4, r4) = to_vec-append_injective t.prev_root u.prev_root _ _ r3 in
    let (p5, r5) = to_vec-append_injective t.next_root u.next_root _ _ r4 in
    let (q6, r6) =
      to_vec-append_injective (u64_le t.anchor_counter) (u64_le u.anchor_counter) _ _ r5 in
    let p6 : t.anchor_counter ≡ u.anchor_counter =
      u64_le_injective _ _ rt.anchor_counter_range ru.anchor_counter_range q6 in
    let (q7, r7) =
      to_vec-append_injective (u64_le t.next_anchor_counter) (u64_le u.next_anchor_counter) _ _
        r6 in
    let p7 : t.next_anchor_counter ≡ u.next_anchor_counter =
      u64_le_injective _ _ rt.next_anchor_counter_range ru.next_anchor_counter_range q7 in
    let (q8, r8) = to_vec-append_injective (u32_le t.action_type) (u32_le u.action_type) _ _ r7 in
    let p8 : t.action_type ≡ u.action_type =
      u32_le_injective _ _ rt.action_type_range ru.action_type_range q8 in
    let (p9, r9) =
      var_field_injective t.action_fields u.action_fields _ _ rt.action_fields_range
        ru.action_fields_range r8 in
    let (p10, r10) = to_vec-append_injective t.payload_hash u.payload_hash _ _ r9 in
    let (p11, r11) =
      var_field_injective t.old_leaf_proof u.old_leaf_proof _ _ rt.old_leaf_proof_range
        ru.old_leaf_proof_range r10 in
    let (p12, r12) =
      var_field_injective t.new_leaf_proof u.new_leaf_proof _ _ rt.new_leaf_proof_range
        ru.new_leaf_proof_range r11 in
    let p13 : t.authority_policy_hash ≡ u.authority_policy_hash =
      (to_vec-append_injective t.authority_policy_hash u.authority_policy_hash [] []
        (append-nil _ ∙ r12 ∙ sym (append-nil _))).0 in
    λ i. record {
      relationship_id = p0 i;
      object_id = p1 i;
      sender_device_id = p2 i;
      recipient_device_id = p3 i;
      prev_root = p4 i;
      next_root = p5 i;
      anchor_counter = p6 i;
      next_anchor_counter = p7 i;
      action_type = p8 i;
      action_fields = p9 i;
      payload_hash = p10 i;
      old_leaf_proof = p11 i;
      new_leaf_proof = p12 i;
      authority_policy_hash = p13 i;
    }

-- Two transition packages whose integers are in their machine ranges and whose variable-length fields
-- are shorter than 2 ^ 32 have the same encoding only if they are the same in every field.
pub enc_transition_injective :
    (t u : Transition) → IsInRange t → IsInRange u → enc_transition t ≡ enc_transition u → t ≡ u
enc_transition_injective t u rt ru e =
    layout_injective t u rt ru (sym (enc_transition-layout t) ∙ e ∙ enc_transition-layout u)
