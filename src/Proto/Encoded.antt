-- ===== src/Proto/Encoded.antt =====
-- anchor-core/src/proto.rs: a wire message that is accepted is the encoding of what it decodes to.
use dsm_unplugged.Common.{◌≡◌, refl, sym, ap, ◌∙◌, to_vec, Result, ok, err, ◌>>=◌, arith}
use dsm_unplugged.RootAdvance.{OwnedTransition, Certificate, CounterEvidence}
use dsm_unplugged.Proto.Pb
use dsm_unplugged.Proto.{
  arr32, bounded, max_action_fields, max_leaf_proof, max_pk_hw, max_sigma, max_transcript, try_u16,
  to_owned_transition, transition_to_pb, to_cert, cert_to_pb, to_evidence, evidence_to_pb,
}
use dsm_unplugged.Proto.RoundTrip.{to_vec-arr32}

pub bind_ok {ℓ κ μ} :
    {A : Type ℓ} {B : Type κ} {E : Type μ} (m : Result A E) (f : A → Result B E) {b : B}
    → (m >>= f) ≡ ok b
    → (a : A) × (m ≡ ok a) × (f a ≡ ok b)
bind_ok (ok a) f h = (a, refl, h)
bind_ok (err e) f h = cc

pub ok_injective {ℓ μ} :
    {A : Type ℓ} {E : Type μ} {a b : A} → ◌≡◌ {A = Result A E} (ok a) (ok b) → a ≡ b
ok_injective h = cc

pub to_owned_transition-eq_ok :
    (p : Pb.TransitionPackage) (o : OwnedTransition)
    → to_owned_transition p ≡ ok o
    → transition_to_pb o ≡ p
unfolding to_owned_transition transition_to_pb
to_owned_transition-eq_ok p o h =
    let (u0, b0, h0) = bind_ok (bounded p.action_fields max_action_fields) _ h in
    let (u1, b1, h1) = bind_ok (bounded p.old_leaf_proof max_leaf_proof) _ h0 in
    let (u2, b2, h2) = bind_ok (bounded p.new_leaf_proof max_leaf_proof) _ h1 in
    let (relationship_id, e_relationship_id, h3) = bind_ok (arr32 p.relationship_id) _ h2 in
    let (object_id, e_object_id, h4) = bind_ok (arr32 p.object_id) _ h3 in
    let (sender_device_id, e_sender_device_id, h5) = bind_ok (arr32 p.sender_device_id) _ h4 in
    let (recipient_device_id, e_recipient_device_id, h6) =
      bind_ok (arr32 p.recipient_device_id) _ h5 in
    let (prev_root, e_prev_root, h7) = bind_ok (arr32 p.prev_root) _ h6 in
    let (next_root, e_next_root, h8) = bind_ok (arr32 p.next_root) _ h7 in
    let (payload_hash, e_payload_hash, h9) = bind_ok (arr32 p.payload_hash) _ h8 in
    let (authority_policy_hash, e_authority_policy_hash, h10) =
      bind_ok (arr32 p.authority_policy_hash) _ h9 in
    let same = ok_injective h10 in
    let p_relationship_id : to_vec o.relationship_id ≡ p.relationship_id =
      to_vec-arr32 p.relationship_id o.relationship_id
        (e_relationship_id ∙ ap (λ (r : OwnedTransition). ok r.relationship_id) same) in
    let p_object_id : to_vec o.object_id ≡ p.object_id =
      to_vec-arr32 p.object_id o.object_id
        (e_object_id ∙ ap (λ (r : OwnedTransition). ok r.object_id) same) in
    let p_sender_device_id : to_vec o.sender_device_id ≡ p.sender_device_id =
      to_vec-arr32 p.sender_device_id o.sender_device_id
        (e_sender_device_id ∙ ap (λ (r : OwnedTransition). ok r.sender_device_id) same) in
    let p_recipient_device_id : to_vec o.recipient_device_id ≡ p.recipient_device_id =
      to_vec-arr32 p.recipient_device_id o.recipient_device_id
        (e_recipient_device_id ∙ ap (λ (r : OwnedTransition). ok r.recipient_device_id) same) in
    let p_prev_root : to_vec o.prev_root ≡ p.prev_root =
      to_vec-arr32 p.prev_root o.prev_root
        (e_prev_root ∙ ap (λ (r : OwnedTransition). ok r.prev_root) same) in
    let p_next_root : to_vec o.next_root ≡ p.next_root =
      to_vec-arr32 p.next_root o.next_root
        (e_next_root ∙ ap (λ (r : OwnedTransition). ok r.next_root) same) in
    let p_anchor_counter : o.anchor_counter ≡ p.anchor_counter =
      sym (ap (λ (r : OwnedTransition). r.anchor_counter) same) in
    let p_next_anchor_counter : o.next_anchor_counter ≡ p.next_anchor_counter =
      sym (ap (λ (r : OwnedTransition). r.next_anchor_counter) same) in
    let p_action_type : o.action_type ≡ p.action_type =
      sym (ap (λ (r : OwnedTransition). r.action_type) same) in
    let p_action_fields : o.action_fields ≡ p.action_fields =
      sym (ap (λ (r : OwnedTransition). r.action_fields) same) in
    let p_payload_hash : to_vec o.payload_hash ≡ p.payload_hash =
      to_vec-arr32 p.payload_hash o.payload_hash
        (e_payload_hash ∙ ap (λ (r : OwnedTransition). ok r.payload_hash) same) in
    let p_old_leaf_proof : o.old_leaf_proof ≡ p.old_leaf_proof =
      sym (ap (λ (r : OwnedTransition). r.old_leaf_proof) same) in
    let p_new_leaf_proof : o.new_leaf_proof ≡ p.new_leaf_proof =
      sym (ap (λ (r : OwnedTransition). r.new_leaf_proof) same) in
    let p_authority_policy_hash : to_vec o.authority_policy_hash ≡ p.authority_policy_hash =
      to_vec-arr32 p.authority_policy_hash o.authority_policy_hash
        (e_authority_policy_hash ∙ ap (λ (r : OwnedTransition). ok r.authority_policy_hash) same) in
    λ i. record {
      relationship_id = p_relationship_id i;
      object_id = p_object_id i;
      sender_device_id = p_sender_device_id i;
      recipient_device_id = p_recipient_device_id i;
      prev_root = p_prev_root i;
      next_root = p_next_root i;
      anchor_counter = p_anchor_counter i;
      next_anchor_counter = p_next_anchor_counter i;
      action_type = p_action_type i;
      action_fields = p_action_fields i;
      payload_hash = p_payload_hash i;
      old_leaf_proof = p_old_leaf_proof i;
      new_leaf_proof = p_new_leaf_proof i;
      authority_policy_hash = p_authority_policy_hash i;
    }

pub to_cert-eq_ok :
    (p : Pb.RootAdvanceCertificate) (o : Certificate) → to_cert p ≡ ok o → cert_to_pb o ≡ p
unfolding to_cert cert_to_pb
to_cert-eq_ok p o h =
    let (u0, b0, h0) = bind_ok (bounded p.pk_hw max_pk_hw) _ h in
    let (u1, b1, h1) = bind_ok (bounded p.sigma max_sigma) _ h0 in
    let (slot, b2, h2) = bind_ok (try_u16 p.slot) _ h1 in
    let (prev_root, e_prev_root, h3) = bind_ok (arr32 p.prev_root) _ h2 in
    let (next_root, e_next_root, h4) = bind_ok (arr32 p.next_root) _ h3 in
    let (transition_digest, e_transition_digest, h5) = bind_ok (arr32 p.transition_digest) _ h4 in
    let (witness_input, e_witness_input, h6) = bind_ok (arr32 p.witness_input) _ h5 in
    let (pk_hash, e_pk_hash, h7) = bind_ok (arr32 p.pk_hash) _ h6 in
    let (anchor_id, e_anchor_id, h8) = bind_ok (arr32 p.anchor_id) _ h7 in
    let (receiver_challenge, e_receiver_challenge, h9) =
      bind_ok (arr32 p.receiver_challenge) _ h8 in
    let same = ok_injective h9 in
    let p_prev_root : to_vec o.prev_root ≡ p.prev_root =
      to_vec-arr32 p.prev_root o.prev_root
        (e_prev_root ∙ ap (λ (r : Certificate). ok r.prev_root) same) in
    let p_next_root : to_vec o.next_root ≡ p.next_root =
      to_vec-arr32 p.next_root o.next_root
        (e_next_root ∙ ap (λ (r : Certificate). ok r.next_root) same) in
    let p_anchor_counter : o.anchor_counter ≡ p.anchor_counter =
      sym (ap (λ (r : Certificate). r.anchor_counter) same) in
    let p_next_anchor_counter : o.next_anchor_counter ≡ p.next_anchor_counter =
      sym (ap (λ (r : Certificate). r.next_anchor_counter) same) in
    let p_transition_digest : to_vec o.transition_digest ≡ p.transition_digest =
      to_vec-arr32 p.transition_digest o.transition_digest
        (e_transition_digest ∙ ap (λ (r : Certificate). ok r.transition_digest) same) in
    let p_witness_input : to_vec o.witness_input ≡ p.witness_input =
      to_vec-arr32 p.witness_input o.witness_input
        (e_witness_input ∙ ap (λ (r : Certificate). ok r.witness_input) same) in
    let p_pk_hash : to_vec o.pk_hash ≡ p.pk_hash =
      to_vec-arr32 p.pk_hash o.pk_hash (e_pk_hash ∙ ap (λ (r : Certificate). ok r.pk_hash) same) in
    let p_pk_hw : o.pk_hw ≡ p.pk_hw = sym (ap (λ (r : Certificate). r.pk_hw) same) in
    let p_sigma : o.sigma ≡ p.sigma = sym (ap (λ (r : Certificate). r.sigma) same) in
    let p_anchor_id : to_vec o.anchor_id ≡ p.anchor_id =
      to_vec-arr32 p.anchor_id o.anchor_id
        (e_anchor_id ∙ ap (λ (r : Certificate). ok r.anchor_id) same) in
    let p_slot : o.slot ≡ p.slot = ground (arith, ap (λ (r : Certificate). r.slot) same, b2) in
    let p_receiver_challenge : to_vec o.receiver_challenge ≡ p.receiver_challenge =
      to_vec-arr32 p.receiver_challenge o.receiver_challenge
        (e_receiver_challenge ∙ ap (λ (r : Certificate). ok r.receiver_challenge) same) in
    λ i. record {
      prev_root = p_prev_root i;
      next_root = p_next_root i;
      anchor_counter = p_anchor_counter i;
      next_anchor_counter = p_next_anchor_counter i;
      transition_digest = p_transition_digest i;
      witness_input = p_witness_input i;
      pk_hash = p_pk_hash i;
      pk_hw = p_pk_hw i;
      sigma = p_sigma i;
      anchor_id = p_anchor_id i;
      slot = p_slot i;
      receiver_challenge = p_receiver_challenge i;
    }

pub to_evidence-eq_ok :
    (p : Pb.CounterEvidence) (o : CounterEvidence) → to_evidence p ≡ ok o → evidence_to_pb o ≡ p
unfolding to_evidence evidence_to_pb
to_evidence-eq_ok p o h =
    let (u0, b0, h0) = bind_ok (bounded p.verifier_transcript max_transcript) _ h in
    let (anchor_id, e_anchor_id, h1) = bind_ok (arr32 p.anchor_id) _ h0 in
    let same = ok_injective h1 in
    let p_anchor_id : to_vec o.anchor_id ≡ p.anchor_id =
      to_vec-arr32 p.anchor_id o.anchor_id
        (e_anchor_id ∙ ap (λ (r : CounterEvidence). ok r.anchor_id) same) in
    let p_enrolled_counter : o.enrolled_counter ≡ p.enrolled_counter =
      sym (ap (λ (r : CounterEvidence). r.enrolled_counter) same) in
    let p_live_counter_claim : o.live_counter_claim ≡ p.live_counter_claim =
      sym (ap (λ (r : CounterEvidence). r.live_counter_claim) same) in
    let p_derived_index_claim : o.derived_index_claim ≡ p.derived_index_claim =
      sym (ap (λ (r : CounterEvidence). r.derived_index_claim) same) in
    let p_verifier_transcript : o.verifier_transcript ≡ p.verifier_transcript =
      sym (ap (λ (r : CounterEvidence). r.verifier_transcript) same) in
    λ i. record {
      anchor_id = p_anchor_id i;
      enrolled_counter = p_enrolled_counter i;
      live_counter_claim = p_live_counter_claim i;
      derived_index_claim = p_derived_index_claim i;
      verifier_transcript = p_verifier_transcript i;
    }
