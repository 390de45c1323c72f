-- ===== src/RootAdvance.antt =====
-- anchor-core/src/root_advance.rs: the transition package, the values that the witness binds, and
-- the artifacts of a release.
pub mod Encoding
pub mod Fields
pub mod Binding
use dsm_unplugged.Common.{ℕ, ◌+◌, ◌<◌, ◌^◌, List, [], ◌∷◌, ◌++◌, length, Array, to_vec}
use dsm_unplugged.Util.{push_var, u16_le, u32_le, u64_le}
use dsm_unplugged.Domain.{
  transition_digest_v1, root_advance_input_v1, root_advance_witness_key_v1, pk_hash_v1,
  cert_message_v1,
}
use dsm_unplugged.Hash.{Blake3, h, kdf}

-- `Transition`, which borrows its parts.
pub record Transition : Type 0 where
  pub relationship_id : Array 32
  pub object_id : Array 32
  pub sender_device_id : Array 32
  pub recipient_device_id : Array 32
  pub prev_root : Array 32
  pub next_root : Array 32
  pub anchor_counter : ℕ
  pub next_anchor_counter : ℕ
  pub action_type : ℕ
  pub action_fields : List ℕ
  pub payload_hash : Array 32
  pub old_leaf_proof : List ℕ
  pub new_leaf_proof : List ℕ
  pub authority_policy_hash : Array 32

-- `OwnedTransition`, which owns them.
pub record OwnedTransition : Type 0 where
  pub relationship_id : Array 32
  pub object_id : Array 32
  pub sender_device_id : Array 32
  pub recipient_device_id : Array 32
  pub prev_root : Array 32
  pub next_root : Array 32
  pub anchor_counter : ℕ
  pub next_anchor_counter : ℕ
  pub action_type : ℕ
  pub action_fields : List ℕ
  pub payload_hash : Array 32
  pub old_leaf_proof : List ℕ
  pub new_leaf_proof : List ℕ
  pub authority_policy_hash : Array 32

-- `OwnedTransition::from`.
unfoldable pub from : Transition → OwnedTransition
from t = record {
  relationship_id = t.relationship_id;
  object_id = t.object_id;
  sender_device_id = t.sender_device_id;
  recipient_device_id = t.recipient_device_id;
  prev_root = t.prev_root;
  next_root = t.next_root;
  anchor_counter = t.anchor_counter;
  next_anchor_counter = t.next_anchor_counter;
  action_type = t.action_type;
  action_fields = t.action_fields;
  payload_hash = t.payload_hash;
  old_leaf_proof = t.old_leaf_proof;
  new_leaf_proof = t.new_leaf_proof;
  authority_policy_hash = t.authority_policy_hash;
}

unfoldable pub as_transition : OwnedTransition → Transition
as_transition o = record {
  relationship_id = o.relationship_id;
  object_id = o.object_id;
  sender_device_id = o.sender_device_id;
  recipient_device_id = o.recipient_device_id;
  prev_root = o.prev_root;
  next_root = o.next_root;
  anchor_counter = o.anchor_counter;
  next_anchor_counter = o.next_anchor_counter;
  action_type = o.action_type;
  action_fields = o.action_fields;
  payload_hash = o.payload_hash;
  old_leaf_proof = o.old_leaf_proof;
  new_leaf_proof = o.new_leaf_proof;
  authority_policy_hash = o.authority_policy_hash;
}

-- The ranges of the integer fields, and the bound that `push_var` asserts of the others.
pub record IsInRange (t : Transition) : Type 0 where
  pub anchor_counter_range : t.anchor_counter < 2 ^ 64
  pub next_anchor_counter_range : t.next_anchor_counter < 2 ^ 64
  pub action_type_range : t.action_type < 2 ^ 32
  pub action_fields_range : length t.action_fields < 2 ^ 32
  pub old_leaf_proof_range : length t.old_leaf_proof < 2 ^ 32
  pub new_leaf_proof_range : length t.new_leaf_proof < 2 ^ 32

-- `extend_from_slice`
abbrev extend : List ℕ → List ℕ → List ℕ
extend v xs = v ++ xs

-- The buffer `v` is written field by field.
unfoldable pub enc_transition : Transition → List ℕ
enc_transition t =
    let v1 : List ℕ = extend [] (to_vec t.relationship_id) in
    let v2 : List ℕ = extend v1 (to_vec t.object_id) in
    let v3 : List ℕ = extend v2 (to_vec t.sender_device_id) in
    let v4 : List ℕ = extend v3 (to_vec t.recipient_device_id) in
    let v5 : List ℕ = extend v4 (to_vec t.prev_root) in
    let v6 : List ℕ = extend v5 (to_vec t.next_root) in
    let v7 : List ℕ = extend v6 (to_vec (u64_le t.anchor_counter)) in
    let v8 : List ℕ = extend v7 (to_vec (u64_le t.next_anchor_counter)) in
    let v9 : List ℕ = extend v8 (to_vec (u32_le t.action_type)) in
    let v10 : List ℕ = push_var v9 t.action_fields in
    let v11 : List ℕ = extend v10 (to_vec t.payload_hash) in
    let v12 : List ℕ = push_var v11 t.old_leaf_proof in
    let v13 : List ℕ = push_var v12 t.new_leaf_proof in extend v13 (to_vec t.authority_policy_hash)

module _ ⦃b : Blake3⦄ where
  unfoldable pub transition_digest : Transition → Array 32
  transition_digest t = h transition_digest_v1 (enc_transition t ∷ [])

  unfoldable pub witness_input : Transition → Array 32 → Array 32 → ℕ → Array 32 → Array 32
  witness_input t d anchor_id q receiver_challenge = h root_advance_input_v1 (
      to_vec t.prev_root
      ∷ to_vec t.next_root
      ∷ to_vec (u64_le t.anchor_counter)
      ∷ to_vec (u64_le t.next_anchor_counter)
      ∷ to_vec d
      ∷ to_vec t.recipient_device_id
      ∷ to_vec t.object_id
      ∷ to_vec t.authority_policy_hash
      ∷ to_vec anchor_id
      ∷ to_vec (u16_le q)
      ∷ to_vec receiver_challenge
      ∷ [])

  unfoldable pub witness_key_material : Array 32 → Array 32 → Transition → Array 32 → ℕ → Array 32
  witness_key_material w x t anchor_id q = kdf w root_advance_witness_key_v1 (
      to_vec x
      ∷ to_vec t.prev_root
      ∷ to_vec t.next_root
      ∷ to_vec (u64_le t.anchor_counter)
      ∷ to_vec (u64_le t.next_anchor_counter)
      ∷ to_vec anchor_id
      ∷ to_vec (u16_le q)
      ∷ to_vec t.authority_policy_hash
      ∷ [])

  unfoldable pub pk_hash : List ℕ → Array 32
  pk_hash pk_hw = h pk_hash_v1 (pk_hw ∷ [])

  unfoldable pub cert_message :
      Transition → Array 32 → Array 32 → Array 32 → Array 32 → ℕ → Array 32 → Array 32
  cert_message t d x p_hw anchor_id q receiver_challenge = h cert_message_v1 (
      to_vec t.prev_root
      ∷ to_vec t.next_root
      ∷ to_vec (u64_le t.anchor_counter)
      ∷ to_vec (u64_le t.next_anchor_counter)
      ∷ to_vec d
      ∷ to_vec x
      ∷ to_vec p_hw
      ∷ to_vec t.recipient_device_id
      ∷ to_vec t.object_id
      ∷ to_vec t.authority_policy_hash
      ∷ to_vec anchor_id
      ∷ to_vec (u16_le q)
      ∷ to_vec receiver_challenge
      ∷ [])

pub record Certificate : Type 0 where
  pub prev_root : Array 32
  pub next_root : Array 32
  pub anchor_counter : ℕ
  pub next_anchor_counter : ℕ
  pub transition_digest : Array 32
  pub witness_input : Array 32
  pub pk_hash : Array 32
  pub pk_hw : List ℕ
  pub sigma : List ℕ
  pub anchor_id : Array 32
  pub slot : ℕ
  pub receiver_challenge : Array 32

pub record CounterEvidence : Type 0 where
  pub anchor_id : Array 32
  pub enrolled_counter : ℕ
  pub live_counter_claim : ℕ
  pub derived_index_claim : ℕ
  pub verifier_transcript : List ℕ

pub record OfflineRelease : Type 0 where
  pub transition : OwnedTransition
  pub cert : Certificate
  pub counter : CounterEvidence
