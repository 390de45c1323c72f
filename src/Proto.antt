-- ===== src/Proto.antt =====
-- anchor-core/src/proto.rs: the wire messages and their conversions to the domain types.
pub mod Pb
pub mod RoundTrip
pub mod Encoded
pub mod Accepted
use dsm_unplugged.Common.{
  ◌≡◌, ℕ, ◌^◌, ◌*◌, List, Array, to_vec, copy_from_slice, length, Option, some, Result, ok, err,
  ◌>>=◌, ◌>>◌, ok_or, ltb, ◌==◌, if◌then◌else◌,
}
use dsm_unplugged.RootAdvance.{OwnedTransition, Certificate, CounterEvidence, OfflineRelease}
use dsm_unplugged.Proto.Pb

pub data ProtoError : Type 0 where
  bad_length missing_field bad_op bad_slot decode : ProtoError

abbrev pub max_action_fields : ℕ
max_action_fields = 256

abbrev pub max_leaf_proof : ℕ
max_leaf_proof = 16 * 1024

abbrev pub max_pk_hw : ℕ
max_pk_hw = 4 * 1024

abbrev pub max_sigma : ℕ
max_sigma = 16 * 1024

abbrev pub max_transcript : ℕ
max_transcript = 8 * 1024

unfoldable pub arr32 : List ℕ → Result (Array 32) ProtoError
arr32 v = if length v == 32 then ok (copy_from_slice 32 v) else err bad_length

unfoldable pub bounded : List ℕ → ℕ → Result (Unit {0}) ProtoError
bounded v cap = if ltb cap (length v) then err bad_length else ok tt

-- `u16::try_from(slot)`
abbrev pub try_u16 : ℕ → Result ℕ ProtoError
try_u16 n = if ltb n (2 ^ 16) then ok n else err bad_slot

unfoldable pub to_owned_transition : Pb.TransitionPackage → Result OwnedTransition ProtoError
to_owned_transition p = do
  bounded p.action_fields max_action_fields
  bounded p.old_leaf_proof max_leaf_proof
  bounded p.new_leaf_proof max_leaf_proof
  relationship_id ← arr32 p.relationship_id
  object_id ← arr32 p.object_id
  sender_device_id ← arr32 p.sender_device_id
  recipient_device_id ← arr32 p.recipient_device_id
  prev_root ← arr32 p.prev_root
  next_root ← arr32 p.next_root
  payload_hash ← arr32 p.payload_hash
  authority_policy_hash ← arr32 p.authority_policy_hash
  ok (record {
    relationship_id = relationship_id;
    object_id = object_id;
    sender_device_id = sender_device_id;
    recipient_device_id = recipient_device_id;
    prev_root = prev_root;
    next_root = next_root;
    anchor_counter = p.anchor_counter;
    next_anchor_counter = p.next_anchor_counter;
    action_type = p.action_type;
    action_fields = p.action_fields;
    payload_hash = payload_hash;
    old_leaf_proof = p.old_leaf_proof;
    new_leaf_proof = p.new_leaf_proof;
    authority_policy_hash = authority_policy_hash;
  })

-- `OwnedTransition::to_pb`.
unfoldable pub transition_to_pb : OwnedTransition → Pb.TransitionPackage
transition_to_pb o = record {
  relationship_id = to_vec o.relationship_id;
  object_id = to_vec o.object_id;
  sender_device_id = to_vec o.sender_device_id;
  recipient_device_id = to_vec o.recipient_device_id;
  prev_root = to_vec o.prev_root;
  next_root = to_vec o.next_root;
  anchor_counter = o.anchor_counter;
  next_anchor_counter = o.next_anchor_counter;
  action_type = o.action_type;
  action_fields = o.action_fields;
  payload_hash = to_vec o.payload_hash;
  old_leaf_proof = o.old_leaf_proof;
  new_leaf_proof = o.new_leaf_proof;
  authority_policy_hash = to_vec o.authority_policy_hash;
}

unfoldable pub to_cert : Pb.RootAdvanceCertificate → Result Certificate ProtoError
to_cert p = do
  bounded p.pk_hw max_pk_hw
  bounded p.sigma max_sigma
  slot ← try_u16 p.slot
  prev_root ← arr32 p.prev_root
  next_root ← arr32 p.next_root
  transition_digest ← arr32 p.transition_digest
  witness_input ← arr32 p.witness_input
  pk_hash ← arr32 p.pk_hash
  anchor_id ← arr32 p.anchor_id
  receiver_challenge ← arr32 p.receiver_challenge
  ok (record {
    prev_root = prev_root;
    next_root = next_root;
    anchor_counter = p.anchor_counter;
    next_anchor_counter = p.next_anchor_counter;
    transition_digest = transition_digest;
    witness_input = witness_input;
    pk_hash = pk_hash;
    pk_hw = p.pk_hw;
    sigma = p.sigma;
    anchor_id = anchor_id;
    slot = slot;
    receiver_challenge = receiver_challenge;
  })

-- `Certificate::to_pb`.
unfoldable pub cert_to_pb : Certificate → Pb.RootAdvanceCertificate
cert_to_pb c = record {
  prev_root = to_vec c.prev_root;
  next_root = to_vec c.next_root;
  anchor_counter = c.anchor_counter;
  next_anchor_counter = c.next_anchor_counter;
  transition_digest = to_vec c.transition_digest;
  witness_input = to_vec c.witness_input;
  pk_hash = to_vec c.pk_hash;
  pk_hw = c.pk_hw;
  sigma = c.sigma;
  anchor_id = to_vec c.anchor_id;
  slot = c.slot;
  receiver_challenge = to_vec c.receiver_challenge;
}

unfoldable pub to_evidence : Pb.CounterEvidence → Result CounterEvidence ProtoError
to_evidence p = do
  bounded p.verifier_transcript max_transcript
  anchor_id ← arr32 p.anchor_id
  ok (record {
    anchor_id = anchor_id;
    enrolled_counter = p.enrolled_counter;
    live_counter_claim = p.live_counter_claim;
    derived_index_claim = p.derived_index_claim;
    verifier_transcript = p.verifier_transcript;
  })

-- `CounterEvidence::to_pb`.
unfoldable pub evidence_to_pb : CounterEvidence → Pb.CounterEvidence
evidence_to_pb e = record {
  anchor_id = to_vec e.anchor_id;
  enrolled_counter = e.enrolled_counter;
  live_counter_claim = e.live_counter_claim;
  derived_index_claim = e.derived_index_claim;
  verifier_transcript = e.verifier_transcript;
}

unfoldable pub to_release : Pb.OfflineRelease → Result OfflineRelease ProtoError
to_release p = do
  transition_pb ← ok_or p.transition missing_field
  transition ← to_owned_transition transition_pb
  cert_pb ← ok_or p.cert missing_field
  cert ← to_cert cert_pb
  counter_pb ← ok_or p.counter missing_field
  counter ← to_evidence counter_pb
  ok (record { transition = transition; cert = cert; counter = counter })

-- `OfflineRelease::to_pb`.
unfoldable pub release_to_pb : OfflineRelease → Pb.OfflineRelease
release_to_pb r = record {
  transition = some (transition_to_pb r.transition);
  cert = some (cert_to_pb r.cert);
  counter = some (evidence_to_pb r.counter);
}

-- The encoders and decoders that prost generates for the frames; `none` is its decode error.
pub record Prost : Type 0 where
  pub decode_request_bytes : List ℕ → Option Pb.ApplianceRequest
  pub encode_request_bytes : Pb.ApplianceRequest → List ℕ
  pub decode_response_bytes : List ℕ → Option Pb.ApplianceResponse
  pub encode_response_bytes : Pb.ApplianceResponse → List ℕ

-- What the code relies on in the codec: a message that it encodes is decoded as it was.
pub record ProstLaws (c : Prost) : Type 0 where
  pub request_round_trip :
      (req : Pb.ApplianceRequest) → c.decode_request_bytes (c.encode_request_bytes req) ≡ some req
  pub response_round_trip :
      (resp : Pb.ApplianceResponse)
      → c.decode_response_bytes (c.encode_response_bytes resp) ≡ some resp

module _ ⦃c : Prost⦄ where
  unfoldable pub decode_request : List ℕ → Result Pb.ApplianceRequest ProtoError
  decode_request bytes = ok_or (c.decode_request_bytes bytes) decode

  unfoldable pub encode_response : Pb.ApplianceResponse → List ℕ
  encode_response resp = c.encode_response_bytes resp

  unfoldable pub encode_request : Pb.ApplianceRequest → List ℕ
  encode_request req = c.encode_request_bytes req

  unfoldable pub decode_response : List ℕ → Result Pb.ApplianceResponse ProtoError
  decode_response bytes = ok_or (c.decode_response_bytes bytes) decode
