-- ===== src/Proto/Pb.antt =====
-- proto/dsm_anchor.proto: the messages, as prost generates them. `bytes` is a list of bytes, a
-- sub-message an option, and an enum field the bit pattern of its i32.
use dsm_unplugged.Common.{ℕ, Bool, List, Option}

pub record TransitionPackage : Type 0 where
  pub relationship_id : List ℕ
  pub object_id : List ℕ
  pub sender_device_id : List ℕ
  pub recipient_device_id : List ℕ
  pub prev_root : List ℕ
  pub next_root : List ℕ
  pub anchor_counter : ℕ
  pub next_anchor_counter : ℕ
  pub action_type : ℕ
  pub action_fields : List ℕ
  pub payload_hash : List ℕ
  pub old_leaf_proof : List ℕ
  pub new_leaf_proof : List ℕ
  pub authority_policy_hash : List ℕ

pub record RootAdvanceCertificate : Type 0 where
  pub prev_root : List ℕ
  pub next_root : List ℕ
  pub anchor_counter : ℕ
  pub next_anchor_counter : ℕ
  pub transition_digest : List ℕ
  pub witness_input : List ℕ
  pub pk_hash : List ℕ
  pub pk_hw : List ℕ
  pub sigma : List ℕ
  pub anchor_id : List ℕ
  pub slot : ℕ
  pub receiver_challenge : List ℕ

pub record CounterEvidence : Type 0 where
  pub anchor_id : List ℕ
  pub enrolled_counter : ℕ
  pub live_counter_claim : ℕ
  pub derived_index_claim : ℕ
  pub verifier_transcript : List ℕ

pub record OfflineRelease : Type 0 where
  pub transition : Option TransitionPackage
  pub cert : Option RootAdvanceCertificate
  pub counter : Option CounterEvidence

pub data Op : Type 0 where
  unspecified prepare commit emit finalize status cancel : Op

pub record ApplianceRequest : Type 0 where
  pub op : ℕ
  pub transition : Option TransitionPackage
  pub receiver_challenge : List ℕ

pub record ApplianceResponse : Type 0 where
  pub op : ℕ
  pub ok : Bool
  pub error : ℕ
  pub release : Option OfflineRelease
  pub active_root : List ℕ
  pub active_index : ℕ
  pub status : ℕ
