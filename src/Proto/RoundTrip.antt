-- ===== src/Proto/RoundTrip.antt =====
-- anchor-core/src/proto.rs: the conversions are inverse to one another where a message is valid.
use dsm_unplugged.Common.{
  ℕ, ◌≤◌, ◌<◌, ◌^◌, ◌≡◌, refl, List, Array, to_vec, copy_from_slice-to_vec, to_vec-copy_from_slice,
  length-to_vec, length, ok, arith,
}
use dsm_unplugged.RootAdvance.{OwnedTransition, Certificate, CounterEvidence, OfflineRelease}
use dsm_unplugged.Proto.{try_u16}
use dsm_unplugged.Proto.{
  arr32, bounded, max_action_fields, max_leaf_proof, max_pk_hw, max_sigma, max_transcript,
  to_owned_transition, transition_to_pb, to_cert, cert_to_pb, to_evidence, evidence_to_pb,
  to_release, release_to_pb,
}

-- A 32-byte array survives the wire, and a field of another length is refused.
pub arr32-to_vec : (a : Array 32) → arr32 (to_vec a) ≡ ok a
unfolding arr32
arr32-to_vec a = ground (arith, length-to_vec a, copy_from_slice-to_vec a)

pub to_vec-arr32 : (v : List ℕ) (a : Array 32) → arr32 v ≡ ok a → to_vec a ≡ v
unfolding arr32
to_vec-arr32 v a h = ground (arith, to_vec-copy_from_slice 32 v)

bounded_ok : (v : List ℕ) (cap : ℕ) → length v ≤ cap → bounded v cap ≡ ok tt
unfolding bounded
bounded_ok v cap h = ground arith

try_u16_ok : (n : ℕ) → n < 2 ^ 16 → try_u16 n ≡ ok n
try_u16_ok n h = ground arith

-- The caps that the decoders enforce.
pub record IsTransitionSized (o : OwnedTransition) : Type 0 where
  pub action_fields_size : length o.action_fields ≤ max_action_fields
  pub old_leaf_proof_size : length o.old_leaf_proof ≤ max_leaf_proof
  pub new_leaf_proof_size : length o.new_leaf_proof ≤ max_leaf_proof

pub record IsSized (r : OfflineRelease) : Type 0 where
  pub transition_size : IsTransitionSized r.transition
  pub pk_hw_size : length r.cert.pk_hw ≤ max_pk_hw
  pub sigma_size : length r.cert.sigma ≤ max_sigma
  pub slot_size : r.cert.slot < 2 ^ 16
  pub transcript_size : length r.counter.verifier_transcript ≤ max_transcript

pub to_owned_transition-transition_to_pb :
    (o : OwnedTransition) → IsTransitionSized o → to_owned_transition (transition_to_pb o) ≡ ok o
unfolding to_owned_transition transition_to_pb
to_owned_transition-transition_to_pb o v = rw (bounded_ok o.action_fields _ v.action_fields_size) (
    rw (bounded_ok o.old_leaf_proof _ v.old_leaf_proof_size)
      (rw (bounded_ok o.new_leaf_proof _ v.new_leaf_proof_size) (simp arr32-to_vec)))

to_cert-cert_to_pb :
    (c : Certificate)
    → length c.pk_hw ≤ max_pk_hw
    → length c.sigma ≤ max_sigma
    → c.slot < 2 ^ 16
    → to_cert (cert_to_pb c) ≡ ok c
unfolding to_cert cert_to_pb
to_cert-cert_to_pb c hk hs hq =
    rw (bounded_ok c.pk_hw _ hk)
      (rw (bounded_ok c.sigma _ hs) (rw (try_u16_ok c.slot hq) (simp arr32-to_vec)))

to_evidence-evidence_to_pb :
    (e : CounterEvidence)
    → length e.verifier_transcript ≤ max_transcript
    → to_evidence (evidence_to_pb e) ≡ ok e
unfolding to_evidence evidence_to_pb
to_evidence-evidence_to_pb e h = rw (bounded_ok e.verifier_transcript _ h) (simp arr32-to_vec)

-- A release within the caps, with a 16-bit slot, is decoded from its wire message as it was.
pub to_release-release_to_pb :
    (r : OfflineRelease) → IsSized r → to_release (release_to_pb r) ≡ ok r
unfolding to_release release_to_pb
to_release-release_to_pb r v =
    rw (to_owned_transition-transition_to_pb r.transition v.transition_size) (
      rw (to_cert-cert_to_pb r.cert v.pk_hw_size v.sigma_size v.slot_size)
        (rw (to_evidence-evidence_to_pb r.counter v.transcript_size) refl))
