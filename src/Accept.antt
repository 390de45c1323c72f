-- ===== src/Accept.antt =====
-- anchor-core/src/accept.rs: the receiver's acceptance predicate.
pub mod Predicate
pub mod Honest
pub mod Newest
pub mod Once
pub mod Delivery
pub mod Deliveries
pub mod FirstFailure
pub mod Errors
use dsm_unplugged.Common.{
  ℕ, Bool, true, not, ◌&&◌, Option, Array, Result, ok, err, ◌>>=◌, ◌>>◌, guard, ok_or, ltb, ◌==◌,
  checked_add, checked_sub, is_some_of,
}
use dsm_unplugged.Util.{ct_eq_32}
use dsm_unplugged.Hash.{Blake3}
use dsm_unplugged.Tropic.{WitnessSig}
use dsm_unplugged.RootAdvance.{
  Transition, as_transition, transition_digest, witness_input, pk_hash, cert_message,
  CounterEvidence, OfflineRelease,
}

-- The trait `DsmVerifier`.
pub record DsmVerifier : Type 0 where
  pub root_commits_counter : Array 32 → ℕ → Bool
  pub verify_transition : Transition → Bool
  pub delivers_to_receiver : Transition → Bool

-- The trait `CounterVerifier`.
pub record CounterVerifier : Type 0 where
  pub read_authentic_counter : Array 32 → CounterEvidence → Option ℕ

pub record VerifierContext : Type 0 where
  pub accepted_prev_root : Array 32
  pub pinned_anchor_id : Array 32
  pub expected_receiver_challenge : Array 32
  pub expected_policy_hash : Array 32
  pub enrolled_counter : ℕ
  pub exposure_cap_index : ℕ
  pub anchor_uncompromised : Bool

pub data AcceptError : Type 0 where
  non_canonical : AcceptError
  prev_root_not_accepted : AcceptError
  anchor_counter_uncommitted : AcceptError
  bad_next_index : AcceptError
  challenge_mismatch : AcceptError
  digest_mismatch : AcceptError
  transition_proof_invalid : AcceptError
  not_delivered_to_receiver : AcceptError
  policy_mismatch : AcceptError
  witness_input_mismatch : AcceptError
  pk_hash_mismatch : AcceptError
  witness_sig_invalid : AcceptError
  counter_evidence_invalid : AcceptError
  exposure_cap_exceeded : AcceptError
  anchor_compromised : AcceptError

module _ ⦃b : Blake3⦄ ⦃s : WitnessSig⦄ where
  pub accept_offline :
      OfflineRelease
      → VerifierContext
      → DsmVerifier
      → CounterVerifier
      → Result (Unit {0}) AcceptError
  accept_offline rel ctx dsm counter = do
    let t = as_transition rel.transition
    let cert = rel.cert
    let ev = rel.counter
    guard
        (ct_eq_32 cert.prev_root t.prev_root
          && (ct_eq_32 cert.next_root t.next_root
              && (cert.anchor_counter == t.anchor_counter
                  && cert.next_anchor_counter == t.next_anchor_counter)))
        non_canonical
    guard
        (ct_eq_32 t.prev_root ctx.accepted_prev_root
          && ct_eq_32 cert.anchor_id ctx.pinned_anchor_id)
        prev_root_not_accepted
    guard (dsm.root_commits_counter t.prev_root t.anchor_counter) anchor_counter_uncommitted
    guard (is_some_of (checked_add t.anchor_counter 1) t.next_anchor_counter) bad_next_index
    guard (ct_eq_32 cert.receiver_challenge ctx.expected_receiver_challenge) challenge_mismatch
    let d = transition_digest t
    guard (ct_eq_32 d cert.transition_digest) digest_mismatch
    guard (dsm.verify_transition t) transition_proof_invalid
    guard (dsm.delivers_to_receiver t) not_delivered_to_receiver
    guard (ct_eq_32 t.authority_policy_hash ctx.expected_policy_hash) policy_mismatch
    let x = witness_input t d cert.anchor_id cert.slot cert.receiver_challenge
    guard (ct_eq_32 x cert.witness_input) witness_input_mismatch
    let p_hw = pk_hash cert.pk_hw
    guard (ct_eq_32 p_hw cert.pk_hash) pk_hash_mismatch
    let m = cert_message t d x p_hw cert.anchor_id cert.slot cert.receiver_challenge
    guard (s.verify cert.pk_hw m cert.sigma) witness_sig_invalid
    expects_live ←
        ok_or (checked_sub ctx.enrolled_counter t.next_anchor_counter) counter_evidence_invalid
    attested ←
        ok_or (counter.read_authentic_counter ctx.pinned_anchor_id ev) counter_evidence_invalid
    guard (ct_eq_32 ev.anchor_id ctx.pinned_anchor_id && attested == expects_live)
        counter_evidence_invalid
    guard (not (ltb ctx.exposure_cap_index t.next_anchor_counter)) exposure_cap_exceeded
    guard ctx.anchor_uncompromised anchor_compromised
    ok tt
