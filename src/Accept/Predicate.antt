-- ===== src/Accept/Predicate.antt =====
-- anchor-core/src/accept.rs: `accept_offline` decides Definition 22.
use dsm_unplugged.Common.{◌+◌, ◌-◌, ◌≤◌, ◌<◌, ◌^◌, ◌≡◌, ◌↔◌, true, some, ok, arith}
use dsm_unplugged.Util.CtEq.{eq-ct_eq_32, ct_eq_32-of_eq}
use dsm_unplugged.Hash.{Blake3}
use dsm_unplugged.Tropic.{WitnessSig}
use dsm_unplugged.RootAdvance.{
  as_transition, transition_digest, witness_input, pk_hash, cert_message, OfflineRelease,
}
use dsm_unplugged.Accept.{DsmVerifier, CounterVerifier, VerifierContext, accept_offline}

module _ ⦃b : Blake3⦄ ⦃s : WitnessSig⦄ (rel : OfflineRelease) (ctx : VerifierContext)
    (dsm : DsmVerifier) (counter : CounterVerifier) where
  -- Definition 22, each check as what it says of the package.
  pub record Accepts : Type 0 where
    pub same_prev_root : rel.cert.prev_root ≡ rel.transition.prev_root
    pub same_next_root : rel.cert.next_root ≡ rel.transition.next_root
    pub same_anchor_counter : rel.cert.anchor_counter ≡ rel.transition.anchor_counter
    pub same_next_anchor_counter : rel.cert.next_anchor_counter ≡ rel.transition.next_anchor_counter
    pub parent_accepted : rel.transition.prev_root ≡ ctx.accepted_prev_root
    pub anchor_pinned : rel.cert.anchor_id ≡ ctx.pinned_anchor_id
    pub counter_in_parent :
        dsm.root_commits_counter rel.transition.prev_root rel.transition.anchor_counter ≡ true
    pub next_index : rel.transition.next_anchor_counter ≡ rel.transition.anchor_counter + 1
    pub index_range : rel.transition.next_anchor_counter < 2 ^ 64
    pub challenge_fresh : rel.cert.receiver_challenge ≡ ctx.expected_receiver_challenge
    pub digest_recomputes :
        transition_digest (as_transition rel.transition) ≡ rel.cert.transition_digest
    pub transition_proved : dsm.verify_transition (as_transition rel.transition) ≡ true
    pub delivered : dsm.delivers_to_receiver (as_transition rel.transition) ≡ true
    pub policy_agrees : rel.transition.authority_policy_hash ≡ ctx.expected_policy_hash
    pub input_recomputes :
        witness_input
          (as_transition rel.transition)
          rel.cert.transition_digest
          rel.cert.anchor_id
          rel.cert.slot
          rel.cert.receiver_challenge
        ≡ rel.cert.witness_input
    pub pk_hash_recomputes : pk_hash rel.cert.pk_hw ≡ rel.cert.pk_hash
    pub signature_verifies :
        s.verify rel.cert.pk_hw
          (cert_message
            (as_transition rel.transition)
            rel.cert.transition_digest
            rel.cert.witness_input
            rel.cert.pk_hash
            rel.cert.anchor_id
            rel.cert.slot
            rel.cert.receiver_challenge)
          rel.cert.sigma
        ≡ true
    pub evidence_pinned : rel.counter.anchor_id ≡ ctx.pinned_anchor_id
    pub index_enrolled : rel.transition.next_anchor_counter ≤ ctx.enrolled_counter
    pub counter_attested :
        counter.read_authentic_counter ctx.pinned_anchor_id rel.counter
        ≡ some (ctx.enrolled_counter - rel.transition.next_anchor_counter)
    pub within_cap : rel.transition.next_anchor_counter ≤ ctx.exposure_cap_index
    pub uncompromised : ctx.anchor_uncompromised ≡ true

  accept_offline-Accepts : accept_offline rel ctx dsm counter ≡ ok tt → Accepts
  unfolding accept_offline as_transition
  accept_offline-Accepts h =
      let t = as_transition rel.transition in
      ground (
        arith,
        eq-ct_eq_32 rel.cert.prev_root rel.transition.prev_root,
        eq-ct_eq_32 rel.cert.next_root rel.transition.next_root,
        eq-ct_eq_32 rel.transition.prev_root ctx.accepted_prev_root,
        eq-ct_eq_32 rel.cert.anchor_id ctx.pinned_anchor_id,
        eq-ct_eq_32 rel.cert.receiver_challenge ctx.expected_receiver_challenge,
        eq-ct_eq_32 (transition_digest t) rel.cert.transition_digest,
        eq-ct_eq_32 rel.transition.authority_policy_hash ctx.expected_policy_hash,
        eq-ct_eq_32
            (witness_input t (transition_digest t) rel.cert.anchor_id rel.cert.slot
              rel.cert.receiver_challenge)
            rel.cert.witness_input,
        eq-ct_eq_32 (pk_hash rel.cert.pk_hw) rel.cert.pk_hash,
        eq-ct_eq_32 rel.counter.anchor_id ctx.pinned_anchor_id,
      )

  Accepts-accept_offline : Accepts → accept_offline rel ctx dsm counter ≡ ok tt
  unfolding accept_offline as_transition
  Accepts-accept_offline a =
      let t = as_transition rel.transition in
      ground (
        arith,
        ct_eq_32-of_eq rel.cert.prev_root rel.transition.prev_root,
        ct_eq_32-of_eq rel.cert.next_root rel.transition.next_root,
        ct_eq_32-of_eq rel.transition.prev_root ctx.accepted_prev_root,
        ct_eq_32-of_eq rel.cert.anchor_id ctx.pinned_anchor_id,
        ct_eq_32-of_eq rel.cert.receiver_challenge ctx.expected_receiver_challenge,
        ct_eq_32-of_eq (transition_digest t) rel.cert.transition_digest,
        ct_eq_32-of_eq rel.transition.authority_policy_hash ctx.expected_policy_hash,
        ct_eq_32-of_eq
            (witness_input t (transition_digest t) rel.cert.anchor_id rel.cert.slot
              rel.cert.receiver_challenge)
            rel.cert.witness_input,
        ct_eq_32-of_eq (pk_hash rel.cert.pk_hw) rel.cert.pk_hash,
        ct_eq_32-of_eq rel.counter.anchor_id ctx.pinned_anchor_id,
      )

  -- `accept_offline` succeeds exactly when every check of Definition 22 holds: certificate and
  -- package agree, the parent and the anchor are the receiver's, the next index is the committed one
  -- plus 1 without wrapping, D, X, P_hw and M recompute and the signature verifies, and the counter
  -- value that the receiver read for itself is the enrolled one minus the next index.
  pub accept_offline_iff : (accept_offline rel ctx dsm counter ≡ ok tt) ↔ Accepts
  accept_offline_iff = (accept_offline-Accepts, Accepts-accept_offline)
