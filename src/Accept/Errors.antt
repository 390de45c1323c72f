-- ===== src/Accept/Errors.antt =====
-- anchor-core/src/accept.rs: which error `accept_offline` reports.
use dsm_unplugged.Common.{
  ℕ, ◌+◌, ◌-◌, ◌≤◌, ◌<◌, ◌^◌, ◌≡◌, refl, sym, ap, ◌∙◌, ◌↔◌, Bool, true, false, not, ◌&&◌, List, [],
  ◌∷◌, Option, none, some, Array, Result, ok, err, ◌>>=◌, ◌>>◌, guard, ok_or, ltb, ◌==◌,
  checked_add, checked_sub, is_some_of, arith,
}
use dsm_unplugged.Util.{ct_eq_32}
use dsm_unplugged.Util.CtEq.{ct_eq_32_iff}
use dsm_unplugged.Hash.{Blake3}
use dsm_unplugged.Tropic.{WitnessSig}
use dsm_unplugged.RootAdvance.{
  as_transition, transition_digest, witness_input, pk_hash, cert_message, OfflineRelease,
}
use dsm_unplugged.Accept.FirstFailure.{
  IsFirstFailure, first_failing, first_failing-IsFirstFailure, IsFirstFailure-first_failing,
}
use dsm_unplugged.Accept.{
  DsmVerifier, CounterVerifier, VerifierContext, AcceptError, accept_offline, non_canonical,
  prev_root_not_accepted, anchor_counter_uncommitted, bad_next_index, challenge_mismatch,
  digest_mismatch, transition_proof_invalid, not_delivered_to_receiver, policy_mismatch,
  witness_input_mismatch, pk_hash_mismatch, witness_sig_invalid, counter_evidence_invalid,
  exposure_cap_exceeded, anchor_compromised,
}

-- The checks of Definition 22 in their order, each by the error that it is reported with.
abbrev pub checks : List AcceptError
checks =
    non_canonical ∷ prev_root_not_accepted ∷ anchor_counter_uncommitted ∷ bad_next_index
    ∷ challenge_mismatch ∷ digest_mismatch ∷ transition_proof_invalid ∷ not_delivered_to_receiver
    ∷ policy_mismatch ∷ witness_input_mismatch ∷ pk_hash_mismatch ∷ witness_sig_invalid
    ∷ counter_evidence_invalid ∷ exposure_cap_exceeded ∷ anchor_compromised ∷ []

module _ ⦃b : Blake3⦄ ⦃s : WitnessSig⦄ (rel : OfflineRelease) (ctx : VerifierContext)
    (dsm : DsmVerifier) (counter : CounterVerifier) where
  -- The witness input and the message as the receiver recomputes them.
  input : Array 32
  input =
      witness_input (as_transition rel.transition)
        (transition_digest (as_transition rel.transition)) rel.cert.anchor_id rel.cert.slot
        rel.cert.receiver_challenge

  message : Array 32
  unfolding input
  message =
      cert_message (as_transition rel.transition) (transition_digest (as_transition rel.transition))
        input (pk_hash rel.cert.pk_hw) rel.cert.anchor_id rel.cert.slot rel.cert.receiver_challenge

  -- What each check says of the package.
  unfoldable pub Holds : AcceptError → Type 0
  unfolding input message
  Holds non_canonical =
      (rel.cert.prev_root ≡ rel.transition.prev_root)
      × (rel.cert.next_root ≡ rel.transition.next_root)
      × (rel.cert.anchor_counter ≡ rel.transition.anchor_counter)
      × (rel.cert.next_anchor_counter ≡ rel.transition.next_anchor_counter)
  Holds prev_root_not_accepted =
      (rel.transition.prev_root ≡ ctx.accepted_prev_root)
      × (rel.cert.anchor_id ≡ ctx.pinned_anchor_id)
  Holds anchor_counter_uncommitted =
      dsm.root_commits_counter rel.transition.prev_root rel.transition.anchor_counter ≡ true
  Holds bad_next_index =
      (rel.transition.anchor_counter + 1 < 2 ^ 64)
      × (rel.transition.next_anchor_counter ≡ rel.transition.anchor_counter + 1)
  Holds challenge_mismatch = rel.cert.receiver_challenge ≡ ctx.expected_receiver_challenge
  Holds digest_mismatch =
      transition_digest (as_transition rel.transition) ≡ rel.cert.transition_digest
  Holds transition_proof_invalid = dsm.verify_transition (as_transition rel.transition) ≡ true
  Holds not_delivered_to_receiver = dsm.delivers_to_receiver (as_transition rel.transition) ≡ true
  Holds policy_mismatch = rel.transition.authority_policy_hash ≡ ctx.expected_policy_hash
  Holds witness_input_mismatch = input ≡ rel.cert.witness_input
  Holds pk_hash_mismatch = pk_hash rel.cert.pk_hw ≡ rel.cert.pk_hash
  Holds witness_sig_invalid = s.verify rel.cert.pk_hw message rel.cert.sigma ≡ true
  Holds counter_evidence_invalid =
      (rel.transition.next_anchor_counter ≤ ctx.enrolled_counter)
      × (counter.read_authentic_counter ctx.pinned_anchor_id rel.counter
          ≡ some (ctx.enrolled_counter - rel.transition.next_anchor_counter))
      × (rel.counter.anchor_id ≡ ctx.pinned_anchor_id)
  Holds exposure_cap_exceeded = rel.transition.next_anchor_counter ≤ ctx.exposure_cap_index
  Holds anchor_compromised = ctx.anchor_uncompromised ≡ true

  test_evidence : Option ℕ → Option ℕ → Bool → Bool
  test_evidence none attested same = false
  test_evidence (some n) none same = false
  test_evidence (some n) (some m) same = same && m == n

  -- The same checks as the code's tests.
  test : AcceptError → Bool
  unfolding input message test_evidence
  test non_canonical =
      ct_eq_32 rel.cert.prev_root rel.transition.prev_root
      && (ct_eq_32 rel.cert.next_root rel.transition.next_root
          && (rel.cert.anchor_counter == rel.transition.anchor_counter
              && rel.cert.next_anchor_counter == rel.transition.next_anchor_counter))
  test prev_root_not_accepted =
      ct_eq_32 rel.transition.prev_root ctx.accepted_prev_root
      && ct_eq_32 rel.cert.anchor_id ctx.pinned_anchor_id
  test anchor_counter_uncommitted =
      dsm.root_commits_counter rel.transition.prev_root rel.transition.anchor_counter
  test bad_next_index =
      is_some_of (checked_add rel.transition.anchor_counter 1) rel.transition.next_anchor_counter
  test challenge_mismatch = ct_eq_32 rel.cert.receiver_challenge ctx.expected_receiver_challenge
  test digest_mismatch =
      ct_eq_32 (transition_digest (as_transition rel.transition)) rel.cert.transition_digest
  test transition_proof_invalid = dsm.verify_transition (as_transition rel.transition)
  test not_delivered_to_receiver = dsm.delivers_to_receiver (as_transition rel.transition)
  test policy_mismatch = ct_eq_32 rel.transition.authority_policy_hash ctx.expected_policy_hash
  test witness_input_mismatch = ct_eq_32 input rel.cert.witness_input
  test pk_hash_mismatch = ct_eq_32 (pk_hash rel.cert.pk_hw) rel.cert.pk_hash
  test witness_sig_invalid = s.verify rel.cert.pk_hw message rel.cert.sigma
  test counter_evidence_invalid =
      test_evidence (checked_sub ctx.enrolled_counter rel.transition.next_anchor_counter)
        (counter.read_authentic_counter ctx.pinned_anchor_id rel.counter)
        (ct_eq_32 rel.counter.anchor_id ctx.pinned_anchor_id)
  test exposure_cap_exceeded = not (ltb ctx.exposure_cap_index rel.transition.next_anchor_counter)
  test anchor_compromised = ctx.anchor_uncompromised

  test_sound : (e : AcceptError) → (test e ≡ true) ↔ Holds e
  unfolding test Holds
  test_sound non_canonical =
      let p = ct_eq_32_iff rel.cert.prev_root rel.transition.prev_root in
      let q = ct_eq_32_iff rel.cert.next_root rel.transition.next_root in
      ground (arith, p.0, p.1, q.0, q.1)
  test_sound prev_root_not_accepted =
      let p = ct_eq_32_iff rel.transition.prev_root ctx.accepted_prev_root in
      let q = ct_eq_32_iff rel.cert.anchor_id ctx.pinned_anchor_id in
      ground (arith, p.0, p.1, q.0, q.1)
  test_sound anchor_counter_uncommitted = (λ h. h, λ h. h)
  test_sound bad_next_index = ground arith
  test_sound challenge_mismatch = ct_eq_32_iff _ _
  test_sound digest_mismatch = ct_eq_32_iff _ _
  test_sound transition_proof_invalid = (λ h. h, λ h. h)
  test_sound not_delivered_to_receiver = (λ h. h, λ h. h)
  test_sound policy_mismatch = ct_eq_32_iff _ _
  test_sound witness_input_mismatch = ct_eq_32_iff _ _
  test_sound pk_hash_mismatch = ct_eq_32_iff _ _
  test_sound witness_sig_invalid = (λ h. h, λ h. h)
  test_sound counter_evidence_invalid =
      let p = ct_eq_32_iff rel.counter.anchor_id ctx.pinned_anchor_id in ground (arith, p.0, p.1)
  test_sound exposure_cap_exceeded = ground arith
  test_sound anchor_compromised = (λ h. h, λ h. h)

  -- The three ways to fail the counter check are one.
  evidence_one :
      (o a : Option ℕ) (same : Bool) (rest : Result (Unit {0}) AcceptError)
      → (ok_or o counter_evidence_invalid >>= λ n. ok_or a counter_evidence_invalid >>= λ m.
          guard (same && m == n) counter_evidence_invalid >> rest)
        ≡ (guard (test_evidence o a same) counter_evidence_invalid >> rest)
  unfolding test_evidence
  evidence_one none a same rest = refl
  evidence_one (some n) none same rest = refl
  evidence_one (some n) (some m) same rest = refl

  accept_offline-first_failing : accept_offline rel ctx dsm counter ≡ first_failing test checks
  unfolding accept_offline first_failing test as_transition
  accept_offline-first_failing = λ i.
      guard (test non_canonical) non_canonical
      >> (guard (test prev_root_not_accepted) prev_root_not_accepted
          >> (guard (test anchor_counter_uncommitted) anchor_counter_uncommitted
              >> (guard (test bad_next_index) bad_next_index
                  >> (guard (test challenge_mismatch) challenge_mismatch
                      >> (guard (test digest_mismatch) digest_mismatch
                          >> (guard (test transition_proof_invalid) transition_proof_invalid
                              >> (guard (test not_delivered_to_receiver) not_delivered_to_receiver
                                  >> (guard (test policy_mismatch) policy_mismatch
                                      >> (guard (test witness_input_mismatch) witness_input_mismatch
                                          >> (guard (test pk_hash_mismatch) pk_hash_mismatch
                                              >> (guard (test witness_sig_invalid)
                                                    witness_sig_invalid
                                                  >> evidence_one
                                                      (checked_sub ctx.enrolled_counter
                                                        rel.transition.next_anchor_counter)
                                                      (counter.read_authentic_counter
                                                        ctx.pinned_anchor_id rel.counter)
                                                      (ct_eq_32 rel.counter.anchor_id
                                                        ctx.pinned_anchor_id)
                                                      (guard (test exposure_cap_exceeded)
                                                          exposure_cap_exceeded
                                                        >> (guard (test anchor_compromised)
                                                            anchor_compromised
                                                            >> ok tt))
                                                      i)))))))))))

  -- The receiver reports the error `e` exactly when the check of `e` is the first of the fifteen that
  -- fails: those before it in the order of Definition 22 hold, and it does not.
  pub accept_offline_err_iff :
      (e : AcceptError)
      → (accept_offline rel ctx dsm counter ≡ err e) ↔ IsFirstFailure Holds checks e
  accept_offline_err_iff e = (
    λ h.
        first_failing-IsFirstFailure test Holds test_sound checks
          (sym accept_offline-first_failing ∙ h),
    λ (before, after, same, passed, fails).
        accept_offline-first_failing
        ∙ (ap (first_failing test) same
            ∙ IsFirstFailure-first_failing test Holds test_sound before after e passed fails),
  )
