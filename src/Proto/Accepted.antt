-- ===== src/Proto/Accepted.antt =====
-- anchor-core/src/proto.rs: what a decoder accepts is the encoding of what it returns, and nothing
-- over a cap is accepted.
use dsm_unplugged.Common.{
  ok_or-some, ℕ, ◌≤◌, ◌<◌, ◌^◌, ◌≡◌, sym, ap, subst, ◌∙◌, List, length, some, ok, ok_or, arith,
}
use dsm_unplugged.RootAdvance.{OwnedTransition, Certificate, CounterEvidence, OfflineRelease}
use dsm_unplugged.Proto.Pb
use dsm_unplugged.Proto.{
  missing_field, bounded, max_action_fields, max_leaf_proof, max_pk_hw, max_sigma, max_transcript,
  try_u16, to_owned_transition, transition_to_pb, to_cert, cert_to_pb, to_evidence, evidence_to_pb,
  to_release, release_to_pb,
}
use dsm_unplugged.Proto.RoundTrip.{IsTransitionSized, IsSized}
use dsm_unplugged.Proto.Encoded.{
  bind_ok, ok_injective, to_owned_transition-eq_ok, to_cert-eq_ok, to_evidence-eq_ok,
}

bounded_le : (v : List ℕ) (cap : ℕ) → bounded v cap ≡ ok tt → length v ≤ cap
unfolding bounded
bounded_le v cap h = ground arith

-- What each decoder bounds.
to_owned_transition-IsTransitionSized :
    (p : Pb.TransitionPackage) (o : OwnedTransition)
    → to_owned_transition p ≡ ok o
    → IsTransitionSized o
unfolding to_owned_transition transition_to_pb
to_owned_transition-IsTransitionSized p o h =
    let (_, b0, h0) = bind_ok (bounded p.action_fields max_action_fields) _ h in
    let (_, b1, h1) = bind_ok (bounded p.old_leaf_proof max_leaf_proof) _ h0 in
    let (_, b2, h2) = bind_ok (bounded p.new_leaf_proof max_leaf_proof) _ h1 in
    let e = to_owned_transition-eq_ok p o h in
    record {
      action_fields_size =
          rw (ap (λ (q : Pb.TransitionPackage). q.action_fields) e)
            (bounded_le p.action_fields _ b0);
      old_leaf_proof_size =
          rw (ap (λ (q : Pb.TransitionPackage). q.old_leaf_proof) e)
            (bounded_le p.old_leaf_proof _ b1);
      new_leaf_proof_size =
          rw (ap (λ (q : Pb.TransitionPackage). q.new_leaf_proof) e)
            (bounded_le p.new_leaf_proof _ b2);
    }

to_cert-sized :
    (p : Pb.RootAdvanceCertificate) (c : Certificate)
    → to_cert p ≡ ok c
    → (length c.pk_hw ≤ max_pk_hw) × (length c.sigma ≤ max_sigma) × (c.slot < 2 ^ 16)
unfolding to_cert cert_to_pb
to_cert-sized p c h =
    let (_, b0, h0) = bind_ok (bounded p.pk_hw max_pk_hw) _ h in
    let (_, b1, h1) = bind_ok (bounded p.sigma max_sigma) _ h0 in
    let (slot, b2, h2) = bind_ok (try_u16 p.slot) _ h1 in
    let e = to_cert-eq_ok p c h in
    (
      rw (ap (λ (q : Pb.RootAdvanceCertificate). q.pk_hw) e) (bounded_le p.pk_hw _ b0),
      rw (ap (λ (q : Pb.RootAdvanceCertificate). q.sigma) e) (bounded_le p.sigma _ b1),
      rw (ap (λ (q : Pb.RootAdvanceCertificate). q.slot) e) (ground (arith, b2)),
    )

to_evidence-sized :
    (p : Pb.CounterEvidence) (c : CounterEvidence)
    → to_evidence p ≡ ok c
    → length c.verifier_transcript ≤ max_transcript
unfolding to_evidence evidence_to_pb
to_evidence-sized p c h =
    let (_, b0, h0) = bind_ok (bounded p.verifier_transcript max_transcript) _ h in
    rw (ap (λ (q : Pb.CounterEvidence). q.verifier_transcript) (to_evidence-eq_ok p c h))
      (bounded_le p.verifier_transcript _ b0)

-- A wire release that `to_release` accepts is exactly the encoding of the release that it returns,
-- and that release is within every cap, its slot in 16 bits.
pub to_release-eq_ok :
    (p : Pb.OfflineRelease) (r : OfflineRelease)
    → to_release p ≡ ok r
    → (release_to_pb r ≡ p) × IsSized r
unfolding to_release release_to_pb
to_release-eq_ok p r h =
    let (tp, e0, h0) = bind_ok (ok_or p.transition missing_field) _ h in
    let (t, e1, h1) = bind_ok (to_owned_transition tp) _ h0 in
    let (cp, e2, h2) = bind_ok (ok_or p.cert missing_field) _ h1 in
    let (c, e3, h3) = bind_ok (to_cert cp) _ h2 in
    let (vp, e4, h4) = bind_ok (ok_or p.counter missing_field) _ h3 in
    let (v, e5, h5) = bind_ok (to_evidence vp) _ h4 in
    let parts : OfflineRelease = record { transition = t; cert = c; counter = v } in
    let same : parts ≡ r = ok_injective h5 in
    let pt = ap some (to_owned_transition-eq_ok tp t e1) ∙ sym (ok_or-some p.transition _ e0) in
    let pc = ap some (to_cert-eq_ok cp c e3) ∙ sym (ok_or-some p.cert _ e2) in
    let pv = ap some (to_evidence-eq_ok vp v e5) ∙ sym (ok_or-some p.counter _ e4) in
    let (sk, ss, sq) = to_cert-sized cp c e3 in
    subst (λ (q : OfflineRelease). (release_to_pb q ≡ p) × IsSized q) same
      (
        λ i. record { transition = pt i; cert = pc i; counter = pv i },
        record {
          transition_size = to_owned_transition-IsTransitionSized tp t e1;
          pk_hw_size = sk;
          sigma_size = ss;
          slot_size = sq;
          transcript_size = to_evidence-sized vp v e5;
        },
      )
