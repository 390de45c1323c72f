-- ===== src/Firmware/SelfTest/Outcome.antt =====
-- firmware/src/main.rs: what the self-test finds on a session that answers.
use dsm_unplugged.Common.{
  ℕ, ◌≡◌, refl, sym, ap, ◌∙◌, true, Array, nil, cons, to_vec, length-to_vec, copy_from_slice-to_vec,
  All, some, ok, is_ok, arith,
}
use dsm_unplugged.Hash.{Blake3}
use dsm_unplugged.RootAdvance.{OfflineRelease, from, as_transition}
use dsm_unplugged.Sig.{wots_blake3, sig_len}
use dsm_unplugged.Sig.RoundTrip.{wots_blake3-IsCorrect, length-sign, length-keygen}
use dsm_unplugged.Appliance.{Appliance, new}
use dsm_unplugged.Appliance.Operations.{
  prepare, commit, emit, finalize, prepared_record, release_of,
}
use dsm_unplugged.Appliance.Prepare.{prepare-SameDevice}
use dsm_unplugged.Appliance.Commit.{commit-SameDevice}
use dsm_unplugged.Appliance.Invariant.{Inv, Inv-new, prepare-Inv, commit-Inv}
use dsm_unplugged.Appliance.Flow.{Transfer, Transfer-works}
use dsm_unplugged.Appliance.Works.{IsNext}
use dsm_unplugged.Accept.Honest.{IsExpected, emit-accept_offline}
use dsm_unplugged.Proto.{Prost, ProstLaws, release_to_pb, cert_to_pb}
use dsm_unplugged.Proto.RoundTrip.{IsSized, to_release-release_to_pb}
use dsm_unplugged.Service.{succeed, base, dispatch}
use dsm_unplugged.Service.Transfer.{
  op_request, FitsFrame, dispatch-prepare, dispatch-commit, dispatch-emit, dispatch-finalize,
  dispatch-status,
}
use dsm_unplugged.Firmware.{
  Session, chip_tropic, enroll, trivial_dsm, self_counter, md_slot, enroll_h0, anchor, genesis,
  next_root, receiver_challenge,
}
use dsm_unplugged.Firmware.Enrolment.{
  SessionLaws, Answers, chip_tropic_laws, chip_tropic-Works, enroll_resets, enroll-Answers,
}
use dsm_unplugged.Firmware.SelfTest.{
  SelfTest, summary, prepare_request, op_request, self_test_context, cert_sizes, root_of, bytes_eq,
  verify_release, self_test, boot_self_test, pass,
}
use dsm_unplugged.Firmware.SelfTest.Passes.{
  self_test_requests, first_transfer, first_transfer-IsTransitionSized, prepare_request_is,
  round_trip-dispatch,
}

bytes_eq_self : {n : ℕ} (a : Array n) → bytes_eq a a ≡ true
unfolding bytes_eq
bytes_eq_self nil = refl
bytes_eq_self (cons x a) = ground (arith, bytes_eq_self a)

root_of-to_vec : (a : Array 32) → root_of (to_vec a) ≡ a
unfolding root_of
root_of-to_vec a = ground (arith, length-to_vec a, copy_from_slice-to_vec a)

module _ ⦃b : Blake3⦄ ⦃sess : Session⦄ (laws : SessionLaws sess) (answers : Answers sess laws)
    (chip : sess.Chip) (full : laws.counter chip ≡ enroll_h0) where
  abbrev app0 : Appliance sess.Chip
  app0 = new chip enroll_h0 genesis anchor md_slot

  abbrev app1 : Appliance sess.Chip
  app1 = (prepare first_transfer receiver_challenge app0).1

  abbrev app2 : Appliance sess.Chip
  app2 = (commit app1).1

  app0-IsNext : IsNext (chip_tropic_laws laws) app0 first_transfer
  unfolding new chip_tropic_laws
  app0-IsNext = record {
    is_ready = refl;
    parent = refl;
    index = refl;
    next_index = omega arith;
    in_step = omega arith;
    movable = omega arith;
    range = omega arith;
  }

  transfer : Transfer (chip_tropic_laws laws) first_transfer receiver_challenge app0
  transfer =
      Transfer-works (chip_tropic_laws laws) (chip_tropic-Works laws answers) first_transfer
        receiver_challenge app0 app0-IsNext

  -- The release that the self-test carries over the wire.
  abbrev release : OfflineRelease
  release =
      release_of app1 (prepared_record md_slot anchor first_transfer receiver_challenge transfer.w)
        enroll_h0

  emits : emit app2 ≡ ok release
  unfolding new chip_tropic_laws
  emits = rw (← full) transfer.emits

  release-IsSized : IsSized release
  unfolding prepared_record release_of from as_transition to_vec new
  release-IsSized = record {
    transition_size = record {
      action_fields_size = omega arith;
      old_leaf_proof_size = omega arith;
      new_leaf_proof_size = omega arith;
    };
    pk_hw_size = omega (arith, (length-keygen _).1);
    sigma_size = omega (arith, length-sign _ _);
    slot_size =
        omega (arith, (prepare-SameDevice first_transfer receiver_challenge app0).same_slot);
    transcript_size = omega arith;
  }

  release_sizes :
      ((cert_sizes (some (release_to_pb release))).0 ≡ 32)
      × ((cert_sizes (some (release_to_pb release))).1 ≡ sig_len)
  unfolding cert_sizes release_to_pb cert_to_pb prepared_record release_of
  release_sizes = ((length-keygen _).1, length-sign _ _)

  app2-Inv : Inv app2
  app2-Inv = commit-Inv wots_blake3-IsCorrect app1 (
      prepare-Inv wots_blake3-IsCorrect first_transfer receiver_challenge app0
        (Inv-new chip enroll_h0 genesis anchor md_slot (omega arith)))

  app2_anchor : app2.anchor_id ≡ anchor
  unfolding new
  app2_anchor =
      (commit-SameDevice app1).same_anchor_id
      ∙ (prepare-SameDevice first_transfer receiver_challenge app0).same_anchor_id

  release-IsExpected : IsExpected release app2.anchor_id self_test_context trivial_dsm self_counter
  unfolding prepared_record release_of from as_transition
  release-IsExpected = record {
    parent = refl;
    pinned = sym app2_anchor;
    challenge = refl;
    policy = refl;
    commits = refl;
    proves = refl;
    delivers = refl;
    enrolled = omega arith;
    enrolled_range = omega arith;
    attests = refl;
    cap = omega arith;
    sound = refl;
  }

  release_verifies : verify_release (some (release_to_pb release)) ≡ true
  unfolding verify_release
  release_verifies =
      let accepts =
        emit-accept_offline app2 release self_test_context trivial_dsm self_counter app2-Inv emits
          release-IsExpected in
      rw (to_release-release_to_pb release release-IsSized, verify_release) (ap is_ok accepts)

  -- The five answers, and what the self-test makes of them.
  self_test_result :
      ⦃c : Prost⦄
      → ProstLaws c
      → All (FitsFrame c) self_test_requests
      → (self_test app0).0
        ≡ ok (
            summary
              (succeed 1)
              (succeed 2)
              (record (base 3) { ok = true; release = some (release_to_pb release) })
              (record (base 4) { ok = true; active_root = to_vec next_root })
              (record (base 5) {
                ok = true;
                active_root = to_vec next_root;
                active_index = 1;
                status = 0;
              }))
  unfolding self_test
  self_test_result codec (f1, (f2, (f3, (f4, (f5, _))))) =
      let d = transfer in
      let q1 =
        round_trip-dispatch codec prepare_request app0 f1
        ∙ ap (λ r. (ok r.0, r.1))
            (ap (dispatch app0) prepare_request_is
              ∙ dispatch-prepare app0 first_transfer receiver_challenge
                  first_transfer-IsTransitionSized d.prepares) in
      let q2 =
        round_trip-dispatch codec (op_request 2) app1 f2
        ∙ ap (λ r. (ok r.0, r.1)) (dispatch-commit app1 d.commits) in
      let q3 =
        round_trip-dispatch codec (op_request 3) app2 f3
        ∙ ap (λ r. (ok r.0, r.1)) (dispatch-emit app2 release emits) in
      let q4 =
        round_trip-dispatch codec (op_request 4) app2 f4
        ∙ ap (λ r. (ok r.0, r.1)) (dispatch-finalize app2 next_root d.finalizes) in
      let q5 =
        round_trip-dispatch codec (op_request 5) (finalize app2).1 f5
        ∙ ap (λ r. (ok r.0, r.1)) (dispatch-status (finalize app2).1 next_root 1 d.active) in
      ground (arith, q1, q2, q3, q4, q5)

  summary_passes :
      pass (
        summary
          (succeed 1)
          (succeed 2)
          (record (base 3) { ok = true; release = some (release_to_pb release) })
          (record (base 4) { ok = true; active_root = to_vec next_root })
          (record (base 5) {
            ok = true;
            active_root = to_vec next_root;
            active_index = 1;
            status = 0;
          }))
      ≡ true
  unfolding pass summary
  summary_passes = ground (
    arith,
    release_sizes.0,
    release_sizes.1,
    release_verifies,
    root_of-to_vec next_root,
    bytes_eq_self next_root,
  )

-- On a session that keeps the laws of the chip and answers, with a codec that reads back what it
-- wrote and encodes the five requests within the frame ceiling, the self-test at boot runs through
-- and its result is the one that `main` reports as a pass, whatever the chip's counter was: all
-- operations succeed, key and signature have their sizes, the device ends ready at index 1 with the
-- new root, and the release that came back over the wire is accepted.
pub boot_self_test_passes :
    ⦃b : Blake3⦄ ⦃sess : Session⦄ ⦃c : Prost⦄ (laws : SessionLaws sess)
    (answers : Answers sess laws) (codec : ProstLaws c) (chip : sess.Chip)
    → All (FitsFrame c) self_test_requests
    → (st : SelfTest) × ((boot_self_test chip).0 ≡ ok st) × (pass st ≡ true)
unfolding boot_self_test
boot_self_test_passes laws answers codec chip fits =
    let e = enroll-Answers laws answers chip in
    let full = (enroll_resets laws chip e).1 in
    (
      _,
      ground (arith, e, self_test_result laws answers (enroll chip).1 full codec fits),
      summary_passes laws answers (enroll chip).1 full,
    )
