-- ===== src/Examples/Receiver.antt =====
-- anchor-core/src/accept.rs, root_advance.rs, sig.rs and hash.rs at concrete inputs: the receiver of
-- the example's release, and two packages that the toy hash does not tell apart.
use dsm_unplugged.Common.{
  ℕ, ◌≡◌, refl, ◌↔◌, ◌⊎◌, true, List, [], ◌∷◌, fill, to_vec, IsBytes, ok, err, Array, cons, ◌≢◌,
  some, ap, ◌<◌, ◌-◌, arith,
}
use dsm_unplugged.Util.{ct_eq_32, push_var, u16_le, u32_le, u64_le}
use dsm_unplugged.Hash.{h}
use dsm_unplugged.Hash.Binding.{CollidesAt}
use dsm_unplugged.RootAdvance.{
  from, as_transition, enc_transition, transition_digest, witness_input, pk_hash, cert_message,
}
use dsm_unplugged.RootAdvance.Encoding.{enc_transition_injective}
use dsm_unplugged.RootAdvance.Binding.{
  digest_preimage, key_preimage, input_preimage, message_preimage, witness_input_binds,
  cert_message_binds,
}
use dsm_unplugged.Sig.{digits, chain, len, keygen, sign, verify}
use dsm_unplugged.Sig.RoundTrip.{verify-sign}
use dsm_unplugged.Sig.Unique.{element, verify_hashes, verify-sign_only}
use dsm_unplugged.Sig.Forgery.{digit, forgery_inverts_chain}
use dsm_unplugged.Appliance.{new}
use dsm_unplugged.Appliance.Operations.{prepare, commit, release_of, prepared_record}
use dsm_unplugged.Accept.{CounterVerifier, VerifierContext, accept_offline, challenge_mismatch}
use dsm_unplugged.Accept.Newest.{ReadsCounter, IsNewest, accept_offline-IsNewest}
use dsm_unplugged.Accept.Predicate.{Accepts, accept_offline_iff}
use dsm_unplugged.Accept.FirstFailure.{IsFirstFailure}
use dsm_unplugged.Accept.Errors.{checks, Holds, accept_offline_err_iff}
use dsm_unplugged.Accept.Honest.{IsExpected, emit-accept_offline}
use dsm_unplugged.Firmware.{trivial_dsm, self_counter}
use dsm_unplugged.Examples.{
  length_hash, counter_chip, counter_chip_laws, plain_sig, root0, root1, anchor0, challenge0,
  advance, advance-IsInRange,
}
use dsm_unplugged.Examples.Device.{device2, release2, device2-Inv, device2_emits, world2-Reach}

abbrev slot5 : ℕ
slot5 = 5

abbrev slot6 : ℕ
slot6 = 6

abbrev key1 : List ℕ
key1 = 1 ∷ []

abbrev key2 : List ℕ
key2 = 2 ∷ []

abbrev receiver : VerifierContext
receiver = record {
  accepted_prev_root = root0;
  pinned_anchor_id = anchor0;
  expected_receiver_challenge = challenge0;
  expected_policy_hash = fill 32 176;
  enrolled_counter = 1000;
  exposure_cap_index = 10;
  anchor_uncompromised = true;
}

release2-IsExpected :
    (counter : CounterVerifier)
    → counter.read_authentic_counter anchor0 release2.counter ≡ some 999
    → IsExpected release2 anchor0 receiver trivial_dsm counter
unfolding release_of from prepared_record as_transition
release2-IsExpected counter reads = record {
  parent = refl;
  pinned = refl;
  challenge = refl;
  policy = refl;
  commits = refl;
  proves = refl;
  delivers = refl;
  enrolled = omega arith;
  enrolled_range = omega arith;
  attests = reads;
  cap = omega arith;
  sound = refl;
}

emit-accept_offline_example : accept_offline release2 receiver trivial_dsm self_counter ≡ ok tt
unfolding new prepare commit ct_eq_32 prepared_record from
emit-accept_offline_example =
    emit-accept_offline device2 release2 receiver trivial_dsm self_counter device2-Inv device2_emits
      (release2-IsExpected self_counter refl)

-- The receiver reads the chip itself, which stands at 999.
abbrev chip_reader : CounterVerifier
chip_reader = record { read_authentic_counter = λ _ _. some 999 }

chip_reader-ReadsCounter :
    ReadsCounter chip_reader anchor0 (counter_chip_laws.counter device2.tropic)
unfolding new prepare commit ct_eq_32 prepared_record from counter_chip_laws
chip_reader-ReadsCounter ev v e = cc

chip_reader_accepts : accept_offline release2 receiver trivial_dsm chip_reader ≡ ok tt
unfolding new prepare commit ct_eq_32 prepared_record from
chip_reader_accepts =
    emit-accept_offline device2 release2 receiver trivial_dsm chip_reader device2-Inv device2_emits
      (release2-IsExpected chip_reader refl)

accept_offline-IsNewest_example :
    IsNewest 1000 (counter_chip_laws.counter device2.tropic) release2 (release2 ∷ release2 ∷ [])
unfolding new prepare commit ct_eq_32 prepared_record from
accept_offline-IsNewest_example =
    accept_offline-IsNewest counter_chip_laws 1000 1000 root0 anchor0 5
      (record { app = device2; released = release2 ∷ release2 ∷ [] }) release2 receiver trivial_dsm
      chip_reader (omega arith) world2-Reach refl chip_reader-ReadsCounter chip_reader_accepts

accept_offline_iff_example :
    (accept_offline release2 receiver trivial_dsm self_counter ≡ ok tt)
    ↔ Accepts release2 receiver trivial_dsm self_counter
accept_offline_iff_example = accept_offline_iff release2 receiver trivial_dsm self_counter

-- A receiver that asked with another challenge.
abbrev other_receiver : VerifierContext
other_receiver = record receiver { expected_receiver_challenge = root1 }

accept_offline_err_iff_example :
    (accept_offline release2 other_receiver trivial_dsm self_counter ≡ err challenge_mismatch)
    ↔ IsFirstFailure
        (Holds release2 other_receiver trivial_dsm self_counter)
        checks
        challenge_mismatch
accept_offline_err_iff_example =
    accept_offline_err_iff release2 other_receiver trivial_dsm self_counter challenge_mismatch

enc_transition_injective_example : advance 6 ≡ advance 6
enc_transition_injective_example =
    enc_transition_injective (advance 6) (advance 6) (advance-IsInRange 6) (advance-IsInRange 6)
      refl

inputs_agree :
    witness_input (advance 6) (transition_digest (advance 6)) anchor0 slot5 challenge0
    ≡ witness_input (advance 7) (transition_digest (advance 7)) anchor0 slot6 challenge0
unfolding transition_digest h enc_transition to_vec push_var u32_le u64_le u16_le witness_input
inputs_agree = refl

witness_input_binds_example :
    ((advance 6 ≡ advance 7) × (anchor0 ≡ anchor0) × (slot5 ≡ slot6) × (challenge0 ≡ challenge0))
    ⊎ CollidesAt
        (input_preimage (advance 6) anchor0 slot5 challenge0 ∷ digest_preimage (advance 6) ∷ [])
        (input_preimage (advance 7) anchor0 slot6 challenge0 ∷ digest_preimage (advance 7) ∷ [])
witness_input_binds_example =
    witness_input_binds (advance 6) (advance 7) anchor0 anchor0 slot5 slot6 challenge0 challenge0
      (advance-IsInRange 6) (advance-IsInRange 7) (omega arith) (omega arith) inputs_agree

messages_agree :
    cert_message
      (advance 6)
      (transition_digest (advance 6))
      root0
      (pk_hash key1)
      anchor0
      slot5
      challenge0
    ≡ cert_message
        (advance 7)
        (transition_digest (advance 7))
        root1
        (pk_hash key2)
        anchor0
        slot6
        challenge0
unfolding transition_digest h enc_transition to_vec push_var u32_le u64_le u16_le cert_message
    pk_hash
messages_agree = refl

cert_message_binds_example :
    ((advance 6 ≡ advance 7)
      × (root0 ≡ root1)
      × (key1 ≡ key2)
      × (anchor0 ≡ anchor0)
      × (slot5 ≡ slot6)
      × (challenge0 ≡ challenge0))
    ⊎ CollidesAt
        (message_preimage (advance 6) root0 key1 anchor0 slot5 challenge0
          ∷ digest_preimage (advance 6)
          ∷ key_preimage key1
          ∷ [])
        (message_preimage (advance 7) root1 key2 anchor0 slot6 challenge0
          ∷ digest_preimage (advance 7)
          ∷ key_preimage key2
          ∷ [])
cert_message_binds_example =
    cert_message_binds (advance 6) (advance 7) root0 root1 key1 key2 anchor0 anchor0 slot5 slot6
      challenge0 challenge0 (advance-IsInRange 6) (advance-IsInRange 7) (omega arith) (omega arith)
      messages_agree

fill-IsBytes : IsBytes (fill 32 3)
fill-IsBytes = omega arith

verify-sign_example :
    verify (keygen (fill 32 1)).1 (fill 32 3) (sign (keygen (fill 32 1)).0 (fill 32 3)) ≡ true
verify-sign_example = verify-sign (fill 32 1) (fill 32 3) fill-IsBytes

abbrev signature3 : List ℕ
signature3 = sign (keygen (fill 32 1)).0 (fill 32 3)

verify-sign_only_example :
    (signature3 ≡ sign (keygen (fill 32 1)).0 (fill 32 3))
    ⊎ CollidesAt
        (verify_hashes (fill 32 3) signature3)
        (verify_hashes (fill 32 3) (sign (keygen (fill 32 1)).0 (fill 32 3)))
verify-sign_only_example =
    verify-sign_only (fill 32 1) (fill 32 3) signature3 fill-IsBytes
      (verify-sign (fill 32 1) (fill 32 3) fill-IsBytes)

other-IsBytes : IsBytes (fill 32 4)
other-IsBytes = omega arith

first_byte : Array 32 → ℕ
first_byte (cons x a) = x

digests_differ : fill 32 3 ≢ fill 32 4
unfolding first_byte
digests_differ p =
    let e : first_byte (fill 32 3) ≡ first_byte (fill 32 4) = ap first_byte p in omega arith

-- The signature of the owner on a second digest, read as a forgery after one on the first.
abbrev signature4 : List ℕ
signature4 = sign (keygen (fill 32 1)).0 (fill 32 4)

forgery_inverts_chain_example :
    ((i : ℕ) × (i < len)
      × (digit (digits (fill 32 4)) i < digit (digits (fill 32 3)) i)
      × (chain (element signature4 i) (digit (digits (fill 32 3)) i - digit (digits (fill 32 4)) i)
          ≡ element (sign (keygen (fill 32 1)).0 (fill 32 3)) i))
    ⊎ CollidesAt
        (verify_hashes (fill 32 4) signature4)
        (verify_hashes (fill 32 4) (sign (keygen (fill 32 1)).0 (fill 32 4)))
forgery_inverts_chain_example =
    forgery_inverts_chain (fill 32 1) (fill 32 3) (fill 32 4) signature4 fill-IsBytes other-IsBytes
      digests_differ (verify-sign (fill 32 1) (fill 32 4) other-IsBytes)
