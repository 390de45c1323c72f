-- ===== src/Examples/Delivery.antt =====
-- anchor-core/src/accept.rs with service.rs: the firmware's first transfer, asked for and received.
use dsm_unplugged.Common.{
  ◌≡◌, refl, sym, subst, inl, true, List, [], ◌∷◌, All, some, ◌==◌, to_vec, ◌∈◌, arith,
}
use dsm_unplugged.Sig.{wots_blake3}
use dsm_unplugged.RootAdvance.{Transition, from}
use dsm_unplugged.Appliance.{new}
use dsm_unplugged.Appliance.Invariant.{Inv, Inv-new}
use dsm_unplugged.Proto.{transition_to_pb, release_to_pb}
use dsm_unplugged.Proto.Pb
use dsm_unplugged.Proto.RoundTrip.{IsTransitionSized}
use dsm_unplugged.Service.History.{Link, quiet}
use dsm_unplugged.Service.Transfer.{FitsFrame, transfer_requests, ask_all, ask_all-Talk}
use dsm_unplugged.Accept.{DsmVerifier, CounterVerifier, VerifierContext}
use dsm_unplugged.Accept.Delivery.{Awaits, Delivered}
use dsm_unplugged.Accept.Deliveries.{Order, Continues, IsReady, AllDelivered, transfers_deliver}
use dsm_unplugged.Accept.Once.{Acceptance, CommitsOnce, no_double_spend}
use dsm_unplugged.Firmware.{
  chip_tropic, anchor, policy, genesis, next_root, receiver_challenge, md_slot, trivial_dsm,
}
use dsm_unplugged.Firmware.Enrolment.{chip_tropic_laws, chip_tropic-Works}
use dsm_unplugged.Firmware.SelfTest.Passes.{first_transfer, first_transfer-IsTransitionSized}
use dsm_unplugged.Examples.{length_hash}
use dsm_unplugged.Examples.Boot.{counter_session, counter_session_laws, counter_session-Answers}
use dsm_unplugged.Examples.Codec.{wire_codec, wire_codec-ProstLaws}
use dsm_unplugged.Tropic.{CounterLaws}

abbrev pub chip_laws : CounterLaws chip_tropic
chip_laws = chip_tropic_laws counter_session_laws

abbrev pub start : Link chip_laws
start = record { app = new 1000 1000 genesis anchor md_slot; heard = [] }

abbrev asked : Link chip_laws
asked = ask_all chip_laws start (transfer_requests first_transfer receiver_challenge)

-- A root commits to the index of the enrolled root alone.
abbrev first_dsm : DsmVerifier
first_dsm = record {
  root_commits_counter = λ _ i. i == 0;
  verify_transition = λ _. true;
  delivers_to_receiver = λ _. true;
}

abbrev chip_reader : CounterVerifier
chip_reader = record { read_authentic_counter = λ _ _. some 999 }

abbrev payee : VerifierContext
payee = record {
  accepted_prev_root = genesis;
  pinned_anchor_id = anchor;
  expected_receiver_challenge = receiver_challenge;
  expected_policy_hash = policy;
  enrolled_counter = 1000;
  exposure_cap_index = 10;
  anchor_uncompromised = true;
}

start-Inv : Inv start.app
start-Inv = Inv-new 1000 1000 genesis anchor md_slot (omega arith)

requests-FitsFrame :
    All (FitsFrame wire_codec) (transfer_requests first_transfer receiver_challenge)
unfolding to_vec transition_to_pb from
requests-FitsFrame = (omega arith, (omega arith, (omega arith, (omega arith, tt))))

-- The transfer that continues the first.
abbrev second_transfer : Transition
second_transfer = record first_transfer {
  prev_root = next_root;
  next_root = genesis;
  anchor_counter = 1;
  next_anchor_counter = 2;
}

abbrev second_payee : VerifierContext
second_payee = record payee { accepted_prev_root = next_root; expected_receiver_challenge = anchor }

abbrev second_reader : CounterVerifier
second_reader = record { read_authentic_counter = λ _ _. some 998 }

abbrev orders : List Order
orders =
    record {
      tr = first_transfer;
      rc = receiver_challenge;
      ctx = payee;
      dsm = first_dsm;
      counter = chip_reader;
    }
    ∷ record {
      tr = second_transfer;
      rc = anchor;
      ctx = second_payee;
      dsm = trivial_dsm;
      counter = second_reader;
    }
    ∷ []

start-IsReady : IsReady chip_laws start.app genesis 0
unfolding new chip_tropic_laws counter_session_laws
start-IsReady = record {
  inv = start-Inv;
  slot = omega arith;
  range = omega arith;
  at_rest = refl;
  in_step = omega arith;
}

payee-Awaits : Awaits first_transfer receiver_challenge anchor 1000 999 payee first_dsm chip_reader
payee-Awaits = record {
  parent = refl;
  pinned = refl;
  challenge = refl;
  policy = refl;
  commits = refl;
  proves = refl;
  delivers = refl;
  enrolled = refl;
  reads = λ ev. refl;
  cap = omega arith;
  sound = refl;
}

second_payee-Awaits :
    Awaits second_transfer anchor anchor 1000 998 second_payee trivial_dsm second_reader
second_payee-Awaits = record {
  parent = refl;
  pinned = refl;
  challenge = refl;
  policy = refl;
  commits = refl;
  proves = refl;
  delivers = refl;
  enrolled = refl;
  reads = λ ev. refl;
  cap = omega arith;
  sound = refl;
}

second_transfer-IsTransitionSized : IsTransitionSized (from second_transfer)
unfolding from to_vec
second_transfer-IsTransitionSized = record {
  action_fields_size = omega arith;
  old_leaf_proof_size = omega arith;
  new_leaf_proof_size = omega arith;
}

more_requests-FitsFrame : All (FitsFrame wire_codec) (transfer_requests second_transfer anchor)
unfolding to_vec transition_to_pb from
more_requests-FitsFrame = (omega arith, (omega arith, (omega arith, (omega arith, tt))))

orders-Continues : Continues wire_codec anchor 1000 genesis 0 orders
orders-Continues = (
  refl,
  refl,
  refl,
  omega arith,
  first_transfer-IsTransitionSized,
  requests-FitsFrame,
  payee-Awaits,
  (
    refl,
    refl,
    refl,
    omega arith,
    second_transfer-IsTransitionSized,
    more_requests-FitsFrame,
    second_payee-Awaits,
    tt,
  ),
)

delivered : AllDelivered chip_laws start orders
unfolding new
delivered =
    transfers_deliver chip_laws (chip_tropic-Works counter_session_laws counter_session-Answers)
      wire_codec-ProstLaws start genesis 0 orders start-IsReady orders-Continues

transfers_deliver_example : AllDelivered chip_laws start orders
unfolding new
transfers_deliver_example =
    transfers_deliver chip_laws (chip_tropic-Works counter_session_laws counter_session-Answers)
      wire_codec-ProstLaws start genesis 0 orders start-IsReady orders-Continues

delivery : Delivered first_transfer start asked payee first_dsm chip_reader
delivery = delivered.0

abbrev paid : Pb.OfflineRelease
paid = release_to_pb delivery.rel

paid-Acceptance : Acceptance paid
paid-Acceptance = record {
  rel = delivery.rel;
  ctx = payee;
  dsm = first_dsm;
  counter = chip_reader;
  decodes = delivery.decodes;
  accepts = delivery.accepts;
}

paid_heard : paid ∈ asked.heard
paid_heard = subst (λ ps. paid ∈ ps) (sym delivery.heard) (inl refl)

first_dsm-CommitsOnce : CommitsOnce first_dsm first_dsm
first_dsm-CommitsOnce root i j x y = ground arith

no_double_spend_example : paid ≡ paid
unfolding paid-Acceptance
no_double_spend_example =
    no_double_spend chip_laws wire_codec-ProstLaws 1000 1000 genesis anchor md_slot asked
      paid-Acceptance paid-Acceptance (omega arith)
      (ask_all-Talk chip_laws (transfer_requests first_transfer receiver_challenge) quiet)
      paid_heard paid_heard first_dsm-CommitsOnce refl
