-- ===== src/Firmware/SelfTest/Passes.antt =====
-- firmware/src/main.rs: on a session that answers, the self-test passes.
use dsm_unplugged.Common.{◌≡◌, refl, List, [], ◌∷◌, to_vec, ok, arith}
use dsm_unplugged.Hash.{Blake3}
use dsm_unplugged.RootAdvance.{Transition, from}
use dsm_unplugged.Sig.{wots_blake3}
use dsm_unplugged.Appliance.{Appliance}
use dsm_unplugged.Proto.{Prost, ProstLaws, transition_to_pb}
use dsm_unplugged.Proto.Pb
use dsm_unplugged.Proto.RoundTrip.{IsTransitionSized}
use dsm_unplugged.Service.{dispatch}
use dsm_unplugged.Service.Transfer.{
  op_request, transfer_request, FitsFrame, handle-encode_request, decode_response-encode_response,
}
use dsm_unplugged.Firmware.{
  Session, chip_tropic, secure_core_handle, policy, genesis, next_root, receiver_challenge,
}
use dsm_unplugged.Firmware.SelfTest.{
  t_rel, t_obj, t_snd, t_rcv, t_pay, t_af, leaf_old, leaf_new, prepare_request, op_request,
  round_trip,
}

-- The requests of the self-test, in order.
abbrev pub self_test_requests : List Pb.ApplianceRequest
self_test_requests =
    prepare_request ∷ op_request 2 ∷ op_request 3 ∷ op_request 4 ∷ op_request 5 ∷ []

module _ ⦃b : Blake3⦄ ⦃sess : Session⦄ ⦃c : Prost⦄ (codec : ProstLaws c) where
  -- A request that fits is dispatched as it was, and so is its response read back.
  pub round_trip-dispatch :
      (req : Pb.ApplianceRequest) (app : Appliance sess.Chip)
      → FitsFrame c req
      → round_trip req app ≡ (ok (dispatch app req).0, (dispatch app req).1)
  unfolding round_trip secure_core_handle
  round_trip-dispatch req app h =
      rw (handle-encode_request app codec req h)
        (rw (decode_response-encode_response codec (dispatch app req).0) refl)

-- The transfer that `prepare_request` asks for.
abbrev pub first_transfer : Transition
first_transfer = record {
  relationship_id = t_rel;
  object_id = t_obj;
  sender_device_id = t_snd;
  recipient_device_id = t_rcv;
  prev_root = genesis;
  next_root = next_root;
  anchor_counter = 0;
  next_anchor_counter = 1;
  action_type = 0;
  action_fields = to_vec t_af;
  payload_hash = t_pay;
  old_leaf_proof = to_vec leaf_old;
  new_leaf_proof = to_vec leaf_new;
  authority_policy_hash = policy;
}

pub first_transfer-IsTransitionSized : IsTransitionSized (from first_transfer)
unfolding from to_vec
first_transfer-IsTransitionSized = record {
  action_fields_size = omega arith;
  old_leaf_proof_size = omega arith;
  new_leaf_proof_size = omega arith;
}

pub prepare_request_is : prepare_request ≡ transfer_request first_transfer receiver_challenge
unfolding prepare_request from transition_to_pb
prepare_request_is = refl
