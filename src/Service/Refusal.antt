-- ===== src/Service/Refusal.antt =====
-- anchor-core/src/service.rs: when a frame is refused without a look at it.
use dsm_unplugged.Common.{
  ℕ, ◌<◌, ◌≤◌, ◌≡◌, refl, ap, ◌↔◌, inl, inr, List, length, ok, err, ltb, Bool-cases, Result-cases,
  Option-cases, arith,
}
use dsm_unplugged.Hash.{Blake3}
use dsm_unplugged.Tropic.{Tropic, WitnessSig}
use dsm_unplugged.Appliance.{Appliance}
use dsm_unplugged.Proto.{
  Prost, ProstLaws, ProtoError, decode_request, encode_response, decode_response,
}
use dsm_unplugged.Proto.Pb
use dsm_unplugged.Service.{
  code_bad_proto, code_frame_too_large, max_frame_len, appliance_code, proto_code, fail,
  op_try_from, dispatch_prepare, dispatch_op, dispatch, handle,
}

module _ ⦃b : Blake3⦄ ⦃t : Tropic⦄ ⦃s : WitnessSig⦄ where
  prepare_small :
      (app : Appliance t.Chip) (req : Pb.ApplianceRequest)
      → (dispatch_prepare app req).0.error < code_frame_too_large
  unfolding dispatch_prepare appliance_code proto_code
  prepare_small app req = ground arith

  op_small :
      (op : Pb.Op) (app : Appliance t.Chip) (req : Pb.ApplianceRequest)
      → (dispatch_op op app req).0.error < code_frame_too_large
  unfolding dispatch_op appliance_code
  op_small Pb.Op.prepare app req = prepare_small app req
  op_small Pb.Op.commit app req = ground arith
  op_small Pb.Op.emit app req = ground arith
  op_small Pb.Op.finalize app req = ground arith
  op_small Pb.Op.status app req = ground arith
  op_small Pb.Op.cancel app req = ground arith
  op_small Pb.Op.unspecified app req = ground arith

  dispatch_small :
      (app : Appliance t.Chip) (req : Pb.ApplianceRequest)
      → (dispatch app req).0.error < code_frame_too_large
  unfolding dispatch
  dispatch_small app req = elim (Option-cases (op_try_from req.op)) [
    | inl e ↦ ground arith
    | inr (op, e) ↦ ground (arith, op_small op app req)
  ]

  -- Every frame is answered, and the host can tell why it was refused. The response decodes; its
  -- error is that of a frame that is too large exactly when the frame is over the ceiling, and the
  -- device is then as it was, the chip included; so it is when the frame is within the ceiling and
  -- does not decode, which is answered as a bad message; and a request that decodes is answered as
  -- `dispatch` answers it. The codec is assumed to read back what it wrote.
  pub handle_refusal :
      ⦃c : Prost⦄ (codec : ProstLaws c) (app : Appliance t.Chip) (frame : List ℕ)
      → (resp : Pb.ApplianceResponse) × (decode_response (handle app frame).0 ≡ ok resp)
        × ((resp.error ≡ code_frame_too_large) ↔ (max_frame_len < length frame))
        × (max_frame_len < length frame → (handle app frame).1 ≡ app)
        × ((e : ProtoError)
            → length frame ≤ max_frame_len
            → decode_request frame ≡ err e
            → (resp ≡ fail 0 code_bad_proto) × ((handle app frame).1 ≡ app))
        × ((req : Pb.ApplianceRequest)
            → length frame ≤ max_frame_len
            → decode_request frame ≡ ok req
            → (resp ≡ (dispatch app req).0) × ((handle app frame).1 ≡ (dispatch app req).1))
  unfolding handle encode_response decode_response
  handle_refusal ⦃c⦄ codec app frame = elim (Bool-cases (ltb max_frame_len (length frame))) [
    | inl e ↦
        let over : max_frame_len < length frame = ground arith in
        let reads = codec.response_round_trip (fail 0 code_frame_too_large) in
        (
          fail 0 code_frame_too_large,
          ground (arith, reads),
          (λ _. over, λ _. refl),
          λ _. ground arith,
          λ x le d. absurd (omega arith),
          λ req le d. absurd (omega arith),
        )
    | inr e ↦
        let within : length frame ≤ max_frame_len = ground arith in
        elim (Result-cases (decode_request frame)) [
          | inl (req, d) ↦
              let reads = codec.response_round_trip (dispatch app req).0 in
              let small = dispatch_small app req in
              (
                (dispatch app req).0,
                ground (arith, reads),
                (λ k. absurd (omega arith), λ k. absurd (omega arith)),
                λ k. absurd (omega arith),
                λ x le k. cc,
                λ r le k.
                    let same : req ≡ r = cc in
                    (ap (λ (q : Pb.ApplianceRequest). (dispatch app q).0) same, ground arith),
              )
          | inr (x, d) ↦
              let reads = codec.response_round_trip (fail 0 code_bad_proto) in
              (
                fail 0 code_bad_proto,
                ground (arith, reads),
                (λ k. absurd (omega arith), λ k. absurd (omega arith)),
                λ k. absurd (omega arith),
                λ y le k. (refl, ground arith),
                λ r le k. cc,
              )
        ]
  ]
