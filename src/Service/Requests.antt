-- ===== src/Service/Requests.antt =====
-- anchor-core/src/service.rs: what a request can do to the device, and what its response says.
use dsm_unplugged.Common.{
  ℕ, ◌≤◌, ◌<◌, ◌≡◌, refl, sym, subst, ◌↔◌, inl, inr, true, List, length, Array, none, some, arith,
  Result-cases, Option-cases, Bool-cases, ltb,
}
use dsm_unplugged.Hash.{Blake3}
use dsm_unplugged.Tropic.{Tropic, WitnessSig, IsCorrect}
use dsm_unplugged.RootAdvance.{Transition, as_transition}
use dsm_unplugged.Appliance.{Appliance}
use dsm_unplugged.Appliance.Operations.{prepare, commit, finalize, cancel}
use dsm_unplugged.Appliance.Invariant.{Inv, prepare-Inv, commit-Inv}
use dsm_unplugged.Appliance.Preserve.{finalize-Inv, cancel-Inv}
use dsm_unplugged.Proto.{Prost, arr32, to_owned_transition, decode_request, encode_response}
use dsm_unplugged.Proto.Pb
use dsm_unplugged.Service.{
  code_none, code_bad_proto, code_frame_too_large, max_frame_len, appliance_code, proto_code,
  op_try_from, fail, dispatch_prepare, dispatch_op, dispatch, handle,
}

module _ ⦃b : Blake3⦄ ⦃t : Tropic⦄ ⦃s : WitnessSig⦄ where
  -- The device after a request: as it was, or after one call of one operation.
  pub data Called (app app' : Appliance t.Chip) : Type 0 where
    none_called : app' ≡ app → Called app app'
    prepare_called :
        (tr : Transition) (rc : Array 32) → app' ≡ (prepare tr rc app).1 → Called app app'
    commit_called : app' ≡ (commit app).1 → Called app app'
    finalize_called : app' ≡ (finalize app).1 → Called app app'
    cancel_called : app' ≡ (cancel app).1 → Called app app'

  dispatch_prepare-Called :
      (app : Appliance t.Chip) (req : Pb.ApplianceRequest) → Called app (dispatch_prepare app req).1
  unfolding dispatch_prepare
  dispatch_prepare-Called app req = elim (Option-cases req.transition) [
    | inl e ↦ none_called (ground arith)
    | inr (tp, e) ↦ elim (Result-cases (to_owned_transition tp)) [
      | inr (x, d) ↦ none_called (ground arith)
      | inl (o, d) ↦ elim (Result-cases (arr32 req.receiver_challenge)) [
        | inr (x, c) ↦ none_called (ground arith)
        | inl (rc, c) ↦ prepare_called (as_transition o) rc (ground arith)
      ]
    ]
  ]

  pub dispatch_op-Called :
      (op : Pb.Op) (app : Appliance t.Chip) (req : Pb.ApplianceRequest)
      → Called app (dispatch_op op app req).1
  unfolding dispatch_op
  dispatch_op-Called Pb.Op.prepare app req = dispatch_prepare-Called app req
  dispatch_op-Called Pb.Op.commit app req = commit_called refl
  dispatch_op-Called Pb.Op.emit app req = none_called (ground arith)
  dispatch_op-Called Pb.Op.finalize app req = finalize_called (ground arith)
  dispatch_op-Called Pb.Op.status app req = none_called refl
  dispatch_op-Called Pb.Op.cancel app req = cancel_called refl
  dispatch_op-Called Pb.Op.unspecified app req = none_called refl

  pub dispatch-Called :
      (app : Appliance t.Chip) (req : Pb.ApplianceRequest) → Called app (dispatch app req).1
  unfolding dispatch
  dispatch-Called app req = elim (Option-cases (op_try_from req.op)) [
    | inl e ↦ none_called (ground arith)
    | inr (op, e) ↦ subst (Called app) (sym (known op e)) (dispatch_op-Called op app req)
  ]
    where
      known :
          (op : Pb.Op)
          → op_try_from req.op ≡ some op
          → (dispatch app req).1 ≡ (dispatch_op op app req).1
      known op e = ground arith

  -- A frame reaches the device through at most one call of one operation.
  pub handle-Called :
      ⦃c : Prost⦄ (app : Appliance t.Chip) (frame : List ℕ) → Called app (handle app frame).1
  unfolding handle
  handle-Called app frame = elim (Bool-cases (ltb max_frame_len (length frame))) [
    | inl e ↦ none_called (ground arith)
    | inr e ↦ elim (Result-cases (decode_request frame)) [
      | inl (req, d) ↦
          let same : (handle app frame).1 ≡ (dispatch app req).1 = ground arith in
          subst (Called app) (sym same) (dispatch-Called app req)
      | inr (x, d) ↦ none_called (ground arith)
    ]
  ]

  answers_prepare :
      (app : Appliance t.Chip) (req : Pb.ApplianceRequest)
      → let r = (dispatch_prepare app req).0 in
        (r.op ≡ req.op) × ((r.ok ≡ true) ↔ (r.error ≡ code_none))
  unfolding dispatch_prepare appliance_code proto_code
  answers_prepare app req = ground arith

  answers_op :
      (op : Pb.Op) (app : Appliance t.Chip) (req : Pb.ApplianceRequest)
      → let r = (dispatch_op op app req).0 in
        (r.op ≡ req.op) × ((r.ok ≡ true) ↔ (r.error ≡ code_none))
  unfolding dispatch_op appliance_code
  answers_op Pb.Op.prepare app req = answers_prepare app req
  answers_op Pb.Op.commit app req = ground arith
  answers_op Pb.Op.emit app req = ground arith
  answers_op Pb.Op.finalize app req = ground arith
  answers_op Pb.Op.status app req = ground arith
  answers_op Pb.Op.cancel app req = ground arith
  answers_op Pb.Op.unspecified app req = ground arith

  -- A response names the operation that was asked for, and is marked ok exactly when its error code
  -- is that of no error.
  pub dispatch_answers :
      (app : Appliance t.Chip) (req : Pb.ApplianceRequest)
      → let r = (dispatch app req).0 in (r.op ≡ req.op) × ((r.ok ≡ true) ↔ (r.error ≡ code_none))
  unfolding dispatch
  dispatch_answers app req = elim (Option-cases (op_try_from req.op)) [
    | inl e ↦ ground arith
    | inr (op, e) ↦ ground (arith, answers_op op app req)
  ]

module _ ⦃b : Blake3⦄ ⦃t : Tropic⦄ ⦃s : WitnessSig⦄ (correct : IsCorrect s) where
  Called-Inv : {app app' : Appliance t.Chip} → Called app app' → Inv app → Inv app'
  Called-Inv {app} (none_called e) i = rw e i
  Called-Inv {app} (prepare_called tr rc e) i = rw e (prepare-Inv correct tr rc app i)
  Called-Inv {app} (commit_called e) i = rw e (commit-Inv correct app i)
  Called-Inv {app} (finalize_called e) i = rw e (finalize-Inv app i)
  Called-Inv {app} (cancel_called e) i = rw e (cancel-Inv app i)

  -- With a correct signature scheme, every frame keeps the invariant of the device, also one that is
  -- oversized, malformed or refused.
  pub handle-Inv :
      ⦃c : Prost⦄ (app : Appliance t.Chip) (frame : List ℕ) → Inv app → Inv (handle app frame).1
  handle-Inv app frame i = Called-Inv (handle-Called app frame) i

module _ ⦃b : Blake3⦄ ⦃t : Tropic⦄ ⦃s : WitnessSig⦄ where
  -- A frame over the ceiling is answered with that error code under operation 0, and leaves the
  -- device as it was, the chip included.
  pub handle_oversized :
      ⦃c : Prost⦄ (app : Appliance t.Chip) (frame : List ℕ)
      → max_frame_len < length frame
      → handle app frame ≡ (encode_response (fail 0 code_frame_too_large), app)
  unfolding handle decode_request
  handle_oversized app frame h = ground arith

  -- A frame within the ceiling that does not decode is answered with the code of a bad message under
  -- operation 0, and leaves the device as it was, the chip included.
  pub handle_malformed :
      ⦃c : Prost⦄ (app : Appliance t.Chip) (frame : List ℕ)
      → length frame ≤ max_frame_len
      → c.decode_request_bytes frame ≡ none
      → handle app frame ≡ (encode_response (fail 0 code_bad_proto), app)
  unfolding handle decode_request
  handle_malformed app frame h e = ground arith
