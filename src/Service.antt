-- ===== src/Service.antt =====
-- anchor-core/src/service.rs: the secure core's dispatch of wire requests.
pub mod Requests
pub mod History
pub mod Safety
pub mod Refusal
pub mod Transfer
use dsm_unplugged.Common.{
  ℕ, zero, suc, ◌*◌, Bool, true, false, List, [], to_vec, length, Option, none, some, Result, ok,
  err, ltb, if◌then◌else◌,
}
use dsm_unplugged.Hash.{Blake3}
use dsm_unplugged.Tropic.{Tropic, WitnessSig}
use dsm_unplugged.RootAdvance.{as_transition}
use dsm_unplugged.Appliance.{
  Status, ApplianceError, wrong_state, prev_root_mismatch, index_mismatch, counter_mismatch,
  witness_key_lost, counter_exhausted, not_committed, tropic, Appliance,
}
use dsm_unplugged.Appliance.Operations.{prepare, commit, emit, finalize, cancel}
use dsm_unplugged.Proto.{
  ProtoError, bad_length, missing_field, bad_op, bad_slot, decode, Prost, arr32,
  to_owned_transition, release_to_pb, decode_request, encode_response,
}
use dsm_unplugged.Proto.Pb

-- `mod err`.
abbrev pub code_none : ℕ
code_none = 0

abbrev pub code_wrong_state : ℕ
code_wrong_state = 1

abbrev pub code_prev_root_mismatch : ℕ
code_prev_root_mismatch = 2

abbrev pub code_index_mismatch : ℕ
code_index_mismatch = 3

abbrev pub code_counter_mismatch : ℕ
code_counter_mismatch = 4

abbrev pub code_witness_key_lost : ℕ
code_witness_key_lost = 5

abbrev pub code_counter_exhausted : ℕ
code_counter_exhausted = 6

abbrev pub code_not_committed : ℕ
code_not_committed = 7

abbrev pub code_tropic : ℕ
code_tropic = 8

abbrev pub code_bad_proto : ℕ
code_bad_proto = 100

abbrev pub code_missing_field : ℕ
code_missing_field = 101

abbrev pub code_bad_op : ℕ
code_bad_op = 102

abbrev pub code_frame_too_large : ℕ
code_frame_too_large = 103

abbrev pub max_frame_len : ℕ
max_frame_len = 64 * 1024

unfoldable pub appliance_code : ApplianceError → ℕ
appliance_code wrong_state = code_wrong_state
appliance_code prev_root_mismatch = code_prev_root_mismatch
appliance_code index_mismatch = code_index_mismatch
appliance_code counter_mismatch = code_counter_mismatch
appliance_code witness_key_lost = code_witness_key_lost
appliance_code counter_exhausted = code_counter_exhausted
appliance_code not_committed = code_not_committed
appliance_code (tropic e) = code_tropic

unfoldable pub proto_code : ProtoError → ℕ
proto_code missing_field = code_missing_field
proto_code bad_op = code_bad_op
proto_code bad_length = code_bad_proto
proto_code bad_slot = code_bad_proto
proto_code decode = code_bad_proto

unfoldable pub status_code : Status → ℕ
status_code Status.ready = 0
status_code Status.prepared = 1
status_code Status.committed = 2

-- prost's `Op::try_from` of an i32, by the numbers of the enum in the schema.
abbrev pub op_try_from : ℕ → Option Pb.Op
op_try_from zero = some Pb.Op.unspecified
op_try_from (suc zero) = some Pb.Op.prepare
op_try_from (suc (suc zero)) = some Pb.Op.commit
op_try_from (suc (suc (suc zero))) = some Pb.Op.emit
op_try_from (suc (suc (suc (suc zero)))) = some Pb.Op.finalize
op_try_from (suc (suc (suc (suc (suc zero))))) = some Pb.Op.status
op_try_from (suc (suc (suc (suc (suc (suc zero)))))) = some Pb.Op.cancel
op_try_from (suc (suc (suc (suc (suc (suc (suc n))))))) = none

abbrev pub base : ℕ → Pb.ApplianceResponse
base op = record {
  op = op;
  ok = false;
  error = code_none;
  release = none;
  active_root = [];
  active_index = 0;
  status = 0;
}

-- `ok`.
abbrev pub succeed : ℕ → Pb.ApplianceResponse
succeed op = record (base op) { ok = true }

abbrev pub fail : ℕ → ℕ → Pb.ApplianceResponse
fail op code = record (base op) { error = code }

-- The response to an operation that returns nothing.
abbrev pub answer : ℕ → Result (Unit {0}) ApplianceError → Pb.ApplianceResponse
answer op (ok _) = succeed op
answer op (err e) = fail op (appliance_code e)

module _ ⦃b : Blake3⦄ ⦃t : Tropic⦄ ⦃s : WitnessSig⦄ where
  unfoldable pub dispatch_prepare :
      Appliance t.Chip → Pb.ApplianceRequest → Pb.ApplianceResponse × Appliance t.Chip
  dispatch_prepare app req = elim req.transition [
    | none ↦ (fail req.op code_missing_field, app)
    | some tp ↦ elim (to_owned_transition tp) [
      | err e ↦ (fail req.op (proto_code e), app)
      | ok owned ↦ elim (arr32 req.receiver_challenge) [
        | err e ↦ (fail req.op (proto_code e), app)
        | ok rc ↦ let (r, app') = prepare (as_transition owned) rc app in (answer req.op r, app')
      ]
    ]
  ]

  unfoldable pub dispatch_op :
      Pb.Op → Appliance t.Chip → Pb.ApplianceRequest → Pb.ApplianceResponse × Appliance t.Chip
  unfolding dispatch_prepare
  dispatch_op Pb.Op.prepare app req = dispatch_prepare app req
  dispatch_op Pb.Op.commit app req = let (r, app') = commit app in (answer req.op r, app')
  dispatch_op Pb.Op.emit app req = elim (emit app) [
    | ok rel ↦ (record (base req.op) { ok = true; release = some (release_to_pb rel) }, app)
    | err e ↦ (fail req.op (appliance_code e), app)
  ]
  dispatch_op Pb.Op.finalize app req =
      let (r, app') = finalize app in
      elim r [
        | ok h ↦ (record (base req.op) { ok = true; active_root = to_vec h }, app')
        | err e ↦ (fail req.op (appliance_code e), app')
      ]
  dispatch_op Pb.Op.status app req = (
    record (base req.op) {
      ok = true;
      active_root = to_vec app.active.root;
      active_index = app.active.u;
      status = status_code app.active.status;
    },
    app,
  )
  dispatch_op Pb.Op.cancel app req = let (r, app') = cancel app in (answer req.op r, app')
  dispatch_op Pb.Op.unspecified app req = (fail req.op code_bad_op, app)

  unfoldable pub dispatch :
      Appliance t.Chip → Pb.ApplianceRequest → Pb.ApplianceResponse × Appliance t.Chip
  unfolding dispatch_op
  dispatch app req = elim (op_try_from req.op) [
    | some op ↦ dispatch_op op app req
    | none ↦ (fail req.op code_bad_op, app)
  ]

  unfoldable pub handle : ⦃c : Prost⦄ → Appliance t.Chip → List ℕ → List ℕ × Appliance t.Chip
  handle app frame =
      if ltb max_frame_len (length frame)
      then (encode_response (fail 0 code_frame_too_large), app)
      else (elim (decode_request frame) [
        | ok req ↦ let (resp, app') = dispatch app req in (encode_response resp, app')
        | err e ↦ (encode_response (fail 0 code_bad_proto), app)
      ])
