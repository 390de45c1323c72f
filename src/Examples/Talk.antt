-- ===== src/Examples/Talk.antt =====
-- anchor-core/src/service.rs: a host that talks to a device.
use dsm_unplugged.Common.{ℕ, List, [], ◌∷◌, arith}
use dsm_unplugged.Appliance.{new}
use dsm_unplugged.Proto.{encode_request, decode_response}
use dsm_unplugged.Common.{◌≡◌, ◌<◌, ◌≤◌, ◌↔◌, ok, err, length}
use dsm_unplugged.Proto.{ProtoError, decode_request}
use dsm_unplugged.Proto.Pb
use dsm_unplugged.Service.{
  code_bad_proto, code_frame_too_large, max_frame_len, fail, dispatch, handle,
}
use dsm_unplugged.Service.Refusal.{handle_refusal}
use dsm_unplugged.Service.History.{OneWireReleasePerIndex, Link, Talk, quiet, Refines, Talk-Refines}
use dsm_unplugged.Service.Safety.{one_wire_release_per_index}
use dsm_unplugged.Service.Transfer.{op_request, ask_all, ask_all-Talk}
use dsm_unplugged.Firmware.SelfTest.{prepare_request}
use dsm_unplugged.Examples.{length_hash, counter_chip, counter_chip_laws, plain_sig, root0, anchor0}
use dsm_unplugged.Examples.Codec.{wire_codec, wire_codec-ProstLaws}

abbrev link0 : Link counter_chip_laws
link0 = record { app = new 1000 1000 root0 anchor0 5; heard = [] }

-- The link after a transfer: prepare, commit, and two emits.
abbrev link4 : Link counter_chip_laws
link4 =
    ask_all counter_chip_laws link0
      (prepare_request ∷ op_request 2 ∷ op_request 3 ∷ op_request 3 ∷ [])

talk4 : Talk counter_chip_laws link0 link4
talk4 =
    ask_all-Talk counter_chip_laws
      (prepare_request ∷ op_request 2 ∷ op_request 3 ∷ op_request 3 ∷ []) quiet

Talk-Refines_example : Refines counter_chip_laws (record { app = link0.app; released = [] }) link4
Talk-Refines_example = Talk-Refines counter_chip_laws link0.app wire_codec-ProstLaws talk4

one_wire_release_per_index_example : OneWireReleasePerIndex link4.heard
one_wire_release_per_index_example =
    one_wire_release_per_index counter_chip_laws wire_codec-ProstLaws 1000 1000 root0 anchor0 5
      link4 (omega arith) talk4

abbrev commit_frame : List ℕ
commit_frame = encode_request (op_request 2)

handle_refusal_example :
    (resp : Pb.ApplianceResponse) × (decode_response (handle link0.app commit_frame).0 ≡ ok resp)
    × ((resp.error ≡ code_frame_too_large) ↔ (max_frame_len < length commit_frame))
    × (max_frame_len < length commit_frame → (handle link0.app commit_frame).1 ≡ link0.app)
    × ((e : ProtoError)
        → length commit_frame ≤ max_frame_len
        → decode_request commit_frame ≡ err e
        → (resp ≡ fail 0 code_bad_proto) × ((handle link0.app commit_frame).1 ≡ link0.app))
    × ((req : Pb.ApplianceRequest)
        → length commit_frame ≤ max_frame_len
        → decode_request commit_frame ≡ ok req
        → (resp ≡ (dispatch link0.app req).0)
          × ((handle link0.app commit_frame).1 ≡ (dispatch link0.app req).1))
handle_refusal_example = handle_refusal wire_codec-ProstLaws link0.app commit_frame
