-- ===== src/Service/Transfer.antt =====
-- anchor-core/src/service.rs: the answers to the requests of a transfer, on a device on which its
-- operations succeed.
use dsm_unplugged.Common.{
  ℕ, ◌≤◌, ◌≡◌, refl, ap, ◌∙◌, true, false, List, [], ◌∷◌, length, Array, to_vec, none, some, ok,
  ltb, arith, All,
}
use dsm_unplugged.Hash.{Blake3}
use dsm_unplugged.Tropic.{Tropic, WitnessSig, CounterLaws}
use dsm_unplugged.RootAdvance.{Transition, OfflineRelease, from, as_transition}
use dsm_unplugged.Appliance.{Appliance, Status, Record}
use dsm_unplugged.Appliance.Operations.{prepare, commit, emit, finalize}
use dsm_unplugged.Proto.{
  Prost, ProstLaws, encode_request, decode_request, encode_response, decode_response,
  transition_to_pb, release_to_pb,
}
use dsm_unplugged.Proto.Pb
use dsm_unplugged.Proto.RoundTrip.{
  IsTransitionSized, to_owned_transition-transition_to_pb, arr32-to_vec,
}
use dsm_unplugged.Service.History.{hear, Link, ask, asks, Talk, then_}
use dsm_unplugged.Service.{max_frame_len, dispatch, handle, base, succeed, status_code}

-- A request of an operation alone, `..Default::default()`.
abbrev pub op_request : ℕ → Pb.ApplianceRequest
op_request op = record { op = op; transition = none; receiver_challenge = [] }

-- A request to prepare a transition for a receiver's challenge.
abbrev pub transfer_request : Transition → Array 32 → Pb.ApplianceRequest
transfer_request tr rc = record {
  op = 1;
  transition = some (transition_to_pb (from tr));
  receiver_challenge = to_vec rc;
}

-- A request that the codec encodes within the frame ceiling.
abbrev pub FitsFrame : Prost → Pb.ApplianceRequest → Type 0
FitsFrame c req = length (c.encode_request_bytes req) ≤ max_frame_len

module _ ⦃b : Blake3⦄ ⦃t : Tropic⦄ ⦃s : WitnessSig⦄ (app : Appliance t.Chip) where
  pub handle-encode_request :
      ⦃c : Prost⦄
      → ProstLaws c
      → (req : Pb.ApplianceRequest) → FitsFrame c req
      → handle app (encode_request req)
        ≡ (encode_response (dispatch app req).0, (dispatch app req).1)
  unfolding handle encode_request decode_request
  handle-encode_request ⦃c⦄ codec req h =
      let small : ltb max_frame_len (length (c.encode_request_bytes req)) ≡ false = ground arith in
      rw (small, codec.request_round_trip req) refl

  pub dispatch-prepare :
      (tr : Transition) (rc : Array 32)
      → IsTransitionSized (from tr)
      → (prepare tr rc app).0 ≡ ok tt
      → dispatch app (transfer_request tr rc) ≡ (succeed 1, (prepare tr rc app).1)
  unfolding dispatch as_transition from
  dispatch-prepare tr rc z e =
      ground (arith, to_owned_transition-transition_to_pb (from tr) z, arr32-to_vec rc)

  pub dispatch-commit :
      (commit app).0 ≡ ok tt → dispatch app (op_request 2) ≡ (succeed 2, (commit app).1)
  unfolding dispatch
  dispatch-commit e = rw e refl

  pub dispatch-emit :
      (rel : OfflineRelease)
      → emit app ≡ ok rel
      → dispatch app (op_request 3)
        ≡ (record (base 3) { ok = true; release = some (release_to_pb rel) }, app)
  unfolding dispatch
  dispatch-emit rel e = ground arith

  pub dispatch-finalize :
      (root : Array 32)
      → (finalize app).0 ≡ ok root
      → dispatch app (op_request 4)
        ≡ (record (base 4) { ok = true; active_root = to_vec root }, (finalize app).1)
  unfolding dispatch
  dispatch-finalize root e = ground arith

  pub dispatch-status :
      (root : Array 32) (u : ℕ)
      → app.active ≡ record { root = root; u = u; status = Status.ready; record_ = Record.empty }
      → dispatch app (op_request 5) ≡ (
        record (base 5) { ok = true; active_root = to_vec root; active_index = u; status = 0 },
        app,
      )
  unfolding dispatch status_code
  dispatch-status root u e = rw e refl

pub decode_response-encode_response :
    ⦃c : Prost⦄
    → ProstLaws c
    → (resp : Pb.ApplianceResponse) → decode_response (encode_response resp) ≡ ok resp
unfolding decode_response encode_response
decode_response-encode_response codec resp = rw (codec.response_round_trip resp) refl

-- The requests of a transfer, in order.
abbrev pub transfer_requests : Transition → Array 32 → List Pb.ApplianceRequest
transfer_requests tr rc = transfer_request tr rc ∷ op_request 2 ∷ op_request 3 ∷ op_request 4 ∷ []

module _ ⦃b : Blake3⦄ ⦃t : Tropic⦄ ⦃s : WitnessSig⦄ ⦃c : Prost⦄ (laws : CounterLaws t) where
  -- The host sends requests one after the other, and reads each response.
  abbrev pub ask_all : Link laws → List Pb.ApplianceRequest → Link laws
  ask_all l [] = l
  ask_all l (req ∷ reqs) = ask_all (ask laws l (encode_request req)) reqs

  ask-encode_request :
      ProstLaws c
      → (l : Link laws) (req : Pb.ApplianceRequest) {resp : Pb.ApplianceResponse}
        {app : Appliance t.Chip}
      → FitsFrame c req
      → dispatch l.app req ≡ (resp, app)
      → ask laws l (encode_request req) ≡ record { app = app; heard = hear (ok resp) l.heard }
  ask-encode_request codec l req {resp} {app} fits e =
      let served = handle-encode_request l.app codec req fits in
      let answered = ap (λ r. (encode_response r.0, r.1)) e in
      let read : decode_response (handle l.app (encode_request req)).0 ≡ ok resp =
        ap (λ r. decode_response r.0) (served ∙ answered)
        ∙ decode_response-encode_response codec resp in
      λ i. record { app = ((served ∙ answered) i).1; heard = hear (read i) l.heard }

  -- A transfer whose four operations succeed, over frames: the host has heard its release.
  pub ask_all-transfer_requests :
      ProstLaws c
      → (l : Link laws) (tr : Transition) (rc : Array 32) (rel : OfflineRelease)
      → IsTransitionSized (from tr)
      → All (FitsFrame c) (transfer_requests tr rc)
      → (prepare tr rc l.app).0 ≡ ok tt
      → (commit (prepare tr rc l.app).1).0 ≡ ok tt
      → emit (commit (prepare tr rc l.app).1).1 ≡ ok rel
      → (finalize (commit (prepare tr rc l.app).1).1).0 ≡ ok tr.next_root
      → ask_all l (transfer_requests tr rc) ≡ record {
        app = (finalize (commit (prepare tr rc l.app).1).1).1;
        heard = release_to_pb rel ∷ l.heard;
      }
  ask_all-transfer_requests codec l tr rc rel z (f1, (f2, (f3, (f4, _)))) e1 e2 e3 e4 =
      let app1 = (prepare tr rc l.app).1 in
      let app2 = (commit app1).1 in
      let l1 : Link laws = record { app = app1; heard = l.heard } in
      let l2 : Link laws = record { app = app2; heard = l.heard } in
      let l3 : Link laws = record { app = app2; heard = release_to_pb rel ∷ l.heard } in
      let q1 =
        ask-encode_request codec l (transfer_request tr rc) f1
          (dispatch-prepare l.app tr rc z e1) in
      let q2 = ask-encode_request codec l1 (op_request 2) f2 (dispatch-commit app1 e2) in
      let q3 = ask-encode_request codec l2 (op_request 3) f3 (dispatch-emit app2 rel e3) in
      let q4 =
        ask-encode_request codec l3 (op_request 4) f4 (dispatch-finalize app2 tr.next_root e4) in
      ap (λ m. ask_all m (op_request 2 ∷ op_request 3 ∷ op_request 4 ∷ [])) q1
      ∙ ap (λ m. ask_all m (op_request 3 ∷ op_request 4 ∷ [])) q2
      ∙ ap (λ m. ask_all m (op_request 4 ∷ [])) q3
      ∙ q4

  -- What the host asks is a talk with the device.
  pub ask_all-Talk :
      {l m : Link laws} (reqs : List Pb.ApplianceRequest)
      → Talk laws l m
      → Talk laws l (ask_all m reqs)
  ask_all-Talk [] k = k
  ask_all-Talk {m = m} (req ∷ reqs) k =
      ask_all-Talk {m = ask laws m (encode_request req)} reqs
        (then_ k (asks m (encode_request req)))
