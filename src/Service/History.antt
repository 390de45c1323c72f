-- ===== src/Service/History.antt =====
-- anchor-core/src/service.rs: the device as the host sees it, through frames alone, over time.
use dsm_unplugged.Common.{
  ℕ, ◌≡◌, refl, sym, ap, subst, inl, inr, List, [], ◌∷◌, length, All, Option, none, some, Result,
  ok, err, arith, Result-cases, Option-cases, Bool-cases, ltb,
}
use mathlib.Core.List.{map}
use dsm_unplugged.Hash.{Blake3}
use dsm_unplugged.Tropic.{Tropic, WitnessSig, CounterLaws}
use dsm_unplugged.RootAdvance.{OfflineRelease}
use dsm_unplugged.Appliance.{Appliance}
use dsm_unplugged.Appliance.Operations.{emit}
use dsm_unplugged.Appliance.Trace.{
  World, Step, Reach, here, next, prepares, commits, emits, finalizes, cancels,
}
use dsm_unplugged.Proto.{
  Prost, ProstLaws, ProtoError, decode_request, encode_response, decode_response, release_to_pb,
}
use dsm_unplugged.Proto.Pb
use dsm_unplugged.Service.{
  code_bad_proto, code_frame_too_large, max_frame_len, op_try_from, fail, dispatch_op, dispatch,
  handle,
}
use dsm_unplugged.Service.Requests.{
  Called, none_called, prepare_called, commit_called, finalize_called, cancel_called,
  dispatch_op-Called,
}

-- The index that a wire release is for.
abbrev pub anchor_index : Pb.OfflineRelease → Option ℕ
anchor_index p = elim p.transition [ none ↦ none | some t ↦ some t.anchor_counter ]

-- No two wire releases share an index unless they are the same.
abbrev pub OneWireReleasePerIndex : List Pb.OfflineRelease → Type 0
OneWireReleasePerIndex [] = Unit {0}
OneWireReleasePerIndex (r ∷ rs) =
    All (λ q. anchor_index q ≡ anchor_index r → q ≡ r) rs × OneWireReleasePerIndex rs

-- What the host reads in a response is added to what it has heard.
abbrev pub hear :
    Result Pb.ApplianceResponse ProtoError → List Pb.OfflineRelease → List Pb.OfflineRelease
hear (err e) log = log
hear (ok resp) log = elim resp.release [ none ↦ log | some r ↦ r ∷ log ]

module _ ⦃b : Blake3⦄ ⦃t : Tropic⦄ ⦃s : WitnessSig⦄ where
  -- A response, the device being `app` before and `app'` after it: without a release, after at most
  -- one operation; or with the release that `emit` exports, on an unchanged device.
  pub data Answered (app app' : Appliance t.Chip) (resp : Pb.ApplianceResponse) : Type 0 where
    plain : resp.release ≡ none → Called app app' → Answered app app' resp
    exported :
        (rel : OfflineRelease)
        → emit app ≡ ok rel
        → resp.release ≡ some (release_to_pb rel)
        → app' ≡ app
        → Answered app app' resp

  dispatch_op-Answered :
      (op : Pb.Op) (app : Appliance t.Chip) (req : Pb.ApplianceRequest)
      → Answered app (dispatch_op op app req).1 (dispatch_op op app req).0
  unfolding dispatch_op
  dispatch_op-Answered Pb.Op.prepare app req =
      plain (ground arith) (dispatch_op-Called Pb.Op.prepare app req)
  dispatch_op-Answered Pb.Op.commit app req =
      plain (ground arith) (dispatch_op-Called Pb.Op.commit app req)
  dispatch_op-Answered Pb.Op.emit app req = elim (Result-cases (emit app)) [
    | inl (rel, e) ↦ exported rel e (ground arith) (ground arith)
    | inr (x, e) ↦ plain (ground arith) (dispatch_op-Called Pb.Op.emit app req)
  ]
  dispatch_op-Answered Pb.Op.finalize app req =
      plain (ground arith) (dispatch_op-Called Pb.Op.finalize app req)
  dispatch_op-Answered Pb.Op.status app req = plain refl (dispatch_op-Called Pb.Op.status app req)
  dispatch_op-Answered Pb.Op.cancel app req =
      plain (ground arith) (dispatch_op-Called Pb.Op.cancel app req)
  dispatch_op-Answered Pb.Op.unspecified app req =
      plain refl (dispatch_op-Called Pb.Op.unspecified app req)

  dispatch-Answered :
      (app : Appliance t.Chip) (req : Pb.ApplianceRequest)
      → Answered app (dispatch app req).1 (dispatch app req).0
  unfolding dispatch
  dispatch-Answered app req = elim (Option-cases (op_try_from req.op)) [
    | inl e ↦ plain (ground arith) (none_called (ground arith))
    | inr (op, e) ↦
        subst (λ r. Answered app r.1 r.0) (sym (known op e)) (dispatch_op-Answered op app req)
  ]
    where
      known :
          (op : Pb.Op) → op_try_from req.op ≡ some op → dispatch app req ≡ dispatch_op op app req
      known op e = ground arith

  -- What a frame does, and the response that the host reads.
  handle-Answered :
      ⦃c : Prost⦄ (codec : ProstLaws c) (app : Appliance t.Chip) (frame : List ℕ)
      → (resp : Pb.ApplianceResponse) × (decode_response (handle app frame).0 ≡ ok resp)
        × Answered app (handle app frame).1 resp
  unfolding handle decode_request encode_response decode_response
  handle-Answered codec app frame = elim (Bool-cases (ltb max_frame_len (length frame))) [
    | inl e ↦ (
      fail 0 code_frame_too_large,
      ground (arith, codec.response_round_trip (fail 0 code_frame_too_large)),
      plain refl (none_called (ground arith)),
    )
    | inr e ↦ elim (Result-cases (decode_request frame)) [
      | inl (req, d) ↦
          let same : handle app frame
              ≡ (encode_response (dispatch app req).0, (dispatch app req).1) =
            ground arith in
          (
            (dispatch app req).0,
            rw same (rw (codec.response_round_trip (dispatch app req).0) refl),
            subst (λ r. Answered app r (dispatch app req).0) (sym (ap (λ r. r.1) same))
                (dispatch-Answered app req),
          )
      | inr (x, d) ↦ (
        fail 0 code_bad_proto,
        ground (arith, codec.response_round_trip (fail 0 code_bad_proto)),
        plain refl (none_called (ground arith)),
      )
    ]
  ]

module _ ⦃b : Blake3⦄ ⦃t : Tropic⦄ ⦃s : WitnessSig⦄ ⦃c : Prost⦄ (laws : CounterLaws t) where
  -- The device, and what the host has heard from it, the latest first.
  pub record Link : Type 0 where
    pub app : Appliance t.Chip
    pub heard : List Pb.OfflineRelease

  -- The host sends a frame and reads the response.
  abbrev pub ask : Link → List ℕ → Link
  ask l frame = record {
    app = (handle l.app frame).1;
    heard = hear (decode_response (handle l.app frame).0) l.heard;
  }

  -- What the device does on its own exports nothing, whatever was exported before: boot recovery,
  -- power loss, drift of the counter.
  abbrev pub Silent : Appliance t.Chip → Appliance t.Chip → Type 0
  Silent app app' =
      (log : List OfflineRelease)
      → Step laws (record { app = app; released = log }) (record { app = app'; released = log })

  -- A frame of the host's choice, answered; or a silent step in between.
  pub data Exchange : Link → Link → Type 0 where
    asks : (l : Link) (frame : List ℕ) → Exchange l (ask l frame)
    silent :
        (l : Link) (app' : Appliance t.Chip)
        → Silent l.app app'
        → Exchange l (record l { app = app' })

  pub data Talk (l : Link) : Link → Type 0 where
    quiet : Talk l l
    then_ : {m n : Link} → Talk l m → Exchange m n → Talk l n

  Called-Reach :
      {v : World laws} {app app' : Appliance t.Chip} {log : List OfflineRelease}
      → Called app app'
      → Reach laws v (record { app = app; released = log })
      → Reach laws v (record { app = app'; released = log })
  Called-Reach {v} {app} {app'} {log} (none_called e) r =
      subst (λ a. Reach laws v (record { app = a; released = log })) (sym e) r
  Called-Reach {v} {app} {app'} {log} (prepare_called tr rc e) r =
      subst (λ a. Reach laws v (record { app = a; released = log })) (sym e)
        (next r (prepares _ tr rc))
  Called-Reach {v} {app} {app'} {log} (commit_called e) r =
      subst (λ a. Reach laws v (record { app = a; released = log })) (sym e) (next r (commits _))
  Called-Reach {v} {app} {app'} {log} (finalize_called e) r =
      subst (λ a. Reach laws v (record { app = a; released = log })) (sym e) (next r (finalizes _))
  Called-Reach {v} {app} {app'} {log} (cancel_called e) r =
      subst (λ a. Reach laws v (record { app = a; released = log })) (sym e) (next r (cancels _))

  -- What was heard is the wire form of what a history of operations has released.
  pub record Refines (v : World laws) (l : Link) : Type 0 where
    pub released : List OfflineRelease
    pub reach : Reach laws v (record { app = l.app; released = released })
    pub heard : l.heard ≡ map release_to_pb released

  Answered-Refines :
      {v : World laws} (l : Link) (app' : Appliance t.Chip) (resp : Pb.ApplianceResponse)
      → Answered l.app app' resp
      → Refines v l
      → Refines v (record { app = app'; heard = hear (ok resp) l.heard })
  Answered-Refines l app' resp (plain n d) z = record {
    released = z.released;
    reach = Called-Reach d z.reach;
    heard = rw n z.heard;
  }
  Answered-Refines {v} l app' resp (exported rel e n k) z = record {
    released = rel ∷ z.released;
    reach =
        subst (λ a. Reach laws v (record { app = a; released = rel ∷ z.released })) (sym k)
          (next z.reach (emits (record { app = l.app; released = z.released }) rel e));
    heard = rw n (ap (◌∷◌ (release_to_pb rel)) z.heard);
  }

  Exchange-Refines :
      {v : World laws} {l m : Link} → ProstLaws c → Exchange l m → Refines v l → Refines v m
  Exchange-Refines {v} codec (asks l frame) z =
      let (resp, e, a) = handle-Answered codec l.app frame in
      subst (λ r. Refines v (record { app = (handle l.app frame).1; heard = hear r l.heard }))
        (sym e) (Answered-Refines l (handle l.app frame).1 resp a z)
  Exchange-Refines codec (silent l app' st) z = record {
    released = z.released;
    reach = next z.reach (st z.released);
    heard = z.heard;
  }

  -- Every exchange of frames with a device refines a history of operations: the device is where that
  -- history leaves it, and the host has heard the wire forms of exactly the releases of that history.
  -- The codec is assumed to read back what it wrote.
  pub Talk-Refines :
      (app : Appliance t.Chip) {l : Link}
      → ProstLaws c
      → Talk (record { app = app; heard = [] }) l
      → Refines (record { app = app; released = [] }) l
  Talk-Refines app codec quiet = record { released = []; reach = here; heard = refl }
  Talk-Refines app codec (then_ r x) = Exchange-Refines codec x (Talk-Refines app codec r)
