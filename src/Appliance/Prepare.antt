-- ===== src/Appliance/Prepare.antt =====
-- anchor-core/src/appliance.rs: what `prepare` does on every path.
use dsm_unplugged.Common.{
  ◌+◌, ◌-◌, ◌%◌, ◌^◌, ◌≡◌, ◌∙◌, inl, inr, Array, some, Result, ok, err, checked_sub, arith,
  Result-cases,
}
use dsm_unplugged.Util.CtEq.{eq-ct_eq_32}
use dsm_unplugged.Hash.{Blake3}
use dsm_unplugged.Tropic.{TropicError, Tropic, WitnessSig}
use dsm_unplugged.RootAdvance.{Transition, transition_digest, witness_input}
use dsm_unplugged.Appliance.{Status, ApplianceError, Record, Appliance}
use dsm_unplugged.Appliance.Operations.{prepare, prepared_record}

-- The values that no operation changes.
pub record SameDevice {Chip : Type 0} (app app' : Appliance Chip) : Type 0 where
  pub same_h0 : app'.h0 ≡ app.h0
  pub same_anchor_id : app'.anchor_id ≡ app.anchor_id
  pub same_slot : app'.slot ≡ app.slot
  pub same_boundary : app'.firmware_boundary_invalid ≡ app.firmware_boundary_invalid
  pub same_map : app'.rmemory_map_invalid ≡ app.rmemory_map_invalid

pub SameDevice-trans :
    {Chip : Type 0} {x y z : Appliance Chip} → SameDevice x y → SameDevice y z → SameDevice x z
SameDevice-trans p q = record {
  same_h0 = q.same_h0 ∙ p.same_h0;
  same_anchor_id = q.same_anchor_id ∙ p.same_anchor_id;
  same_slot = q.same_slot ∙ p.same_slot;
  same_boundary = q.same_boundary ∙ p.same_boundary;
  same_map = q.same_map ∙ p.same_map;
}

module _ ⦃b : Blake3⦄ ⦃t : Tropic⦄ ⦃s : WitnessSig⦄ where
  -- The witness output that `prepare` gets from the chip.
  pub witness_output : Transition → Array 32 → Appliance t.Chip → Result (Array 32) TropicError
  witness_output tr rc app =
      (t.mac_and_destroy app.slot
        (witness_input tr (transition_digest tr) app.anchor_id app.slot rc)
        (t.counter_get app.tropic).1).0

  pub prepare-SameDevice :
      (tr : Transition) (rc : Array 32) (app : Appliance t.Chip)
      → SameDevice app (prepare tr rc app).1
  unfolding prepare
  prepare-SameDevice tr rc app = ground arith

  pub prepare_err :
      (tr : Transition) (rc : Array 32) (app : Appliance t.Chip) {e : ApplianceError}
      → (prepare tr rc app).0 ≡ err e
      → (prepare tr rc app).1.active ≡ app.active
  unfolding prepare
  prepare_err tr rc app h = ground arith

  -- What holds when `prepare` succeeds.
  pub record Prepares (tr : Transition) (rc : Array 32) (app : Appliance t.Chip) (w : Array 32)
      : Type 0 where
    pub was_ready : app.active.status ≡ Status.ready
    pub parent : app.active.root ≡ tr.prev_root
    pub index : tr.anchor_counter ≡ app.active.u
    pub next_index : tr.next_anchor_counter ≡ (tr.anchor_counter + 1) % 2 ^ 64
    pub live : checked_sub app.h0 ((app.h0 - app.active.u)) ≡ some app.active.u
    pub reads : (t.counter_get app.tropic).0 ≡ ok (app.h0 - app.active.u)
    pub witness : witness_output tr rc app ≡ ok w
    pub stored : (prepare tr rc app).1.active ≡ record app.active {
      status = Status.prepared;
      record_ = Record.prepared (prepared_record app.slot app.anchor_id tr rc w);
    }

  -- When `prepare` succeeds, the device was ready at the package's parent and index, the counter was
  -- in step, the chip gave a witness output, and the record made from it is what is stored.
  pub prepare_ok :
      (tr : Transition) (rc : Array 32) (app : Appliance t.Chip)
      → (prepare tr rc app).0 ≡ ok tt
      → (w : Array 32) × Prepares tr rc app w
  unfolding prepare witness_output
  prepare_ok tr rc app h = elim (Result-cases (witness_output tr rc app)) [
    | inl (w, e) ↦ (w, ground (arith, eq-ct_eq_32 app.active.root tr.prev_root))
    | inr (x, e) ↦ absurd (ground arith)
  ]
