-- ===== src/Appliance/Cuts.antt =====
-- anchor-core/src/appliance.rs: the invariant where a power loss cuts off the writes of an operation.
use dsm_unplugged.Common.{ℕ, ◌≡◌, refl, sym, inl, inr, Array, ok}
use dsm_unplugged.Hash.{Blake3}
use dsm_unplugged.Tropic.{Tropic, WitnessSig, CounterLaws}
use dsm_unplugged.RootAdvance.{Transition}
use dsm_unplugged.Appliance.{Status, Record, Record-cases, Appliance, PreparedRecord}
use dsm_unplugged.Appliance.Operations.{prepare, candidate}
use dsm_unplugged.Appliance.Recovery.{recover}
use dsm_unplugged.Appliance.Prepare.{prepare_ok}
use dsm_unplugged.Appliance.Commit.{Passes, phase1, phase3}
use dsm_unplugged.Appliance.Settle.{kept, resumed, recover-Settles}
use dsm_unplugged.Appliance.Invariant.{
  CoreInv, InvOf, CoreInv-at, mark-IsCommitted, candidate-IsCommitted,
}

module _ ⦃b : Blake3⦄ ⦃t : Tropic⦄ ⦃s : WitnessSig⦄ where
  pub prepare_cut-CoreInv :
      (tr : Transition) (rc : Array 32) (app : Appliance t.Chip)
      → (prepare tr rc app).0 ≡ ok tt
      → CoreInv app
      → InvOf app.h0 app.anchor_id app.slot (record app.active { status = Status.prepared })
  prepare_cut-CoreInv tr rc app h i = elim (Record-cases app.active.record_) [
    | inl e ↦ (i.0, rw e (inr refl))
    | inr (inl (p, e)) ↦ (i.0, rw e (CoreInv-at app (Record.prepared p) e i))
    | inr (inr (c, e)) ↦
        let (w, q) = prepare_ok tr rc app h in
        let st = (CoreInv-at app (Record.committed c) e i).0 in cc (q.was_ready)
  ]

  pub recover_cut-CoreInv :
      (laws : CounterLaws t) (app : Appliance t.Chip)
      → CoreInv app
      → InvOf app.h0 app.anchor_id app.slot (record (recover app).1.active { u = app.active.u })
  recover_cut-CoreInv laws app i = elim (recover-Settles laws app) [
    | kept a le ↦ rw a i
    | resumed c r o a n le ↦
        let (st, k, at, _) = CoreInv-at app (Record.committed c) r i in
        rw a (i.0, (st, mark-IsCommitted k, at, λ k. cc))
  ]

module _ ⦃b : Blake3⦄ ⦃t : Tropic⦄ ⦃s : WitnessSig⦄ (app : Appliance t.Chip) (p : PreparedRecord)
    (h : ℕ) (r : app.active.record_ ≡ Record.prepared p) (q : Passes app p h)
    (i : CoreInv app) where
  pub phase1_cut-CoreInv : InvOf app.h0 app.anchor_id app.slot (phase1 app p h)
  unfolding candidate
  phase1_cut-CoreInv =
      let v = CoreInv-at app (Record.prepared p) r i in
      (i.0, (refl, candidate-IsCommitted app p h v, inl (sym v.index), λ _. sym v.index))

  pub phase3_cut-CoreInv :
      InvOf app.h0 app.anchor_id app.slot (record (phase3 app p h) { u = app.active.u })
  unfolding candidate
  phase3_cut-CoreInv =
      let v = CoreInv-at app (Record.prepared p) r i in
      (i.0, (refl, mark-IsCommitted (candidate-IsCommitted app p h v), inl (sym v.index), λ k. cc))
