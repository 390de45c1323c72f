-- ===== src/Appliance/KeyLost.antt =====
-- anchor-core/src/appliance.rs: a device whose power failed inside phase 1 of `commit`, when the
-- witness key is erased, overwritten and cleared, and the release is not yet durable.
use dsm_unplugged.Common.{ℕ, ◌+◌, ◌≡◌, refl, sym, ◌⊎◌, inl, inr, false, Array, ok, err, arith}
use dsm_unplugged.Util.CtEq.{ct_eq_32-of_eq}
use dsm_unplugged.Hash.{Blake3}
use dsm_unplugged.Tropic.{Tropic, WitnessSig, CounterLaws}
use dsm_unplugged.RootAdvance.{as_transition}
use dsm_unplugged.Appliance.{
  Status, witness_key_lost, Record, Appliance, PreparedRecord, RecoverOutcome, downgrade_online,
  online_cancel_or_resolve, zeroize_vec,
}
use dsm_unplugged.Appliance.Operations.{commit, cancel}
use dsm_unplugged.Appliance.Recovery.{recover}
use dsm_unplugged.Appliance.Commit.{Passes}
use dsm_unplugged.Appliance.Invariant.{Inv}
use dsm_unplugged.Appliance.Trace.{key_lost}
use dsm_unplugged.Appliance.Resume.{RecordInv-prepared}
use dsm_unplugged.Appliance.Works.{Works, IsNext}
use dsm_unplugged.Appliance.Flow.{Transfer, Transfer-works}

-- What boot recovery reports, by the status that the power loss has left.
abbrev pub lost_outcome : Status → RecoverOutcome
lost_outcome Status.committed = downgrade_online
lost_outcome _ = online_cancel_or_resolve

-- The status that such a power loss leaves: `commit` sets it after it has erased the key.
abbrev pub IsBusy : Status → Type 0
IsBusy st = (st ≡ Status.prepared) ⊎ (st ≡ Status.committed)

module _ ⦃b : Blake3⦄ ⦃t : Tropic⦄ ⦃s : WitnessSig⦄ (laws : CounterLaws t) where
  commit-key_lost :
      (app : Appliance t.Chip) (p : PreparedRecord) (st : Status)
      → commit (key_lost laws app p st) ≡ (err witness_key_lost, key_lost laws app p st)
  unfolding commit zeroize_vec
  commit-key_lost app p st = ground arith

  -- The device after boot recovery and `cancel`.
  abbrev dropped : Appliance t.Chip → Appliance t.Chip
  dropped app = record app {
    active = record app.active { status = Status.ready; record_ = Record.empty };
    tropic = (t.counter_get (t.counter_get app.tropic).1).1;
  }

  recovered : Appliance t.Chip → PreparedRecord → Status → Appliance t.Chip
  recovered app p st = record (key_lost laws app p st) {
    tropic = (t.counter_get (t.counter_get app.tropic).1).1;
  }

  recover-key_lost :
      Works laws
      → (app : Appliance t.Chip) (p : PreparedRecord) (st : Status)
      → app.firmware_boundary_invalid ≡ false
      → app.rmemory_map_invalid ≡ false
      → p.txn.prev_root ≡ app.active.root
      → app.active.u + laws.counter app.tropic ≡ app.h0
      → IsBusy st
      → recover (key_lost laws app p st) ≡ (lost_outcome st, recovered app p st)
  unfolding recover zeroize_vec recovered
  recover-key_lost k app p st f g parent in_step busy =
      let same = ct_eq_32-of_eq p.txn.prev_root app.active.root parent in
      let get = k.get_ok (t.counter_get app.tropic).1 in
      let keeps = laws.get_keeps app.tropic in
      elim busy [ inl e ↦ ground arith | inr e ↦ ground arith ]

  -- What becomes of the device after such a power loss that left the status `st`, when the host tries
  -- `commit`, then boot recovery runs, and the host cancels and asks again under the challenge `rc`.
  pub record Resolved (app : Appliance t.Chip) (p : PreparedRecord) (st : Status) (rc : Array 32)
      : Type 0 where
    pub refused : commit (key_lost laws app p st) ≡ (err witness_key_lost, key_lost laws app p st)
    pub reported : (recover (key_lost laws app p st)).0 ≡ lost_outcome st
    pub kept : (recover (key_lost laws app p st)).1.active ≡ (key_lost laws app p st).active
    pub cancels : (cancel (recover (key_lost laws app p st)).1).0 ≡ ok tt
    pub again :
        Transfer laws (as_transition p.txn) rc (cancel (recover (key_lost laws app p st)).1).1

  dropped-IsNext :
      (app : Appliance t.Chip) (p : PreparedRecord) (h : ℕ)
      → Inv app
      → app.active.record_ ≡ Record.prepared p
      → Passes app p h
      → IsNext laws (dropped app) (as_transition p.txn)
  unfolding as_transition
  dropped-IsNext app p h v r q =
      let i = RecordInv-prepared laws app p v r in
      let same : h ≡ laws.counter app.tropic = laws.get_value app.tropic q.reads in
      let first = laws.get_keeps app.tropic in
      let second = laws.get_keeps (t.counter_get app.tropic).1 in
      let index = i.index in
      let passed = q.index in
      let movable = q.movable in
      record {
        is_ready = refl;
        parent = sym q.parent;
        index = i.index;
        next_index = i.next_index;
        in_step = omega arith;
        movable = omega arith;
        range = v.0.0;
      }

  cancel-recovered :
      (app : Appliance t.Chip) (p : PreparedRecord) (st : Status)
      → cancel (recovered app p st) ≡ (ok tt, dropped app)
  unfolding cancel recovered
  cancel-recovered app p st = refl

  -- A power loss after the witness key is erased, overwritten and cleared, and before the release is
  -- durable loses no index. For a device that satisfies its invariant, has no boot flag set, and
  -- holds a prepared record that passes the checks of `commit`, on a chip that works: if the power
  -- fails there, with the status set or not, then `commit` refuses with the key lost and changes
  -- nothing; boot recovery leaves the active state alone and asks for a cancellation, or for the
  -- online path when the status was set; `cancel` succeeds; and the same package then goes through
  -- under any challenge, from `prepare` to `finalize`.
  pub lost_key_resolves :
      Works laws
      → (app : Appliance t.Chip) (p : PreparedRecord) (h : ℕ) (st : Status) (rc : Array 32)
      → Inv app
      → app.firmware_boundary_invalid ≡ false
      → app.rmemory_map_invalid ≡ false
      → app.active.record_ ≡ Record.prepared p
      → Passes app p h
      → IsBusy st
      → Resolved app p st rc
  unfolding recovered
  lost_key_resolves k app p h st rc v f g r q busy =
      let i = (RecordInv-prepared laws app p v r).index in
      let same : h ≡ laws.counter app.tropic = laws.get_value app.tropic q.reads in
      let j = q.index in
      let e = recover-key_lost k app p st f g q.parent (omega arith) busy in
      let c = cancel-recovered app p st in
      let next =
        Transfer-works laws k (as_transition p.txn) rc (dropped app)
          (dropped-IsNext app p h v r q) in
      record {
        refused = commit-key_lost app p st;
        reported = rw e refl;
        kept = rw e refl;
        cancels = rw (e, c) refl;
        again = rw (e, c) next;
      }
