-- ===== src/Appliance/Works.antt =====
-- anchor-core/src/appliance.rs: when each operation succeeds, on a chip that works.
use dsm_unplugged.Common.{ℕ, ◌+◌, ◌^◌, ◌<◌, ◌≡◌, true, false, Array, ok, arith}
use dsm_unplugged.Util.CtEq.{ct_eq_32-of_eq}
use dsm_unplugged.Hash.{Blake3}
use dsm_unplugged.Tropic.{Tropic, WitnessSig, CounterLaws}
use dsm_unplugged.RootAdvance.{Transition, transition_digest, witness_input}
use dsm_unplugged.Appliance.{Status, Record, Appliance, PreparedRecord, CommittedRecord}
use dsm_unplugged.Appliance.Operations.{prepare, commit, emit, finalize, is_empty}
use dsm_unplugged.Appliance.Commit.{
  refused, interrupted, done, phase3, commit-CommitCase, commit-SameDevice,
}

module _ ⦃b : Blake3⦄ ⦃t : Tropic⦄ ⦃s : WitnessSig⦄ (laws : CounterLaws t) where
  -- A chip that answers, and whose counter moves as long as it is not exhausted; keys are not empty.
  pub record Works : Type 0 where
    pub get_ok : (c : t.Chip) → (t.counter_get c).0 ≡ ok (laws.counter c)
    pub mac_ok :
        (q : ℕ) (x : Array 32) (c : t.Chip) → (w : Array 32) × ((t.mac_and_destroy q x c).0 ≡ ok w)
    pub moves : (c : t.Chip) → 0 < laws.counter c → (t.counter_update c).0 ≡ ok tt
    pub keys : (seed : Array 32) → is_empty (s.keygen seed).0 ≡ false

  -- A package for the next step of a ready device whose counter is in step.
  pub record IsNext (app : Appliance t.Chip) (tr : Transition) : Type 0 where
    pub is_ready : app.active.status ≡ Status.ready
    pub parent : app.active.root ≡ tr.prev_root
    pub index : tr.anchor_counter ≡ app.active.u
    pub next_index : tr.next_anchor_counter ≡ tr.anchor_counter + 1
    pub in_step : app.active.u + laws.counter app.tropic ≡ app.h0
    pub movable : 0 < laws.counter app.tropic
    pub range : app.h0 < 2 ^ 32

  pub prepare_works :
      Works
      → (tr : Transition) (rc : Array 32) (app : Appliance t.Chip) → IsNext app tr
      → (prepare tr rc app).0 ≡ ok tt
  unfolding prepare
  prepare_works k tr rc app n =
      let (w, m) =
        k.mac_ok app.slot (witness_input tr (transition_digest tr) app.anchor_id app.slot rc)
          (t.counter_get app.tropic).1 in
      ground (
        arith,
        k.get_ok app.tropic,
        ct_eq_32-of_eq app.active.root tr.prev_root n.parent,
        n.is_ready,
        n.index,
        n.next_index,
        n.in_step,
        n.movable,
        n.range,
        m,
      )

  pub prepare_keeps_counter :
      (tr : Transition) (rc : Array 32) (app : Appliance t.Chip)
      → laws.counter (prepare tr rc app).1.tropic ≡ laws.counter app.tropic
  unfolding prepare
  prepare_keeps_counter tr rc app = ground (
    arith,
    laws.get_keeps app.tropic,
    laws.mac_keeps app.slot (witness_input tr (transition_digest tr) app.anchor_id app.slot rc)
        (t.counter_get app.tropic).1,
  )

  pub commit_works :
      Works
      → (app : Appliance t.Chip) (p : PreparedRecord) → app.active.record_ ≡ Record.prepared p
      → is_empty p.sk_hw ≡ false
      → p.txn.prev_root ≡ app.active.root
      → p.txn.anchor_counter + laws.counter app.tropic ≡ app.h0
      → 0 < laws.counter app.tropic
      → (commit app).0 ≡ ok tt
  unfolding commit
  commit_works k app p r e q i m = ground (
    arith,
    k.get_ok app.tropic,
    ct_eq_32-of_eq p.txn.prev_root app.active.root q,
    laws.get_keeps app.tropic,
    k.moves (t.counter_get app.tropic).1,
  )

  -- The device after a `commit` that succeeded.
  pub record Committed (app : Appliance t.Chip) (p : PreparedRecord) : Type 0 where
    pub active : (commit app).1.active ≡ phase3 app p (laws.counter app.tropic)
    pub in_step : p.txn.next_anchor_counter + laws.counter (commit app).1.tropic ≡ (commit app).1.h0

  pub commit-Committed :
      (app : Appliance t.Chip) (p : PreparedRecord)
      → app.active.record_ ≡ Record.prepared p
      → p.txn.next_anchor_counter ≡ p.txn.anchor_counter + 1
      → (commit app).0 ≡ ok tt
      → Committed app p
  commit-Committed app p r n e = elim (commit-CommitCase app p r) [
    | refused x q a c ↦ cc
    | interrupted h x q m f a c ↦ cc
    | done h q m f a c ↦ record {
      active =
          let read : h ≡ laws.counter app.tropic = laws.get_value app.tropic q.reads in
          rw (← read) a;
      in_step =
          let fallen = laws.update_ok (t.counter_get app.tropic).1 m in
          let kept = laws.get_keeps app.tropic in
          let read = laws.get_value app.tropic q.reads in
          let same = (commit-SameDevice app).same_h0 in
          let indexed = q.index in rw (c, same) (omega arith);
    }
  ]

  pub emit_succeeds :
      (app : Appliance t.Chip) (c : CommittedRecord)
      → app.active.record_ ≡ Record.committed c
      → c.committed ≡ true
      → emit app ≡ ok c.release
  unfolding emit
  emit_succeeds app c r f = ground arith

  pub finalize_succeeds :
      Works
      → (app : Appliance t.Chip) (c : CommittedRecord) → app.active.record_ ≡ Record.committed c
      → c.committed ≡ true
      → app.active.u + laws.counter app.tropic ≡ app.h0
      → ((finalize app).0 ≡ ok c.next_root)
        × ((finalize app).1.active ≡ record {
          root = c.next_root;
          u = app.active.u;
          status = Status.ready;
          record_ = Record.empty;
        })
  unfolding finalize
  finalize_succeeds k app c r f e = ground (arith, k.get_ok app.tropic)
