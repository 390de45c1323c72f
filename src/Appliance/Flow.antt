-- ===== src/Appliance/Flow.antt =====
-- anchor-core/src/appliance.rs: on a chip that works, an undisturbed transfer goes through.
use dsm_unplugged.Common.{ℕ, ◌+◌, ◌≡◌, refl, sym, ap, ◌∙◌, Array, ok, arith}
use dsm_unplugged.Hash.{Blake3}
use dsm_unplugged.Tropic.{Tropic, WitnessSig, CounterLaws}
use dsm_unplugged.RootAdvance.{Transition, from}
use dsm_unplugged.Appliance.{Status, Record, Active, Appliance, PreparedRecord}
use dsm_unplugged.Appliance.Operations.{
  prepare, prepared_record, commit, emit, finalize, candidate, release_of, mark_committed,
}
use dsm_unplugged.Appliance.Prepare.{prepare_ok, prepare-SameDevice}
use dsm_unplugged.Appliance.Works.{
  Works, IsNext, prepare_works, prepare_keeps_counter, commit_works, commit-Committed,
  emit_succeeds, finalize_succeeds,
}

module _ ⦃b : Blake3⦄ ⦃t : Tropic⦄ ⦃s : WitnessSig⦄ (laws : CounterLaws t) where
  pub settle_works :
      Works laws
      → (app : Appliance t.Chip) (p : PreparedRecord) → app.active.record_ ≡ Record.prepared p
      → p.txn.next_anchor_counter ≡ p.txn.anchor_counter + 1
      → (commit app).0 ≡ ok tt
      → (emit (commit app).1 ≡ ok (release_of app p (laws.counter app.tropic)))
        × ((finalize (commit app).1).0 ≡ ok p.txn.next_root)
        × ((finalize (commit app).1).1.active ≡ record {
          root = p.txn.next_root;
          u = p.txn.next_anchor_counter;
          status = Status.ready;
          record_ = Record.empty;
        })
  unfolding candidate
  settle_works k app p r n e =
      let v = commit-Committed laws app p r n e in
      let c = mark_committed (candidate p (release_of app p (laws.counter app.tropic))) in
      let rec : (commit app).1.active.record_ ≡ Record.committed c =
        ap (λ (a : Active). a.record_) v.active in
      let u : (commit app).1.active.u ≡ p.txn.next_anchor_counter =
        ap (λ (a : Active). a.u) v.active in
      let f =
        finalize_succeeds laws k (commit app).1 c rec refl
          (ap (λ (n : ℕ). n + laws.counter (commit app).1.tropic) u ∙ v.in_step) in
      (
        emit_succeeds laws (commit app).1 c rec refl,
        f.0,
        f.1 ∙ λ i. record {
          root = p.txn.next_root;
          u = u i;
          status = Status.ready;
          record_ = Record.empty;
        },
      )

  -- What the four calls of an undisturbed transfer leave, `w` being the witness output of the chip.
  pub record Transfer (tr : Transition) (rc : Array 32) (app : Appliance t.Chip) : Type 0 where
    pub w : Array 32
    pub prepares : (prepare tr rc app).0 ≡ ok tt
    pub stored :
        (prepare tr rc app).1.active.record_
        ≡ Record.prepared (prepared_record app.slot app.anchor_id tr rc w)
    pub commits : (commit (prepare tr rc app).1).0 ≡ ok tt
    pub emits :
        emit (commit (prepare tr rc app).1).1
        ≡ ok (
            release_of
              (prepare tr rc app).1
              (prepared_record app.slot app.anchor_id tr rc w)
              (laws.counter app.tropic))
    pub finalizes : (finalize (commit (prepare tr rc app).1).1).0 ≡ ok tr.next_root
    pub active : (finalize (commit (prepare tr rc app).1).1).1.active ≡ record {
      root = tr.next_root;
      u = tr.next_anchor_counter;
      status = Status.ready;
      record_ = Record.empty;
    }

  pub Transfer-works :
      Works laws
      → (tr : Transition) (rc : Array 32) (app : Appliance t.Chip) → IsNext laws app tr
      → Transfer tr rc app
  unfolding prepared_record from
  Transfer-works k tr rc app n =
      let first = prepare_works laws k tr rc app n in
      let (w, v) = prepare_ok tr rc app first in
      let app1 : Appliance t.Chip = (prepare tr rc app).1 in
      let p = prepared_record app.slot app.anchor_id tr rc w in
      let stored : app1.active.record_ ≡ Record.prepared p =
        ap (λ (a : Active). a.record_) v.stored in
      let root : app1.active.root ≡ app.active.root = ap (λ (a : Active). a.root) v.stored in
      let counter = prepare_keeps_counter laws tr rc app in
      let h0 = (prepare-SameDevice tr rc app).same_h0 in
      let i = n.index in
      let j = n.in_step in
      let m = n.movable in
      let second =
        commit_works laws k app1 p stored (k.keys _) (sym n.parent ∙ sym root) (omega arith)
          (omega arith) in
      let (e, f, a) = settle_works k app1 p stored n.next_index second in
      record {
        w = w;
        prepares = first;
        stored = stored;
        commits = second;
        emits = rw (← counter) e;
        finalizes = f;
        active = a;
      }
