-- ===== src/Appliance/NoFork.antt =====
-- anchor-core/src/appliance.rs: the device never exports two releases for one index.
use dsm_unplugged.Common.{
  ℕ, ◌+◌, ◌≤◌, ◌≡◌, refl, ap, subst, inl, inr, List, Array, ok, arith, Result-cases,
}
use dsm_unplugged.Hash.{Blake3}
use dsm_unplugged.Tropic.{Tropic, WitnessSig, CounterLaws}
use dsm_unplugged.RootAdvance.{Transition, OfflineRelease, witness_input, transition_digest}
use dsm_unplugged.Appliance.{Record, Active, Appliance, PreparedRecord}
use dsm_unplugged.Appliance.Operations.{prepare, commit, finalize, cancel, candidate}
use dsm_unplugged.Appliance.Recovery.{recover}
use dsm_unplugged.Appliance.Prepare.{SameDevice, prepare-SameDevice, prepare_err, prepare_ok}
use dsm_unplugged.Appliance.Commit.{
  commit-SameDevice, refused, interrupted, done, Passes, phase1, phase3, moved, commit-CommitCase,
}
use dsm_unplugged.Appliance.Settle.{
  kept, resumed, recover-Settles, recover-SameDevice, finalize-SameDevice, finalize_err,
  finalize_ok, finalize_chip, cancel-SameDevice, cancel_chip, cancel_cases,
}
use dsm_unplugged.Appliance.Fork.{
  Fits, Fits-lower, Fits-empty, Fits-prepared, Fits-candidate, Fits-marked,
}

module _ ⦃b : Blake3⦄ ⦃t : Tropic⦄ ⦃s : WitnessSig⦄ (laws : CounterLaws t) where
  -- The exported releases fit the device.
  abbrev pub AppFits : Appliance t.Chip → List OfflineRelease → Type 0
  AppFits app log = Fits app.h0 (laws.counter app.tropic) app.active.record_ log

  Fits-at :
      (app app' : Appliance t.Chip) (r : Record) (log : List OfflineRelease)
      → SameDevice app app'
      → app'.active.record_ ≡ r
      → Fits app.h0 (laws.counter app'.tropic) r log
      → AppFits app' log
  Fits-at app app' r log d e v = rw (d.same_h0, e) v

  Fits-frame :
      (app app' : Appliance t.Chip) (r : Record) (log : List OfflineRelease)
      → SameDevice app app'
      → app'.active.record_ ≡ r
      → laws.counter app'.tropic ≤ laws.counter app.tropic
      → Fits app.h0 (laws.counter app.tropic) r log
      → AppFits app' log
  Fits-frame app app' r log d e le v =
      Fits-at app app' r log d e (Fits-lower app.h0 _ (laws.counter app'.tropic) r log le v)

  pub prepare-counter :
      (tr : Transition) (rc : Array 32) (app : Appliance t.Chip)
      → laws.counter (prepare tr rc app).1.tropic ≤ laws.counter app.tropic
  unfolding prepare
  prepare-counter tr rc app = ground (
    arith,
    laws.get_keeps app.tropic,
    laws.mac_keeps app.slot (witness_input tr (transition_digest tr) app.anchor_id app.slot rc)
        (t.counter_get app.tropic).1,
  )

  pub prepare-Fits :
      (tr : Transition) (rc : Array 32) (app : Appliance t.Chip) (log : List OfflineRelease)
      → AppFits app log
      → AppFits (prepare tr rc app).1 log
  prepare-Fits tr rc app log v =
      let frame =
        λ (r : Record). Fits-frame app (prepare tr rc app).1 r log (prepare-SameDevice tr rc app) in
      elim (Result-cases (prepare tr rc app).0) [
        | inl (x, e) ↦
            let (w, q) = prepare_ok tr rc app e in
            frame _ (ap (λ (a : Active). a.record_) q.stored) (prepare-counter tr rc app)
              (Fits-prepared _ _ _ _ log v)
        | inr (x, e) ↦
            frame _ (ap (λ (a : Active). a.record_) (prepare_err tr rc app e))
              (prepare-counter tr rc app) v
      ]

  pub finalize-Fits :
      (app : Appliance t.Chip) (log : List OfflineRelease)
      → AppFits app log
      → AppFits (finalize app).1 log
  finalize-Fits app log v =
      let frame = λ (r : Record). Fits-frame app (finalize app).1 r log (finalize-SameDevice app) in
      let le : laws.counter (finalize app).1.tropic ≤ laws.counter app.tropic =
        ground (arith, finalize_chip app, laws.get_keeps app.tropic) in
      elim (Result-cases (finalize app).0) [
        | inl (x, e) ↦
            let f = finalize_ok app e in
            frame _ (ap (λ (a : Active). a.record_) f.6) le (Fits-empty _ _ _ log v)
        | inr (x, e) ↦ frame _ (ap (λ (a : Active). a.record_) (finalize_err app e)) le v
      ]

  pub cancel-Fits :
      (app : Appliance t.Chip) (log : List OfflineRelease)
      → AppFits app log
      → AppFits (cancel app).1 log
  cancel-Fits app log v = elim (cancel_cases app) [
    | inl e ↦ rw e v
    | inr (p, r, o, e) ↦
        Fits-frame app (cancel app).1 _ log (cancel-SameDevice app)
          (ap (λ (a : Active). a.record_) e) (omega (arith, ap laws.counter (cancel_chip app)))
          (Fits-empty _ _ _ log v)
  ]

  pub recover-Fits :
      (app : Appliance t.Chip) (log : List OfflineRelease)
      → AppFits app log
      → AppFits (recover app).1 log
  recover-Fits app log v = elim (recover-Settles laws app) [
    | kept a le ↦
        Fits-frame app (recover app).1 _ log (recover-SameDevice app)
          (ap (λ (a : Active). a.record_) a) le v
    | resumed c r o a n le ↦
        let low = Fits-lower app.h0 _ (laws.counter (recover app).1.tropic) _ log le v in
        let old =
          subst (λ (q : Record). Fits app.h0 (laws.counter (recover app).1.tropic) q log) r low in
        Fits-at app (recover app).1 _ log (recover-SameDevice app)
          (ap (λ (a : Active). a.record_) a) (Fits-marked app.h0 _ c log (omega arith) old)
  ]

  pub moved-counter :
      (app : Appliance t.Chip) → laws.counter (moved app).1 ≤ laws.counter app.tropic
  moved-counter app = elim (Result-cases (moved app).0) [
    | inl (x, m) ↦ omega (arith, laws.update_ok _ m, laws.get_keeps app.tropic)
    | inr (x, m) ↦ omega (arith, laws.update_err _ m, laws.get_keeps app.tropic)
  ]

  -- The record of phase 1, with the counter as it was.
  pub phase1-Fits :
      (app : Appliance t.Chip) (p : PreparedRecord) (h : ℕ) (log : List OfflineRelease)
      → Passes app p h
      → AppFits app log
      → Fits app.h0 (laws.counter app.tropic) (phase1 app p h).record_ log
  unfolding candidate
  phase1-Fits app p h log q v =
      Fits-candidate app.h0 _ _ _ log (omega (arith, q.index, laws.get_value app.tropic q.reads))
        refl v

  -- The record of phase 3, with the counter moved.
  pub phase3-Fits :
      (app : Appliance t.Chip) (p : PreparedRecord) (h : ℕ) (log : List OfflineRelease)
      → Passes app p h
      → (moved app).0 ≡ ok tt
      → p.txn.next_anchor_counter ≡ p.txn.anchor_counter + 1
      → AppFits app log
      → Fits app.h0 (laws.counter (moved app).1) (phase3 app p h).record_ log
  unfolding candidate
  phase3-Fits app p h log q m st v =
      Fits-marked app.h0 _ _ log
        (omega (
          arith,
          q.index,
          laws.get_value app.tropic q.reads,
          laws.get_keeps app.tropic,
          laws.update_ok _ m,
        ))
        (Fits-lower app.h0 _ _ _ log (moved-counter app) (phase1-Fits app p h log q v))

  pub commit_prepared-Fits :
      (app : Appliance t.Chip) (p : PreparedRecord) (log : List OfflineRelease)
      → app.active.record_ ≡ Record.prepared p
      → p.txn.next_anchor_counter ≡ p.txn.anchor_counter + 1
      → AppFits app log
      → AppFits (commit app).1 log
  commit_prepared-Fits app p log r st v =
      let frame = λ (r : Record). Fits-at app (commit app).1 r log (commit-SameDevice app) in
      let record_of = λ (a : Active). a.record_ in
      elim (commit-CommitCase app p r) [
        | refused e m a c ↦
            Fits-frame app (commit app).1 _ log (commit-SameDevice app) (ap record_of a)
              (ground (arith, c, laws.get_keeps app.tropic)) v
        | interrupted h e q m n a c ↦
            frame _ (ap record_of a)
              (rw c (Fits-lower app.h0 _ _ _ log (moved-counter app) (phase1-Fits app p h log q v)))
        | done h q m n a c ↦ frame _ (ap record_of a) (rw c (phase3-Fits app p h log q m st v))
      ]
