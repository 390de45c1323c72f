-- ===== src/Appliance/OneChain.antt =====
-- anchor-core/src/appliance.rs: over every history the device walks one chain of roots.
use dsm_unplugged.Common.{
  ℕ, ◌≤◌, ◌<◌, ◌^◌, ◌≡◌, refl, subst, inl, inr, List, ◌∷◌, Array, ok, Bool-cases, Result-cases,
  arith,
}
use dsm_unplugged.Hash.{Blake3}
use dsm_unplugged.Tropic.{Tropic, WitnessSig, CounterLaws}
use dsm_unplugged.RootAdvance.{Transition, OfflineRelease}
use dsm_unplugged.Appliance.{
  Record, Record-cases, Status, Active, Appliance, PreparedRecord, CommittedRecord, new,
}
use dsm_unplugged.Appliance.Operations.{
  prepare, commit, emit, finalize, cancel, candidate, wiped, erased,
}
use dsm_unplugged.Appliance.Recovery.{recover}
use dsm_unplugged.Appliance.Prepare.{prepare_err, prepare_ok}
use dsm_unplugged.Appliance.Commit.{
  refused, interrupted, done, phase1, phase3, commit-CommitCase, commit_empty, commit_committed,
}
use dsm_unplugged.Appliance.Settle.{
  marked, kept, resumed, recover-Settles, finalize_err, finalize_ok, cancel_cases,
}
use dsm_unplugged.Appliance.Invariant.{CoreInv, CoreInv-at}
use dsm_unplugged.Appliance.Preserve.{emit_ok}
use dsm_unplugged.Appliance.Fork.{Fits}
use dsm_unplugged.Appliance.NoFork.{AppFits}
use dsm_unplugged.Appliance.Ledger.{
  Ledger, reached_index, extend, IsOn, IsOn-later, IsOn-installed, IsOn-exported,
}
use dsm_unplugged.Appliance.Trace.{
  World, Step, prepares, commits, finalizes, cancels, recovers, emits, cut_in_prepare,
  cut_in_zeroize, cut_in_cancel, cut_in_phase1, cut_before_update, cut_after_update, cut_in_phase3,
  cut_in_recover, drifts, boots, Reach, here, next, enrolled,
}
use dsm_unplugged.Appliance.Safety.{IsSafe, Reach-IsSafe, enrolled-IsSafe}

-- The active state and the exported releases on a ledger.
abbrev pub ActiveIsOn : Ledger → Array 32 → Active → List OfflineRelease → Type 0
ActiveIsOn ledger genesis a log = IsOn ledger genesis a.root a.u a.record_ log

-- There is a ledger that they are on.
abbrev pub OnSome : Array 32 → Active → List OfflineRelease → Type 0
OnSome genesis a log = (ledger : Ledger) × ActiveIsOn ledger genesis a log

module _ ⦃b : Blake3⦄ ⦃t : Tropic⦄ ⦃s : WitnessSig⦄ (laws : CounterLaws t) (genesis : Array 32)
    (app : Appliance t.Chip) (log : List OfflineRelease) (i : CoreInv app) where
  -- The ledger at a known record.
  IsOn-record :
      (r : Record)
      → app.active.record_ ≡ r
      → (o : OnSome genesis app.active log) → IsOn o.0 genesis app.active.root app.active.u r log
  IsOn-record r e o =
      subst (λ (q : Record). IsOn o.0 genesis app.active.root app.active.u q log) e o.1

  prepare-OnSome :
      (tr : Transition) (rc : Array 32)
      → OnSome genesis app.active log
      → OnSome genesis (prepare tr rc app).1.active log
  prepare-OnSome tr rc o = elim (Result-cases (prepare tr rc app).0) [
    | inr (x, e) ↦ rw (prepare_err tr rc app e) o
    | inl (x, e) ↦
        let (w, q) = prepare_ok tr rc app e in
        rw q.stored (elim (Record-cases app.active.record_) [
          | inl r ↦ (o.0, IsOn-later _ _ (IsOn-record Record.empty r o) (omega arith) refl)
          | inr (inl (p, r)) ↦
              (o.0, IsOn-later _ _ (IsOn-record (Record.prepared p) r o) (omega arith) refl)
          | inr (inr (c, r)) ↦
              let st = (CoreInv-at app (Record.committed c) r i).0 in cc (q.was_ready)
        ])
  ]

  -- A candidate keeps the index, and a marked record is one step ahead of the installed root.
  phase1-OnSome :
      (p : PreparedRecord) (h : ℕ)
      → app.active.record_ ≡ Record.prepared p
      → OnSome genesis app.active log
      → OnSome genesis (phase1 app p h) log
  unfolding candidate
  phase1-OnSome p h r o =
      let v = CoreInv-at app (Record.prepared p) r i in
      (o.0, IsOn-later _ _ (IsOn-record (Record.prepared p) r o) (omega arith) v.index)

  -- A record whose key is erased is where it was.
  erased-OnSome :
      (p : PreparedRecord) (st : Status)
      → app.active.record_ ≡ Record.prepared p
      → OnSome genesis app.active log
      → OnSome genesis (record app.active { status = st; record_ = Record.prepared (erased p) }) log
  erased-OnSome p st r o =
      (o.0, IsOn-later _ _ (IsOn-record (Record.prepared p) r o) (omega arith) refl)

  wiped-OnSome :
      (p : PreparedRecord) (n : ℕ)
      → app.active.record_ ≡ Record.prepared p
      → OnSome genesis app.active log
      → OnSome genesis (record app.active { record_ = Record.prepared (wiped n p) }) log
  wiped-OnSome p n r o =
      (o.0, IsOn-later _ _ (IsOn-record (Record.prepared p) r o) (omega arith) refl)

  phase3-OnSome :
      (p : PreparedRecord) (h : ℕ)
      → app.active.record_ ≡ Record.prepared p
      → OnSome genesis app.active log
      → OnSome genesis (phase3 app p h) log
  unfolding candidate
  phase3-OnSome p h r o =
      let v = CoreInv-at app (Record.prepared p) r i in
      let at = v.index in
      let after = v.next_index in
      (o.0, IsOn-later _ _ (IsOn-record (Record.prepared p) r o) (omega arith) v.index)

  phase3_cut-OnSome :
      (p : PreparedRecord) (h : ℕ)
      → app.active.record_ ≡ Record.prepared p
      → OnSome genesis app.active log
      → OnSome genesis (record (phase3 app p h) { u = app.active.u }) log
  unfolding candidate
  phase3_cut-OnSome p h r o =
      let v = CoreInv-at app (Record.prepared p) r i in
      let at = v.index in
      let after = v.next_index in
      (o.0, IsOn-later _ _ (IsOn-record (Record.prepared p) r o) (omega arith) v.index)

  commit-OnSome : OnSome genesis app.active log → OnSome genesis (commit app).1.active log
  commit-OnSome o = elim (Record-cases app.active.record_) [
    | inl r ↦ rw (commit_empty app r) o
    | inr (inr (c, r)) ↦ rw (commit_committed app c r) o
    | inr (inl (p, r)) ↦ elim (commit-CommitCase app p r) [
      | refused e m a c ↦ rw a o
      | interrupted h e q m n a c ↦ rw a (phase1-OnSome p h r o)
      | done h q m n a c ↦ rw a (phase3-OnSome p h r o)
    ]
  ]

  cancel-OnSome : OnSome genesis app.active log → OnSome genesis (cancel app).1.active log
  cancel-OnSome o = elim (cancel_cases app) [
    | inl e ↦ rw e o
    | inr (p, r, h, a) ↦
        rw a (o.0, IsOn-later _ _ (IsOn-record (Record.prepared p) r o) (omega arith) refl)
  ]

  reached_below :
      (c : CommittedRecord)
      → app.active.record_ ≡ Record.committed c
      → reached_index (Record.committed c) app.active.u ≤ c.next_anchor_counter
  reached_below c r =
      let (_, v, _, fresh) = CoreInv-at app (Record.committed c) r i in
      let st = v.step in
      elim (Bool-cases c.committed) [
        | inl f ↦ rw f (omega arith)
        | inr f ↦ rw f (omega (arith, fresh f))
      ]

  -- A record that `recover` has marked, at the index that it sets or at the old one.
  marked-OnSome :
      (c : CommittedRecord) (u : ℕ)
      → app.active.record_ ≡ Record.committed c
      → OnSome genesis app.active log
      → OnSome genesis (record (marked app.active c) { u = u }) log
  marked-OnSome c u r o =
      (o.0, IsOn-later _ _ (IsOn-record (Record.committed c) r o) (reached_below c r) refl)

  recover_cut-OnSome :
      OnSome genesis app.active log
      → OnSome genesis (record (recover app).1.active { u = app.active.u }) log
  recover_cut-OnSome o = elim (recover-Settles laws app) [
    | kept a le ↦ rw a o
    | resumed c r m a n le ↦ rw a (marked-OnSome c app.active.u r o)
  ]

  recover-OnSome : OnSome genesis app.active log → OnSome genesis (recover app).1.active log
  recover-OnSome o = elim (recover-Settles laws app) [
    | kept a le ↦ rw a o
    | resumed c r m a n le ↦ rw a (marked-OnSome c c.next_anchor_counter r o)
  ]

  module _ (v : AppFits laws app log) where
    old_releases :
        (c : CommittedRecord)
        → app.active.record_ ≡ Record.committed c
        → Fits app.h0 (laws.counter app.tropic) (Record.committed c) log
    old_releases c r = subst (λ (q : Record). Fits app.h0 (laws.counter app.tropic) q log) r v

    finalize-OnSome : OnSome genesis app.active log → OnSome genesis (finalize app).1.active log
    finalize-OnSome o = elim (Result-cases (finalize app).0) [
      | inr (x, e) ↦ rw (finalize_err app e) o
      | inl (x, e) ↦
          let (c, r, f, _, live, le, a) = finalize_ok app e in
          let (_, k, place, _) = CoreInv-at app (Record.committed c) r i in
          let fits = old_releases c r in
          let passed = fits.current.0 f in
          let st = k.step in
          let read = laws.get_value app.tropic live in
          let at : app.active.u ≡ c.next_anchor_counter = elim place [
            | inl old ↦ absurd (omega arith)
            | inr new ↦ new
          ] in
          rw a (
            extend o.0 c.next_anchor_counter c.next_root,
            IsOn-installed app.h0 (laws.counter app.tropic) c (IsOn-record (Record.committed c) r o)
                k.step f k.release_next_root fits.current.1 fits.spent at,
          )
    ]

    emit-OnSome :
        (rel : OfflineRelease)
        → emit app ≡ ok rel
        → OnSome genesis app.active log
        → OnSome genesis app.active (rel ∷ log)
    emit-OnSome rel h o =
        let (c, r, f, e) = emit_ok app h in
        let (_, k, _, _) = CoreInv-at app (Record.committed c) r i in
        let fits = old_releases c r in
        (
          extend o.0 c.next_anchor_counter c.next_root,
          rw (e, r)
              (IsOn-exported app.h0 (laws.counter app.tropic) c
                (IsOn-record (Record.committed c) r o) k.step f k.release_next_root fits.current.1
                fits.spent k.parent k.release_prev_root k.release_index k.release_next_index),
        )

module _ ⦃b : Blake3⦄ ⦃t : Tropic⦄ ⦃s : WitnessSig⦄ (laws : CounterLaws t)
    (genesis : Array 32) where
  Step-OnSome :
      {v w : World laws}
      → Step laws v w
      → IsSafe laws v
      → OnSome genesis v.app.active v.released
      → OnSome genesis w.app.active w.released
  Step-OnSome (prepares w tr rc) z o = prepare-OnSome laws genesis w.app w.released z.inv tr rc o
  Step-OnSome (commits w) z o = commit-OnSome laws genesis w.app w.released z.inv o
  Step-OnSome (finalizes w) z o = finalize-OnSome laws genesis w.app w.released z.inv z.fits o
  Step-OnSome (cancels w) z o = cancel-OnSome laws genesis w.app w.released z.inv o
  Step-OnSome (recovers w) z o = recover-OnSome laws genesis w.app w.released z.inv o
  Step-OnSome (emits w rel h) z o = emit-OnSome laws genesis w.app w.released z.inv z.fits rel h o
  Step-OnSome (cut_in_prepare w tr rc h) z o = o
  Step-OnSome (cut_in_zeroize w p n r) z o =
      wiped-OnSome laws genesis w.app w.released z.inv p n r o
  Step-OnSome (cut_in_cancel w p st r d) z o =
      erased-OnSome laws genesis w.app w.released z.inv p st r o
  Step-OnSome (cut_in_phase1 w p h st r q d) z o =
      erased-OnSome laws genesis w.app w.released z.inv p st r o
  Step-OnSome (cut_before_update w p h r q) z o =
      phase1-OnSome laws genesis w.app w.released z.inv p h r o
  Step-OnSome (cut_after_update w p h r q m) z o =
      phase1-OnSome laws genesis w.app w.released z.inv p h r o
  Step-OnSome (cut_in_phase3 w p h r q m) z o =
      phase3_cut-OnSome laws genesis w.app w.released z.inv p h r o
  Step-OnSome (cut_in_recover w) z o = recover_cut-OnSome laws genesis w.app w.released z.inv o
  Step-OnSome (drifts w chip le) z o = o
  Step-OnSome (boots w boundary map) z o = o

  Reach-OnSome :
      {v w : World laws}
      → IsSafe laws v
      → OnSome genesis v.app.active v.released
      → Reach laws v w
      → OnSome genesis w.app.active w.released
  Reach-OnSome z o here = o
  Reach-OnSome z o (next r st) = Step-OnSome st (Reach-IsSafe laws z r) (Reach-OnSome z o r)

-- A device refines one chain of roots. For a device enrolled with a 32-bit counter value and a chip
-- that keeps the laws of its down-counter, over every history of calls, power cuts, counter drift
-- and boot checks, there is an assignment of one root to each index, that starts with the enrolled
-- root, such that the installed root is the one at its index, and every exported release steps from
-- the root at its anchor index to the root at its next index, which is not above the index of the
-- device, or of the step that its record is marked as committed for.
pub releases_on_one_chain :
    ⦃b : Blake3⦄ ⦃t : Tropic⦄ ⦃s : WitnessSig⦄ (laws : CounterLaws t) (chip : t.Chip) (h0 : ℕ)
    (root anchor_id : Array 32) (slot : ℕ) (w : World laws)
    → h0 < 2 ^ 32
    → Reach laws (enrolled laws chip h0 root anchor_id slot) w
    → OnSome root w.app.active w.released
unfolding new
releases_on_one_chain laws chip h0 root anchor_id slot w lt r =
    Reach-OnSome laws root (enrolled-IsSafe laws chip h0 root anchor_id slot lt)
      (λ _. root, record { starts = refl; installed = refl; exported = tt }) r
