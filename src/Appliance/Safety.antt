-- ===== src/Appliance/Safety.antt =====
-- anchor-core/src/appliance.rs: the invariants over every history of the device.
use dsm_unplugged.Common.{ℕ, ◌<◌, ◌^◌, ◌≡◌, subst, inl, inr, List, ◌∷◌, Array, ok, All, arith}
use dsm_unplugged.Hash.{Blake3}
use dsm_unplugged.Tropic.{Tropic, WitnessSig, CounterLaws}
use dsm_unplugged.RootAdvance.{OfflineRelease}
use dsm_unplugged.Appliance.{Record, Record-cases, Appliance, new}
use dsm_unplugged.Appliance.Operations.{commit, emit}
use dsm_unplugged.Appliance.Cuts.{
  prepare_cut-CoreInv, phase1_cut-CoreInv, phase3_cut-CoreInv, recover_cut-CoreInv,
}
use dsm_unplugged.Appliance.Commit.{commit_empty, commit_committed}
use dsm_unplugged.Appliance.Invariant.{
  CoreInv, CoreInv-at, IsConsistent, Inv-new, IsPrepared-key, prepare-CoreInv, commit-CoreInv,
}
use dsm_unplugged.Appliance.Preserve.{
  finalize-CoreInv, cancel-CoreInv, recover-CoreInv, emit_ok, emit-IsConsistent,
}
use dsm_unplugged.Appliance.Fork.{Fits, OnePerIndex, Fits-lower, Fits-prepared, Fits-emitted}
use dsm_unplugged.Appliance.NoFork.{
  AppFits, prepare-Fits, finalize-Fits, cancel-Fits, recover-Fits, phase1-Fits,
  commit_prepared-Fits, moved-counter, prepare-counter, phase3-Fits,
}
use dsm_unplugged.Appliance.Prepare.{SameDevice, prepare-SameDevice}
use dsm_unplugged.Appliance.Commit.{commit-SameDevice}
use dsm_unplugged.Appliance.Settle.{finalize-SameDevice, cancel-SameDevice, recover-SameDevice}
use dsm_unplugged.Appliance.Fork.{IsSpent}
use dsm_unplugged.Appliance.Recovery.{recover}
use dsm_unplugged.Appliance.Trace.{
  World, Step, prepares, commits, finalizes, cancels, recovers, emits, cut_in_prepare,
  cut_in_zeroize, cut_in_cancel, cut_in_phase1, cut_before_update, cut_after_update, cut_in_phase3,
  cut_in_recover, drifts, boots, Reach, here, next, enrolled,
}

module _ ⦃b : Blake3⦄ ⦃t : Tropic⦄ ⦃s : WitnessSig⦄ (laws : CounterLaws t) where
  -- The device satisfies the core of its invariant, and what it has exported fits it and is
  -- consistent.
  pub record IsSafe (w : World laws) : Type 0 where
    pub inv : CoreInv w.app
    pub fits : AppFits laws w.app w.released
    pub consistent : All (IsConsistent w.app.anchor_id w.app.slot) w.released

  commit-Fits :
      (app : Appliance t.Chip) (log : List OfflineRelease)
      → CoreInv app
      → AppFits laws app log
      → AppFits laws (commit app).1 log
  commit-Fits app log i v = elim (Record-cases app.active.record_) [
    | inl e ↦ rw (commit_empty app e) v
    | inr (inl (p, e)) ↦
        commit_prepared-Fits laws app p log e (CoreInv-at app (Record.prepared p) e i).next_index v
    | inr (inr (c, e)) ↦ rw (commit_committed app c e) v
  ]

  emit-Fits :
      (app : Appliance t.Chip) (rel : OfflineRelease) (log : List OfflineRelease)
      → emit app ≡ ok rel
      → CoreInv app
      → AppFits laws app log
      → AppFits laws app (rel ∷ log)
  emit-Fits app rel log h i v =
      let (c, r, f, e) = emit_ok app h in
      let k = (CoreInv-at app (Record.committed c) r i).1 in
      let old = subst (λ (q : Record). Fits app.h0 (laws.counter app.tropic) q log) r v in
      rw (e, r)
        (Fits-emitted app.h0 (laws.counter app.tropic) c log f k.step k.release_index
          k.release_next_index old)

  IsConsistent-frame :
      (app app' : Appliance t.Chip) (log : List OfflineRelease)
      → SameDevice app app'
      → All (IsConsistent app.anchor_id app.slot) log
      → All (IsConsistent app'.anchor_id app'.slot) log
  IsConsistent-frame app app' log d v = rw (d.same_anchor_id, d.same_slot) v

  IsSafe-at :
      (w : World laws) (app' : Appliance t.Chip)
      → IsSafe w
      → SameDevice w.app app'
      → CoreInv app'
      → AppFits laws app' w.released
      → IsSafe (record w { app = app' })
  IsSafe-at w app' z d i f = record {
    inv = i;
    fits = f;
    consistent = IsConsistent-frame w.app app' w.released d z.consistent;
  }

  -- Everything that can happen to the device keeps it safe. With a chip that keeps the laws of its
  -- down-counter, every call, every recovery, every power loss between two writes of an operation,
  -- also while a key is overwritten byte by byte, every drift of the counter and every boot check
  -- leads from a device that satisfies the core of its invariant, and whose exported releases fit it
  -- and are consistent, to such a device.
  pub Step-IsSafe : {v w : World laws} → Step laws v w → IsSafe v → IsSafe w
  Step-IsSafe (prepares w tr rc) z =
      IsSafe-at w _ z (prepare-SameDevice tr rc w.app) (prepare-CoreInv tr rc w.app z.inv)
        (prepare-Fits laws tr rc w.app w.released z.fits)
  Step-IsSafe (commits w) z =
      IsSafe-at w _ z (commit-SameDevice w.app) (commit-CoreInv w.app z.inv)
        (commit-Fits w.app w.released z.inv z.fits)
  Step-IsSafe (finalizes w) z =
      IsSafe-at w _ z (finalize-SameDevice w.app) (finalize-CoreInv w.app z.inv)
        (finalize-Fits laws w.app w.released z.fits)
  Step-IsSafe (cancels w) z =
      IsSafe-at w _ z (cancel-SameDevice w.app) (cancel-CoreInv w.app z.inv)
        (cancel-Fits laws w.app w.released z.fits)
  Step-IsSafe (recovers w) z =
      IsSafe-at w _ z (recover-SameDevice w.app) (recover-CoreInv laws w.app z.inv)
        (recover-Fits laws w.app w.released z.fits)
  Step-IsSafe (emits w rel h) z = record {
    inv = z.inv;
    fits = emit-Fits w.app rel w.released h z.inv z.fits;
    consistent = (emit-IsConsistent w.app z.inv h, z.consistent);
  }
  Step-IsSafe (cut_in_prepare w tr rc h) z = record {
    inv = prepare_cut-CoreInv tr rc w.app h z.inv;
    fits = Fits-lower w.app.h0 _ _ _ w.released (prepare-counter laws tr rc w.app) z.fits;
    consistent = z.consistent;
  }
  Step-IsSafe (cut_in_zeroize w p n r) z = record {
    inv = (z.inv.0, IsPrepared-key _ (CoreInv-at w.app (Record.prepared p) r z.inv));
    fits = Fits-prepared _ _ _ _ w.released z.fits;
    consistent = z.consistent;
  }
  Step-IsSafe (cut_in_cancel w p st r d) z = record {
    inv = (z.inv.0, IsPrepared-key _ (CoreInv-at w.app (Record.prepared p) r z.inv));
    fits = Fits-prepared _ _ _ _ w.released z.fits;
    consistent = z.consistent;
  }
  Step-IsSafe (cut_in_phase1 w p h st r q d) z = record {
    inv = (z.inv.0, IsPrepared-key _ (CoreInv-at w.app (Record.prepared p) r z.inv));
    fits =
        Fits-lower w.app.h0 _ _ _ w.released (omega (arith, laws.get_keeps w.app.tropic))
          (Fits-prepared _ _ _ _ w.released z.fits);
    consistent = z.consistent;
  }
  Step-IsSafe (cut_before_update w p h r q) z = record {
    inv = phase1_cut-CoreInv w.app p h r q z.inv;
    fits =
        Fits-lower w.app.h0 _ _ _ w.released (omega (arith, laws.get_keeps w.app.tropic))
          (phase1-Fits laws w.app p h w.released q z.fits);
    consistent = z.consistent;
  }
  Step-IsSafe (cut_after_update w p h r q m) z = record {
    inv = phase1_cut-CoreInv w.app p h r q z.inv;
    fits =
        Fits-lower w.app.h0 _ _ _ w.released (moved-counter laws w.app)
          (phase1-Fits laws w.app p h w.released q z.fits);
    consistent = z.consistent;
  }
  Step-IsSafe (cut_in_phase3 w p h r q m) z = record {
    inv = phase3_cut-CoreInv w.app p h r q z.inv;
    fits =
        phase3-Fits laws w.app p h w.released q m
          (CoreInv-at w.app (Record.prepared p) r z.inv).next_index z.fits;
    consistent = z.consistent;
  }
  Step-IsSafe (cut_in_recover w) z =
      let same = (recover-SameDevice w.app).same_h0 in
      record {
        inv = recover_cut-CoreInv laws w.app z.inv;
        fits =
            subst
              (λ (n : ℕ).
                Fits n (laws.counter (recover w.app).1.tropic) (recover w.app).1.active.record_
                  w.released)
              same (recover-Fits laws w.app w.released z.fits);
        consistent = z.consistent;
      }
  Step-IsSafe (drifts w chip le) z = record {
    inv = z.inv;
    fits = Fits-lower w.app.h0 _ _ _ w.released le z.fits;
    consistent = z.consistent;
  }
  Step-IsSafe (boots w boundary map) z = record {
    inv = z.inv;
    fits = z.fits;
    consistent = z.consistent;
  }

  pub Reach-IsSafe : {v w : World laws} → IsSafe v → Reach laws v w → IsSafe w
  Reach-IsSafe z here = z
  Reach-IsSafe z (next r st) = Step-IsSafe st (Reach-IsSafe z r)

  pub enrolled-IsSafe :
      (chip : t.Chip) (h0 : ℕ) (root anchor_id : Array 32) (slot : ℕ)
      → h0 < 2 ^ 32
      → IsSafe (enrolled laws chip h0 root anchor_id slot)
  enrolled-IsSafe chip h0 root anchor_id slot lt = record {
    inv = (Inv-new chip h0 root anchor_id slot lt).0;
    fits = record { spent = tt; current = unfold new in tt; unique = tt };
    consistent = tt;
  }

  -- Whatever the host calls, wherever the power fails and however the counter drifts down, a device
  -- that was enrolled with a 32-bit counter value never exports two different releases for one
  -- anchor index. The chip is assumed to keep the laws of its down-counter.
  pub one_release_per_index :
      (chip : t.Chip) (h0 : ℕ) (root anchor_id : Array 32) (slot : ℕ) (w : World laws)
      → h0 < 2 ^ 32
      → Reach laws (enrolled laws chip h0 root anchor_id slot) w
      → OnePerIndex w.released
  one_release_per_index chip h0 root anchor_id slot w lt r =
      (Reach-IsSafe (enrolled-IsSafe chip h0 root anchor_id slot lt) r).fits.unique

  -- For a device enrolled with a 32-bit counter value and a chip that keeps the laws of its down-
  -- counter, over every history of calls, power cuts, counter drift and boot checks, the counter
  -- has moved past every exported release, and a release's next index is the successor of its
  -- anchor index.
  pub released-IsSpent :
      (chip : t.Chip) (h0 : ℕ) (root anchor_id : Array 32) (slot : ℕ) (w : World laws)
      → h0 < 2 ^ 32
      → Reach laws (enrolled laws chip h0 root anchor_id slot) w
      → All (IsSpent w.app.h0 (laws.counter w.app.tropic)) w.released
  released-IsSpent chip h0 root anchor_id slot w lt r =
      (Reach-IsSafe (enrolled-IsSafe chip h0 root anchor_id slot lt) r).fits.spent
