-- ===== src/Appliance/Stranded.antt =====
-- anchor-core/src/appliance.rs: a device whose power failed inside `prepare`, when the status is set
-- and the record is not there.
use dsm_unplugged.Common.{◌≡◌, refl, ap, ◌∙◌, inl, inr, Array, ok, Result-cases}
use dsm_unplugged.Hash.{Blake3}
use dsm_unplugged.Tropic.{Tropic, WitnessSig, CounterLaws}
use dsm_unplugged.RootAdvance.{Transition}
use dsm_unplugged.Appliance.{Status, Record, Active, Appliance, PreparedRecord, CommittedRecord}
use dsm_unplugged.Appliance.Operations.{prepare, finalize, cancel}
use dsm_unplugged.Appliance.Recovery.{recover}
use dsm_unplugged.Appliance.Prepare.{prepare_err, prepare_ok}
use dsm_unplugged.Appliance.Commit.{commit_empty}
use dsm_unplugged.Appliance.Settle.{
  kept, resumed, recover-Settles, finalize_err, finalize_ok, cancel_cases,
}
use dsm_unplugged.Appliance.Preserve.{emit_ok}
use dsm_unplugged.Appliance.Trace.{
  World, Step, prepares, commits, finalizes, cancels, recovers, emits, cut_in_prepare,
  cut_in_zeroize, cut_in_cancel, cut_in_phase1, cut_before_update, cut_after_update, cut_in_phase3,
  cut_in_recover, drifts, boots, Reach, here, next,
}

-- The status says that a package is prepared, and there is none.
abbrev pub IsStranded : Active → Type 0
IsStranded a = (a.status ≡ Status.prepared) × (a.record_ ≡ Record.empty)

no_package : (a : Active) {p : PreparedRecord} → IsStranded a → a.record_ ≡ Record.prepared p → ⊥
no_package a (st, none) r = cc

no_release : (a : Active) {c : CommittedRecord} → IsStranded a → a.record_ ≡ Record.committed c → ⊥
no_release a (st, none) r = cc

module _ ⦃b : Blake3⦄ ⦃t : Tropic⦄ ⦃s : WitnessSig⦄ (app : Appliance t.Chip)
    (z : IsStranded app.active) where
  prepare_stranded : (tr : Transition) (rc : Array 32) → (prepare tr rc app).1.active ≡ app.active
  prepare_stranded tr rc = elim (Result-cases (prepare tr rc app).0) [
    | inl (x, e) ↦
        let (w, q) = prepare_ok tr rc app e in
        let ready = q.was_ready in absurd (let st = z.0 in cc)
    | inr (x, e) ↦ prepare_err tr rc app e
  ]

  finalize_stranded : (finalize app).1.active ≡ app.active
  finalize_stranded = elim (Result-cases (finalize app).0) [
    | inl (x, e) ↦ absurd (no_release app.active z (finalize_ok app e).1)
    | inr (x, e) ↦ finalize_err app e
  ]

  cancel_stranded : (cancel app).1.active ≡ app.active
  cancel_stranded = elim (cancel_cases app) [
    | inl e ↦ rw e refl
    | inr (p, r, _, _) ↦ absurd (no_package app.active z r)
  ]

  recover_stranded : (laws : CounterLaws t) → (recover app).1.active ≡ app.active
  recover_stranded laws = elim (recover-Settles laws app) [
    | kept a le ↦ a
    | resumed c r o a n le ↦ absurd (no_release app.active z r)
  ]

module _ ⦃b : Blake3⦄ ⦃t : Tropic⦄ ⦃s : WitnessSig⦄ (laws : CounterLaws t) where
  -- The active state and the exported releases are the same.
  pub record SameState (v w : World laws) : Type 0 where
    pub same_active : w.app.active ≡ v.app.active
    pub same_released : w.released ≡ v.released

  Step-stranded : {v w : World laws} → Step laws v w → IsStranded v.app.active → SameState v w
  Step-stranded (prepares w tr rc) z = record {
    same_active = prepare_stranded w.app z tr rc;
    same_released = refl;
  }
  Step-stranded (commits w) z = record {
    same_active = rw (commit_empty w.app z.1) refl;
    same_released = refl;
  }
  Step-stranded (finalizes w) z = record {
    same_active = finalize_stranded w.app z;
    same_released = refl;
  }
  Step-stranded (cancels w) z = record {
    same_active = cancel_stranded w.app z;
    same_released = refl;
  }
  Step-stranded (recovers w) z = record {
    same_active = recover_stranded w.app z laws;
    same_released = refl;
  }
  Step-stranded (emits w rel h) z = absurd (no_release w.app.active z (emit_ok w.app h).1)
  Step-stranded (cut_in_prepare w tr rc h) z =
      let (_, q) = prepare_ok tr rc w.app h in let ready = q.was_ready in let st = z.0 in absurd cc
  Step-stranded (cut_in_zeroize w p n r) z = absurd (no_package w.app.active z r)
  Step-stranded (cut_in_cancel w p st r d) z = absurd (no_package w.app.active z r)
  Step-stranded (cut_in_phase1 w p h st r q d) z = absurd (no_package w.app.active z r)
  Step-stranded (cut_before_update w p h r q) z = absurd (no_package w.app.active z r)
  Step-stranded (cut_after_update w p h r q m) z = absurd (no_package w.app.active z r)
  Step-stranded (cut_in_phase3 w p h r q m) z = absurd (no_package w.app.active z r)
  Step-stranded (cut_in_recover w) z = record {
    same_active =
        ap (λ (a : Active). record a { u = w.app.active.u }) (recover_stranded w.app z laws);
    same_released = refl;
  }
  Step-stranded (drifts w chip le) z = record { same_active = refl; same_released = refl }
  Step-stranded (boots w boundary map) z = record { same_active = refl; same_released = refl }

  Reach-stranded : {v w : World laws} → IsStranded v.app.active → Reach laws v w → SameState v w
  Reach-stranded z here = record { same_active = refl; same_released = refl }
  Reach-stranded z (next r st) =
      let before = Reach-stranded z r in
      let a = before.same_active in
      let now =
        Step-stranded st
          (ap (λ (x : Active). x.status) a ∙ z.0, ap (λ (x : Active). x.record_) a ∙ z.1) in
      record {
        same_active = now.same_active ∙ before.same_active;
        same_released = now.same_released ∙ before.same_released;
      }

  -- The world after a power loss between the two writes of `prepare`.
  abbrev pub prepare_cut : World laws → Transition → Array 32 → World laws
  prepare_cut w tr rc = record w {
    app = record w.app {
      active = record w.app.active { status = Status.prepared };
      tropic = (prepare tr rc w.app).1.tropic;
    };
  }

  -- On a device that holds no record, a power loss between the two writes of a `prepare` that would
  -- have succeeded strands the device: it is a step of the device, and from then on no history of
  -- calls, recoveries, power cuts, counter drift and boot checks changes the active state, or exports
  -- a release. The chip is assumed to keep the laws of its down-counter.
  pub stranded_for_good :
      (v : World laws) (tr : Transition) (rc : Array 32)
      → v.app.active.record_ ≡ Record.empty
      → (prepare tr rc v.app).0 ≡ ok tt
      → Step laws v (prepare_cut v tr rc)
        × ((w : World laws)
            → Reach laws (prepare_cut v tr rc) w
            → SameState (prepare_cut v tr rc) w)
  stranded_for_good v tr rc none h = (
    cut_in_prepare v tr rc h,
    λ w r. Reach-stranded {v = prepare_cut v tr rc} {w = w} (refl, none) r,
  )
