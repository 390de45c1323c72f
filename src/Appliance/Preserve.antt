-- ===== src/Appliance/Preserve.antt =====
-- anchor-core/src/appliance.rs: `finalize`, `cancel` and `recover` keep the invariant, its core by
-- itself too, and what `emit` exports under it.
use dsm_unplugged.Common.{◌≡◌, refl, subst, ◌⊎◌, inl, inr, true, ok, arith, Result-cases}
use dsm_unplugged.Hash.{Blake3}
use dsm_unplugged.Tropic.{Tropic, WitnessSig, CounterLaws}
use dsm_unplugged.RootAdvance.{OfflineRelease}
use dsm_unplugged.Appliance.{Record, Record-cases, Appliance, PreparedRecord, CommittedRecord}
use dsm_unplugged.Appliance.Operations.{emit, finalize, cancel}
use dsm_unplugged.Appliance.Recovery.{recover}
use dsm_unplugged.Appliance.Invariant.{
  Inv, CoreInv, KeyInv, IsConsistent, IsSigned, IsCertified, CoreInv-frame, CoreInv-at,
  mark-IsCommitted,
}
use dsm_unplugged.Appliance.Settle.{
  kept, resumed, recover-Settles, recover-SameDevice, finalize-SameDevice, finalize_err,
  finalize_ok, cancel-SameDevice, cancel_cases,
}

module _ ⦃b : Blake3⦄ ⦃t : Tropic⦄ ⦃s : WitnessSig⦄ where
  -- `finalize` keeps the core of the invariant, also when it fails.
  pub finalize-CoreInv : (app : Appliance t.Chip) → CoreInv app → CoreInv (finalize app).1
  finalize-CoreInv app i = elim (Result-cases (finalize app).0) [
    | inl (x, e) ↦
        let f = finalize_ok app e in
        CoreInv-frame app (finalize app).1 _ (finalize-SameDevice app) f.6 (i.0, inl refl)
    | inr (x, e) ↦
        CoreInv-frame app (finalize app).1 _ (finalize-SameDevice app) (finalize_err app e) i
  ]

  pub finalize-KeyInv :
      (app : Appliance t.Chip) → KeyInv app.active.record_ → KeyInv (finalize app).1.active.record_
  finalize-KeyInv app k = elim (Result-cases (finalize app).0) [
    | inl (x, e) ↦ let f = finalize_ok app e in rw f.6 tt
    | inr (x, e) ↦ rw (finalize_err app e) k
  ]

  pub finalize-Inv : (app : Appliance t.Chip) → Inv app → Inv (finalize app).1
  finalize-Inv app i = (finalize-CoreInv app i.0, finalize-KeyInv app i.1)

  -- `cancel` keeps the core of the invariant, also when it refuses.
  pub cancel-CoreInv : (app : Appliance t.Chip) → CoreInv app → CoreInv (cancel app).1
  cancel-CoreInv app i = elim (cancel_cases app) [
    | inl e ↦ rw e i
    | inr (p, r, o, a) ↦
        CoreInv-frame app (cancel app).1 _ (cancel-SameDevice app) a (i.0, inl refl)
  ]

  pub cancel-KeyInv :
      (app : Appliance t.Chip) → KeyInv app.active.record_ → KeyInv (cancel app).1.active.record_
  cancel-KeyInv app k = elim (cancel_cases app) [ inl e ↦ rw e k | inr (p, r, o, a) ↦ rw a tt ]

  pub cancel-Inv : (app : Appliance t.Chip) → Inv app → Inv (cancel app).1
  cancel-Inv app i = (cancel-CoreInv app i.0, cancel-KeyInv app i.1)

  -- `recover` keeps the core of the invariant on every path, with a chip that keeps the laws of its
  -- down-counter.
  pub recover-CoreInv :
      (laws : CounterLaws t) (app : Appliance t.Chip) → CoreInv app → CoreInv (recover app).1
  recover-CoreInv laws app i = elim (recover-Settles laws app) [
    | kept a le ↦ CoreInv-frame app (recover app).1 _ (recover-SameDevice app) a i
    | resumed c r o a n le ↦
        let v = CoreInv-at app (Record.committed c) r i in
        CoreInv-frame app (recover app).1 _ (recover-SameDevice app) a
          (i.0, (v.0, mark-IsCommitted v.1, inr refl, λ k. cc))
  ]

  pub recover-KeyInv :
      (laws : CounterLaws t) (app : Appliance t.Chip)
      → KeyInv app.active.record_
      → KeyInv (recover app).1.active.record_
  recover-KeyInv laws app k = elim (recover-Settles laws app) [
    | kept a le ↦ rw a k
    | resumed c r o a n le ↦ let signed = subst KeyInv r k in rw a signed
  ]

  pub recover-Inv : (laws : CounterLaws t) (app : Appliance t.Chip) → Inv app → Inv (recover app).1
  recover-Inv laws app i = (recover-CoreInv laws app i.0, recover-KeyInv laws app i.1)

  emit_on :
      (app : Appliance t.Chip) (c : CommittedRecord) {rel : OfflineRelease}
      → app.active.record_ ≡ Record.committed c
      → emit app ≡ ok rel
      → (c.committed ≡ true) × (rel ≡ c.release)
  unfolding emit
  emit_on app c r h = ground arith

  emit_not_committed :
      (app : Appliance t.Chip) {rel : OfflineRelease}
      → (app.active.record_ ≡ Record.empty)
        ⊎ ((p : PreparedRecord) × (app.active.record_ ≡ Record.prepared p))
      → emit app ≡ ok rel
      → ⊥
  unfolding emit
  emit_not_committed app (inl e) h = ground arith
  emit_not_committed app (inr (p, e)) h = ground arith

  -- `emit` exports the release of a committed record whose counter has moved, and nothing else.
  pub emit_ok :
      (app : Appliance t.Chip) {rel : OfflineRelease}
      → emit app ≡ ok rel
      → (c : CommittedRecord) × (app.active.record_ ≡ Record.committed c)
        × (c.committed ≡ true)
        × (rel ≡ c.release)
  emit_ok app h = elim (Record-cases app.active.record_) [
    | inl e ↦ absurd (emit_not_committed app (inl e) h)
    | inr (inl (p, e)) ↦ absurd (emit_not_committed app (inr (p, e)) h)
    | inr (inr (c, e)) ↦ let f = emit_on app c e h in (c, e, f.0, f.1)
  ]

  -- Under the core of the invariant, an exported release is consistent.
  pub emit-IsConsistent :
      (app : Appliance t.Chip) {rel : OfflineRelease}
      → CoreInv app
      → emit app ≡ ok rel
      → IsConsistent app.anchor_id app.slot rel
  emit-IsConsistent app i h =
      let (c, r, f, e) = emit_ok app h in
      let v = CoreInv-at app (Record.committed c) r i in rw e v.1.consistent

  pub emit-IsSigned :
      (app : Appliance t.Chip) {rel : OfflineRelease}
      → KeyInv app.active.record_
      → emit app ≡ ok rel
      → IsSigned rel
  emit-IsSigned app k h = let (c, r, f, e) = emit_ok app h in rw e (subst KeyInv r k)

  -- Under the invariant, an exported release passes every check that its package and certificate
  -- decide.
  pub emit-IsCertified :
      (app : Appliance t.Chip) {rel : OfflineRelease}
      → Inv app
      → emit app ≡ ok rel
      → IsCertified app.anchor_id app.slot rel
  emit-IsCertified app i h = (emit-IsConsistent app i.0 h, emit-IsSigned app i.1 h)
