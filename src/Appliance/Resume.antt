-- ===== src/Appliance/Resume.antt =====
-- anchor-core/src/appliance.rs: boot recovery of a device whose power failed in `commit`, once the
-- candidate was durable.
use dsm_unplugged.Common.{
  ℕ, suc, ◌+◌, ◌-◌, ◌<◌, ◌≤◌, ◌≡◌, refl, sym, subst, ap, ◌∙◌, ◌⊎◌, inl, inr, true, false, ok, arith,
}
use dsm_unplugged.Util.CtEq.{ct_eq_32-of_eq}
use dsm_unplugged.Hash.{Blake3}
use dsm_unplugged.Tropic.{Tropic, WitnessSig, CounterLaws}
use dsm_unplugged.Appliance.{
  Status, Record, Active, Appliance, PreparedRecord, CommittedRecord, reemit_committed,
}
use dsm_unplugged.Appliance.Operations.{commit, emit, release_of, candidate, mark_committed}
use dsm_unplugged.Appliance.Recovery.{recover, recover_committed, mark_active}
use dsm_unplugged.Appliance.Commit.{Passes, phase1, phase3}
use dsm_unplugged.Appliance.Settle.{marked}
use dsm_unplugged.Appliance.Invariant.{Inv, RecordInv, IsPrepared}
use dsm_unplugged.Appliance.Works.{Works, commit_works, commit-Committed, emit_succeeds}

module _ ⦃b : Blake3⦄ ⦃t : Tropic⦄ ⦃s : WitnessSig⦄ (laws : CounterLaws t) where
  -- The device after a power loss: the candidate is durable, and the counter has moved once or not
  -- yet.
  abbrev pub cut_off : Appliance t.Chip → PreparedRecord → ℕ → t.Chip → Appliance t.Chip
  cut_off app p h chip = record app { active = phase1 app p h; tropic = chip }

  -- The counter of the chip, with `h` before `commit`, has moved at most once.
  abbrev pub MovedAtMostOnce : t.Chip → ℕ → Type 0
  MovedAtMostOnce chip h = (laws.counter chip ≡ h) ⊎ (suc (laws.counter chip) ≡ h)

  -- The device after a power loss in phase 3: the record is marked, and the index is the old one.
  abbrev pub marked_off : Appliance t.Chip → PreparedRecord → ℕ → t.Chip → Appliance t.Chip
  marked_off app p h chip = record app {
    active = record (phase3 app p h) { u = app.active.u };
    tropic = chip;
  }

  -- Where a power loss may cut `commit` off once the candidate is durable.
  pub data CutOff (app : Appliance t.Chip) (p : PreparedRecord) (h : ℕ)
      : Appliance t.Chip → Type 0 where
    before_phase3 : (chip : t.Chip) → MovedAtMostOnce chip h → CutOff app p h (cut_off app p h chip)
    in_phase3 :
        (chip : t.Chip) → suc (laws.counter chip) ≡ h → CutOff app p h (marked_off app p h chip)

  pub RecordInv-prepared :
      (app : Appliance t.Chip) (p : PreparedRecord)
      → Inv app
      → app.active.record_ ≡ Record.prepared p
      → IsPrepared app.anchor_id app.slot app.active.root app.active.u p
  RecordInv-prepared app p v r =
      subst (RecordInv app.anchor_id app.slot app.active.root app.active.u app.active.status) r
        v.0.1

  recover_reads :
      Works laws
      → (app : Appliance t.Chip) → app.firmware_boundary_invalid ≡ false
      → app.rmemory_map_invalid ≡ false
      → app.active.status ≡ Status.committed
      → laws.counter app.tropic ≤ app.h0
      → recover app
        ≡ recover_committed app.active.record_
            (app.h0 - laws.counter app.tropic)
            (record app { tropic = (t.counter_get app.tropic).1 })
  unfolding recover
  recover_reads k app f g st le = ground (arith, k.get_ok app.tropic)

  completes :
      Works laws
      → (c : CommittedRecord) (live_u : ℕ) (app : Appliance t.Chip) → c.committed ≡ false
      → c.prev_root ≡ app.active.root
      → 0 < laws.counter app.tropic
      → c.next_anchor_counter ≡ live_u + 1
      → ((recover_committed (Record.committed c) live_u app).0 ≡ reemit_committed c.next_root)
        × ((recover_committed (Record.committed c) live_u app).1.active ≡ marked app.active c)
  unfolding recover_committed mark_active
  completes k c live_u app f q m n =
      ground (arith, ct_eq_32-of_eq c.prev_root app.active.root q, k.moves app.tropic m)

  notices :
      (c : CommittedRecord) (live_u : ℕ) (app : Appliance t.Chip)
      → c.committed ≡ false
      → c.next_anchor_counter ≡ live_u
      → ((recover_committed (Record.committed c) live_u app).0 ≡ reemit_committed c.next_root)
        × ((recover_committed (Record.committed c) live_u app).1.active ≡ marked app.active c)
  unfolding recover_committed mark_active
  notices c live_u app f n = ground arith

  sets_index :
      (c : CommittedRecord) (live_u : ℕ) (app : Appliance t.Chip)
      → c.committed ≡ true
      → c.next_anchor_counter ≡ live_u
      → ((recover_committed (Record.committed c) live_u app).0 ≡ reemit_committed c.next_root)
        × ((recover_committed (Record.committed c) live_u app).1.active
            ≡ record app.active { u = c.next_anchor_counter })
  unfolding recover_committed
  sets_index c live_u app f n = ground arith

  recover-CutOff :
      Works laws
      → (app : Appliance t.Chip) (p : PreparedRecord) (h : ℕ) (cut : Appliance t.Chip)
      → app.firmware_boundary_invalid ≡ false
      → app.rmemory_map_invalid ≡ false
      → p.txn.next_anchor_counter ≡ p.txn.anchor_counter + 1
      → Passes app p h
      → CutOff app p h cut
      → ((recover cut).0 ≡ reemit_committed p.txn.next_root)
        × ((recover cut).1.active ≡ phase3 app p h)
  unfolding candidate
  recover-CutOff k app p h cut f g n q (before_phase3 chip d) =
      let i = q.index in
      let m = q.movable in
      let c = candidate p (release_of app p h) in
      let app' : Appliance t.Chip = record (cut_off app p h chip) {
        tropic = (t.counter_get chip).1;
      } in
      let live_u = app.h0 - laws.counter chip in
      let keeps = laws.get_keeps chip in
      rw (recover_reads k (cut_off app p h chip) f g refl (ground arith)) (elim d [
        | inl e ↦ completes k c live_u app' refl q.parent (omega arith) (omega arith)
        | inr e ↦ notices c live_u app' refl (omega arith)
      ])
  recover-CutOff k app p h cut f g n q (in_phase3 chip e) =
      let i = q.index in
      let c = mark_committed (candidate p (release_of app p h)) in
      let app' : Appliance t.Chip = record (marked_off app p h chip) {
        tropic = (t.counter_get chip).1;
      } in
      let live_u = app.h0 - laws.counter chip in
      rw (recover_reads k (marked_off app p h chip) f g refl (ground arith))
        (sets_index c live_u app' refl (omega arith))

  -- A power loss inside `commit` is made good. For a device that satisfies its invariant, has no
  -- boot flag set, and holds a prepared record that passes the checks of `commit`, on a chip that
  -- works: if the power fails after the candidate is durable, whether the counter has moved by then
  -- or not, and whether the record is marked before its index is set or not, boot recovery reports
  -- the re-emission of the record's successor root, reaches the active state that `commit` would
  -- have reached, and `emit` then exports the release that it would have exported.
  pub interrupted_commit_completes :
      Works laws
      → (app : Appliance t.Chip) (p : PreparedRecord) (h : ℕ) (cut : Appliance t.Chip) → Inv app
      → app.firmware_boundary_invalid ≡ false
      → app.rmemory_map_invalid ≡ false
      → app.active.record_ ≡ Record.prepared p
      → Passes app p h
      → CutOff app p h cut
      → ((recover cut).0 ≡ reemit_committed p.txn.next_root)
        × ((recover cut).1.active ≡ (commit app).1.active)
        × (emit (recover cut).1 ≡ ok (release_of app p h))
        × (emit (commit app).1 ≡ ok (release_of app p h))
  unfolding candidate
  interrupted_commit_completes k app p h cut v f g r q d =
      let i = q.index in
      let m = q.movable in
      let step = (RecordInv-prepared app p v r).next_index in
      let same : h ≡ laws.counter app.tropic = laws.get_value app.tropic q.reads in
      let commits = commit_works laws k app p r q.key q.parent (omega arith) (omega arith) in
      let after = (commit-Committed laws app p r step commits).active in
      let (o, a) = recover-CutOff k app p h cut f g step q d in
      let same_active : (recover cut).1.active ≡ (commit app).1.active =
        a ∙ ap (phase3 app p) same ∙ sym after in
      let c = mark_committed (candidate p (release_of app p h)) in
      let recovered : (recover cut).1.active.record_ ≡ Record.committed c =
        ap (λ (x : Active). x.record_) a in
      let committed : (commit app).1.active.record_ ≡ Record.committed c =
        ap (λ (x : Active). x.record_) (sym same_active) ∙ recovered in
      (
        o,
        same_active,
        emit_succeeds laws (recover cut).1 c recovered refl,
        emit_succeeds laws (commit app).1 c committed refl,
      )
