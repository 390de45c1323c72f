-- ===== src/Appliance/Settle.antt =====
-- anchor-core/src/appliance.rs: what `finalize`, `cancel` and `recover` do on every path.
use dsm_unplugged.Common.{
  ℕ, ◌+◌, ◌-◌, ◌≤◌, ◌≡◌, refl, sym, ◌⊎◌, inl, inr, true, ◌||◌, Array, ok, err, ◌==◌, arith,
  Result-cases, Bool-cases,
}
use dsm_unplugged.Util.{ct_eq_32}
use dsm_unplugged.Hash.{Blake3}
use dsm_unplugged.Tropic.{Tropic, WitnessSig, CounterLaws}
use dsm_unplugged.Appliance.{
  Status, ApplianceError, not_committed, wrong_state, Record, Record-cases, Active, Appliance,
  PreparedRecord, CommittedRecord, reemit_committed,
}
use dsm_unplugged.Appliance.Operations.{finalize, cancel, live_index, mark_committed}
use dsm_unplugged.Appliance.Recovery.{
  Outcome, mark_active, complete_commit, recover_committed, recover_prepared, recover_ready,
  recover_at, recover,
}
use dsm_unplugged.Appliance.Prepare.{SameDevice}

-- The active state after `finalize` of a record.
abbrev pub advanced : Active → CommittedRecord → Active
advanced a c = record { root = c.next_root; u = a.u; status = Status.ready; record_ = Record.empty }

-- The active state after a record is marked committed.
abbrev pub marked : Active → CommittedRecord → Active
marked a c = record a { u = c.next_anchor_counter; record_ = Record.committed (mark_committed c) }

mark_committed_self : (c : CommittedRecord) → c.committed ≡ true → mark_committed c ≡ c
mark_committed_self c f = λ i. record c { committed = sym f i }

module _ ⦃b : Blake3⦄ ⦃t : Tropic⦄ ⦃s : WitnessSig⦄ where
  pub finalize-SameDevice : (app : Appliance t.Chip) → SameDevice app (finalize app).1
  unfolding finalize
  finalize-SameDevice app = ground arith

  pub finalize_err :
      (app : Appliance t.Chip) {e : ApplianceError}
      → (finalize app).0 ≡ err e
      → (finalize app).1.active ≡ app.active
  unfolding finalize
  finalize_err app h = ground arith

  finalize_uncommitted :
      (app : Appliance t.Chip)
      → (app.active.record_ ≡ Record.empty)
        ⊎ ((p : PreparedRecord) × (app.active.record_ ≡ Record.prepared p))
      → finalize app ≡ (err not_committed, app)
  unfolding finalize
  finalize_uncommitted app (inl e) = ground arith
  finalize_uncommitted app (inr (p, e)) = ground arith

  finalize_on :
      (app : Appliance t.Chip) (c : CommittedRecord) {root : Array 32}
      → app.active.record_ ≡ Record.committed c
      → (finalize app).0 ≡ ok root
      → (c.committed ≡ true)
        × (root ≡ c.next_root)
        × ((t.counter_get app.tropic).0 ≡ ok (app.h0 - app.active.u))
        × (app.active.u ≤ app.h0)
        × ((finalize app).1.active ≡ advanced app.active c)
  unfolding finalize
  finalize_on app c r h = ground arith

  -- `finalize` succeeds only on a record whose counter has moved, while the live index is the active
  -- one, and then installs the record's successor root at an unchanged index.
  pub finalize_ok :
      (app : Appliance t.Chip) {root : Array 32}
      → (finalize app).0 ≡ ok root
      → (c : CommittedRecord) × (app.active.record_ ≡ Record.committed c)
        × (c.committed ≡ true)
        × (root ≡ c.next_root)
        × ((t.counter_get app.tropic).0 ≡ ok (app.h0 - app.active.u))
        × (app.active.u ≤ app.h0)
        × ((finalize app).1.active ≡ advanced app.active c)
  finalize_ok app h = elim (Record-cases app.active.record_) [
    | inl e ↦ cc (finalize_uncommitted app (inl e))
    | inr (inl (p, e)) ↦ cc (finalize_uncommitted app (inr (p, e)))
    | inr (inr (c, e)) ↦ let f = finalize_on app c e h in (c, e, f.0, f.1, f.2, f.3, f.4)
  ]

  pub finalize_chip :
      (app : Appliance t.Chip)
      → ((finalize app).1.tropic ≡ app.tropic)
        ⊎ ((finalize app).1.tropic ≡ (t.counter_get app.tropic).1)
  unfolding finalize
  finalize_chip app = ground arith

  pub cancel-SameDevice : (app : Appliance t.Chip) → SameDevice app (cancel app).1
  unfolding cancel
  cancel-SameDevice app = ground arith

  pub cancel_chip : (app : Appliance t.Chip) → (cancel app).1.tropic ≡ app.tropic
  unfolding cancel
  cancel_chip app = ground arith

  -- `cancel` drops a prepared record, and refuses in any other state without a change.
  pub cancel_cases :
      (app : Appliance t.Chip)
      → (cancel app ≡ (err wrong_state, app))
        ⊎ ((p : PreparedRecord) × (app.active.record_ ≡ Record.prepared p)
            × ((cancel app).0 ≡ ok tt)
            × ((cancel app).1.active
                ≡ record app.active { status = Status.ready; record_ = Record.empty }))
  unfolding cancel
  cancel_cases app = elim (Record-cases app.active.record_) [
    | inl e ↦ inl (ground arith)
    | inr (inl (p, e)) ↦ inr (p, e, ground arith, ground arith)
    | inr (inr (c, e)) ↦ inl (ground arith)
  ]

module _ ⦃t : Tropic⦄ where
  pub recover-SameDevice : (app : Appliance t.Chip) → SameDevice app (recover app).1
  unfolding recover complete_commit mark_active
  recover-SameDevice app = ground arith

module _ ⦃t : Tropic⦄ (laws : CounterLaws t) where
  -- What recovery does to the device `app`, whose counter was at `n`.
  pub data Settles (app : Appliance t.Chip) (o : Outcome) : Type 0 where
    kept :
        o.1.active ≡ app.active → laws.counter o.1.tropic ≤ laws.counter app.tropic → Settles app o
    resumed :
        (c : CommittedRecord)
        → app.active.record_ ≡ Record.committed c
        → o.0 ≡ reemit_committed c.next_root
        → o.1.active ≡ marked app.active c
        → c.next_anchor_counter + laws.counter o.1.tropic ≡ app.h0
        → laws.counter o.1.tropic ≤ laws.counter app.tropic
        → Settles app o

  complete_commit-Settles :
      (c : CommittedRecord) (app : Appliance t.Chip)
      → app.active.record_ ≡ Record.committed c
      → c.next_anchor_counter + laws.counter app.tropic ≡ app.h0 + 1
      → Settles app (complete_commit c app)
  unfolding complete_commit
  complete_commit-Settles c app r e = elim (Bool-cases (ct_eq_32 c.prev_root app.active.root)) [
    | inr d ↦ kept (ground arith) (ground arith)
    | inl d ↦ elim (Result-cases (t.counter_update app.tropic).0) [
      | inl (x, m) ↦
          resumed c r (ground arith) (ground arith) (ground (arith, laws.update_ok app.tropic m))
            (ground (arith, laws.update_ok app.tropic m))
      | inr (x, m) ↦ kept (ground arith) (ground (arith, laws.update_err app.tropic m))
    ]
  ]

  recover_committed-Settles :
      (r : Record) (live_u : ℕ) (app : Appliance t.Chip)
      → app.active.record_ ≡ r
      → live_u + laws.counter app.tropic ≡ app.h0
      → Settles app (recover_committed r live_u app)
  unfolding recover_committed mark_active
  recover_committed-Settles Record.empty live_u app r e = kept refl (omega arith)
  recover_committed-Settles (Record.prepared p) live_u app r e = kept refl (omega arith)
  recover_committed-Settles (Record.committed c) live_u app r e = elim (Bool-cases c.committed) [
    | inl f ↦ elim (Bool-cases (c.next_anchor_counter == live_u)) [
      | inl now ↦
          resumed c r (ground arith) (ground (arith, mark_committed_self c f)) (ground arith)
            (ground arith)
      | inr other ↦ kept (ground arith) (ground arith)
    ]
    | inr f ↦ elim (Bool-cases (c.next_anchor_counter == live_u + 1)) [
      | inl ahead ↦ rw (f, ahead) (complete_commit-Settles c app r (ground arith))
      | inr later ↦ elim (Bool-cases (c.next_anchor_counter == live_u)) [
        | inl now ↦ resumed c r (ground arith) (ground arith) (ground arith) (ground arith)
        | inr other ↦ kept (ground arith) (ground arith)
      ]
    ]
  ]

  recover_prepared-Settles :
      (live_u : ℕ) (app : Appliance t.Chip) → Settles app (recover_prepared live_u app)
  unfolding recover_prepared
  recover_prepared-Settles live_u app = kept (ground arith) (ground arith)

  recover_ready-Settles :
      (live_u : ℕ) (app : Appliance t.Chip) → Settles app (recover_ready live_u app)
  unfolding recover_ready
  recover_ready-Settles live_u app = kept (ground arith) (ground (arith, laws.get_keeps app.tropic))

  recover_at-Settles :
      (st : Status) (live_u : ℕ) (app : Appliance t.Chip)
      → live_u + laws.counter app.tropic ≡ app.h0
      → Settles app (recover_at st live_u app)
  unfolding recover_at
  recover_at-Settles Status.ready live_u app e = recover_ready-Settles live_u app
  recover_at-Settles Status.prepared live_u app e = recover_prepared-Settles live_u app
  recover_at-Settles Status.committed live_u app e =
      recover_committed-Settles app.active.record_ live_u app refl e

  live_index_state :
      (app : Appliance t.Chip)
      → (live_index app).1 ≡ record app { tropic = (t.counter_get app.tropic).1 }
  unfolding live_index
  live_index_state app = ground arith

  -- A live index that is read adds up with the counter to the enrolled value.
  pub live_index_ok :
      (app : Appliance t.Chip) {n : ℕ}
      → (live_index app).0 ≡ ok n
      → n + laws.counter app.tropic ≡ app.h0
  unfolding live_index
  live_index_ok app {n} h = elim (Result-cases (t.counter_get app.tropic).0) [
    | inl (k, e) ↦ ground (arith, laws.get_value app.tropic e)
    | inr (k, e) ↦ absurd (ground arith)
  ]

  Settles-read :
      (app : Appliance t.Chip) {o : Outcome}
      → Settles (record app { tropic = (t.counter_get app.tropic).1 }) o
      → Settles app o
  Settles-read app (kept a l) = kept a (omega (arith, laws.get_keeps app.tropic))
  Settles-read app (resumed c r o a n l) =
      resumed c r o a n (omega (arith, laws.get_keeps app.tropic))

  -- With a chip that keeps the laws of its down-counter, recovery keeps the active state and at most
  -- lowers the counter, or it resumes the committed record that it finds: the record keeps its
  -- release, is marked, and its next index is then the live one.
  pub recover-Settles : (app : Appliance t.Chip) → Settles app (recover app)
  unfolding recover
  recover-Settles app =
      elim (Bool-cases (app.firmware_boundary_invalid || app.rmemory_map_invalid)) [
        | inl f ↦ kept (ground arith) (ground arith)
        | inr f ↦ elim (Result-cases (live_index app).0) [
          | inl (n, e) ↦
              rw (f, e, live_index_state app)
                (Settles-read app (
                  recover_at-Settles app.active.status n _
                    (rw laws.get_keeps (live_index_ok app e))))
          | inr (x, e) ↦
              rw (f, e, live_index_state app) (kept refl (omega (arith, laws.get_keeps app.tropic)))
        ]
      ]
