-- ===== src/Appliance/Commit.antt =====
-- anchor-core/src/appliance.rs: what `commit` does on every path, and when it moves the counter.
use dsm_unplugged.Common.{
  ℕ, ◌+◌, ◌<◌, ◌≡◌, ◌⊎◌, inl, inr, Bool, true, false, not, ◌&&◌, Result, ok, err, ◌==◌, checked_sub,
  is_some_of, arith, Result-cases, Bool-cases,
}
use dsm_unplugged.Util.{ct_eq_32}
use dsm_unplugged.Util.CtEq.{eq-ct_eq_32}
use dsm_unplugged.Hash.{Blake3}
use dsm_unplugged.Tropic.{TropicError, Tropic, WitnessSig}
use dsm_unplugged.Appliance.{
  Status, ApplianceError, counter_exhausted, wrong_state, Record, Active, Appliance, PreparedRecord,
  CommittedRecord,
}
use dsm_unplugged.Appliance.Operations.{commit, candidate, release_of, is_empty, mark_committed}
use dsm_unplugged.Appliance.Prepare.{SameDevice}

module _ ⦃b : Blake3⦄ ⦃t : Tropic⦄ ⦃s : WitnessSig⦄ where
  -- All checks of `commit` before its first durable phase, at a counter value `h`.
  passes : Appliance t.Chip → PreparedRecord → ℕ → Bool
  passes app p h =
      not (is_empty p.sk_hw)
      && (ct_eq_32 p.txn.prev_root app.active.root
          && (not (h == 0) && is_some_of (checked_sub app.h0 h) p.txn.anchor_counter))

  -- What the checks mean.
  pub record Passes (app : Appliance t.Chip) (p : PreparedRecord) (h : ℕ) : Type 0 where
    pub key : is_empty p.sk_hw ≡ false
    pub parent : p.txn.prev_root ≡ app.active.root
    pub reads : (t.counter_get app.tropic).0 ≡ ok h
    pub movable : 0 < h
    pub index : p.txn.anchor_counter + h ≡ app.h0

  -- The active state after phase 1, and after phase 3.
  abbrev pub phase1 : Appliance t.Chip → PreparedRecord → ℕ → Active
  phase1 app p h = record app.active {
    status = Status.committed;
    record_ = Record.committed (candidate p (release_of app p h));
  }

  abbrev pub phase3 : Appliance t.Chip → PreparedRecord → ℕ → Active
  phase3 app p h = record app.active {
    u = p.txn.next_anchor_counter;
    status = Status.committed;
    record_ = Record.committed (mark_committed (candidate p (release_of app p h)));
  }

  -- The chip after the read and the update of `commit`.
  abbrev pub moved : Appliance t.Chip → Result (Unit {0}) TropicError × t.Chip
  moved app = t.counter_update (t.counter_get app.tropic).1

  pub data CommitCase (app : Appliance t.Chip) (p : PreparedRecord) : Type 0 where
    refused :
        (e : ApplianceError)
        → (commit app).0 ≡ err e
        → (commit app).1.active ≡ app.active
        → ((commit app).1.tropic ≡ app.tropic)
          ⊎ ((commit app).1.tropic ≡ (t.counter_get app.tropic).1)
        → CommitCase app p
    interrupted :
        (h : ℕ) (e : TropicError)
        → Passes app p h
        → (moved app).0 ≡ err e
        → (commit app).0 ≡ err counter_exhausted
        → (commit app).1.active ≡ phase1 app p h
        → (commit app).1.tropic ≡ (moved app).1
        → CommitCase app p
    done :
        (h : ℕ)
        → Passes app p h
        → (moved app).0 ≡ ok tt
        → (commit app).0 ≡ ok tt
        → (commit app).1.active ≡ phase3 app p h
        → (commit app).1.tropic ≡ (moved app).1
        → CommitCase app p

  passes-Passes :
      (app : Appliance t.Chip) (p : PreparedRecord) (h : ℕ)
      → passes app p h ≡ true
      → (t.counter_get app.tropic).0 ≡ ok h
      → Passes app p h
  unfolding passes
  passes-Passes app p h e r = ground (arith, eq-ct_eq_32 p.txn.prev_root app.active.root)

  commit_prepared_passed :
      (app : Appliance t.Chip) (p : PreparedRecord) (h : ℕ)
      → app.active.record_ ≡ Record.prepared p
      → passes app p h ≡ true
      → (t.counter_get app.tropic).0 ≡ ok h
      → CommitCase app p
  unfolding passes commit
  commit_prepared_passed app p h r e g = elim (Result-cases (moved app).0) [
    | inl (x, m) ↦
        done h (passes-Passes app p h e g) (ground arith) (ground arith) (ground arith)
          (ground arith)
    | inr (x, m) ↦
        interrupted h x (passes-Passes app p h e g) m (ground arith) (ground arith) (ground arith)
  ]

  commit_prepared_failed :
      (app : Appliance t.Chip) (p : PreparedRecord)
      → app.active.record_ ≡ Record.prepared p
      → ((h : ℕ) → (t.counter_get app.tropic).0 ≡ ok h → passes app p h ≡ false)
      → CommitCase app p
  unfolding passes commit
  commit_prepared_failed app p r f = elim (Result-cases (t.counter_get app.tropic).0) [
    | inl (h, g) ↦
        let no_pass = f h g in
        elim (Result-cases (commit app).0) [
          | inl (x, m) ↦ absurd (ground arith)
          | inr (e, m) ↦ refused e m (ground arith) (ground arith)
        ]
    | inr (x, g) ↦ elim (Result-cases (commit app).0) [
      | inl (y, m) ↦ absurd (ground arith)
      | inr (e, m) ↦ refused e m (ground arith) (ground arith)
    ]
  ]

  -- On a prepared record `commit` does one of three things. It refuses and leaves the active state
  -- and all but the read of the chip alone; or its checks pass, the candidate is durable, and the
  -- counter update is reported as failed; or all three phases are done. Nothing else is possible.
  pub commit-CommitCase :
      (app : Appliance t.Chip) (p : PreparedRecord)
      → app.active.record_ ≡ Record.prepared p
      → CommitCase app p
  commit-CommitCase app p r = elim (Result-cases (t.counter_get app.tropic).0) [
    | inl (h, g) ↦ elim (Bool-cases (passes app p h)) [
      | inl e ↦ commit_prepared_passed app p h r e g
      | inr e ↦ commit_prepared_failed app p r (λ k q. cc)
    ]
    | inr (x, g) ↦ commit_prepared_failed app p r (λ k q. cc)
  ]

  pub commit_empty :
      (app : Appliance t.Chip)
      → app.active.record_ ≡ Record.empty
      → commit app ≡ (err wrong_state, app)
  unfolding commit
  commit_empty app r = ground arith

  pub commit_committed :
      (app : Appliance t.Chip) (c : CommittedRecord)
      → app.active.record_ ≡ Record.committed c
      → commit app ≡ (err wrong_state, app)
  unfolding commit
  commit_committed app c r = ground arith

  pub commit-SameDevice : (app : Appliance t.Chip) → SameDevice app (commit app).1
  unfolding commit
  commit-SameDevice app = ground arith
