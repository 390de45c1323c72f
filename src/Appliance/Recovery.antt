-- ===== src/Appliance/Recovery.antt =====
-- anchor-core/src/appliance.rs: `recover`, the power-loss recovery.
use dsm_unplugged.Common.{ℕ, ◌+◌, Bool, false, not, ◌||◌, Array, ok, err, ltb, ◌==◌, if◌then◌else◌}
use dsm_unplugged.Util.{ct_eq_32}
use dsm_unplugged.Tropic.{Tropic}
use dsm_unplugged.Appliance.{
  Status, CommittedRecord, Record, Appliance, RecoverOutcome, accept, reemit_committed,
  downgrade_online, fail_closed, exhausted_online_only, accept_prepared_can_complete,
  online_cancel_or_resolve,
}
use dsm_unplugged.Appliance.Operations.{is_empty, mark_committed, live_index}

module _ ⦃t : Tropic⦄ where
  abbrev pub Outcome : Type 0
  Outcome = RecoverOutcome × Appliance t.Chip

  -- The flag is set and the index moves to the record's.
  unfoldable pub mark_active : CommittedRecord → Appliance t.Chip → Appliance t.Chip
  mark_active c app = record app {
    active = record app.active {
      u = c.next_anchor_counter;
      record_ = Record.committed (mark_committed c);
    };
  }

  -- A durable release whose counter has not moved: the counter commit is completed.
  unfoldable pub complete_commit : CommittedRecord → Appliance t.Chip → Outcome
  unfolding mark_active
  complete_commit c app =
      if not (ct_eq_32 c.prev_root app.active.root)
      then (downgrade_online, app)
      else (let (r, chip) = t.counter_update app.tropic in
          let app' = record app { tropic = chip } in
          elim r [
            | ok _ ↦ (reemit_committed c.next_root, mark_active c app')
            | err _ ↦ (downgrade_online, app')
          ])

  -- `live_u` is a u32, so `live_u + 1` does not wrap on u64.
  unfoldable pub recover_committed : Record → ℕ → Appliance t.Chip → Outcome
  unfolding complete_commit
  recover_committed Record.empty live_u app = (downgrade_online, app)
  recover_committed (Record.prepared p) live_u app = (downgrade_online, app)
  recover_committed (Record.committed c) live_u app =
      if c.committed
      then (if not (c.next_anchor_counter == live_u) then (downgrade_online, app) else (
        reemit_committed c.next_root,
        record app { active = record app.active { u = c.next_anchor_counter } },
      ))
      else (if c.next_anchor_counter == live_u + 1
          then complete_commit c app
          else (if c.next_anchor_counter == live_u
              then (reemit_committed c.next_root, mark_active c app)
              else (downgrade_online, app)))

  unfoldable pub parent_ok : Record → Array 32 → Bool
  parent_ok (Record.prepared p) root = ct_eq_32 p.txn.prev_root root
  parent_ok Record.empty root = false
  parent_ok (Record.committed c) root = false

  unfoldable pub key_present : Record → Bool
  key_present (Record.prepared p) = not (is_empty p.sk_hw)
  key_present Record.empty = false
  key_present (Record.committed c) = false

  unfoldable pub recover_prepared : ℕ → Appliance t.Chip → Outcome
  unfolding parent_ok key_present
  recover_prepared live_u app =
      if not (app.active.u == live_u)
      then (downgrade_online, app)
      else (if not (parent_ok app.active.record_ app.active.root)
          then (downgrade_online, app)
          else (if key_present app.active.record_
              then (accept_prepared_can_complete, app)
              else (online_cancel_or_resolve, app)))

  unfoldable pub recover_ready : ℕ → Appliance t.Chip → Outcome
  recover_ready live_u app =
      if ltb app.active.u live_u
      then (downgrade_online, app)
      else (if ltb live_u app.active.u
          then (fail_closed, app)
          else (let (r, chip) = t.counter_get app.tropic in
              let app' = record app { tropic = chip } in
              elim r [
                | ok h ↦
                    if h == 0 then (exhausted_online_only, app') else (accept app.active.root, app')
                | err _ ↦ (downgrade_online, app')
              ]))

  unfoldable pub recover_at : Status → ℕ → Appliance t.Chip → Outcome
  unfolding recover_committed recover_prepared recover_ready
  recover_at Status.committed live_u app = recover_committed app.active.record_ live_u app
  recover_at Status.prepared live_u app = recover_prepared live_u app
  recover_at Status.ready live_u app = recover_ready live_u app

  unfoldable pub recover : Appliance t.Chip → Outcome
  unfolding live_index recover_at
  recover app =
      if app.firmware_boundary_invalid || app.rmemory_map_invalid
      then (downgrade_online, app)
      else (let (r, app') = live_index app in
          elim r [
            | ok live_u ↦ recover_at app'.active.status live_u app'
            | err _ ↦ (downgrade_online, app')
          ])
