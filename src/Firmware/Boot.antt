-- ===== src/Firmware/Boot.antt =====
-- firmware/src/main.rs: phase 5 of `main`, up to the serving loop: enrol, build the appliance,
-- recover.
use Prim.Native.String.{String}
use dsm_unplugged.Common.{
  ℕ, ◌<◌, ◌^◌, ◌≡◌, refl, ◌∙◌, inl, inr, Result, ok, err, Result-cases, arith,
}
use dsm_unplugged.Hash.{Blake3}
use dsm_unplugged.Sig.{wots_blake3}
use dsm_unplugged.Appliance.{
  Appliance, Active, Record, Status, new, RecoverOutcome, accept, reemit_committed,
  downgrade_online, fail_closed, exhausted_online_only, accept_prepared_can_complete,
  online_cancel_or_resolve,
}
use dsm_unplugged.Appliance.Recovery.{recover}
use dsm_unplugged.Appliance.Invariant.{Inv, Inv-new}
use dsm_unplugged.Appliance.Settle.{kept, resumed, recover-Settles}
use dsm_unplugged.Appliance.Preserve.{recover-Inv}
use dsm_unplugged.Firmware.{Session, chip_tropic, enroll, md_slot, enroll_h0, anchor, genesis}
use dsm_unplugged.Firmware.Enrolment.{
  SessionLaws, Answers, chip_tropic_laws, enroll_resets, enroll-Answers,
}

-- `.unwrap_or(ENROLL_H0)`
unfoldable pub h0_or_default : Result ℕ String → ℕ
h0_or_default (ok h0) = h0
h0_or_default (err e) = enroll_h0

-- The line that is put on the port.
unfoldable pub recover_message : RecoverOutcome → String
recover_message (accept root) = "[T6] recover: Accept (ready)\r\n"
recover_message (reemit_committed root) = "[T6] recover: ReemitCommitted\r\n"
recover_message downgrade_online = "[T6] recover: DowngradeOnline\r\n"
recover_message fail_closed = "[T6] recover: FailClosed\r\n"
recover_message exhausted_online_only = "[T6] recover: ExhaustedOnlineOnly\r\n"
recover_message accept_prepared_can_complete = "[T6] recover: PreparedCanComplete\r\n"
recover_message online_cancel_or_resolve = "[T6] recover: OnlineCancelOrResolve\r\n"

module _ ⦃sess : Session⦄ where
  -- The appliance that is served.
  unfoldable pub boot_appliance : sess.Chip → Appliance sess.Chip
  boot_appliance chip =
      let (r, chip') = enroll chip in new chip' (h0_or_default r) genesis anchor md_slot

  unfoldable pub boot_serve : sess.Chip → RecoverOutcome × Appliance sess.Chip
  boot_serve chip = recover (boot_appliance chip)

-- The active state of a device that has done nothing yet.
abbrev pub fresh : Active
fresh = record { root = genesis; u = 0; status = Status.ready; record_ = Record.empty }

module _ ⦃sess : Session⦄ (laws : SessionLaws sess) where
  pub h0_range : (chip : sess.Chip) → h0_or_default (enroll chip).0 < 2 ^ 32
  unfolding h0_or_default
  h0_range chip = elim (Result-cases (enroll chip).0) [
    | inl (h0, e) ↦ ground (arith, e, (enroll_resets laws chip e).0)
    | inr (x, e) ↦ ground (arith, e)
  ]

  boot_appliance-Inv : ⦃b : Blake3⦄ (chip : sess.Chip) → Inv (boot_appliance chip)
  unfolding boot_appliance
  boot_appliance-Inv chip =
      Inv-new (enroll chip).1 (h0_or_default (enroll chip).0) genesis anchor md_slot (h0_range chip)

  boot_appliance-fresh : (chip : sess.Chip) → (boot_appliance chip).active ≡ fresh
  unfolding boot_appliance new
  boot_appliance-fresh chip = refl

  -- Whatever the chip answers, also where enrolment fails, the device that is served after boot
  -- recovery satisfies its invariant and is ready at index 0 with the genesis root and no record.
  pub boot_serve-fresh :
      ⦃b : Blake3⦄ (chip : sess.Chip)
      → Inv (boot_serve chip).1 × ((boot_serve chip).1.active ≡ fresh)
  unfolding boot_serve
  boot_serve-fresh chip = (
    recover-Inv (chip_tropic_laws laws) (boot_appliance chip) (boot_appliance-Inv chip),
    elim (recover-Settles (chip_tropic_laws laws) (boot_appliance chip)) [
      | kept a le ↦ a ∙ boot_appliance-fresh chip
      | resumed c r o a n le ↦ cc (boot_appliance-fresh chip)
    ],
  )

  -- On a session that answers, boot recovery accepts the genesis root, whatever the counter was.
  pub boot_serve_accepts :
      Answers sess laws → (chip : sess.Chip) → (boot_serve chip).0 ≡ accept genesis
  unfolding boot_serve boot_appliance new recover h0_or_default
  boot_serve_accepts a chip =
      let e = enroll-Answers laws a chip in
      let full = (enroll_resets laws chip e).1 in
      let c1 = (enroll chip).1 in
      ground (
        arith,
        e,
        full,
        a.get_answers c1,
        laws.get_keeps c1,
        a.get_answers (sess.mcounter_get c1).1,
      )
