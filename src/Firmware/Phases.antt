-- ===== src/Firmware/Phases.antt =====
-- firmware/src/main.rs: phases 4 and 5 of `main` on one chip, up to the serving loop.
use Prim.Native.String.{String}
use dsm_unplugged.Common.{◌≡◌, true, All, Result, ok}
use dsm_unplugged.Hash.{Blake3}
use dsm_unplugged.Appliance.{Appliance, RecoverOutcome, accept}
use dsm_unplugged.Appliance.Invariant.{Inv}
use dsm_unplugged.Sig.{wots_blake3}
use dsm_unplugged.Proto.{Prost, ProstLaws}
use dsm_unplugged.Firmware.{Session, genesis}
use dsm_unplugged.Firmware.Enrolment.{SessionLaws, Answers}
use dsm_unplugged.Firmware.Boot.{boot_serve, fresh, boot_serve-fresh, boot_serve_accepts}
use dsm_unplugged.Firmware.SelfTest.{SelfTest, boot_self_test, pass}
use dsm_unplugged.Service.Transfer.{FitsFrame}
use dsm_unplugged.Firmware.SelfTest.Passes.{self_test_requests}
use dsm_unplugged.Firmware.SelfTest.Outcome.{boot_self_test_passes}

module _ ⦃b : Blake3⦄ ⦃sess : Session⦄ ⦃c : Prost⦄ where
  -- The self-test on an appliance of its own, and then, on the chip that it leaves, the appliance
  -- that is served.
  unfoldable pub boot : sess.Chip → Result SelfTest String × (RecoverOutcome × Appliance sess.Chip)
  boot chip = let (st, chip') = boot_self_test chip in (st, boot_serve chip')

  -- Boot goes through whatever the chip's counter was. On a session that keeps the laws of the chip
  -- and answers, with a codec that reads back what it wrote and encodes the five requests within the
  -- frame ceiling, the self-test passes; and although it has moved the counter, the device that is
  -- then served satisfies its invariant, is ready at index 0 with the genesis root and no record, and
  -- boot recovery accepts that root.
  pub boot_passes :
      (laws : SessionLaws sess) (answers : Answers sess laws) (codec : ProstLaws c)
      (chip : sess.Chip)
      → All (FitsFrame c) self_test_requests
      → ((st : SelfTest) × ((boot chip).0 ≡ ok st) × (pass st ≡ true))
        × ((boot chip).1.0 ≡ accept genesis)
        × Inv (boot chip).1.1
        × ((boot chip).1.1.active ≡ fresh)
  unfolding boot
  boot_passes laws answers codec chip fits =
      let served = boot_serve-fresh laws (boot_self_test chip).1 in
      (
        boot_self_test_passes laws answers codec chip fits,
        boot_serve_accepts laws answers (boot_self_test chip).1,
        served.0,
        served.1,
      )
