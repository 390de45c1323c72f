-- ===== src/Firmware/Safety.antt =====
-- firmware/src/main.rs: what the device sends over USB from boot on.
use dsm_unplugged.Common.{ℕ, ◌≡◌, some, List, [], ◌∷◌}
use dsm_unplugged.Hash.{Blake3}
use dsm_unplugged.Sig.{wots_blake3}
use dsm_unplugged.Appliance.{Appliance}
use dsm_unplugged.Appliance.Trace.{recovers}
use dsm_unplugged.Proto.{Prost, ProstLaws, decode_response}
use dsm_unplugged.Proto.Pb
use dsm_unplugged.Service.{handle}
use dsm_unplugged.Service.History.{
  OneWireReleasePerIndex, hear, Link, asks, silent, Talk, quiet, then_,
}
use dsm_unplugged.Service.Safety.{one_wire_release_per_index}
use dsm_unplugged.Firmware.{
  Session, chip_tropic, enroll, secure_core_handle, md_slot, anchor, genesis,
}
use dsm_unplugged.Firmware.Output.{WriteResult}
use dsm_unplugged.Firmware.Port.{receive_all_on}
use dsm_unplugged.Firmware.Port.Frames.{IsCut, receive_all_on-Serves}
use dsm_unplugged.Firmware.Served.{answers, after}
use dsm_unplugged.Firmware.Enrolment.{SessionLaws, chip_tropic_laws}
use dsm_unplugged.Firmware.Entropy.{Rosc}
use dsm_unplugged.Firmware.Paced.{Timer}
use dsm_unplugged.Firmware.Report.{Display}
use dsm_unplugged.Firmware.Startup.{Handshake, serving, startup, startup-boot_serve}
use dsm_unplugged.Firmware.Boot.{h0_or_default, boot_appliance, boot_serve, h0_range}

-- The releases in a sequence of encoded answers, the latest first.
abbrev pub heard_in : ⦃c : Prost⦄ → List (List ℕ) → List Pb.OfflineRelease → List Pb.OfflineRelease
heard_in [] log = log
heard_in (r ∷ rs) log = heard_in rs (hear (decode_response r) log)

module _ ⦃b : Blake3⦄ ⦃sess : Session⦄ ⦃c : Prost⦄ (laws : SessionLaws sess) where
  frames-Talk :
      {l : Link (chip_tropic_laws laws)} (app : Appliance sess.Chip) (log : List Pb.OfflineRelease)
      (frames : List (List ℕ))
      → Talk (chip_tropic_laws laws) l (record { app = app; heard = log })
      → Talk (chip_tropic_laws laws) l (record {
        app = after secure_core_handle app frames;
        heard = heard_in (answers secure_core_handle app frames) log;
      })
  unfolding secure_core_handle
  frames-Talk app log [] k = k
  frames-Talk app log (f ∷ fs) k =
      frames-Talk (handle app f).1 (hear (decode_response (handle app f).0) log) fs
        (then_ k (asks (record { app = app; heard = log }) f))

  boot_serve_one_release_per_index :
      ProstLaws c
      → (chip : sess.Chip) (ws : List WriteResult) (chunks : List (List ℕ))
      → (frames : List (List ℕ)) × IsCut
          (answers secure_core_handle (boot_serve chip).1 frames)
          (receive_all_on secure_core_handle ws (boot_serve chip).1 [] chunks).out
        × OneWireReleasePerIndex
            (heard_in (answers secure_core_handle (boot_serve chip).1 frames) [])
  unfolding boot_serve boot_appliance
  boot_serve_one_release_per_index codec chip ws chunks =
      let app0 = (boot_appliance chip) in
      let app = (boot_serve chip).1 in
      let z = receive_all_on-Serves secure_core_handle ws app [] chunks in
      let start : Link (chip_tropic_laws laws) = record { app = app0; heard = [] } in
      let booted =
        then_ quiet (silent start app (λ log. recovers (record { app = app0; released = log }))) in
      (
        z.frames,
        z.cut,
        one_wire_release_per_index (chip_tropic_laws laws) codec (enroll chip).1
            (h0_or_default (enroll chip).0) genesis anchor md_slot
            (record {
              app = after secure_core_handle app z.frames;
              heard = heard_in (answers secure_core_handle app z.frames) [];
            })
            (h0_range laws chip) (frames-Talk app [] z.frames booted),
      )

module _ ⦃b : Blake3⦄ ⦃sess : Session⦄ ⦃c : Prost⦄ ⦃r : Rosc⦄ ⦃t : Timer⦄ ⦃f : Display⦄
    ⦃hs : Handshake sess⦄ (laws : SessionLaws sess) where
  -- When `main` has come to serve an appliance, then whatever bytes arrive over USB and in whatever
  -- chunks, and whatever the port answers to the writes, what the port took is cut from the framed
  -- answers to some frames, in order, and the releases in those answers are never two different ones
  -- for one anchor index. The chip session is assumed to keep the laws of its down-counter, and the
  -- codec to read back what it wrote.
  pub served_one_release_per_index :
      ProstLaws c
      → (rounds : ℕ) (raw : hs.Raw) (rosc : r.State) (s : t.State) (log : List (List ℕ))
        (app : Appliance sess.Chip)
      → startup rounds raw rosc s ≡ some (serving log app)
      → (ws : List WriteResult) (chunks : List (List ℕ))
      → (frames : List (List ℕ)) × IsCut
          (answers secure_core_handle app frames)
          (receive_all_on secure_core_handle ws app [] chunks).out
        × OneWireReleasePerIndex (heard_in (answers secure_core_handle app frames) [])
  served_one_release_per_index codec rounds raw rosc s log app e ws chunks =
      let (chip, same) = startup-boot_serve laws rounds raw rosc s log app e in
      rw same (boot_serve_one_release_per_index laws codec chip ws chunks)
