-- ===== src/Firmware/Startup.antt =====
-- firmware/src/main.rs: `main` from phase 2 on, up to the serving loop: the chip's identity, the
-- session, the self-test with its report, and the appliance that is served.
use dsm_unplugged.Common.{
  ℕ, suc, ◌+◌, ◌*◌, ◌≤◌, ◌<◌, ◌^◌, ◌≡◌, refl, ap, ◌∙◌, Bool, true, List, [], ◌∷◌, ◌++◌, concat,
  replicate, Array, All, Option-cases, inl, inr, Option, none, some, ok, if◌then◌else◌, arith,
}
use dsm_unplugged.Domain.{as_bytes}
use dsm_unplugged.Hash.{Blake3}
use dsm_unplugged.Sig.{wots_blake3}
use dsm_unplugged.Appliance.{Appliance, RecoverOutcome, accept}
use dsm_unplugged.Appliance.Invariant.{Inv}
use dsm_unplugged.Proto.{Prost, ProstLaws}
use dsm_unplugged.Firmware.{Session, genesis}
use dsm_unplugged.Firmware.Enrolment.{SessionLaws, Answers}
use dsm_unplugged.Firmware.Entropy.{Rosc, random_bytes}
use dsm_unplugged.Firmware.Paced.{Timer, TimerLaws, repeat_report, reading, timed_loops_end}
use dsm_unplugged.Firmware.SelfTest.{SelfTest, boot_self_test, pass}
use dsm_unplugged.Firmware.SelfTest.Passes.{self_test_requests}
use dsm_unplugged.Firmware.Report.{Display, report, report_pieces, report_whole}
use dsm_unplugged.Firmware.Boot.{recover_message, boot_serve, fresh, boot_serve-fresh}
use dsm_unplugged.Firmware.Phases.{boot, boot_passes}
use dsm_unplugged.Service.Transfer.{FitsFrame}

-- The chip before a session (the crate tropic01, with its pairing keys) and the keys for one (the
-- crate x25519_dalek). `none` is any error of `session_start`.
pub record Handshake (sess : Session) : Type 1 where
  pub Raw : Type 0
  pub Secret : Type 0
  pub Public : Type 0
  pub secret_from : Array 32 → Secret
  pub public_from : Secret → Public
  pub get_info_chip_id : Raw → Bool × Raw
  pub session_start : Raw → Public → Secret → ℕ → Option sess.Chip

-- How far `main` comes, with the messages that it has put on the port: it repeats a message for ever
-- since there is no session, or it serves.
pub data Started (Chip : Type 0) : Type 0 where
  no_session : List (List ℕ) → List ℕ → Started Chip
  serving : List (List ℕ) → Appliance Chip → Started Chip

-- The messages of phases 2 and 3 up to the handshake.
unfoldable pub greeting : Bool → List (List ℕ)
greeting chip_ok =
    as_bytes "[T1] chip id: "
    ∷ as_bytes (if chip_ok then "OK\r\n" else "FAIL\r\n")
    ∷ as_bytes "[T2] handshake (PROD0, slot 0)...\r\n"
    ∷ []

-- The messages from the session on, with the report put once and then `repeats` times.
unfoldable pub bringup : List ℕ → ℕ → RecoverOutcome → List (List ℕ)
bringup line repeats rec =
    (as_bytes "[T2] session=OK\r\n"
      ∷ as_bytes "[T5] self-test (root-advance protocol, secure-core seam)...\r\n"
      ∷ replicate (suc repeats) line)
    ++ (as_bytes "[T6] serving root-advance appliance over USB-CDC (LE32-len-prefixed protobuf)\r\n"
        ∷ as_bytes (recover_message rec)
        ∷ [])

module _ ⦃b : Blake3⦄ ⦃sess : Session⦄ ⦃c : Prost⦄ ⦃r : Rosc⦄ ⦃t : Timer⦄ ⦃f : Display⦄
    ⦃hs : Handshake sess⦄ where
  -- The session that phase 3 asks for, and whether phase 2 read the identity of the chip.
  unfoldable pub connect : hs.Raw → r.State → Bool × Option sess.Chip
  connect raw rosc =
      let (eh, _) = random_bytes 32 rosc in
      let (chip_ok, raw') = hs.get_info_chip_id raw in
      let ehpriv = hs.secret_from eh in
      (chip_ok, hs.session_start raw' (hs.public_from ehpriv) ehpriv 0)

  -- `s` is the timer when the report is put first; the loop of the report has at most `rounds`.
  unfoldable pub startup : ℕ → hs.Raw → r.State → t.State → Option (Started sess.Chip)
  unfolding connect greeting bringup
  startup rounds raw rosc s =
      let (chip_ok, session) = connect raw rosc in
      elim session [
        | none ↦ some (no_session (greeting chip_ok) (as_bytes "[T2] session FAIL\r\n"))
        | some chip ↦
            let (st, served) = boot chip in
            elim (repeat_report rounds s) [
              | none ↦ none
              | some n ↦
                  some (serving (greeting chip_ok ++ bringup (report st) n.0 served.0) served.1)
            ]
      ]

-- The result of a self-test that passes.
abbrev pub passing : SelfTest
passing = record {
  ops_ok = true;
  pk_len = 32;
  sig_len = 67 * 32;
  st_index = 1;
  st_status = 0;
  verify_ok = true;
  frontier_match = true;
}

pass-passing : (st : SelfTest) → pass st ≡ true → st ≡ passing
unfolding pass
pass-passing st h =
    let ops : st.ops_ok ≡ true = ground (arith, h) in
    let pk : st.pk_len ≡ 32 = ground (arith, h) in
    let sig : st.sig_len ≡ 67 * 32 = ground (arith, h) in
    let index : st.st_index ≡ 1 = ground (arith, h) in
    let status : st.st_status ≡ 0 = ground (arith, h) in
    let verify : st.verify_ok ≡ true = ground (arith, h) in
    let frontier : st.frontier_match ≡ true = ground (arith, h) in
    λ i. record {
      ops_ok = ops i;
      pk_len = pk i;
      sig_len = sig i;
      st_index = index i;
      st_status = status i;
      verify_ok = verify i;
      frontier_match = frontier i;
    }

-- The report of a self-test that passes, whole.
abbrev pub passed_line : ⦃f : Display⦄ → List ℕ
passed_line = concat (report_pieces (ok passing))

report-passing : ⦃f : Display⦄ → report (ok passing) ≡ passed_line
report-passing = report_whole (ok passing) (omega arith, omega arith, omega arith, omega arith)

module _ ⦃b : Blake3⦄ ⦃sess : Session⦄ ⦃c : Prost⦄ ⦃r : Rosc⦄ ⦃t : Timer⦄ ⦃f : Display⦄
    ⦃hs : Handshake sess⦄ (laws : SessionLaws sess) where
  pub startup_opened :
      (rounds : ℕ) (raw : hs.Raw) (rosc : r.State) (s : t.State) (chip : sess.Chip)
      (n : ℕ × t.State)
      → (connect raw rosc).1 ≡ some chip
      → repeat_report rounds s ≡ some n
      → startup rounds raw rosc s
        ≡ some (
            serving
              (greeting (connect raw rosc).0 ++ bringup (report (boot chip).0) n.0 (boot chip).1.0)
              (boot chip).1.1)
  unfolding startup
  startup_opened rounds raw rosc s chip n e h = rw (e, h) refl

  -- `main` comes up, and says so. Take a session that keeps the laws of the chip and answers, a codec
  -- that reads back what it wrote and encodes the five requests of the self-test within the frame
  -- ceiling, and a timer whose readings never go back, whose durations of some milliseconds have at
  -- least that many thousands of its counts, and which gets four million counts further within the
  -- rounds allowed, below the end of the u64. If phase 3 opens the session, whether phase 2 could
  -- read the chip's identity or not, then `main` has put on the port exactly the greeting, the
  -- session line, the whole report of a self-test that passed in all its points, once and at most
  -- twice more, and that boot recovery accepts; and it serves a device that satisfies its invariant
  -- and is ready at index 0 with the genesis root and no record.
  pub startup_serves :
      Answers sess laws
      → ProstLaws c
      → TimerLaws t
      → All (FitsFrame c) self_test_requests
      → (k : ℕ) (raw : hs.Raw) (rosc : r.State) (s : t.State) (chip : sess.Chip)
      → (connect raw rosc).1 ≡ some chip
      → reading 0 s + 4_000_000 < 2 ^ 64
      → reading 0 s + 4_000_000 ≤ reading (suc (suc k)) s
      → (n : ℕ) × (app : Appliance sess.Chip) × (n ≤ 2)
        × (startup (suc k) raw rosc s
            ≡ some (
                serving
                  (greeting (connect raw rosc).0 ++ bringup passed_line n (accept genesis))
                  app))
        × Inv app
        × (app.active ≡ fresh)
  startup_serves answers codec ticks fits k raw rosc s chip opened small later =
      let ((st, e, p), accepted, inv, active) = boot_passes laws answers codec chip fits in
      let (n, h, two) = (timed_loops_end ticks k s small later).1 in
      let line : report (boot chip).0 ≡ passed_line =
        ap report (e ∙ ap ok (pass-passing st p)) ∙ report-passing in
      (
        n.0,
        (boot chip).1.1,
        two,
        rw (← line, ← accepted) (startup_opened (suc k) raw rosc s chip n opened h),
        inv,
        active,
      )

  -- The appliance that is served is one that boot made.
  pub startup-boot_serve :
      (rounds : ℕ) (raw : hs.Raw) (rosc : r.State) (s : t.State) (log : List (List ℕ))
      (app : Appliance sess.Chip)
      → startup rounds raw rosc s ≡ some (serving log app)
      → (chip : sess.Chip) × (app ≡ (boot_serve chip).1)
  unfolding startup boot
  startup-boot_serve rounds raw rosc s log app e = elim (Option-cases (connect raw rosc).1) [
    | inl closed ↦ absurd (ground arith)
    | inr (chip, opened) ↦ elim (Option-cases (repeat_report rounds s)) [
      | inl endless ↦ absurd (ground arith)
      | inr (n, h) ↦
          let whole = startup_opened rounds raw rosc s chip n opened h in
          ((boot_self_test chip).1, cc)
    ]
  ]

  -- Whatever the chip and its session answer, also where the self-test or enrolment fails: if `main`
  -- comes to serve an appliance, then that appliance satisfies its invariant and is ready at index 0
  -- with the genesis root and no record. The session is assumed to keep the laws of the chip.
  pub startup-fresh :
      (rounds : ℕ) (raw : hs.Raw) (rosc : r.State) (s : t.State) (log : List (List ℕ))
      (app : Appliance sess.Chip)
      → startup rounds raw rosc s ≡ some (serving log app)
      → Inv app × (app.active ≡ fresh)
  startup-fresh rounds raw rosc s log app e =
      let (chip, same) = startup-boot_serve rounds raw rosc s log app e in
      rw same (boot_serve-fresh laws chip)
