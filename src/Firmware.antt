-- ===== src/Firmware.antt =====
-- firmware/src/main.rs: the chip bridge, enrolment, the secure core and the trivial verifiers of the
-- self-test. A session with TROPIC01 is the crate `tropic01`'s, and taken from outside.
pub mod Paced
pub mod Entropy
pub mod Receive
pub mod Framing
pub mod Reassembly
pub mod Served
pub mod SelfTest
pub mod Enrolment
pub mod Boot
pub mod Phases
pub mod Startup
pub mod Safety
pub mod Output
pub mod Port
pub mod Report
use Prim.Native.String.{String}
use dsm_unplugged.Common.{
  ℕ, ◌*◌, Bool, true, List, [], ◌∷◌, Array, fill, to_vec, Option, none, some, Result, ok, err,
  ok_or, map_err,
}
use dsm_unplugged.Hash.{Blake3}
use dsm_unplugged.Tropic.{TropicError, comm, counter_exhausted, Tropic}
use dsm_unplugged.RootAdvance.{Transition, CounterEvidence}
use dsm_unplugged.Sig.{wots_blake3}
use dsm_unplugged.Appliance.{Appliance, new}
use dsm_unplugged.Accept.{DsmVerifier, CounterVerifier}
use dsm_unplugged.Proto.{Prost, encode_request, decode_response}
use dsm_unplugged.Proto.Pb
use dsm_unplugged.Service.{handle}

abbrev pub md_slot : ℕ
md_slot = 5

abbrev pub enroll_h0 : ℕ
enroll_h0 = 1000

abbrev pub anchor : Array 32
anchor = fill 32 0xA0

abbrev pub policy : Array 32
policy = fill 32 0xB0

abbrev pub genesis : Array 32
genesis = fill 32 0x00

abbrev pub next_root : Array 32
next_root = fill 32 0x11

abbrev pub u_arm0 : Array 32
u_arm0 = fill 32 0xAA

abbrev pub receiver_challenge : Array 32
receiver_challenge = fill 32 0x55

-- An active session, on monotonic counter 0. `none` is any error of the crate.
pub record Session : Type 1 where
  pub Chip : Type 0
  pub mac_and_destroy : ℕ → Array 32 → Chip → Option (Array 32) × Chip
  pub mcounter_init : ℕ → Chip → Option (Unit {0}) × Chip
  pub mcounter_get : Chip → Option ℕ × Chip
  pub mcounter_update : Chip → Option (Unit {0}) × Chip

module _ ⦃sess : Session⦄ where
  -- `impl Tropic for ChipTropic`.
  instance abbrev pub chip_tropic : Tropic
  chip_tropic = record {
    Chip = sess.Chip;
    mac_and_destroy = λ q x c. let (r, c') = sess.mac_and_destroy q x c in (ok_or r comm, c');
    counter_get = λ c. let (r, c') = sess.mcounter_get c in (ok_or r comm, c');
    counter_update = λ c. let (r, c') = sess.mcounter_update c in (ok_or r counter_exhausted, c');
  }

  -- Enrol the chip: set the counter, read it back, and arm the slot. The error is the step's name.
  unfoldable pub enroll : sess.Chip → Result ℕ String × sess.Chip
  enroll c =
      let (r1, c1) = sess.mcounter_init enroll_h0 c in
      elim r1 [
        | none ↦ (err "mcounter_init", c1)
        | some _ ↦
            let (r2, c2) = sess.mcounter_get c1 in
            elim r2 [
              | none ↦ (err "mcounter_get", c2)
              | some h0 ↦
                  let (r3, c3) = sess.mac_and_destroy md_slot u_arm0 c2 in
                  elim r3 [ none ↦ (err "enroll-arm", c3) | some _ ↦ (ok h0, c3) ]
            ]
      ]

-- `TrivialDsm`.
abbrev pub trivial_dsm : DsmVerifier
trivial_dsm = record {
  root_commits_counter = λ _ _. true;
  verify_transition = λ _. true;
  delivers_to_receiver = λ _. true;
}

-- `SelfCounter`.
abbrev pub self_counter : CounterVerifier
self_counter = record { read_authentic_counter = λ _ ev. some ev.live_counter_claim }

module _ ⦃b : Blake3⦄ ⦃sess : Session⦄ ⦃c : Prost⦄ where
  -- `SecureCore::handle`: the appliance is reached through this function alone.
  unfoldable pub secure_core_handle : Appliance sess.Chip → List ℕ → List ℕ × Appliance sess.Chip
  secure_core_handle app frame = handle app frame
