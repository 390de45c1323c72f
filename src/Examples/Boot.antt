-- ===== src/Examples/Boot.antt =====
-- firmware/src/main.rs: boot on a session that is its counter.
use dsm_unplugged.Common.{
  ℕ, zero, suc, ◌+◌, ◌*◌, ◌/◌, ◌%◌, ◌^◌, ◌≤◌, ◌<◌, ◌≡◌, refl, inl, true, List, [], ◌∷◌, ◌++◌, All,
  Array, fill, Option, none, some, arith,
}
use dsm_unplugged.Common.{to_vec}
use dsm_unplugged.Sig.{wots_blake3}
use dsm_unplugged.Appliance.{Appliance, accept}
use dsm_unplugged.Appliance.Invariant.{Inv}
use dsm_unplugged.Proto.{encode_request}
use dsm_unplugged.Service.History.{OneWireReleasePerIndex}
use dsm_unplugged.Firmware.{secure_core_handle, Session, genesis}
use dsm_unplugged.Firmware.Enrolment.{SessionLaws, Answers}
use dsm_unplugged.Firmware.Receive.{framed}
use dsm_unplugged.Firmware.Output.{WriteResult, wrote, would_block, failed}
use dsm_unplugged.Firmware.Port.{receive_all_on}
use dsm_unplugged.Firmware.Port.Frames.{IsCut}
use dsm_unplugged.Firmware.Served.{answers}
use dsm_unplugged.Firmware.Safety.{heard_in, served_one_release_per_index}
use dsm_unplugged.Service.History.{OneWireReleasePerIndex}
use dsm_unplugged.Proto.{encode_request}
use dsm_unplugged.Firmware.Boot.{fresh}
use dsm_unplugged.Firmware.SelfTest.{prepare_request}
use dsm_unplugged.Service.Transfer.{op_request, FitsFrame}
use dsm_unplugged.Firmware.Startup.{
  Handshake, serving, connect, startup, greeting, bringup, passed_line, startup_opened,
  startup_serves, startup-fresh,
}
use dsm_unplugged.Firmware.Entropy.{Rosc}
use dsm_unplugged.Firmware.Paced.{Timer, TimerLaws, reading, repeat_report}
use dsm_unplugged.Firmware.Report.{Display, report}
use dsm_unplugged.Firmware.Phases.{boot}
use dsm_unplugged.Firmware.SelfTest.Passes.{self_test_requests}
use dsm_unplugged.Examples.{length_hash}
use dsm_unplugged.Examples.Codec.{wire_codec, wire_codec-ProstLaws}

abbrev lower : ℕ → Option (Unit {0}) × ℕ
lower zero = (none, 0)
lower (suc n) = (some tt, n)

instance abbrev pub counter_session : Session
counter_session = record {
  Chip = ℕ;
  mac_and_destroy = λ q x c. (some (fill 32 9), c);
  mcounter_init = λ n c. (some tt, n);
  mcounter_get = λ c. (some c, c);
  mcounter_update = lower;
}

lower-some : (c : ℕ) → (lower c).0 ≡ some tt → c ≡ suc (lower c).1
lower-some zero h = cc
lower-some (suc n) h = refl

lower-none : (c : ℕ) → (lower c).0 ≡ none → c ≡ (lower c).1
lower-none zero h = refl
lower-none (suc n) h = cc

lower_positive : (c : ℕ) → 0 < c → (lower c).0 ≡ some tt
lower_positive zero h = absurd (omega arith)
lower_positive (suc n) h = refl

unfoldable pub counter_session_laws : SessionLaws counter_session
unfolding lower-some lower-none
counter_session_laws = record {
  counter = λ c. c;
  init_sets = λ n c h. refl;
  get_value = λ c h. cc;
  get_keeps = λ c. refl;
  mac_keeps = λ q x c. refl;
  update_ok = lower-some;
  update_err = λ c h. inl (lower-none c h);
}

pub counter_session-Answers : Answers counter_session counter_session_laws
unfolding counter_session_laws
counter_session-Answers = record {
  init_answers = λ n c. refl;
  get_answers = λ c. refl;
  mac_answers = λ q x c. (fill 32 9, refl);
  update_answers = lower_positive;
}

self_test_requests-FitsFrame : All (FitsFrame wire_codec) self_test_requests
unfolding prepare_request to_vec
self_test_requests-FitsFrame =
    (omega arith, (omega arith, (omega arith, (omega arith, (omega arith, tt)))))

-- A chip that opens its session at a counter of 3, on an oscillator of ones.
instance abbrev open_handshake : Handshake counter_session
open_handshake = record {
  Raw = Unit;
  Secret = Array 32;
  Public = Array 32;
  secret_from = λ eh. eh;
  public_from = λ eh. eh;
  get_info_chip_id = λ raw. (true, raw);
  session_start = λ raw pub_key key slot. some 3;
}

instance abbrev ones_rosc : Rosc
ones_rosc = record { State = Unit; get_random_bit = λ st. (true, st) }

-- A timer that is read every second.
instance abbrev second_timer : Timer
second_timer = record {
  State = ℕ;
  get_counter = λ n. (n * 1_000_000, suc n);
  to_millis = λ d. d / 1000;
}

second_timer-TimerLaws : TimerLaws second_timer
second_timer-TimerLaws = record { monotone = λ n. omega arith; millis = λ d. omega arith }

-- A formatter that writes one digit.
instance abbrev digit_display : Display
digit_display = record {
  decimal = λ n. (48 + n % 10) ∷ [];
  truth = λ v. 48 ∷ [];
  decimal_size = λ n h. omega arith;
  truth_size = λ v. omega arith;
}

session_opens : (connect tt tt).1 ≡ some 3
unfolding connect
session_opens = refl

reaches : (reading 0 0 + 4_000_000 < 2 ^ 64) × (reading 0 0 + 4_000_000 ≤ reading 9 0)
unfolding reading
reaches = (omega arith, omega arith)

startup_serves_example :
    (n : ℕ) × (app : Appliance ℕ) × (n ≤ 2)
    × (startup 8 tt tt 0
        ≡ some (serving (greeting (connect tt tt).0 ++ bringup passed_line n (accept genesis)) app))
    × Inv app
    × (app.active ≡ fresh)
startup_serves_example =
    startup_serves counter_session_laws counter_session-Answers wire_codec-ProstLaws
      second_timer-TimerLaws self_test_requests-FitsFrame 7 tt tt 0 3 session_opens reaches.0
      reaches.1

reports_twice : repeat_report 8 0 ≡ some (1, 6)
unfolding repeat_report
reports_twice = refl

-- The device that is served, and what has been put on the port by then.
abbrev app_up : Appliance ℕ
app_up = (boot 3).1.1

abbrev log_up : List (List ℕ)
log_up = greeting (connect tt tt).0 ++ bringup (report (boot 3).0) 1 (boot 3).1.0

comes_up : startup 8 tt tt 0 ≡ some (serving log_up app_up)
comes_up = startup_opened counter_session_laws 8 tt tt 0 3 (1, 6) session_opens reports_twice

startup-fresh_example : Inv app_up × (app_up.active ≡ fresh)
startup-fresh_example = startup-fresh counter_session_laws 8 tt tt 0 log_up app_up comes_up

-- Three requests, framed as a host does, in one chunk each.
abbrev host_chunks : List (List ℕ)
host_chunks =
    framed (encode_request prepare_request)
    ∷ framed (encode_request (op_request 2))
    ∷ framed (encode_request (op_request 3))
    ∷ []

-- A port that takes two bytes, is busy, and then fails.
abbrev failing_port : List WriteResult
failing_port = wrote 2 ∷ would_block ∷ failed ∷ []

served_one_release_per_index_example :
    (frames : List (List ℕ)) × IsCut
      (answers secure_core_handle app_up frames)
      (receive_all_on secure_core_handle failing_port app_up [] host_chunks).out
    × OneWireReleasePerIndex (heard_in (answers secure_core_handle app_up frames) [])
served_one_release_per_index_example =
    served_one_release_per_index counter_session_laws wire_codec-ProstLaws 8 tt tt 0 log_up app_up
      comes_up failing_port host_chunks
