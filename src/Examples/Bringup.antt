-- ===== src/Examples/Bringup.antt =====
-- firmware/src/main.rs: the random bytes and the timed loops on a concrete oscillator and timer.
use dsm_unplugged.Common.{ℕ, suc, ◌*◌, ◌/◌, ◌%◌, ◌≤◌, ◌≡◌, some, ◌==◌, arith}
use dsm_unplugged.Firmware.Entropy.{Rosc, Holds, random_bytes_hold}
use dsm_unplugged.Firmware.Paced.{Timer, TimerLaws, reading, probe, repeat_report, timed_loops_end}

-- An oscillator that gives the binary digits of its state.
instance abbrev digit_rosc : Rosc
digit_rosc = record { State = ℕ; get_random_bit = λ n. (n % 2 == 1, n / 2) }

random_bytes_hold_example : Holds 2 54321
random_bytes_hold_example = random_bytes_hold 2 54321

-- A timer that is read every 600 milliseconds.
instance abbrev steady_timer : Timer
steady_timer = record {
  State = ℕ;
  get_counter = λ n. (n * 600_000, suc n);
  to_millis = λ d. d / 1000;
}

steady_timer-TimerLaws : TimerLaws steady_timer
steady_timer-TimerLaws = record { monotone = λ n. omega arith; millis = λ d. omega arith }

timed_loops_end_example :
    ((r : ℕ × ℕ) × (probe 8 5 ≡ some r) × (r.0 ≤ 3))
    × ((r : ℕ × ℕ) × (repeat_report 8 5 ≡ some r) × (r.0 ≤ 2))
unfolding reading
timed_loops_end_example = timed_loops_end steady_timer-TimerLaws 7 5 (omega arith) (omega arith)
