-- ===== src/Firmware/Paced.antt =====
-- firmware/src/main.rs: the loops that do something every so often until a time has come, in the link
-- probe and in the repetition of the self-test report.
use dsm_unplugged.Common.{
  ℕ, zero, suc, ◌+◌, ◌-◌, ◌*◌, ◌%◌, ◌^◌, ◌≤◌, ◌<◌, ◌≡◌, inl, inr, true, false, not, Option, none,
  some, ltb, arith, Bool-cases,
}

-- The timer of the crate rp235x-hal, whose state moves on with each reading: a count of microseconds.
-- `to_millis` is the one of a duration in that count.
pub record Timer : Type 1 where
  pub State : Type 0
  pub get_counter : State → ℕ × State
  pub to_millis : ℕ → ℕ

-- What the loops rely on: a reading is not below the one before, and a duration of `m` milliseconds
-- or more has `1000 * m` microseconds or more.
pub record TimerLaws (t : Timer) : Type 0 where
  pub monotone : (s : t.State) → (t.get_counter s).0 ≤ (t.get_counter (t.get_counter s).1).0
  pub millis : (d : ℕ) → 1000 * t.to_millis d ≤ d

module _ ⦃t : Timer⦄ where
  -- The loop, with at most the given number of rounds: how often it has acted when the time has come.
  -- What it does in between, on the port and the bus, is left out.
  unfoldable pub paced : (rounds until period last : ℕ) → t.State → Option (ℕ × t.State)
  paced zero until period last s = none
  paced (suc n) until period last s =
      let (now, s1) = t.get_counter s in
      elim (ltb now until) [
        | false ↦ some (0, s1)
        | true ↦
            let (seen, s2) = t.get_counter s1 in
            elim (not (ltb (t.to_millis (seen - last)) period)) [
              | false ↦ paced n until period last s2
              | true ↦
                  let (last', s3) = t.get_counter s2 in
                  elim (paced n until period last' s3) [
                    | none ↦ none
                    | some r ↦ some (suc r.0, r.1)
                  ]
            ]
      ]

  -- Phase 1 of `main`: a transfer on the link every second, for three seconds.
  unfoldable pub probe : ℕ → t.State → Option (ℕ × t.State)
  unfolding paced
  probe rounds s =
      let (start, s1) = t.get_counter s in
      let (last, s2) = t.get_counter s1 in paced rounds ((start + 3_000_000) % 2 ^ 64) 1000 last s2

  -- The end of phase 4: the report again every two seconds, for four seconds.
  unfoldable pub repeat_report : ℕ → t.State → Option (ℕ × t.State)
  unfolding paced
  repeat_report rounds s =
      let (start, s1) = t.get_counter s in
      let (last, s2) = t.get_counter s1 in paced rounds ((start + 4_000_000) % 2 ^ 64) 2000 last s2

  -- The reading after `k` others.
  unfoldable pub reading : ℕ → t.State → ℕ
  reading zero s = (t.get_counter s).0
  reading (suc k) s = reading k (t.get_counter s).1

-- `m` gaps one after the other.
abbrev elapsed : ℕ → ℕ → ℕ
elapsed gap zero = 0
elapsed gap (suc m) = gap + elapsed gap m

module _ ⦃t : Timer⦄ (laws : TimerLaws t) where
  reading_later : (k : ℕ) (s : t.State) → reading k s ≤ reading k (t.get_counter s).1
  unfolding reading
  reading_later zero s = laws.monotone s
  reading_later (suc k) s = reading_later k (t.get_counter s).1

  -- A loop that has acted `n` times did so the first time before `until`, and each other time a gap
  -- later than the one before.
  abbrev Within : (until gap last n : ℕ) → Type 0
  Within until gap last zero = Unit {0}
  Within until gap last (suc m) = last + elapsed gap m < until

  Within-earlier :
      (until gap last later n : ℕ)
      → last + gap ≤ later
      → last < until
      → Within until gap later n
      → Within until gap last (suc n)
  Within-earlier until gap last later zero g b w = omega arith
  Within-earlier until gap last later (suc m) g b w = omega arith

  paced-Within :
      (k until period last : ℕ) (s : t.State)
      → until ≤ reading k s
      → last ≤ (t.get_counter s).0
      → (r : ℕ × t.State) × (paced (suc k) until period last s ≡ some r)
        × Within until (1000 * period) last r.0
  unfolding paced reading
  paced-Within zero until period last s h l = ((0, (t.get_counter s).1), ground arith, tt)
  paced-Within (suc k) until period last s h l = elim (Bool-cases (ltb (t.get_counter s).0 until)) [
    | inr late ↦ ((0, (t.get_counter s).1), ground arith, tt)
    | inl early ↦
        let s1 = (t.get_counter s).1 in
        let s2 = (t.get_counter s1).1 in
        let s3 = (t.get_counter s2).1 in
        let seen = (t.get_counter s1).0 in
        let last' = (t.get_counter s2).0 in
        let m0 = laws.monotone s in
        let m1 = laws.monotone s1 in
        let m2 = laws.monotone s2 in
        let h2 = reading_later k s1 in
        let h3 = reading_later k s2 in
        elim (Bool-cases (not (ltb (t.to_millis (seen - last)) period))) [
          | inr wait ↦
              let (r, e, w) = paced-Within k until period last s2 (omega arith) (omega arith) in
              (r, ground arith, w)
          | inl act ↦
              let (r, e, w) = paced-Within k until period last' s3 (omega arith) (omega arith) in
              let long = laws.millis (seen - last) in
              let gap : last + 1000 * period ≤ last' = ground arith in
              let before : last < until = ground arith in
              (
                (suc r.0, r.1),
                ground arith,
                Within-earlier until (1000 * period) last last' r.0 gap before w,
              )
        ]
  ]

  Within-three :
      (start last n : ℕ) → start ≤ last → Within (start + 3_000_000) 1_000_000 last n → n ≤ 3
  Within-three start last zero l w = omega arith
  Within-three start last (suc zero) l w = omega arith
  Within-three start last (suc (suc zero)) l w = omega arith
  Within-three start last (suc (suc (suc zero))) l w = omega arith
  Within-three start last (suc (suc (suc (suc n)))) l w = absurd (omega arith)

  Within-two :
      (start last n : ℕ) → start ≤ last → Within (start + 4_000_000) 2_000_000 last n → n ≤ 2
  Within-two start last zero l w = omega arith
  Within-two start last (suc zero) l w = omega arith
  Within-two start last (suc (suc zero)) l w = omega arith
  Within-two start last (suc (suc (suc n))) l w = absurd (omega arith)

  -- The timed loops of `main` end, and act a bounded number of times. Take a timer whose readings
  -- never go back and whose durations of some milliseconds have at least that many thousands of its
  -- counts, and a first reading that is four million counts below the end of the u64. If some later
  -- reading is four million counts or more after the first, then the link probe and the repetition of
  -- the report each end within a round for each reading up to that one; the probe has then
  -- transferred at most three times, and the report has been repeated at most twice.
  pub timed_loops_end :
      (k : ℕ) (s : t.State)
      → reading 0 s + 4_000_000 < 2 ^ 64
      → reading 0 s + 4_000_000 ≤ reading (suc (suc k)) s
      → ((r : ℕ × t.State) × (probe (suc k) s ≡ some r) × (r.0 ≤ 3))
        × ((r : ℕ × t.State) × (repeat_report (suc k) s ≡ some r) × (r.0 ≤ 2))
  unfolding probe repeat_report reading
  timed_loops_end k s small h =
      let s1 = (t.get_counter s).1 in
      let s2 = (t.get_counter s1).1 in
      let start = (t.get_counter s).0 in
      let last = (t.get_counter s1).0 in
      let m0 = laws.monotone s in
      let m1 = laws.monotone s1 in
      let (r, e, w) = paced-Within k (start + 3_000_000) 1000 last s2 (omega arith) m1 in
      let (q, f, v) = paced-Within k (start + 4_000_000) 2000 last s2 h m1 in
      let until_probe : (start + 3_000_000) % 2 ^ 64 ≡ start + 3_000_000 = omega arith in
      let until_report : (start + 4_000_000) % 2 ^ 64 ≡ start + 4_000_000 = omega arith in
      (
        (r, rw until_probe e, Within-three start last r.0 m0 w),
        (q, rw until_report f, Within-two start last q.0 m0 v),
      )
