-- ===== src/Firmware/Enrolment.antt =====
-- firmware/src/main.rs: the chip bridge over a session that keeps the laws of the chip's counter, and
-- enrolment.
use dsm_unplugged.Common.{
  ℕ, suc, ◌<◌, ◌≡◌, refl, ◌⊎◌, inl, inr, false, Array, none, some, ok, Option-cases, ok_or-some,
  ok_or-none, arith, length, List,
}
use dsm_unplugged.Hash.{Blake3}
use dsm_unplugged.Tropic.{comm, counter_exhausted, CounterLaws}
use dsm_unplugged.Sig.{wots_blake3, keygen}
use dsm_unplugged.Sig.RoundTrip.{length-keygen}
use dsm_unplugged.Appliance.Operations.{is_empty}
use dsm_unplugged.Appliance.Works.{Works}
use dsm_unplugged.Firmware.{Session, chip_tropic, enroll, md_slot, enroll_h0, u_arm0}

module _ (sess : Session) where
  -- What the firmware relies on in the session: initialising sets the down-counter, a read reports
  -- it, an update that succeeds lowers it by one, and one that fails has lowered it by one or left it
  -- alone.
  pub record SessionLaws : Type 0 where
    pub counter : sess.Chip → ℕ
    pub init_sets :
        (n : ℕ) (c : sess.Chip)
        → (sess.mcounter_init n c).0 ≡ some tt
        → counter (sess.mcounter_init n c).1 ≡ n
    pub get_value : (c : sess.Chip) {n : ℕ} → (sess.mcounter_get c).0 ≡ some n → n ≡ counter c
    pub get_keeps : (c : sess.Chip) → counter (sess.mcounter_get c).1 ≡ counter c
    pub mac_keeps :
        (q : ℕ) (x : Array 32) (c : sess.Chip) → counter (sess.mac_and_destroy q x c).1 ≡ counter c
    pub update_ok :
        (c : sess.Chip)
        → (sess.mcounter_update c).0 ≡ some tt
        → counter c ≡ suc (counter (sess.mcounter_update c).1)
    pub update_err :
        (c : sess.Chip)
        → (sess.mcounter_update c).0 ≡ none
        → (counter c ≡ counter (sess.mcounter_update c).1)
          ⊎ (counter c ≡ suc (counter (sess.mcounter_update c).1))

  -- A session without communication errors.
  pub record Answers (laws : SessionLaws) : Type 0 where
    pub init_answers : (n : ℕ) (c : sess.Chip) → (sess.mcounter_init n c).0 ≡ some tt
    pub get_answers : (c : sess.Chip) → (sess.mcounter_get c).0 ≡ some (laws.counter c)
    pub mac_answers :
        (q : ℕ) (x : Array 32) (c : sess.Chip)
        → (w : Array 32) × ((sess.mac_and_destroy q x c).0 ≡ some w)
    pub update_answers : (c : sess.Chip) → 0 < laws.counter c → (sess.mcounter_update c).0 ≡ some tt

module _ {sess : Session} (laws : SessionLaws sess) where
  -- The bridge turns the session's laws into those of the trait.
  unfoldable pub chip_tropic_laws : CounterLaws (chip_tropic ⦃sess = sess⦄)
  chip_tropic_laws = record {
    counter = laws.counter;
    get_value = λ c h. laws.get_value c (ok_or-some _ comm h);
    get_keeps = laws.get_keeps;
    mac_keeps = laws.mac_keeps;
    update_ok = λ c h. laws.update_ok c (ok_or-some _ counter_exhausted h);
    update_err = λ c h. laws.update_err c (ok_or-none _ counter_exhausted h);
  }

  key_not_empty : (k : List ℕ) → length k ≡ 32 → is_empty k ≡ false
  key_not_empty k e = ground arith

  pub chip_tropic-Works :
      ⦃b : Blake3⦄
      → Answers sess laws
      → Works ⦃t = chip_tropic ⦃sess = sess⦄⦄ ⦃s = wots_blake3⦄ chip_tropic_laws
  unfolding chip_tropic_laws
  chip_tropic-Works a = record {
    get_ok = λ c. rw (a.get_answers c) refl;
    mac_ok = λ q x c. let (w, e) = a.mac_answers q x c in (w, rw e refl);
    moves = λ c h. rw (a.update_answers c h) refl;
    keys = λ seed. key_not_empty (keygen seed).0 (length-keygen seed).0;
  }

  -- Whatever the counter was, an enrolment that succeeds leaves it at the enrolment value, which is
  -- what the firmware then takes for H0.
  pub enroll_resets :
      (c : sess.Chip) {h0 : ℕ}
      → (enroll ⦃sess = sess⦄ c).0 ≡ ok h0
      → (h0 ≡ enroll_h0) × (laws.counter (enroll ⦃sess = sess⦄ c).1 ≡ enroll_h0)
  unfolding enroll
  enroll_resets c h =
      let c1 = (sess.mcounter_init enroll_h0 c).1 in
      elim (Option-cases (sess.mcounter_get c1).0) [
        | inl e ↦ absurd (ground arith)
        | inr (n, e) ↦ ground (
          arith,
          laws.init_sets enroll_h0 c,
          laws.get_value c1 e,
          laws.get_keeps c1,
          laws.mac_keeps md_slot u_arm0 (sess.mcounter_get c1).1,
        )
      ]

  pub enroll-Answers :
      Answers sess laws → (c : sess.Chip) → (enroll ⦃sess = sess⦄ c).0 ≡ ok enroll_h0
  unfolding enroll
  enroll-Answers a c =
      let c1 = (sess.mcounter_init enroll_h0 c).1 in
      let (w, e) = a.mac_answers md_slot u_arm0 (sess.mcounter_get c1).1 in
      ground (arith, a.init_answers enroll_h0 c, laws.init_sets enroll_h0 c, a.get_answers c1, e)
