-- ===== src/Tropic.antt =====
-- anchor-core/src/tropic.rs: the secure element and the witness signature scheme, as interfaces.
use dsm_unplugged.Common.{ℕ, suc, ◌≡◌, ◌⊎◌, Bool, true, List, Array, IsBytes, Result, ok, err}

pub data TropicError : Type 0 where
  comm not_armed counter_exhausted : TropicError

-- The trait `Tropic`: a `&mut self` method returns its result and the chip after the call.
pub record Tropic : Type 1 where
  pub Chip : Type 0
  pub mac_and_destroy : ℕ → Array 32 → Chip → Result (Array 32) TropicError × Chip
  pub counter_get : Chip → Result ℕ TropicError × Chip
  pub counter_update : Chip → Result (Unit {0}) TropicError × Chip

-- The trait `WitnessSig`.
pub record WitnessSig : Type 0 where
  pub keygen : Array 32 → List ℕ × List ℕ
  pub sign : List ℕ → Array 32 → List ℕ
  pub verify : List ℕ → Array 32 → List ℕ → Bool

-- What the code relies on in a scheme: a signature under a generated key verifies.
abbrev pub IsCorrect : WitnessSig → Type 0
IsCorrect s =
    (seed digest : Array 32)
    → IsBytes digest
    → s.verify (s.keygen seed).1 digest (s.sign (s.keygen seed).0 digest) ≡ true

-- What the code relies on in the chip: `counter` is its monotonic down-counter H. A read reports it
-- and leaves it alone, an update that succeeds lowers it by one, and an update that is reported as
-- failed has lowered it by one or left it alone.
pub record CounterLaws (t : Tropic) : Type 0 where
  pub counter : t.Chip → ℕ
  pub get_value : (c : t.Chip) {n : ℕ} → (t.counter_get c).0 ≡ ok n → n ≡ counter c
  pub get_keeps : (c : t.Chip) → counter (t.counter_get c).1 ≡ counter c
  pub mac_keeps :
      (q : ℕ) (x : Array 32) (c : t.Chip) → counter (t.mac_and_destroy q x c).1 ≡ counter c
  pub update_ok :
      (c : t.Chip)
      → (t.counter_update c).0 ≡ ok tt
      → counter c ≡ suc (counter (t.counter_update c).1)
  pub update_err :
      (c : t.Chip) {e : TropicError}
      → (t.counter_update c).0 ≡ err e
      → (counter c ≡ counter (t.counter_update c).1)
        ⊎ (counter c ≡ suc (counter (t.counter_update c).1))
