-- ===== src/Firmware/Entropy.antt =====
-- firmware/src/main.rs: the 32 random bytes for the chip's secure session.
use dsm_unplugged.Common.{
  ℕ, zero, suc, ◌+◌, ◌*◌, ◌/◌, ◌%◌, ◌<◌, ◌≡◌, refl, sym, ap, ◌∙◌, subst, Bool, true, false, ◌&&◌,
  not, List, [], ◌∷◌, ◌++◌, length, Array, nil, cons, IsBytes, ltb, ◌==◌, bit_or, arith,
}
use mathlib.Core.List.{foldl}

-- The ring oscillator of the crate rp235x-hal: a bit, and the oscillator after it.
pub record Rosc : Type 1 where
  pub State : Type 0
  pub get_random_bit : State → Bool × State

-- `get_random_bit() as u8`
abbrev as_u8 : Bool → ℕ
as_u8 true = 1
as_u8 false = 0

-- `b = (b << 1) | bit`, on u8.
unfoldable pub shift_in : ℕ → Bool → ℕ
shift_in b bit = bit_or (b * 2 % 256) (as_u8 bit)

module _ ⦃r : Rosc⦄ where
  -- The inner loop, with `n` rounds to go.
  unfoldable pub random_byte : ℕ → ℕ → r.State → ℕ × r.State
  random_byte zero b st = (b, st)
  random_byte (suc n) b st =
      let (bit, st') = r.get_random_bit st in random_byte n (shift_in b bit) st'

  -- The outer loop, over the bytes that are left.
  unfoldable pub random_bytes : (n : ℕ) → r.State → Array n × r.State
  random_bytes zero st = (nil, st)
  random_bytes (suc n) st =
      let (b, st') = random_byte 8 0 st in let (a, st'') = random_bytes n st' in (cons b a, st'')

  -- The bits that the oscillator gives, in order, and the oscillator after them.
  pub random_bits : ℕ → r.State → List Bool × r.State
  random_bits zero st = ([], st)
  random_bits (suc n) st =
      let (bit, st') = r.get_random_bit st in
      let (bits, st'') = random_bits n st' in (bit ∷ bits, st'')

-- The bits of a byte, the highest first.
abbrev bits_from : ℕ → ℕ → List Bool → List Bool
bits_from zero b bits = bits
bits_from (suc n) b bits = bits_from n (b / 2) ((b % 2 == 1) ∷ bits)

abbrev pub byte_bits : ℕ → List Bool
byte_bits b = bits_from 8 b []

abbrev pub array_bits : {n : ℕ} → Array n → List Bool
array_bits nil = []
array_bits (cons b a) = byte_bits b ++ array_bits a

abbrev same_bit : Bool → Bool → Bool
same_bit true b = b
same_bit false b = not b

abbrev same_bits : List Bool → List Bool → Bool
same_bits [] [] = true
same_bits (x ∷ xs) (y ∷ ys) = same_bit x y && same_bits xs ys
same_bits xs ys = false

-- A test of all lists of `n` bits.
abbrev every : ℕ → (List Bool → Bool) → Bool
every zero p = p []
every (suc n) p = every n (λ xs. p (true ∷ xs)) && every n (λ xs. p (false ∷ xs))

and_true : (x y : Bool) → (x && y) ≡ true → (x ≡ true) × (y ≡ true)
and_true true y h = (refl, h)
and_true false y h = cc

every-true :
    (n : ℕ) (p : List Bool → Bool)
    → every n p ≡ true
    → (xs : List Bool) → length xs ≡ n
    → p xs ≡ true
every-true zero p h [] e = h
every-true zero p h (x ∷ xs) e = absurd (omega arith)
every-true (suc n) p h [] e = absurd (omega arith)
every-true (suc n) p h (true ∷ xs) e =
    every-true n (λ xs. p (true ∷ xs)) (and_true _ _ h).0 xs (omega arith)
every-true (suc n) p h (false ∷ xs) e =
    every-true n (λ xs. p (false ∷ xs)) (and_true _ _ h).1 xs (omega arith)

same_bits-eq : (xs ys : List Bool) → same_bits xs ys ≡ true → xs ≡ ys
same_bits-eq [] [] h = refl
same_bits-eq [] (y ∷ ys) h = cc
same_bits-eq (x ∷ xs) [] h = cc
same_bits-eq (true ∷ xs) (true ∷ ys) h = ap (◌∷◌ true) (same_bits-eq xs ys h)
same_bits-eq (true ∷ xs) (false ∷ ys) h = cc
same_bits-eq (false ∷ xs) (true ∷ ys) h = cc
same_bits-eq (false ∷ xs) (false ∷ ys) h = ap (◌∷◌ false) (same_bits-eq xs ys h)

abbrev pack : List Bool → ℕ
pack bits = foldl shift_in 0 bits

abbrev packs : List Bool → Bool
packs xs = same_bits (byte_bits (pack xs)) xs && ltb (pack xs) 256

all_pack : every 8 packs ≡ true
unfolding shift_in
all_pack = refl

-- Eight bits that are shifted into a byte are the bits of that byte.
pack-bits : (xs : List Bool) → length xs ≡ 8 → (byte_bits (pack xs) ≡ xs) × (pack xs < 256)
pack-bits xs e =
    let (s, l) = and_true _ _ (every-true 8 packs all_pack xs e) in
    (same_bits-eq _ xs s, ltb_true l)
  where
    ltb_true : ltb (pack xs) 256 ≡ true → pack xs < 256
    ltb_true h = ground arith

module _ ⦃r : Rosc⦄ where
  length-random_bits : (n : ℕ) (st : r.State) → length (random_bits n st).0 ≡ n
  unfolding random_bits
  length-random_bits zero st = refl
  length-random_bits (suc n) st = ap suc (length-random_bits n (r.get_random_bit st).1)

  random_byte-foldl :
      (n b : ℕ) (st : r.State)
      → random_byte n b st ≡ (foldl shift_in b (random_bits n st).0, (random_bits n st).1)
  unfolding random_byte random_bits
  random_byte-foldl zero b st = refl
  random_byte-foldl (suc n) b st =
      let (bit, st') = r.get_random_bit st in random_byte-foldl n (shift_in b bit) st'

  -- Two batches of bits, one after the other.
  abbrev batches : ℕ → ℕ → r.State → List Bool × r.State
  batches m n st =
      let (xs, st') = random_bits m st in let (ys, st'') = random_bits n st' in (xs ++ ys, st'')

  random_bits-add : (m n : ℕ) (st : r.State) → random_bits (m + n) st ≡ batches m n st
  unfolding random_bits
  random_bits-add zero n st =
      let same : n ≡ 0 + n = omega arith in subst (λ k. random_bits k st ≡ batches 0 n st) same refl
  random_bits-add (suc m) n st =
      let (bit, st') = r.get_random_bit st in
      let same : suc (m + n) ≡ suc m + n = omega arith in
      subst (λ k. random_bits k st ≡ batches (suc m) n st) same
        (ap (λ q. (bit ∷ q.0, q.1)) (random_bits-add m n st'))

  random_bits_none : (st : r.State) → random_bits 0 st ≡ ([], st)
  unfolding random_bits
  random_bits_none st = refl

  -- The first byte is packed from the first eight bits, and the others come after.
  random_bytes_more :
      (n : ℕ) (st : r.State)
      → random_bytes (suc n) st ≡ (
        cons (pack (random_bits 8 st).0) (random_bytes n (random_bits 8 st).1).0,
        (random_bytes n (random_bits 8 st).1).1,
      )
  unfolding random_bytes
  random_bytes_more n st =
      ap (λ q. (cons q.0 (random_bytes n q.1).0, (random_bytes n q.1).1)) (random_byte-foldl 8 0 st)

  -- What `n` random bytes hold is the bits of the oscillator.
  pub record Holds (n : ℕ) (st : r.State) : Type 0 where
    pub bits : array_bits (random_bytes n st).0 ≡ (random_bits (n * 8) st).0
    pub rest : (random_bytes n st).1 ≡ (random_bits (n * 8) st).1
    pub bytes : IsBytes (random_bytes n st).0

  -- No random bit is lost or used twice. For every oscillator and every number of bytes, the bits of
  -- the bytes that `main` fills, the highest of each byte first, are the bits that the oscillator
  -- gave, eight for each byte, in order; the oscillator is where those bits leave it; and each byte
  -- is below 256.
  pub random_bytes_hold : (n : ℕ) (st : r.State) → Holds n st
  unfolding random_bytes
  random_bytes_hold zero st = record {
    bits = rw (random_bits_none st) refl;
    rest = rw (random_bits_none st) refl;
    bytes = tt;
  }
  random_bytes_hold (suc n) st =
      let (same, small) = pack-bits (random_bits 8 st).0 (length-random_bits 8 st) in
      let more = random_bytes_hold n (random_bits 8 st).1 in
      let count : 8 + n * 8 ≡ suc n * 8 = omega arith in
      let split : random_bits (suc n * 8) st ≡ batches 8 (n * 8) st =
        subst (λ k. random_bits k st ≡ batches 8 (n * 8) st) count (random_bits-add 8 (n * 8) st) in
      let made = random_bytes_more n st in
      record {
        bits =
            ap (λ q. array_bits q.0) made
            ∙ ap (λ xs. xs ++ array_bits (random_bytes n (random_bits 8 st).1).0) same
            ∙ ap (λ ys. (random_bits 8 st).0 ++ ys) more.bits
            ∙ sym (ap (λ q. q.0) split);
        rest = ap (λ q. q.1) made ∙ more.rest ∙ sym (ap (λ q. q.1) split);
        bytes = subst (λ (q : Array (suc n) × r.State). IsBytes q.0) (sym made) (small, more.bytes);
      }
