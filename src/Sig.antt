-- ===== src/Sig.antt =====
-- anchor-core/src/sig.rs: the WOTS one-time signature over BLAKE3.
pub mod RoundTrip
pub mod Checksum
pub mod Unique
pub mod Forgery
use dsm_unplugged.Common.{
  ℕ, zero, suc, ◌+◌, ◌-◌, ◌*◌, ◌/◌, ◌%◌, ◌^◌, Bool, false, not, ◌||◌, List, [], ◌∷◌, ◌++◌, length,
  take, drop, Array, nil, cons, to_vec, copy_from_slice, ◌==◌, if◌then◌else◌,
}
use dsm_unplugged.Util.{ct_eq_32, u16_le}
use dsm_unplugged.Domain.{wots_chain_v1, wots_sk_v1, wots_pk_v1}
use dsm_unplugged.Hash.{Blake3, h, kdf}
use dsm_unplugged.Tropic.{WitnessSig}

-- `W`.
abbrev pub winternitz : ℕ
winternitz = 16

-- `LG_W`.
abbrev pub lg_w : ℕ
lg_w = 4

abbrev pub len1 : ℕ
len1 = 64

abbrev pub len2 : ℕ
len2 = 3

abbrev pub len : ℕ
len = len1 + len2

-- `N`.
abbrev pub chain_size : ℕ
chain_size = 32

abbrev pub sig_len : ℕ
sig_len = len * chain_size

-- `b >> 4` and `b & 0x0f` of each byte.
pub nibbles : {n : ℕ} → Array n → List ℕ
nibbles nil = []
nibbles (cons b d) = b / 2 ^ lg_w ∷ b % 2 ^ lg_w ∷ nibbles d

-- `csum += (W - 1) - dg as u32`; a digit of a byte is at most 15 and the sum at most 960.
checksum : ℕ → List ℕ → ℕ
checksum csum [] = csum
checksum csum (dg ∷ dgs) = checksum (csum + (winternitz - 1 - dg)) dgs

-- `& (W - 1)` is `% W`.
checksum_digits : ℕ → List ℕ
checksum_digits csum =
    csum / 2 ^ (2 * lg_w) % winternitz ∷ csum / 2 ^ lg_w % winternitz ∷ csum % winternitz ∷ []

pub digits : Array 32 → List ℕ
unfolding nibbles checksum checksum_digits
digits d = nibbles d ++ checksum_digits (checksum 0 (nibbles d))

module _ ⦃b : Blake3⦄ where
  -- One step, `F(x)`.
  pub chain_step : Array 32 → Array 32
  chain_step x = h wots_chain_v1 (to_vec x ∷ [])

  pub chain : Array 32 → ℕ → Array 32
  unfolding chain_step
  chain x zero = x
  chain x (suc steps) = chain (chain_step x) steps

  chain_secret : Array 32 → ℕ → Array 32
  chain_secret seed i = kdf seed wots_sk_v1 (to_vec (u16_le (i % 2 ^ 16)) ∷ [])

  -- The chain tops one after the other.
  pub join_tops : List (Array 32) → List ℕ
  join_tops [] = []
  join_tops (t ∷ ts) = to_vec t ++ join_tops ts

  compress : List (Array 32) → Array 32
  unfolding join_tops
  compress tops = h wots_pk_v1 (join_tops tops ∷ [])

  -- The loop of `keygen`, from chain `i` on with `n` chains to go.
  tops_from : Array 32 → ℕ → ℕ → List (Array 32)
  tops_from seed i zero = []
  tops_from seed i (suc n) = chain (chain_secret seed i) (winternitz - 1) ∷ tops_from seed (suc i) n

  pub keygen : Array 32 → List ℕ × List ℕ
  unfolding tops_from compress
  keygen seed = (to_vec seed, to_vec (compress (tops_from seed 0 len)))

  -- The loop of `sign`, from chain `i` on.
  sign_from : Array 32 → ℕ → List ℕ → List ℕ
  sign_from seed i [] = []
  sign_from seed i (d ∷ ds) = to_vec (chain (chain_secret seed i) d) ++ sign_from seed (suc i) ds

  -- A key shorter than 32 bytes panics in the source; `keygen` makes keys of 32.
  pub sign : List ℕ → Array 32 → List ℕ
  unfolding sign_from digits
  sign sk digest = sign_from (copy_from_slice 32 (take 32 sk)) 0 (digits digest)

  -- The loop of `verify`: `sig[i * N..(i + 1) * N]` advanced by `(W - 1) - d`.
  pub recompute_from : List ℕ → ℕ → List ℕ → List (Array 32)
  recompute_from sig i [] = []
  recompute_from sig i (d ∷ ds) =
      chain (copy_from_slice 32 (take chain_size (drop (i * chain_size) sig))) (winternitz - 1 - d)
      ∷ recompute_from sig (suc i) ds

  pub verify : List ℕ → Array 32 → List ℕ → Bool
  unfolding recompute_from compress digits
  verify pk digest sig =
      if not (length pk == 32) || not (length sig == sig_len)
      then false
      else ct_eq_32 (compress (recompute_from sig 0 (digits digest))) (copy_from_slice 32 pk)

  -- `impl WitnessSig for WotsBlake3`.
  instance abbrev pub wots_blake3 : WitnessSig
  wots_blake3 = record { keygen = keygen; sign = sign; verify = verify }
