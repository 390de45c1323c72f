-- ===== src/Examples.antt =====
-- Concrete instances of what the crates take from outside, and concrete inputs:
-- anchor-core/src/tropic.rs (`MockTropic`) in small, a hash that keeps the length only, one
-- transition package.
pub mod Codec
pub mod Delivery
pub mod Boot
pub mod Bringup
pub mod Device
pub mod Receiver
pub mod Talk
pub mod Report
pub mod Wire
use dsm_unplugged.Common.{
  ℕ, zero, suc, ◌+◌, ◌*◌, ◌%◌, ◌^◌, ◌≡◌, refl, ap, ◌⊎◌, inl, inr, Bool, true, List, [], ◌∷◌, ◌++◌,
  length, append_assoc, Array, cons, fill, to_vec, IsBytes, Option, none, some, Result, ok, err,
  arith,
}
use dsm_unplugged.Hash.{Blake3}
use dsm_unplugged.Tropic.{
  TropicError, counter_exhausted, Tropic, WitnessSig, IsCorrect, CounterLaws,
}
use dsm_unplugged.RootAdvance.{Transition, IsInRange}
use dsm_unplugged.Proto.{Prost}
use dsm_unplugged.Proto.Pb

-- A hash of 32 bytes that depends on the length of the message alone.
instance abbrev pub length_hash : Blake3
length_hash = record {
  Hasher = List ℕ;
  new = [];
  new_keyed = λ k. to_vec k;
  update = λ s xs. s ++ xs;
  finalize = λ s. cons (length s % 256) (fill 31 7);
  update_update = λ s xs ys. append_assoc s xs ys;
  finalize-IsBytes = λ s. (omega arith, fill_bytes);
}
  where
    fill_bytes : IsBytes (fill 31 7)
    fill_bytes = omega arith

abbrev pub update_chip : ℕ → Result (Unit {0}) TropicError × ℕ
update_chip zero = (err counter_exhausted, 0)
update_chip (suc n) = (ok tt, n)

-- A chip that is its counter.
instance abbrev pub counter_chip : Tropic
counter_chip = record {
  Chip = ℕ;
  mac_and_destroy = λ q x c. (ok (fill 32 9), c);
  counter_get = λ c. (ok c, c);
  counter_update = update_chip;
}

update_chip_ok : (c : ℕ) → (update_chip c).0 ≡ ok tt → c ≡ suc (update_chip c).1
update_chip_ok zero h = cc
update_chip_ok (suc n) h = refl

update_chip_err :
    (c : ℕ) {e : TropicError}
    → (update_chip c).0 ≡ err e
    → (c ≡ (update_chip c).1) ⊎ (c ≡ suc (update_chip c).1)
update_chip_err zero h = inl refl
update_chip_err (suc n) h = cc

unfoldable pub counter_chip_laws : CounterLaws counter_chip
unfolding update_chip_ok update_chip_err
counter_chip_laws = record {
  counter = λ c. c;
  get_value = λ c h. cc;
  get_keeps = λ c. refl;
  mac_keeps = λ q x c. refl;
  update_ok = update_chip_ok;
  update_err = λ c h. update_chip_err c h;
}

-- A scheme whose signature is the message.
instance abbrev pub plain_sig : WitnessSig
plain_sig = record {
  keygen = λ seed. (1 ∷ [], 2 ∷ []);
  sign = λ sk digest. to_vec digest;
  verify = λ pk digest sig. true;
}

pub plain_sig-IsCorrect : IsCorrect plain_sig
plain_sig-IsCorrect = λ seed digest v. refl

abbrev pub root0 : Array 32
root0 = fill 32 0

abbrev pub root1 : Array 32
root1 = fill 32 17

abbrev pub anchor0 : Array 32
anchor0 = fill 32 160

abbrev pub challenge0 : Array 32
challenge0 = fill 32 85

-- The first transition of an enrolled device, with the payload hash `fill 32 k`.
abbrev pub advance : ℕ → Transition
advance k = record {
  relationship_id = fill 32 1;
  object_id = fill 32 2;
  sender_device_id = fill 32 3;
  recipient_device_id = fill 32 4;
  prev_root = root0;
  next_root = root1;
  anchor_counter = 0;
  next_anchor_counter = 1;
  action_type = 7;
  action_fields = 1 ∷ 2 ∷ [];
  payload_hash = fill 32 k;
  old_leaf_proof = [];
  new_leaf_proof = 3 ∷ [];
  authority_policy_hash = fill 32 176;
}

pub advance-IsInRange : (k : ℕ) → IsInRange (advance k)
advance-IsInRange k = record {
  anchor_counter_range = omega arith;
  next_anchor_counter_range = omega arith;
  action_type_range = omega arith;
  action_fields_range = omega arith;
  old_leaf_proof_range = omega arith;
  new_leaf_proof_range = omega arith;
}

abbrev pub decode_op : List ℕ → Option Pb.ApplianceRequest
decode_op [] = none
decode_op (op ∷ rest) = some (record { op = op; transition = none; receiver_challenge = [] })

-- A codec in which a frame `op ∷ []` is a request without fields, and a response is its operation and
-- its error code.
instance abbrev pub byte_prost : Prost
byte_prost = record {
  decode_request_bytes = decode_op;
  encode_request_bytes = λ req. req.op ∷ [];
  decode_response_bytes = λ bytes. none;
  encode_response_bytes = λ resp. resp.op ∷ resp.error ∷ [];
}
