-- ===== src/Firmware/SelfTest.antt =====
-- firmware/src/main.rs: the self-test, which drives the appliance through its wire boundary and then
-- checks the release that came back as a receiver does.
pub mod Passes
pub mod Outcome
use Prim.Native.String.{String}
use dsm_unplugged.Common.{
  ℕ, ◌*◌, Bool, true, false, ◌&&◌, List, [], ◌∷◌, length, Array, nil, cons, fill, to_vec,
  copy_from_slice, Option, none, some, Result, ok, err, map_err, is_ok, ◌==◌, if◌then◌else◌,
}
use dsm_unplugged.Hash.{Blake3}
use dsm_unplugged.Sig.{wots_blake3}
use dsm_unplugged.Appliance.{Appliance, new}
use dsm_unplugged.Accept.{VerifierContext, accept_offline}
use dsm_unplugged.Proto.{Prost, encode_request, decode_response, to_release}
use dsm_unplugged.Proto.Pb
use dsm_unplugged.Service.Transfer.{op_request}
use dsm_unplugged.Firmware.{
  Session, chip_tropic, enroll, secure_core_handle, trivial_dsm, self_counter, md_slot, enroll_h0,
  anchor, policy, genesis, next_root, receiver_challenge,
}

abbrev pub t_rel : Array 32
t_rel = fill 32 1

abbrev pub t_obj : Array 32
t_obj = fill 32 2

abbrev pub t_snd : Array 32
t_snd = fill 32 3

abbrev pub t_rcv : Array 32
t_rcv = fill 32 4

abbrev pub t_pay : Array 32
t_pay = fill 32 9

abbrev pub t_af : Array 2
t_af = cons 0xAA (cons 0xBB nil)

abbrev pub leaf_old : Array 40
leaf_old = fill 40 0xAB

abbrev pub leaf_new : Array 40
leaf_new = fill 40 0xCD

unfoldable pub prepare_request : Pb.ApplianceRequest
prepare_request = record {
  op = 1;
  transition = some (record {
    relationship_id = to_vec t_rel;
    object_id = to_vec t_obj;
    sender_device_id = to_vec t_snd;
    recipient_device_id = to_vec t_rcv;
    prev_root = to_vec genesis;
    next_root = to_vec next_root;
    anchor_counter = 0;
    next_anchor_counter = 1;
    action_type = 0;
    action_fields = to_vec t_af;
    payload_hash = to_vec t_pay;
    old_leaf_proof = to_vec leaf_old;
    new_leaf_proof = to_vec leaf_new;
    authority_policy_hash = to_vec policy;
  });
  receiver_challenge = to_vec receiver_challenge;
}

pub record SelfTest : Type 0 where
  pub ops_ok : Bool
  pub pk_len : ℕ
  pub sig_len : ℕ
  pub st_index : ℕ
  pub st_status : ℕ
  pub verify_ok : Bool
  pub frontier_match : Bool

-- The sizes of the key and the signature in a release, or zeros.
unfoldable pub cert_sizes : Option Pb.OfflineRelease → ℕ × ℕ
cert_sizes none = (0, 0)
cert_sizes (some r) = elim r.cert [ none ↦ (0, 0) | some c ↦ (length c.pk_hw, length c.sigma) ]

-- The root of a response, or zeros.
unfoldable pub root_of : List ℕ → Array 32
root_of v = if length v == 32 then copy_from_slice 32 v else fill 32 0

-- `==` on byte arrays.
unfoldable pub bytes_eq : {n : ℕ} → Array n → Array n → Bool
bytes_eq nil nil = true
bytes_eq (cons x a) (cons y b) = (x == y) && bytes_eq a b

abbrev pub self_test_context : VerifierContext
self_test_context = record {
  accepted_prev_root = genesis;
  pinned_anchor_id = anchor;
  expected_receiver_challenge = receiver_challenge;
  expected_policy_hash = policy;
  enrolled_counter = enroll_h0;
  exposure_cap_index = enroll_h0;
  anchor_uncompromised = true;
}

-- A run over the secure core that may stop with the name of a step.
abbrev pub Run : Type 0 → Type 0 → Type 0
Run Chip A = Appliance Chip → Result A String × Appliance Chip

infixl 5 ◌>>=◌
abbrev pub ◌>>=◌ : {Chip A B : Type 0} → Run Chip A → (A → Run Chip B) → Run Chip B
◌>>=◌ m f app = let (r, app') = m app in elim r [ ok a ↦ f a app' | err e ↦ (err e, app') ]

abbrev pub done : {Chip A : Type 0} → A → Run Chip A
done a app = (ok a, app)

module _ ⦃b : Blake3⦄ where
  unfoldable pub verify_release : Option Pb.OfflineRelease → Bool
  verify_release none = false
  verify_release (some r) = elim (to_release r) [
    | ok rel ↦ is_ok (accept_offline rel self_test_context trivial_dsm self_counter)
    | err e ↦ false
  ]

  -- What the five responses amount to.
  unfoldable pub summary :
      Pb.ApplianceResponse
      → Pb.ApplianceResponse
      → Pb.ApplianceResponse
      → Pb.ApplianceResponse
      → Pb.ApplianceResponse
      → SelfTest
  summary pr co em fi st = record {
    ops_ok = (((pr.ok && co.ok) && em.ok) && fi.ok) && st.ok;
    pk_len = (cert_sizes em.release).0;
    sig_len = (cert_sizes em.release).1;
    st_index = st.active_index;
    st_status = st.status;
    verify_ok = verify_release em.release;
    frontier_match = bytes_eq (root_of fi.active_root) next_root;
  }

module _ ⦃b : Blake3⦄ ⦃sess : Session⦄ ⦃c : Prost⦄ where
  -- `rt`: encode, handle, decode.
  unfoldable pub round_trip : Pb.ApplianceRequest → Run sess.Chip Pb.ApplianceResponse
  round_trip req app =
      let (resp, app') = secure_core_handle app (encode_request req) in
      (map_err (λ _. "decode_response") (decode_response resp), app')

  -- The operations are numbered as in the schema: prepare 1, commit 2, emit 3, finalize 4, status 5.
  unfoldable pub self_test : Run sess.Chip SelfTest
  self_test = do
    pr ← round_trip prepare_request
    co ← round_trip (op_request 2)
    em ← round_trip (op_request 3)
    fi ← round_trip (op_request 4)
    st ← round_trip (op_request 5)
    done (summary pr co em fi st)

  -- Phase 4 of `main`: enrol, then test an appliance of its own.
  unfoldable pub boot_self_test : sess.Chip → Result SelfTest String × sess.Chip
  unfolding self_test
  boot_self_test chip =
      let (r, chip') = enroll chip in
      elim r [
        | ok h0 ↦
            let (st, app) = self_test (new chip' h0 genesis anchor md_slot) in (st, app.tropic)
        | err e ↦ (err e, chip')
      ]

-- What `main` reports as a pass.
unfoldable pub pass : SelfTest → Bool
pass r =
    r.ops_ok
    && ((r.pk_len == 32)
        && ((r.sig_len == 67 * 32)
            && ((r.st_index == 1) && ((r.st_status == 0) && (r.verify_ok && r.frontier_match)))))
