-- ===== src/Examples/Codec.antt =====
-- A codec that stands in for the one that is generated from proto/dsm_anchor.proto and reads back
-- what it wrote: the fields of a message one after the other, a list with a mark before each element,
-- and an option with a mark in front.
use dsm_unplugged.Common.{
  ℕ, zero, suc, ◌≡◌, refl, ap, Bool, true, false, List, [], ◌∷◌, Option, none, some,
}
use mathlib.Core.Option.{map}
use dsm_unplugged.Proto.{Prost, ProstLaws}
use dsm_unplugged.Proto.Pb

-- A way to put a value in front of a frame, and to get it back with what follows.
pub record Coder (A : Type 0) : Type 0 where
  pub put : A → List ℕ → List ℕ
  pub get : List ℕ → Option (A × List ℕ)
  pub get_put : (a : A) (rest : List ℕ) → get (put a rest) ≡ some (a, rest)

abbrev get_one : List ℕ → Option (ℕ × List ℕ)
get_one [] = none
get_one (n ∷ rest) = some (n, rest)

abbrev number : Coder ℕ
number = record { put = ◌∷◌; get = get_one; get_put = λ n rest. refl }

abbrev mark : Bool → ℕ
mark false = 0
mark true = 1

abbrev marked : ℕ → Bool
marked zero = false
marked (suc n) = true

abbrev get_flag : List ℕ → Option (Bool × List ℕ)
get_flag [] = none
get_flag (n ∷ rest) = some (marked n, rest)

pub get_flag-mark : (b : Bool) (rest : List ℕ) → get_flag (mark b ∷ rest) ≡ some (b, rest)
get_flag-mark true rest = refl
get_flag-mark false rest = refl

abbrev flag : Coder Bool
flag = record { put = λ b rest. mark b ∷ rest; get = get_flag; get_put = get_flag-mark }

abbrev put_list : List ℕ → List ℕ → List ℕ
put_list [] rest = 0 ∷ rest
put_list (x ∷ xs) rest = 1 ∷ x ∷ put_list xs rest

abbrev get_list : List ℕ → Option (List ℕ × List ℕ)
get_list [] = none
get_list (zero ∷ rest) = some ([], rest)
get_list (suc m ∷ []) = none
get_list (suc m ∷ x ∷ rest) = map (λ (r : List ℕ × List ℕ). (x ∷ r.0, r.1)) (get_list rest)

pub get_list_put : (xs rest : List ℕ) → get_list (put_list xs rest) ≡ some (xs, rest)
get_list_put [] rest = refl
get_list_put (x ∷ xs) rest =
    ap (map (λ (r : List ℕ × List ℕ). (x ∷ r.0, r.1))) (get_list_put xs rest)

abbrev bytes : Coder (List ℕ)
bytes = record { put = put_list; get = get_list; get_put = get_list_put }

module _ {A : Type 0} (a : Coder A) where
  abbrev put_option : Option A → List ℕ → List ℕ
  put_option none rest = 0 ∷ rest
  put_option (some x) rest = 1 ∷ a.put x rest

  abbrev get_option : List ℕ → Option (Option A × List ℕ)
  get_option [] = none
  get_option (zero ∷ rest) = some (none, rest)
  get_option (suc m ∷ rest) = map (λ (r : A × List ℕ). (some r.0, r.1)) (a.get rest)

  pub get_option_put :
      (o : Option A) (rest : List ℕ) → get_option (put_option o rest) ≡ some (o, rest)
  get_option_put none rest = refl
  get_option_put (some x) rest = ap (map (λ (r : A × List ℕ). (some r.0, r.1))) (a.get_put x rest)

  abbrev optional : Coder (Option A)
  optional = record { put = put_option; get = get_option; get_put = get_option_put }

  module _ {B : Type 0} (b : Coder B) where
    abbrev get_second : Option (A × List ℕ) → Option ((A × B) × List ℕ)
    get_second none = none
    get_second (some (x, rest)) = map (λ (r : B × List ℕ). ((x, r.0), r.1)) (b.get rest)

    pub get_second_put :
        (p : A × B) (rest : List ℕ)
        → get_second (a.get (a.put p.0 (b.put p.1 rest))) ≡ some (p, rest)
    get_second_put (x, y) rest = rw (a.get_put x (b.put y rest), b.get_put y rest) refl

    abbrev pair : Coder (A × B)
    pair = record {
      put = λ p rest. a.put p.0 (b.put p.1 rest);
      get = λ xs. get_second (a.get xs);
      get_put = get_second_put;
    }

  -- A message by its fields.
  abbrev fields : {B : Type 0} (of : A → B) (to : B → A) → ((y : B) → of (to y) ≡ y) → Coder B
  fields of to inverse = record {
    put = λ y. a.put (to y);
    get = λ xs. map (λ (r : A × List ℕ). (of r.0, r.1)) (a.get xs);
    get_put = λ y rest. rw (a.get_put (to y) rest, inverse y) refl;
  }

infixr 5 ◌&◌
abbrev ◌&◌ : {A B : Type 0} → A → B → A × B
◌&◌ x y = (x, y)

infixr 5 ◌⊗◌
abbrev ◌⊗◌ : {A B : Type 0} → Coder A → Coder B → Coder (A × B)
◌⊗◌ a b = pair a b

abbrev transition_coder : Coder Pb.TransitionPackage
transition_coder =
    fields
      (bytes ⊗ bytes ⊗ bytes ⊗ bytes ⊗ bytes ⊗ bytes ⊗ number ⊗ number ⊗ number ⊗ bytes ⊗ bytes
        ⊗ bytes ⊗ bytes ⊗ bytes)
      (λ r. record {
        relationship_id = r.0;
        object_id = r.1.0;
        sender_device_id = r.1.1.0;
        recipient_device_id = r.1.1.1.0;
        prev_root = r.1.1.1.1.0;
        next_root = r.1.1.1.1.1.0;
        anchor_counter = r.1.1.1.1.1.1.0;
        next_anchor_counter = r.1.1.1.1.1.1.1.0;
        action_type = r.1.1.1.1.1.1.1.1.0;
        action_fields = r.1.1.1.1.1.1.1.1.1.0;
        payload_hash = r.1.1.1.1.1.1.1.1.1.1.0;
        old_leaf_proof = r.1.1.1.1.1.1.1.1.1.1.1.0;
        new_leaf_proof = r.1.1.1.1.1.1.1.1.1.1.1.1.0;
        authority_policy_hash = r.1.1.1.1.1.1.1.1.1.1.1.1.1;
      })
      (λ m.
        m.relationship_id & m.object_id & m.sender_device_id & m.recipient_device_id & m.prev_root
        & m.next_root & m.anchor_counter & m.next_anchor_counter & m.action_type & m.action_fields
        & m.payload_hash & m.old_leaf_proof & m.new_leaf_proof & m.authority_policy_hash)
      (λ m. refl)

abbrev cert_coder : Coder Pb.RootAdvanceCertificate
cert_coder =
    fields
      (bytes ⊗ bytes ⊗ number ⊗ number ⊗ bytes ⊗ bytes ⊗ bytes ⊗ bytes ⊗ bytes ⊗ bytes ⊗ number
        ⊗ bytes)
      (λ r. record {
        prev_root = r.0;
        next_root = r.1.0;
        anchor_counter = r.1.1.0;
        next_anchor_counter = r.1.1.1.0;
        transition_digest = r.1.1.1.1.0;
        witness_input = r.1.1.1.1.1.0;
        pk_hash = r.1.1.1.1.1.1.0;
        pk_hw = r.1.1.1.1.1.1.1.0;
        sigma = r.1.1.1.1.1.1.1.1.0;
        anchor_id = r.1.1.1.1.1.1.1.1.1.0;
        slot = r.1.1.1.1.1.1.1.1.1.1.0;
        receiver_challenge = r.1.1.1.1.1.1.1.1.1.1.1;
      })
      (λ m.
        m.prev_root & m.next_root & m.anchor_counter & m.next_anchor_counter & m.transition_digest
        & m.witness_input & m.pk_hash & m.pk_hw & m.sigma & m.anchor_id & m.slot
        & m.receiver_challenge)
      (λ m. refl)

abbrev evidence_coder : Coder Pb.CounterEvidence
evidence_coder =
    fields (bytes ⊗ number ⊗ number ⊗ number ⊗ bytes)
      (λ r. record {
        anchor_id = r.0;
        enrolled_counter = r.1.0;
        live_counter_claim = r.1.1.0;
        derived_index_claim = r.1.1.1.0;
        verifier_transcript = r.1.1.1.1;
      })
      (λ m.
        m.anchor_id & m.enrolled_counter & m.live_counter_claim & m.derived_index_claim
        & m.verifier_transcript)
      (λ m. refl)

abbrev release_coder : Coder Pb.OfflineRelease
release_coder =
    fields ((optional transition_coder) ⊗ (optional cert_coder) ⊗ (optional evidence_coder))
      (λ r. record { transition = r.0; cert = r.1.0; counter = r.1.1 })
      (λ m. m.transition & m.cert & m.counter) (λ m. refl)

abbrev request_coder : Coder Pb.ApplianceRequest
request_coder =
    fields (number ⊗ (optional transition_coder) ⊗ bytes)
      (λ r. record { op = r.0; transition = r.1.0; receiver_challenge = r.1.1 })
      (λ m. m.op & m.transition & m.receiver_challenge) (λ m. refl)

abbrev response_coder : Coder Pb.ApplianceResponse
response_coder =
    fields (number ⊗ flag ⊗ number ⊗ (optional release_coder) ⊗ bytes ⊗ number ⊗ number)
      (λ r. record {
        op = r.0;
        ok = r.1.0;
        error = r.1.1.0;
        release = r.1.1.1.0;
        active_root = r.1.1.1.1.0;
        active_index = r.1.1.1.1.1.0;
        status = r.1.1.1.1.1.1;
      })
      (λ m. m.op & m.ok & m.error & m.release & m.active_root & m.active_index & m.status)
      (λ m. refl)

abbrev decoded : {A : Type 0} → Option (A × List ℕ) → Option A
decoded r = map (λ p. p.0) r

instance abbrev pub wire_codec : Prost
wire_codec = record {
  decode_request_bytes = λ xs. decoded (request_coder.get xs);
  encode_request_bytes = λ req. request_coder.put req [];
  decode_response_bytes = λ xs. decoded (response_coder.get xs);
  encode_response_bytes = λ resp. response_coder.put resp [];
}

pub wire_codec-ProstLaws : ProstLaws wire_codec
wire_codec-ProstLaws = record {
  request_round_trip = λ req. ap decoded (request_coder.get_put req []);
  response_round_trip = λ resp. ap decoded (response_coder.get_put resp []);
}
