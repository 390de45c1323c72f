-- ===== src/Domain.antt =====
-- anchor-core/src/domain.rs: the domain-separation tags.
pub mod Separation
use Prim.Native.Char.{code}
use Prim.Native.String.{String}
use dsm_unplugged.Common.{ℕ, List, [], ◌∷◌}

-- `as_bytes` of an ASCII text.
abbrev pub as_bytes : String → List ℕ
as_bytes String.[] = []
as_bytes (String.◌∷◌ c s) = code c ∷ as_bytes s

abbrev pub transition_digest_v1 : String
transition_digest_v1 = "DSM/root-advance/transition-digest/v1"

abbrev pub root_advance_input_v1 : String
root_advance_input_v1 = "DSM/tropic/root-advance-input/v1"

abbrev pub root_advance_witness_key_v1 : String
root_advance_witness_key_v1 = "DSM/tropic/root-advance-witness-key/v1"

abbrev pub pk_hash_v1 : String
pk_hash_v1 = "DSM/tropic/pk-hash/v1"

abbrev pub cert_message_v1 : String
cert_message_v1 = "DSM/root-advance/cert-message/v1"

abbrev pub wots_chain_v1 : String
wots_chain_v1 = "DSM/anchor/wots-chain/v1"

abbrev pub wots_sk_v1 : String
wots_sk_v1 = "DSM/anchor/wots-sk/v1"

abbrev pub wots_pk_v1 : String
wots_pk_v1 = "DSM/anchor/wots-pk/v1"
