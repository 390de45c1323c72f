-- ===== src/Appliance.antt =====
-- anchor-core/src/appliance.rs: the data of the three-state appliance. Its operations are in
-- Appliance/Operations.antt and its recovery in Appliance/Recovery.antt.
pub mod Operations
pub mod Recovery
pub mod Resume
pub mod Prepare
pub mod Commit
pub mod Invariant
pub mod Settle
pub mod Trace
pub mod Fork
pub mod NoFork
pub mod Ledger
pub mod Preserve
pub mod Cuts
pub mod Certified
pub mod Safety
pub mod OneChain
pub mod Works
pub mod Flow
pub mod KeyLost
pub mod TornKey
pub mod Stranded
use dsm_unplugged.Common.{◌≡◌, refl, ◌⊎◌, inl, inr, ℕ, Bool, false, List, [], Array, zeros}
use dsm_unplugged.Tropic.{TropicError}
use dsm_unplugged.RootAdvance.{OwnedTransition, OfflineRelease}

-- `zeroize` overwrites each byte with 0, and `zeroize_vec` empties the buffer too.
unfoldable pub zeroize : List ℕ → List ℕ
zeroize buf = zeros buf

abbrev clear : List ℕ → List ℕ
clear buf = []

unfoldable pub zeroize_vec : List ℕ → List ℕ
unfolding zeroize
zeroize_vec v = clear (zeroize v)

pub data Status : Type 0 where
  ready prepared committed : Status

pub data ApplianceError : Type 0 where
  wrong_state prev_root_mismatch index_mismatch counter_mismatch : ApplianceError
  witness_key_lost counter_exhausted not_committed : ApplianceError
  tropic : TropicError → ApplianceError

pub record PreparedRecord : Type 0 where
  pub txn : OwnedTransition
  pub digest : Array 32
  pub witness_input : Array 32
  pub cert_message : Array 32
  pub pk_hw : List ℕ
  pub p_hw : Array 32
  pub sk_hw : List ℕ
  pub receiver_challenge : Array 32

pub record CommittedRecord : Type 0 where
  pub prev_root : Array 32
  pub next_root : Array 32
  pub anchor_counter : ℕ
  pub next_anchor_counter : ℕ
  pub release : OfflineRelease
  pub committed : Bool

pub data Record : Type 0 where
  empty : Record
  prepared : PreparedRecord → Record
  committed : CommittedRecord → Record

pub Record-cases :
    (r : Record)
    → (r ≡ empty)
      ⊎ ((p : PreparedRecord) × (r ≡ prepared p))
      ⊎ ((c : CommittedRecord) × (r ≡ committed c))
Record-cases empty = inl refl
Record-cases (prepared p) = inr (inl (p, refl))
Record-cases (committed c) = inr (inr (c, refl))

pub record Active : Type 0 where
  pub root : Array 32
  pub u : ℕ
  pub status : Status
  pub record_ : Record

pub data RecoverOutcome : Type 0 where
  accept : Array 32 → RecoverOutcome
  reemit_committed : Array 32 → RecoverOutcome
  downgrade_online fail_closed exhausted_online_only : RecoverOutcome
  accept_prepared_can_complete online_cancel_or_resolve : RecoverOutcome

-- `tropic` is the chip that the appliance owns.
pub record Appliance (Chip : Type 0) : Type 0 where
  pub h0 : ℕ
  pub anchor_id : Array 32
  pub slot : ℕ
  pub active : Active
  pub firmware_boundary_invalid : Bool
  pub rmemory_map_invalid : Bool
  pub tropic : Chip

unfoldable pub new : {Chip : Type 0} → Chip → ℕ → Array 32 → Array 32 → ℕ → Appliance Chip
new chip h0 active_root anchor_id slot = record {
  h0 = h0;
  anchor_id = anchor_id;
  slot = slot;
  active = record { root = active_root; u = 0; status = Status.ready; record_ = empty };
  firmware_boundary_invalid = false;
  rmemory_map_invalid = false;
  tropic = chip;
}
