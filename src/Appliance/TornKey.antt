-- ===== src/Appliance/TornKey.antt =====
-- anchor-core/src/appliance.rs: a device whose power failed inside `zeroize_vec`, when some bytes of
-- the witness key are overwritten and the buffer is not cleared.
use dsm_unplugged.Common.{ℕ, zero, suc, ◌+◌, ◌≡◌, refl, List, [], ◌∷◌, false, ok, arith}
use dsm_unplugged.Util.CtEq.{ct_eq_32-of_eq}
use dsm_unplugged.Hash.{Blake3}
use dsm_unplugged.Tropic.{Tropic, WitnessSig, CounterLaws}
use dsm_unplugged.RootAdvance.{OfflineRelease}
use dsm_unplugged.Appliance.{
  Status, Record, Appliance, PreparedRecord, accept_prepared_can_complete,
}
use dsm_unplugged.Appliance.Operations.{
  is_empty, zeroize_rounds, wiped, commit, emit, finalize, release_of,
}
use dsm_unplugged.Appliance.Recovery.{recover}
use dsm_unplugged.Appliance.Commit.{Passes}
use dsm_unplugged.Appliance.Invariant.{Inv}
use dsm_unplugged.Appliance.Resume.{RecordInv-prepared}
use dsm_unplugged.Appliance.Works.{Works, commit_works}
use dsm_unplugged.Appliance.Flow.{settle_works}

-- A key keeps its length while it is overwritten.
key_stays : (n : ℕ) (key : List ℕ) → is_empty key ≡ false → is_empty (zeroize_rounds n key) ≡ false
key_stays zero key e = e
key_stays (suc n) [] e = e
key_stays (suc n) (x ∷ key) e = refl

module _ ⦃b : Blake3⦄ ⦃t : Tropic⦄ ⦃s : WitnessSig⦄ (laws : CounterLaws t) where
  -- The device after a power loss inside `commit`, its counter read and the first `n` bytes of its
  -- key overwritten.
  abbrev pub key_torn : Appliance t.Chip → PreparedRecord → ℕ → Appliance t.Chip
  key_torn app p n = record app {
    active = record app.active { record_ = Record.prepared (wiped n p) };
    tropic = (t.counter_get app.tropic).1;
  }

  -- The device after boot recovery.
  abbrev pub restarted : Appliance t.Chip → PreparedRecord → ℕ → Appliance t.Chip
  restarted app p n = record (key_torn app p n) {
    tropic = (t.counter_get (t.counter_get app.tropic).1).1;
  }

  recover-key_torn :
      Works laws
      → (app : Appliance t.Chip) (p : PreparedRecord) (n : ℕ)
      → app.firmware_boundary_invalid ≡ false
      → app.rmemory_map_invalid ≡ false
      → app.active.status ≡ Status.prepared
      → p.txn.prev_root ≡ app.active.root
      → app.active.u + laws.counter app.tropic ≡ app.h0
      → is_empty p.sk_hw ≡ false
      → recover (key_torn app p n) ≡ (accept_prepared_can_complete, restarted app p n)
  unfolding recover
  recover-key_torn k app p n f g st parent in_step key =
      let same = ct_eq_32-of_eq p.txn.prev_root app.active.root parent in
      let get = k.get_ok (t.counter_get app.tropic).1 in
      let keeps = laws.get_keeps app.tropic in let there = key_stays n p.sk_hw key in ground arith

  -- What becomes of the device after such a power loss, when boot recovery runs and the host goes on
  -- with `commit`, `emit` and `finalize`.
  pub record Spoils (app : Appliance t.Chip) (p : PreparedRecord) (n : ℕ) : Type 0 where
    pub reported : (recover (key_torn app p n)).0 ≡ accept_prepared_can_complete
    pub commits : (commit (recover (key_torn app p n)).1).0 ≡ ok tt
    pub release : OfflineRelease
    pub emits : emit (commit (recover (key_torn app p n)).1).1 ≡ ok release
    pub signed : release.cert.sigma ≡ s.sign (zeroize_rounds n p.sk_hw) p.cert_message
    pub by_key : release.cert.pk_hw ≡ p.pk_hw
    pub finalizes : (finalize (commit (recover (key_torn app p n)).1).1).0 ≡ ok p.txn.next_root
    pub used_up : (finalize (commit (recover (key_torn app p n)).1).1).1.active ≡ record {
      root = p.txn.next_root;
      u = p.txn.next_anchor_counter;
      status = Status.ready;
      record_ = Record.empty;
    }

  -- A witness key that is overwritten in part is signed with. For a device that satisfies its
  -- invariant, has no boot flag set, and holds a prepared record that passes the checks of `commit`,
  -- in the status prepared and on a chip that works: if the power fails when any number of bytes of
  -- the key are overwritten and the buffer is not cleared, then boot recovery reports that the
  -- package can be completed; `commit` succeeds; `emit` exports a release under the old public key
  -- whose signature is made with the overwritten key; and `finalize` installs the next root and
  -- index, so that the index is used up.
  pub torn_key_commits :
      Works laws
      → (app : Appliance t.Chip) (p : PreparedRecord) (h n : ℕ) → Inv app
      → app.firmware_boundary_invalid ≡ false
      → app.rmemory_map_invalid ≡ false
      → app.active.status ≡ Status.prepared
      → app.active.record_ ≡ Record.prepared p
      → Passes app p h
      → Spoils app p n
  unfolding release_of
  torn_key_commits k app p h n v f g st r q =
      let i = RecordInv-prepared laws app p v r in
      let at = i.index in
      let same : h ≡ laws.counter app.tropic = laws.get_value app.tropic q.reads in
      let passed = q.index in
      let movable = q.movable in
      let first = laws.get_keeps app.tropic in
      let second = laws.get_keeps (t.counter_get app.tropic).1 in
      let e = recover-key_torn k app p n f g st q.parent (omega arith) q.key in
      let c =
        commit_works laws k (restarted app p n) (wiped n p) refl (key_stays n p.sk_hw q.key)
          q.parent (omega arith) (omega arith) in
      let (exported, installed, active) =
        settle_works laws k (restarted app p n) (wiped n p) refl i.next_index c in
      record {
        reported = rw e refl;
        commits = rw e c;
        release =
            release_of (restarted app p n) (wiped n p) (laws.counter (restarted app p n).tropic);
        emits = rw e exported;
        signed = refl;
        by_key = refl;
        finalizes = rw e installed;
        used_up = rw e active;
      }
