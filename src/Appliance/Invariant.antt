-- ===== src/Appliance/Invariant.antt =====
-- anchor-core/src/appliance.rs: what holds of the active state between two calls.
use dsm_unplugged.Common.{
  ℕ, ◌+◌, ◌^◌, ◌<◌, ◌≡◌, ◌⊎◌, refl, sym, subst, inl, inr, true, false, List, Array, arith,
  Result-cases,
}
use dsm_unplugged.Hash.{Blake3, h-IsBytes}
use dsm_unplugged.Tropic.{Tropic, WitnessSig, IsCorrect}
use dsm_unplugged.RootAdvance.{
  Transition, from, as_transition, transition_digest, witness_input, pk_hash, cert_message,
  OfflineRelease,
}
use dsm_unplugged.Appliance.{
  Status, Record, Record-cases, Active, Appliance, PreparedRecord, CommittedRecord, new,
  zeroize_vec,
}
use dsm_unplugged.Appliance.Operations.{
  is_empty, prepare, prepared_record, commit, candidate, release_of, mark_committed, erased,
}
use dsm_unplugged.Appliance.Prepare.{
  SameDevice, prepare-SameDevice, prepare_err, Prepares, prepare_ok,
}
use dsm_unplugged.Appliance.Commit.{
  commit-SameDevice, refused, interrupted, done, commit-CommitCase, commit_empty, commit_committed,
}

module _ ⦃b : Blake3⦄ ⦃s : WitnessSig⦄ where
  -- A release whose package and certificate agree, and whose digests recompute.
  pub record IsConsistent (anchor_id : Array 32) (slot : ℕ) (rel : OfflineRelease) : Type 0 where
    pub same_prev_root : rel.cert.prev_root ≡ rel.transition.prev_root
    pub same_next_root : rel.cert.next_root ≡ rel.transition.next_root
    pub same_anchor_counter : rel.cert.anchor_counter ≡ rel.transition.anchor_counter
    pub same_next_anchor_counter : rel.cert.next_anchor_counter ≡ rel.transition.next_anchor_counter
    pub next_index : rel.transition.next_anchor_counter ≡ rel.transition.anchor_counter + 1
    pub digest_recomputes :
        transition_digest (as_transition rel.transition) ≡ rel.cert.transition_digest
    pub input_recomputes :
        witness_input
          (as_transition rel.transition)
          rel.cert.transition_digest
          rel.cert.anchor_id
          rel.cert.slot
          rel.cert.receiver_challenge
        ≡ rel.cert.witness_input
    pub pk_hash_recomputes : pk_hash rel.cert.pk_hw ≡ rel.cert.pk_hash
    pub by_anchor : rel.cert.anchor_id ≡ anchor_id
    pub by_slot : rel.cert.slot ≡ slot
    pub evidence_by_anchor : rel.counter.anchor_id ≡ anchor_id

  -- Its signature verifies.
  abbrev pub IsSigned : OfflineRelease → Type 0
  IsSigned rel =
      s.verify rel.cert.pk_hw
        (cert_message (as_transition rel.transition) rel.cert.transition_digest
          rel.cert.witness_input rel.cert.pk_hash rel.cert.anchor_id rel.cert.slot
          rel.cert.receiver_challenge)
        rel.cert.sigma
      ≡ true

  -- A release that every check holds of which its package and certificate alone decide.
  abbrev pub IsCertified : Array 32 → ℕ → OfflineRelease → Type 0
  IsCertified anchor_id slot rel = IsConsistent anchor_id slot rel × IsSigned rel

  -- A prepared record: its digests are those of its transition.
  pub record IsPrepared (anchor_id : Array 32) (slot : ℕ) (root : Array 32) (u : ℕ)
      (p : PreparedRecord) : Type 0 where
    pub parent : p.txn.prev_root ≡ root
    pub index : p.txn.anchor_counter ≡ u
    pub next_index : p.txn.next_anchor_counter ≡ p.txn.anchor_counter + 1
    pub digest_recomputes : transition_digest (as_transition p.txn) ≡ p.digest
    pub input_recomputes :
        witness_input (as_transition p.txn) p.digest anchor_id slot p.receiver_challenge
        ≡ p.witness_input
    pub pk_hash_recomputes : pk_hash p.pk_hw ≡ p.p_hw
    pub message_recomputes :
        cert_message
          (as_transition p.txn)
          p.digest
          p.witness_input
          p.p_hw
          anchor_id
          slot
          p.receiver_challenge
        ≡ p.cert_message

  -- Its keys are a pair, as long as the secret one is there.
  abbrev pub Signs : PreparedRecord → Type 0
  Signs p =
      is_empty p.sk_hw ≡ false
      → s.verify p.pk_hw p.cert_message (s.sign p.sk_hw p.cert_message) ≡ true

  -- A record with another key.
  pub IsPrepared-key :
      {anchor_id root : Array 32} {slot u : ℕ} {p : PreparedRecord} (sk : List ℕ)
      → IsPrepared anchor_id slot root u p
      → IsPrepared anchor_id slot root u (record p { sk_hw = sk })
  IsPrepared-key sk v = record {
    parent = v.parent;
    index = v.index;
    next_index = v.next_index;
    digest_recomputes = v.digest_recomputes;
    input_recomputes = v.input_recomputes;
    pk_hash_recomputes = v.pk_hash_recomputes;
    message_recomputes = v.message_recomputes;
  }

  -- A record whose key `commit` has erased.
  pub erased-Signs : (p : PreparedRecord) → Signs (erased p)
  unfolding zeroize_vec
  erased-Signs p e = cc

  -- A committed record carries the release of its own step.
  pub record IsCommitted (anchor_id : Array 32) (slot : ℕ) (root : Array 32) (c : CommittedRecord)
      : Type 0 where
    pub parent : c.prev_root ≡ root
    pub step : c.next_anchor_counter ≡ c.anchor_counter + 1
    pub consistent : IsConsistent anchor_id slot c.release
    pub release_prev_root : c.release.transition.prev_root ≡ c.prev_root
    pub release_next_root : c.release.transition.next_root ≡ c.next_root
    pub release_index : c.release.transition.anchor_counter ≡ c.anchor_counter
    pub release_next_index : c.release.transition.next_anchor_counter ≡ c.next_anchor_counter

  pub mark-IsCommitted :
      {anchor_id : Array 32} {slot : ℕ} {root : Array 32} {c : CommittedRecord}
      → IsCommitted anchor_id slot root c
      → IsCommitted anchor_id slot root (mark_committed c)
  mark-IsCommitted v = record {
    parent = v.parent;
    step = v.step;
    consistent = v.consistent;
    release_prev_root = v.release_prev_root;
    release_next_root = v.release_next_root;
    release_index = v.release_index;
    release_next_index = v.release_next_index;
  }

  -- The record fits the status and the index. A power loss between two writes may leave the status of
  -- a package that is not stored yet, any status at a prepared record, and the old index at a record
  -- that is marked committed.
  abbrev pub RecordInv : Array 32 → ℕ → Array 32 → ℕ → Status → Record → Type 0
  RecordInv anchor_id slot root u st Record.empty = (st ≡ Status.ready) ⊎ (st ≡ Status.prepared)
  RecordInv anchor_id slot root u st (Record.prepared p) = IsPrepared anchor_id slot root u p
  RecordInv anchor_id slot root u st (Record.committed c) =
      (st ≡ Status.committed)
      × IsCommitted anchor_id slot root c
      × ((u ≡ c.anchor_counter) ⊎ (u ≡ c.next_anchor_counter))
      × (c.committed ≡ false → u ≡ c.anchor_counter)

  -- `h0` is a u32.
  abbrev pub InvOf : ℕ → Array 32 → ℕ → Active → Type 0
  InvOf h0 anchor_id slot a = (h0 < 2 ^ 32) × RecordInv anchor_id slot a.root a.u a.status a.record_

  abbrev pub CoreInv : {Chip : Type 0} → Appliance Chip → Type 0
  CoreInv app = InvOf app.h0 app.anchor_id app.slot app.active

  -- The key of a prepared record signs, and the release of a committed one is signed.
  abbrev pub KeyInv : Record → Type 0
  KeyInv Record.empty = Unit {0}
  KeyInv (Record.prepared p) = Signs p
  KeyInv (Record.committed c) = IsSigned c.release

  abbrev pub Inv : {Chip : Type 0} → Appliance Chip → Type 0
  Inv app = CoreInv app × KeyInv app.active.record_

  -- A device with the same identity satisfies it as soon as its active state does.
  pub CoreInv-frame :
      {Chip : Type 0} (app app' : Appliance Chip) (a : Active)
      → SameDevice app app'
      → app'.active ≡ a
      → InvOf app.h0 app.anchor_id app.slot a
      → CoreInv app'
  CoreInv-frame app app' a d e i = rw (d.same_h0, d.same_anchor_id, d.same_slot, e) i

  pub Inv-new :
      {Chip : Type 0} (chip : Chip) (h0 : ℕ) (root anchor_id : Array 32) (slot : ℕ)
      → h0 < 2 ^ 32
      → Inv (new chip h0 root anchor_id slot)
  unfolding new
  Inv-new chip h0 root anchor_id slot h = ((h, inl refl), tt)

module _ ⦃b : Blake3⦄ ⦃t : Tropic⦄ ⦃s : WitnessSig⦄ where
  prepared_record-IsPrepared :
      (tr : Transition) (rc w : Array 32) (app : Appliance t.Chip)
      → app.h0 < 2 ^ 32
      → Prepares tr rc app w
      → IsPrepared app.anchor_id app.slot app.active.root app.active.u
          (prepared_record app.slot app.anchor_id tr rc w)
  unfolding prepared_record from as_transition cert_message
  prepared_record-IsPrepared tr rc w app h0 p = record {
    parent = sym p.parent;
    index = p.index;
    next_index = ground (arith, p.live, p.index, p.next_index);
    digest_recomputes = refl;
    input_recomputes = refl;
    pk_hash_recomputes = refl;
    message_recomputes = refl;
  }

  -- `prepare` keeps the core of the invariant, also when it fails.
  pub prepare-CoreInv :
      (tr : Transition) (rc : Array 32) (app : Appliance t.Chip)
      → CoreInv app
      → CoreInv (prepare tr rc app).1
  prepare-CoreInv tr rc app i = elim (Result-cases (prepare tr rc app).0) [
    | inl (x, e) ↦
        let (w, p) = prepare_ok tr rc app e in
        CoreInv-frame app _ _ (prepare-SameDevice tr rc app) p.stored
          (i.0, prepared_record-IsPrepared tr rc w app i.0 p)
    | inr (x, e) ↦ CoreInv-frame app _ _ (prepare-SameDevice tr rc app) (prepare_err tr rc app e) i
  ]

  release_of-IsConsistent :
      (app : Appliance t.Chip) (p : PreparedRecord) (h : ℕ)
      → IsPrepared app.anchor_id app.slot app.active.root app.active.u p
      → IsConsistent app.anchor_id app.slot (release_of app p h)
  unfolding release_of from as_transition
  release_of-IsConsistent app p h v = record {
    same_prev_root = refl;
    same_next_root = refl;
    same_anchor_counter = refl;
    same_next_anchor_counter = refl;
    next_index = v.next_index;
    digest_recomputes = v.digest_recomputes;
    input_recomputes = v.input_recomputes;
    pk_hash_recomputes = v.pk_hash_recomputes;
    by_anchor = refl;
    by_slot = refl;
    evidence_by_anchor = refl;
  }

  pub candidate-IsSigned :
      (app : Appliance t.Chip) (p : PreparedRecord) (h : ℕ)
      → is_empty p.sk_hw ≡ false
      → IsPrepared app.anchor_id app.slot app.active.root app.active.u p
      → Signs p
      → IsSigned (candidate p (release_of app p h)).release
  unfolding candidate release_of from as_transition
  candidate-IsSigned app p h key v signs = rw v.message_recomputes (signs key)

  pub candidate-IsCommitted :
      (app : Appliance t.Chip) (p : PreparedRecord) (h : ℕ)
      → IsPrepared app.anchor_id app.slot app.active.root app.active.u p
      → IsCommitted app.anchor_id app.slot app.active.root (candidate p (release_of app p h))
  unfolding candidate release_of from as_transition
  candidate-IsCommitted app p h v = record {
    parent = v.parent;
    step = v.next_index;
    consistent = release_of-IsConsistent app p h v;
    release_prev_root = refl;
    release_next_root = refl;
    release_index = refl;
    release_next_index = refl;
  }

  -- The core of the invariant at a known record.
  pub CoreInv-at :
      (app : Appliance t.Chip) (r : Record)
      → app.active.record_ ≡ r
      → CoreInv app
      → RecordInv app.anchor_id app.slot app.active.root app.active.u app.active.status r
  CoreInv-at app r e i =
      subst (RecordInv app.anchor_id app.slot app.active.root app.active.u app.active.status) e i.1

  commit_prepared-CoreInv :
      (app : Appliance t.Chip) (p : PreparedRecord)
      → app.active.record_ ≡ Record.prepared p
      → CoreInv app
      → CoreInv (commit app).1
  unfolding candidate
  commit_prepared-CoreInv app p r i =
      let v = CoreInv-at app (Record.prepared p) r i in
      let frame = λ (a : Active). CoreInv-frame app (commit app).1 a (commit-SameDevice app) in
      elim (commit-CommitCase app p r) [
        | refused e m a c ↦ frame _ a i
        | interrupted h e q m n a c ↦
            frame _ a
              (i.0, (refl, candidate-IsCommitted app p h v, inl (sym v.index), λ _. sym v.index))
        | done h q m n a c ↦
            frame _ a
              (i.0, (refl, mark-IsCommitted (candidate-IsCommitted app p h v), inr refl, λ k. cc))
      ]

  -- `commit` keeps the core of the invariant on every path, the interrupted one included.
  pub commit-CoreInv : (app : Appliance t.Chip) → CoreInv app → CoreInv (commit app).1
  commit-CoreInv app i = elim (Record-cases app.active.record_) [
    | inl e ↦ rw (commit_empty app e) i
    | inr (inl (p, e)) ↦ commit_prepared-CoreInv app p e i
    | inr (inr (c, e)) ↦ rw (commit_committed app c e) i
  ]

  -- What `commit` signs with a key that signs.
  pub commit-KeyInv : (app : Appliance t.Chip) → Inv app → KeyInv (commit app).1.active.record_
  unfolding candidate
  commit-KeyInv app i = elim (Record-cases app.active.record_) [
    | inl e ↦ rw (commit_empty app e) i.1
    | inr (inr (c, e)) ↦ rw (commit_committed app c e) i.1
    | inr (inl (p, r)) ↦
        let v = CoreInv-at app (Record.prepared p) r i.0 in
        let signs = subst KeyInv r i.1 in
        elim (commit-CommitCase app p r) [
          | refused e m a c ↦ rw a i.1
          | interrupted h e q m n a c ↦ rw a (candidate-IsSigned app p h q.key v signs)
          | done h q m n a c ↦ rw a (candidate-IsSigned app p h q.key v signs)
        ]
  ]

module _ ⦃b : Blake3⦄ ⦃t : Tropic⦄ ⦃s : WitnessSig⦄ (correct : IsCorrect s) where
  prepared_record-Signs :
      (slot : ℕ) (anchor_id : Array 32) (tr : Transition) (rc w : Array 32)
      → Signs (prepared_record slot anchor_id tr rc w)
  unfolding prepared_record cert_message
  prepared_record-Signs slot anchor_id tr rc w e = correct _ _ (h-IsBytes _ _)

  -- What `prepare` stores has a key that signs, if the signature scheme is correct.
  pub prepare-KeyInv :
      (tr : Transition) (rc : Array 32) (app : Appliance t.Chip)
      → KeyInv app.active.record_
      → KeyInv (prepare tr rc app).1.active.record_
  prepare-KeyInv tr rc app k = elim (Result-cases (prepare tr rc app).0) [
    | inl (x, e) ↦
        let (w, p) = prepare_ok tr rc app e in
        rw p.stored (prepared_record-Signs app.slot app.anchor_id tr rc w)
    | inr (x, e) ↦ rw (prepare_err tr rc app e) k
  ]

  -- With a correct signature scheme, `prepare` keeps the invariant, also when it fails.
  pub prepare-Inv :
      (tr : Transition) (rc : Array 32) (app : Appliance t.Chip)
      → Inv app
      → Inv (prepare tr rc app).1
  prepare-Inv tr rc app i = (prepare-CoreInv tr rc app i.0, prepare-KeyInv tr rc app i.1)

  -- With a correct signature scheme, `commit` keeps the invariant on every path, the interrupted one
  -- included.
  pub commit-Inv : (app : Appliance t.Chip) → Inv app → Inv (commit app).1
  commit-Inv app i = (commit-CoreInv app i.0, commit-KeyInv app i)
