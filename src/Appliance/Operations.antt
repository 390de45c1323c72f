-- ===== src/Appliance/Operations.antt =====
-- anchor-core/src/appliance.rs: `live_index`, `prepare`, `commit`, `emit`, `finalize`, `cancel`.
use dsm_unplugged.Common.{
  ℕ, zero, suc, ◌+◌, ◌-◌, ◌%◌, ◌^◌, Bool, true, false, not, List, [], ◌∷◌, Array, Result, ok, err,
  map_err, ◌==◌, checked_sub,
}
use dsm_unplugged.Common.{guard as check, ok_or as or_fail}
use dsm_unplugged.Util.{ct_eq_32}
use dsm_unplugged.Hash.{Blake3}
use dsm_unplugged.Tropic.{Tropic, WitnessSig}
use dsm_unplugged.RootAdvance.{
  Transition, from, as_transition, transition_digest, witness_input, witness_key_material, pk_hash,
  cert_message, Certificate, OfflineRelease,
}
use dsm_unplugged.Appliance.{
  Status, ApplianceError, wrong_state, prev_root_mismatch, index_mismatch, counter_mismatch,
  witness_key_lost, counter_exhausted, not_committed, tropic, PreparedRecord, CommittedRecord,
  Record, Active, Appliance, zeroize_vec,
}

abbrev pub is_ready : Status → Bool
is_ready Status.ready = true
is_ready _ = false

abbrev pub is_empty : List ℕ → Bool
is_empty [] = true
is_empty (x ∷ xs) = false

-- `c.committed = true`
abbrev pub mark_committed : CommittedRecord → CommittedRecord
mark_committed c = record c { committed = true }

-- `zeroize_vec(&mut p.sk_hw)`
abbrev pub erased : PreparedRecord → PreparedRecord
erased p = record p { sk_hw = zeroize_vec p.sk_hw }

-- The buffer after the first `n` rounds of the loop of `zeroize`.
abbrev pub zeroize_rounds : ℕ → List ℕ → List ℕ
zeroize_rounds zero buf = buf
zeroize_rounds (suc n) [] = []
zeroize_rounds (suc n) (x ∷ buf) = 0 ∷ zeroize_rounds n buf

-- A power loss inside `zeroize_vec(&mut p.sk_hw)`: bytes are overwritten, and the buffer is not yet
-- cleared.
abbrev pub wiped : ℕ → PreparedRecord → PreparedRecord
wiped n p = record p { sk_hw = zeroize_rounds n p.sk_hw }

-- A method on `&mut self` with an early return: the state is kept also when it fails.
abbrev pub M : Type 0 → Type 0 → Type 0
M Chip A = Appliance Chip → Result A ApplianceError × Appliance Chip

infixl 5 ◌>>=◌ ◌>>◌
abbrev pub ◌>>=◌ : {Chip A B : Type 0} → M Chip A → (A → M Chip B) → M Chip B
◌>>=◌ m f app = let (r, app') = m app in elim r [ ok a ↦ f a app' | err e ↦ (err e, app') ]

abbrev pub ◌>>◌ : {Chip B : Type 0} → M Chip (Unit {0}) → M Chip B → M Chip B
m >> k = m >>= λ _. k

abbrev pub lift : {Chip A : Type 0} → Result A ApplianceError → M Chip A
lift r app = (r, app)

abbrev pub guard : {Chip : Type 0} → Bool → ApplianceError → M Chip (Unit {0})
guard b e = lift (check b e)

abbrev pub set_active : {Chip : Type 0} → Active → M Chip (Unit {0})
set_active a app = (ok tt, record app { active = a })

-- The state that `&self` reads.
abbrev pub get : {Chip : Type 0} → M Chip (Appliance Chip)
get app = (ok app, app)

module _ ⦃t : Tropic⦄ where
  -- `self.tropic.counter_get().map_err(ApplianceError::Tropic)?`
  unfoldable pub counter_get : M t.Chip ℕ
  counter_get app =
      let (r, c) = t.counter_get app.tropic in (map_err tropic r, record app { tropic = c })

  unfoldable pub mac_and_destroy : ℕ → Array 32 → M t.Chip (Array 32)
  mac_and_destroy q x app =
      let (r, c) = t.mac_and_destroy q x app.tropic in (map_err tropic r, record app { tropic = c })

  -- `.map_err(|_| ApplianceError::CounterExhausted)?`
  unfoldable pub counter_update : M t.Chip (Unit {0})
  counter_update app =
      let (r, c) = t.counter_update app.tropic in
      (map_err (λ _. counter_exhausted) r, record app { tropic = c })

  unfoldable pub live_index : M t.Chip ℕ
  unfolding counter_get
  live_index = do app ← get; h ← counter_get; lift (or_fail (checked_sub app.h0 h) counter_mismatch)

module _ ⦃b : Blake3⦄ ⦃t : Tropic⦄ ⦃s : WitnessSig⦄ where
  -- The record that `prepare` stores, from the witness output `w`. The copies of `w` and of the key
  -- seed that the source overwrites afterwards are local.
  unfoldable pub prepared_record : ℕ → Array 32 → Transition → Array 32 → Array 32 → PreparedRecord
  prepared_record slot anchor_id t receiver_challenge w =
      let d = transition_digest t in
      let x = witness_input t d anchor_id slot receiver_challenge in
      let k = witness_key_material w x t anchor_id slot in
      let (sk_hw, pk_hw) = s.keygen k in
      let p_hw = pk_hash pk_hw in
      record {
        txn = from t;
        digest = d;
        witness_input = x;
        cert_message = cert_message t d x p_hw anchor_id slot receiver_challenge;
        pk_hw = pk_hw;
        p_hw = p_hw;
        sk_hw = sk_hw;
        receiver_challenge = receiver_challenge;
      }

  -- `t.anchor_counter + 1` is on u64.
  unfoldable pub prepare : Transition → Array 32 → M t.Chip (Unit {0})
  unfolding live_index mac_and_destroy
  prepare t receiver_challenge = do
    app ← get
    guard (is_ready app.active.status) wrong_state
    guard (ct_eq_32 app.active.root t.prev_root) prev_root_mismatch
    guard (t.anchor_counter == app.active.u) index_mismatch
    guard (t.next_anchor_counter == (t.anchor_counter + 1) % 2 ^ 64) index_mismatch
    live_u ← live_index
    guard (app.active.u == live_u) counter_mismatch
    let x = witness_input t (transition_digest t) app.anchor_id app.slot receiver_challenge
    w ← mac_and_destroy app.slot x
    set_active (record app.active {
      status = Status.prepared;
      record_ = Record.prepared (prepared_record app.slot app.anchor_id t receiver_challenge w);
    })

  unfoldable pub certificate : Appliance t.Chip → PreparedRecord → Certificate
  certificate app p = record {
    prev_root = p.txn.prev_root;
    next_root = p.txn.next_root;
    anchor_counter = p.txn.anchor_counter;
    next_anchor_counter = p.txn.next_anchor_counter;
    transition_digest = p.digest;
    witness_input = p.witness_input;
    pk_hash = p.p_hw;
    pk_hw = p.pk_hw;
    sigma = s.sign p.sk_hw p.cert_message;
    anchor_id = app.anchor_id;
    slot = app.slot;
    receiver_challenge = p.receiver_challenge;
  }

  -- The release that `commit` assembles while the counter reads `h`.
  unfoldable pub release_of : Appliance t.Chip → PreparedRecord → ℕ → OfflineRelease
  unfolding certificate
  release_of app p h = record {
    transition = from (as_transition p.txn);
    cert = certificate app p;
    counter = record {
      anchor_id = app.anchor_id;
      enrolled_counter = app.h0;
      live_counter_claim = h - 1;
      derived_index_claim = p.txn.next_anchor_counter;
      verifier_transcript = [];
    };
  }

  unfoldable pub candidate : PreparedRecord → OfflineRelease → CommittedRecord
  candidate p release = record {
    prev_root = p.txn.prev_root;
    next_root = p.txn.next_root;
    anchor_counter = p.txn.anchor_counter;
    next_anchor_counter = p.txn.next_anchor_counter;
    release = release;
    committed = false;
  }

  -- `commit` on a prepared record: the checks, then the three durable phases.
  unfoldable pub commit_prepared : PreparedRecord → M t.Chip (Unit {0})
  unfolding counter_get counter_update release_of candidate
  commit_prepared p = do
    app ← get
    guard (not (is_empty p.sk_hw)) witness_key_lost
    guard (ct_eq_32 p.txn.prev_root app.active.root) prev_root_mismatch
    h ← counter_get
    guard (not (h == 0)) counter_exhausted
    live_u ← lift (or_fail (checked_sub app.h0 h) counter_mismatch)
    guard (live_u == p.txn.anchor_counter) counter_mismatch
    let c = candidate p (release_of app p h)
    set_active (record app.active { record_ = Record.prepared (erased p) })
    set_active
        (record app.active { status = Status.committed; record_ = Record.prepared (erased p) })
    set_active (record app.active { status = Status.committed; record_ = Record.committed c })
    counter_update
    set_active (record app.active {
      u = p.txn.next_anchor_counter;
      status = Status.committed;
      record_ = Record.committed (mark_committed c);
    })

  unfoldable pub commit : M t.Chip (Unit {0})
  unfolding commit_prepared
  commit app = elim app.active.record_ [
    | Record.prepared p ↦ commit_prepared p app
    | Record.empty ↦ (err wrong_state, app)
    | Record.committed c ↦ (err wrong_state, app)
  ]

  -- The record that `emit` and `finalize` act on: committed, and the counter moved.
  abbrev pub counter_committed : Record → Result CommittedRecord ApplianceError
  counter_committed Record.empty = err not_committed
  counter_committed (Record.prepared p) = err not_committed
  counter_committed (Record.committed c) = elim c.committed [
    | true ↦ ok c
    | false ↦ err not_committed
  ]

  unfoldable pub emit : Appliance t.Chip → Result OfflineRelease ApplianceError
  emit app = elim (counter_committed app.active.record_) [ ok c ↦ ok c.release | err e ↦ err e ]

  unfoldable pub finalize : M t.Chip (Array 32)
  unfolding live_index
  finalize = do
    app ← get
    c ← lift (counter_committed app.active.record_)
    live_u ← live_index
    guard (app.active.u == live_u) counter_mismatch
    set_active (record {
      root = c.next_root;
      u = app.active.u;
      status = Status.ready;
      record_ = Record.empty;
    })
    lift (ok c.next_root)

  unfoldable pub cancel : M t.Chip (Unit {0})
  cancel app = elim app.active.record_ [
    | Record.prepared p ↦ (
      ok tt,
      record app { active = record app.active { status = Status.ready; record_ = Record.empty } },
    )
    | Record.empty ↦ (err wrong_state, app)
    | Record.committed c ↦ (err wrong_state, app)
  ]
