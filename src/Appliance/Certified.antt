-- ===== src/Appliance/Certified.antt =====
-- anchor-core/src/appliance.rs: the signatures of the releases that a device exports.
use dsm_unplugged.Common.{ℕ, ◌<◌, ◌^◌, ◌≡◌, subst, List, [], ◌∷◌, Array, All}
use dsm_unplugged.Hash.{Blake3}
use dsm_unplugged.Tropic.{Tropic, WitnessSig, CounterLaws, IsCorrect}
use dsm_unplugged.RootAdvance.{OfflineRelease}
use dsm_unplugged.Appliance.{Record, Appliance, PreparedRecord, new}
use dsm_unplugged.Appliance.Operations.{candidate, release_of}
use dsm_unplugged.Appliance.Commit.{Passes}
use dsm_unplugged.Appliance.Invariant.{
  CoreInv, CoreInv-at, KeyInv, IsConsistent, IsSigned, IsCertified, erased-Signs,
  candidate-IsSigned, prepare-KeyInv, commit-KeyInv,
}
use dsm_unplugged.Appliance.Preserve.{finalize-KeyInv, cancel-KeyInv, recover-KeyInv, emit-IsSigned}
use dsm_unplugged.Appliance.Trace.{
  World, Step, prepares, commits, finalizes, cancels, recovers, emits, cut_in_prepare,
  cut_in_zeroize, cut_in_cancel, cut_in_phase1, cut_before_update, cut_after_update, cut_in_phase3,
  cut_in_recover, drifts, boots, Reach, here, next, KeepsKeys, KeysKept, enrolled,
}
use dsm_unplugged.Appliance.Safety.{IsSafe, Reach-IsSafe, enrolled-IsSafe}

module _ ⦃b : Blake3⦄ ⦃t : Tropic⦄ ⦃s : WitnessSig⦄ where
  signs_with :
      (app : Appliance t.Chip) (p : PreparedRecord) (h : ℕ)
      → app.active.record_ ≡ Record.prepared p
      → Passes app p h
      → CoreInv app
      → KeyInv app.active.record_
      → IsSigned (candidate p (release_of app p h)).release
  signs_with app p h r q i k =
      candidate-IsSigned app p h q.key (CoreInv-at app (Record.prepared p) r i) (subst KeyInv r k)

  All-IsCertified :
      (anchor_id : Array 32) (slot : ℕ) (log : List OfflineRelease)
      → All (IsConsistent anchor_id slot) log
      → All IsSigned log
      → All (IsCertified anchor_id slot) log
  All-IsCertified anchor_id slot [] c g = tt
  All-IsCertified anchor_id slot (rel ∷ log) c g =
      ((c.0, g.0), All-IsCertified anchor_id slot log c.1 g.1)

module _ ⦃b : Blake3⦄ ⦃t : Tropic⦄ ⦃s : WitnessSig⦄ (correct : IsCorrect s)
    (laws : CounterLaws t) where
  -- The key of the record signs, and what has been exported is signed.
  abbrev pub AreSigned : World laws → Type 0
  AreSigned w = KeyInv w.app.active.record_ × All IsSigned w.released

  Step-AreSigned :
      {v w : World laws} (st : Step laws v w)
      → KeepsKeys laws st
      → IsSafe laws v
      → AreSigned v
      → AreSigned w
  unfolding candidate
  Step-AreSigned (prepares w tr rc) k z a = (prepare-KeyInv correct tr rc w.app a.0, a.1)
  Step-AreSigned (commits w) k z a = (commit-KeyInv w.app (z.inv, a.0), a.1)
  Step-AreSigned (finalizes w) k z a = (finalize-KeyInv w.app a.0, a.1)
  Step-AreSigned (cancels w) k z a = (cancel-KeyInv w.app a.0, a.1)
  Step-AreSigned (recovers w) k z a = (recover-KeyInv laws w.app a.0, a.1)
  Step-AreSigned (emits w rel h) k z a = (a.0, (emit-IsSigned w.app a.0 h, a.1))
  Step-AreSigned (cut_in_prepare w tr rc h) k z a = a
  Step-AreSigned (cut_in_zeroize w p n r) k z a = absurd k
  Step-AreSigned (cut_in_cancel w p st r d) k z a = (erased-Signs p, a.1)
  Step-AreSigned (cut_in_phase1 w p h st r q d) k z a = (erased-Signs p, a.1)
  Step-AreSigned (cut_before_update w p h r q) k z a = (signs_with w.app p h r q z.inv a.0, a.1)
  Step-AreSigned (cut_after_update w p h r q m) k z a = (signs_with w.app p h r q z.inv a.0, a.1)
  Step-AreSigned (cut_in_phase3 w p h r q m) k z a = (signs_with w.app p h r q z.inv a.0, a.1)
  Step-AreSigned (cut_in_recover w) k z a = (recover-KeyInv laws w.app a.0, a.1)
  Step-AreSigned (drifts w chip le) k z a = a
  Step-AreSigned (boots w boundary map) k z a = a

  Reach-AreSigned :
      {v w : World laws}
      → IsSafe laws v
      → AreSigned v
      → (r : Reach laws v w) → KeysKept laws r
      → AreSigned w
  Reach-AreSigned z a here k = a
  Reach-AreSigned z a (next r st) k =
      Step-AreSigned st k.1 (Reach-IsSafe laws z r) (Reach-AreSigned z a r k.0)

  -- For a device enrolled with a 32-bit counter value, a correct signature scheme and a chip that
  -- keeps the laws of its down-counter, over every history of calls, power cuts, counter drift and
  -- boot checks in which no power loss cuts off the overwriting of a witness key, every exported
  -- release is certified: package and certificate agree, the next index is the successor, the digests
  -- recompute and the signature verifies.
  pub released-IsCertified :
      (chip : t.Chip) (h0 : ℕ) (root anchor_id : Array 32) (slot : ℕ) (w : World laws)
      → h0 < 2 ^ 32
      → (r : Reach laws (enrolled laws chip h0 root anchor_id slot) w) → KeysKept laws r
      → All (IsCertified w.app.anchor_id w.app.slot) w.released
  unfolding new
  released-IsCertified chip h0 root anchor_id slot w lt r k =
      let z = enrolled-IsSafe laws chip h0 root anchor_id slot lt in
      All-IsCertified w.app.anchor_id w.app.slot w.released (Reach-IsSafe laws z r).consistent
        (Reach-AreSigned z (tt, tt) r k).1
