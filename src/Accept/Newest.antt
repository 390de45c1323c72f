-- ===== src/Accept/Newest.antt =====
-- anchor-core/src/accept.rs with appliance.rs: what a receiver that reads the chip can accept.
use dsm_unplugged.Common.{ℕ, ◌+◌, ◌≤◌, ◌<◌, ◌^◌, ◌≡◌, List, [], ◌∷◌, All, Array, some, ok, arith}
use dsm_unplugged.Hash.{Blake3}
use dsm_unplugged.Tropic.{Tropic, WitnessSig, CounterLaws}
use dsm_unplugged.RootAdvance.{CounterEvidence, OfflineRelease}
use dsm_unplugged.Appliance.Fork.{IsSpent}
use dsm_unplugged.Appliance.Trace.{World, Reach, enrolled}
use dsm_unplugged.Appliance.Safety.{released-IsSpent}
use dsm_unplugged.Accept.{DsmVerifier, CounterVerifier, VerifierContext, accept_offline}
use dsm_unplugged.Accept.Predicate.{accept_offline_iff}

-- The receiver reads the chip itself: what it takes for the counter of the device is `n`.
abbrev pub ReadsCounter : CounterVerifier → Array 32 → ℕ → Type 0
ReadsCounter counter anchor_id n =
    (ev : CounterEvidence) (v : ℕ) → counter.read_authentic_counter anchor_id ev ≡ some v → v ≡ n

-- The release is at the live index `h0 - n`, and none in the log is ahead of it.
pub record IsNewest (h0 n : ℕ) (rel : OfflineRelease) (log : List OfflineRelease) : Type 0 where
  pub live : rel.transition.next_anchor_counter + n ≡ h0
  pub newest : All (λ q. q.transition.next_anchor_counter ≤ rel.transition.next_anchor_counter) log

spent_behind :
    (h0 n i : ℕ) (log : List OfflineRelease)
    → i + n ≡ h0
    → All (IsSpent h0 n) log
    → All (λ q. q.transition.next_anchor_counter ≤ i) log
spent_behind h0 n i [] e h = tt
spent_behind h0 n i (q ∷ qs) e (p, h) = (omega (arith, p.passed), spent_behind h0 n i qs e h)

-- A stale release is refused. Take a device that was enrolled with a 32-bit counter value, with a
-- chip that keeps the laws of its down-counter, after any history; and a receiver that knows the
-- enrolled value and reads the device's counter itself. Whatever release it accepts then is at the
-- live index of the device, and no release that the device has exported is ahead of it.
pub accept_offline-IsNewest :
    ⦃b : Blake3⦄ ⦃t : Tropic⦄ ⦃s : WitnessSig⦄ (laws : CounterLaws t) (chip : t.Chip) (h0 : ℕ)
    (root anchor_id : Array 32) (slot : ℕ) (w : World laws) (rel : OfflineRelease)
    (ctx : VerifierContext) (dsm : DsmVerifier) (counter : CounterVerifier)
    → h0 < 2 ^ 32
    → Reach laws (enrolled laws chip h0 root anchor_id slot) w
    → ctx.enrolled_counter ≡ w.app.h0
    → ReadsCounter counter ctx.pinned_anchor_id (laws.counter w.app.tropic)
    → accept_offline rel ctx dsm counter ≡ ok tt
    → IsNewest w.app.h0 (laws.counter w.app.tropic) rel w.released
accept_offline-IsNewest laws chip h0 root anchor_id slot w rel ctx dsm counter lt r known reads e =
    let a = (accept_offline_iff rel ctx dsm counter).0 e in
    let value = reads rel.counter _ a.counter_attested in
    let within = a.index_enrolled in
    let live : rel.transition.next_anchor_counter + laws.counter w.app.tropic ≡ w.app.h0 =
      omega arith in
    record {
      live = live;
      newest =
          spent_behind w.app.h0 (laws.counter w.app.tropic) rel.transition.next_anchor_counter
            w.released live (released-IsSpent laws chip h0 root anchor_id slot w lt r);
    }
