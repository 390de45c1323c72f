-- ===== src/Appliance/Fork.antt =====
-- anchor-core/src/appliance.rs: the exported releases against the record and the counter.
use dsm_unplugged.Common.{
  ℕ, ◌+◌, ◌≤◌, ◌≡◌, refl, ◌⊎◌, inl, inr, true, false, List, [], ◌∷◌, All, arith,
}
use dsm_unplugged.RootAdvance.{OfflineRelease}
use dsm_unplugged.Appliance.{Record, PreparedRecord, CommittedRecord}
use dsm_unplugged.Appliance.Operations.{mark_committed}

All-mono {ℓ κ} :
    {A : Type ℓ} (P Q : A → Type κ) (xs : List A) → ((a : A) → P a → Q a) → All P xs → All Q xs
All-mono P Q [] f h = tt
All-mono P Q (x ∷ xs) f (p, h) = (f x p, All-mono P Q xs f h)

All-zip {ℓ κ} :
    {A : Type ℓ} (P Q R : A → Type κ) (xs : List A)
    → ((a : A) → P a → Q a → R a)
    → All P xs
    → All Q xs
    → All R xs
All-zip P Q R [] f h k = tt
All-zip P Q R (x ∷ xs) f (p, h) (q, k) = (f x p q, All-zip P Q R xs f h k)

-- A release whose index the counter has left behind.
pub record IsSpent (h0 n : ℕ) (rel : OfflineRelease) : Type 0 where
  pub step : rel.transition.next_anchor_counter ≡ rel.transition.anchor_counter + 1
  pub passed : rel.transition.next_anchor_counter + n ≤ h0

-- Relative to a committed record, an exported release is that record's own or an older one.
abbrev pub IsOld : CommittedRecord → OfflineRelease → Type 0
IsOld c rel = (rel ≡ c.release) ⊎ (rel.transition.next_anchor_counter ≤ c.anchor_counter)

abbrev pub Current : ℕ → ℕ → Record → List OfflineRelease → Type 0
Current h0 n Record.empty log = Unit {0}
Current h0 n (Record.prepared p) log = Unit {0}
Current h0 n (Record.committed c) log =
    (c.committed ≡ true → c.next_anchor_counter + n ≤ h0) × All (IsOld c) log

-- No two entries share an index unless they are the same release.
abbrev pub OnePerIndex : List OfflineRelease → Type 0
OnePerIndex [] = Unit {0}
OnePerIndex (r ∷ rs) =
    All (λ q. q.transition.anchor_counter ≡ r.transition.anchor_counter → q ≡ r) rs × OnePerIndex rs

-- What holds of the exported releases, given the enrolled and the live counter and the record.
pub record Fits (h0 n : ℕ) (r : Record) (log : List OfflineRelease) : Type 0 where
  pub spent : All (IsSpent h0 n) log
  pub current : Current h0 n r log
  pub unique : OnePerIndex log

IsSpent-lower : (h0 n m : ℕ) (rel : OfflineRelease) → m ≤ n → IsSpent h0 n rel → IsSpent h0 m rel
IsSpent-lower h0 n m rel le v = record { step = v.step; passed = omega (arith, v.passed) }

Current-lower :
    (h0 n m : ℕ) (r : Record) (log : List OfflineRelease)
    → m ≤ n
    → Current h0 n r log
    → Current h0 m r log
Current-lower h0 n m Record.empty log le v = tt
Current-lower h0 n m (Record.prepared p) log le v = tt
Current-lower h0 n m (Record.committed c) log le v = (λ e. let k = v.0 e in omega arith, v.1)

pub Fits-lower :
    (h0 n m : ℕ) (r : Record) (log : List OfflineRelease)
    → m ≤ n
    → Fits h0 n r log
    → Fits h0 m r log
Fits-lower h0 n m r log le v = record {
  spent = All-mono _ _ log (λ rel. IsSpent-lower h0 n m rel le) v.spent;
  current = Current-lower h0 n m r log le v.current;
  unique = v.unique;
}

-- A record that is not committed asks nothing of the log.
pub Fits-empty :
    (h0 n : ℕ) (r : Record) (log : List OfflineRelease)
    → Fits h0 n r log
    → Fits h0 n Record.empty log
Fits-empty h0 n r log v = record { spent = v.spent; current = tt; unique = v.unique }

pub Fits-prepared :
    (h0 n : ℕ) (r : Record) (p : PreparedRecord) (log : List OfflineRelease)
    → Fits h0 n r log
    → Fits h0 n (Record.prepared p) log
Fits-prepared h0 n r p log v = record { spent = v.spent; current = tt; unique = v.unique }

-- A candidate at the live index is newer than all that was exported.
pub Fits-candidate :
    (h0 n : ℕ) (r : Record) (c : CommittedRecord) (log : List OfflineRelease)
    → c.anchor_counter + n ≡ h0
    → c.committed ≡ false
    → Fits h0 n r log
    → Fits h0 n (Record.committed c) log
Fits-candidate h0 n r c log live fresh v = record {
  spent = v.spent;
  current = (λ e. cc, All-mono _ _ log (λ rel k. inr (omega (arith, k.passed))) v.spent);
  unique = v.unique;
}

pub Fits-marked :
    (h0 n : ℕ) (c : CommittedRecord) (log : List OfflineRelease)
    → c.next_anchor_counter + n ≤ h0
    → Fits h0 n (Record.committed c) log
    → Fits h0 n (Record.committed (mark_committed c)) log
Fits-marked h0 n c log le v = record {
  spent = v.spent;
  current = (λ _. le, v.current.1);
  unique = v.unique;
}

-- Exporting the release of a record whose counter has moved.
pub Fits-emitted :
    (h0 n : ℕ) (c : CommittedRecord) (log : List OfflineRelease)
    → c.committed ≡ true
    → c.next_anchor_counter ≡ c.anchor_counter + 1
    → c.release.transition.anchor_counter ≡ c.anchor_counter
    → c.release.transition.next_anchor_counter ≡ c.next_anchor_counter
    → Fits h0 n (Record.committed c) log
    → Fits h0 n (Record.committed c) (c.release ∷ log)
Fits-emitted h0 n c log f st i k v =
    let le = v.current.0 f in
    record {
      spent = (record { step = omega arith; passed = omega arith }, v.spent);
      current = (v.current.0, (inl refl, v.current.1));
      unique = (
        All-zip _ _ _ log
            (λ q old done e. elim old [
              | inl same ↦ same
              | inr older ↦ absurd (omega (arith, done.step))
            ])
            v.current.1 v.spent,
        v.unique,
      );
    }
