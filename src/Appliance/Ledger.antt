-- ===== src/Appliance/Ledger.antt =====
-- anchor-core/src/appliance.rs: the one chain of roots that a device walks, and its releases on that
-- chain.
use dsm_unplugged.Common.{
  ℕ, ◌+◌, ◌≤◌, ◌≡◌, refl, sym, subst, ap, true, ◌∙◌, inl, inr, List, [], ◌∷◌, Array, All, ◌==◌,
  if◌then◌else◌, Bool-cases, arith,
}
use dsm_unplugged.RootAdvance.{OfflineRelease}
use dsm_unplugged.Appliance.{Record, CommittedRecord}
use dsm_unplugged.Appliance.Fork.{IsSpent, IsOld}

-- The abstract device: for each index the root that the DSM state has there.
abbrev pub Ledger : Type 0
Ledger = ℕ → Array 32

-- The next entry of a ledger.
abbrev pub extend : Ledger → ℕ → Array 32 → Ledger
extend ledger i root n = if n == i then root else ledger n

-- A release is the step of the ledger at its index, and the counter has reached its next index.
pub record IsStepOf (ledger : Ledger) (u : ℕ) (rel : OfflineRelease) : Type 0 where
  pub before : ledger rel.transition.anchor_counter ≡ rel.transition.prev_root
  pub after : ledger rel.transition.next_anchor_counter ≡ rel.transition.next_root
  pub reached : rel.transition.next_anchor_counter ≤ u

-- The index of the installed root: that of a committed record is the one before its step.
abbrev pub root_index : Record → ℕ → ℕ
root_index Record.empty u = u
root_index (Record.prepared p) u = u
root_index (Record.committed c) u = c.anchor_counter

-- The index that the counter has reached: a record that is marked committed is one step ahead, also
-- where the index of the device is still the old one.
abbrev pub reached_index : Record → ℕ → ℕ
reached_index Record.empty u = u
reached_index (Record.prepared p) u = u
reached_index (Record.committed c) u = if c.committed then c.next_anchor_counter else u

-- A device with this root, index and record, that has exported these releases, is at its place on the
-- ledger.
pub record IsOn (ledger : Ledger) (genesis root : Array 32) (u : ℕ) (r : Record)
    (log : List OfflineRelease) : Type 0 where
  pub starts : ledger 0 ≡ genesis
  pub installed : ledger (root_index r u) ≡ root
  pub exported : All (IsStepOf ledger (reached_index r u)) log

extend_at : (ledger : Ledger) (i : ℕ) (root : Array 32) → extend ledger i root i ≡ root
extend_at ledger i root = ground arith

extend_below :
    (ledger : Ledger) (i : ℕ) (root : Array 32) (n : ℕ)
    → n + 1 ≤ i
    → extend ledger i root n ≡ ledger n
extend_below ledger i root n h = ground arith

All-reached :
    (ledger : Ledger) (u v : ℕ) (log : List OfflineRelease)
    → u ≤ v
    → All (IsStepOf ledger u) log
    → All (IsStepOf ledger v) log
All-reached ledger u v [] h k = tt
All-reached ledger u v (r ∷ rs) h (p, k) = (
  record { before = p.before; after = p.after; reached = omega (arith, p.reached) },
  All-reached ledger u v rs h k,
)

-- The releases exported so far stay on a ledger that gets the entry of a committed record.
extended_step :
    (ledger : Ledger) (c : CommittedRecord) (u : ℕ) (rel : OfflineRelease)
    → c.next_anchor_counter ≡ c.anchor_counter + 1
    → c.release.transition.next_root ≡ c.next_root
    → u ≤ c.next_anchor_counter
    → IsOld c rel
    → rel.transition.next_anchor_counter ≡ rel.transition.anchor_counter + 1
    → IsStepOf ledger u rel
    → IsStepOf (extend ledger c.next_anchor_counter c.next_root) u rel
extended_step ledger c u rel st root le old k v =
    let reached = v.reached in
    record {
      before =
          extend_below ledger c.next_anchor_counter c.next_root rel.transition.anchor_counter
            (omega arith)
          ∙ v.before;
      after = elim old [
        | inr older ↦
            extend_below ledger c.next_anchor_counter c.next_root rel.transition.next_anchor_counter
              (omega arith)
            ∙ v.after
        | inl same ↦
            elim (Bool-cases (rel.transition.next_anchor_counter == c.next_anchor_counter)) [
              | inl e ↦ rw e (sym (ap (λ (r : OfflineRelease). r.transition.next_root) same ∙ root))
              | inr e ↦ rw e v.after
            ]
      ];
      reached = v.reached;
    }

All-extended :
    (ledger : Ledger) (c : CommittedRecord) (u h0 n : ℕ) (log : List OfflineRelease)
    → c.next_anchor_counter ≡ c.anchor_counter + 1
    → c.release.transition.next_root ≡ c.next_root
    → u ≤ c.next_anchor_counter
    → All (IsOld c) log
    → All (IsSpent h0 n) log
    → All (IsStepOf ledger u) log
    → All (IsStepOf (extend ledger c.next_anchor_counter c.next_root) u) log
All-extended ledger c u h0 n [] st root le o s v = tt
All-extended ledger c u h0 n (r ∷ rs) st root le (o, os) (s, ss) (v, vs) = (
  extended_step ledger c u r st root le o s.step v,
  All-extended ledger c u h0 n rs st root le os ss vs,
)

pub IsOn-later :
    {ledger : Ledger} {genesis root : Array 32} {u : ℕ} {r : Record} {log : List OfflineRelease}
    (v : ℕ) (q : Record)
    → IsOn ledger genesis root u r log
    → reached_index r u ≤ reached_index q v
    → root_index q v ≡ root_index r u
    → IsOn ledger genesis root v q log
IsOn-later {ledger} {genesis} {root} {u} {r} {log} v q k le e = record {
  starts = k.starts;
  installed = ap ledger e ∙ k.installed;
  exported = All-reached ledger (reached_index r u) (reached_index q v) log le k.exported;
}

module _ {ledger : Ledger} {genesis root : Array 32} {u : ℕ} {log : List OfflineRelease} (h0 n : ℕ)
    (c : CommittedRecord) (k : IsOn ledger genesis root u (Record.committed c) log)
    (st : c.next_anchor_counter ≡ c.anchor_counter + 1) (moved : c.committed ≡ true)
    (rel_root : c.release.transition.next_root ≡ c.next_root) (old : All (IsOld c) log)
    (spent : All (IsSpent h0 n) log) where
  top : reached_index (Record.committed c) u ≡ c.next_anchor_counter
  top = rw moved refl

  extended_log :
      All (IsStepOf (extend ledger c.next_anchor_counter c.next_root) c.next_anchor_counter) log
  extended_log =
      All-extended ledger c c.next_anchor_counter h0 n log st rel_root (omega arith) old spent
        (subst (λ (m : ℕ). All (IsStepOf ledger m) log) top k.exported)

  extended_start : extend ledger c.next_anchor_counter c.next_root 0 ≡ genesis
  extended_start = extend_below ledger c.next_anchor_counter c.next_root 0 (omega arith) ∙ k.starts

  -- Installing the root of the committed record.
  pub IsOn-installed :
      u ≡ c.next_anchor_counter
      → IsOn
          (extend ledger c.next_anchor_counter c.next_root)
          genesis
          c.next_root
          u
          Record.empty
          log
  IsOn-installed at = record {
    starts = extended_start;
    installed =
        ap (extend ledger c.next_anchor_counter c.next_root) at
        ∙ extend_at ledger c.next_anchor_counter c.next_root;
    exported = All-reached _ _ u log (omega arith) extended_log;
  }

  -- Exporting the release of the committed record.
  pub IsOn-exported :
      c.prev_root ≡ root
      → c.release.transition.prev_root ≡ c.prev_root
      → c.release.transition.anchor_counter ≡ c.anchor_counter
      → c.release.transition.next_anchor_counter ≡ c.next_anchor_counter
      → IsOn
          (extend ledger c.next_anchor_counter c.next_root)
          genesis
          root
          u
          (Record.committed c)
          (c.release ∷ log)
  IsOn-exported parent before i j =
      let ledger' = extend ledger c.next_anchor_counter c.next_root in
      let reaches = top in
      let here =
        extend_below ledger c.next_anchor_counter c.next_root c.anchor_counter (omega arith) in
      record {
        starts = extended_start;
        installed = here ∙ k.installed;
        exported = (
          record {
            before = ap ledger' i ∙ here ∙ k.installed ∙ sym parent ∙ sym before;
            after =
                ap ledger' j ∙ extend_at ledger c.next_anchor_counter c.next_root ∙ sym rel_root;
            reached = omega arith;
          },
          subst (λ (m : ℕ). All (IsStepOf ledger' m) log) (sym top) extended_log,
        );
      }
