-- ===== src/Accept/Once.antt =====
-- anchor-core/src/accept.rs with service.rs: a parent root is spent once, over the wire.
use dsm_unplugged.Common.{
  ℕ, ◌<◌, ◌^◌, ◌≡◌, sym, ap, ◌∙◌, inl, inr, true, List, [], ◌∷◌, ◌∈◌, All-mem, Array, some, ok,
}
use dsm_unplugged.Hash.{Blake3}
use dsm_unplugged.Tropic.{Tropic, WitnessSig, CounterLaws}
use dsm_unplugged.RootAdvance.{OfflineRelease}
use dsm_unplugged.Appliance.{new}
use dsm_unplugged.Proto.{Prost, ProstLaws, to_release, release_to_pb, transition_to_pb}
use dsm_unplugged.Proto.Pb
use dsm_unplugged.Proto.Accepted.{to_release-eq_ok}
use dsm_unplugged.Service.History.{anchor_index, OneWireReleasePerIndex, Link, Talk}
use dsm_unplugged.Service.Safety.{one_wire_release_per_index}
use dsm_unplugged.Accept.{DsmVerifier, CounterVerifier, VerifierContext, accept_offline}
use dsm_unplugged.Accept.Predicate.{accept_offline_iff}

-- A receiver that has accepted a wire message: what the message decodes to, and the receiver's own
-- knowledge.
pub record Acceptance ⦃b : Blake3⦄ ⦃s : WitnessSig⦄ (p : Pb.OfflineRelease) : Type 0 where
  pub rel : OfflineRelease
  pub ctx : VerifierContext
  pub dsm : DsmVerifier
  pub counter : CounterVerifier
  pub decodes : to_release p ≡ ok rel
  pub accepts : accept_offline rel ctx dsm counter ≡ ok tt

-- Two DSM verifiers that take a root to commit to one index.
abbrev pub CommitsOnce : DsmVerifier → DsmVerifier → Type 0
CommitsOnce d e =
    (root : Array 32) (i j : ℕ)
    → d.root_commits_counter root i ≡ true
    → e.root_commits_counter root j ≡ true
    → i ≡ j

OneWire-mem :
    (ps : List Pb.OfflineRelease) (p q : Pb.OfflineRelease)
    → OneWireReleasePerIndex ps
    → p ∈ ps
    → q ∈ ps
    → anchor_index p ≡ anchor_index q
    → p ≡ q
OneWire-mem [] p q h m n e = absurd m
OneWire-mem (r ∷ rs) p q h (inl x) (inl y) e = x ∙ sym y
OneWire-mem (r ∷ rs) p q h (inl x) (inr n) e =
    let same = All-mem _ rs h.0 n in x ∙ sym (same (sym e ∙ ap anchor_index x))
OneWire-mem (r ∷ rs) p q h (inr m) (inl y) e =
    let same = All-mem _ rs h.0 m in same (e ∙ ap anchor_index y) ∙ sym y
OneWire-mem (r ∷ rs) p q h (inr m) (inr n) e = OneWire-mem rs p q h.1 m n e

index_of_decoded :
    (p : Pb.OfflineRelease) (rel : OfflineRelease)
    → to_release p ≡ ok rel
    → anchor_index p ≡ some rel.transition.anchor_counter
unfolding release_to_pb transition_to_pb
index_of_decoded p rel e = ap anchor_index (sym (to_release-eq_ok p rel e).0)

module _ ⦃b : Blake3⦄ ⦃s : WitnessSig⦄ where
  -- Among messages of which no two share an index, a parent root is accepted once.
  OneWire-accepts :
      (ps : List Pb.OfflineRelease) {p q : Pb.OfflineRelease} (x : Acceptance p) (y : Acceptance q)
      → OneWireReleasePerIndex ps
      → p ∈ ps
      → q ∈ ps
      → CommitsOnce x.dsm y.dsm
      → x.rel.transition.prev_root ≡ y.rel.transition.prev_root
      → p ≡ q
  OneWire-accepts ps {p} {q} x y h m n one parent =
      let a = (accept_offline_iff x.rel x.ctx x.dsm x.counter).0 x.accepts in
      let c = (accept_offline_iff y.rel y.ctx y.dsm y.counter).0 y.accepts in
      let committed : x.dsm.root_commits_counter y.rel.transition.prev_root
            x.rel.transition.anchor_counter
          ≡ true =
        rw (← parent) a.counter_in_parent in
      let same =
        one y.rel.transition.prev_root x.rel.transition.anchor_counter
          y.rel.transition.anchor_counter committed c.counter_in_parent in
      OneWire-mem ps p q h m n (
        index_of_decoded p x.rel x.decodes
        ∙ ap (λ (i : ℕ). some i) same
        ∙ sym (index_of_decoded q y.rel y.decodes))

-- No root is spent twice. Take a device that was enrolled with a 32-bit counter value, and two
-- release messages that a host has heard from it at any times, whatever frames the host sent and
-- whatever recoveries, power cuts and drifts came in between. If two receivers, each with its own
-- knowledge and at its own time, accept what the messages decode to, for the same parent root, then
-- the messages are the same. The receivers' DSM verifiers are assumed to take a root to commit to
-- one index, the chip to keep the laws of its down-counter, and the codec to read back what it
-- wrote.
pub no_double_spend :
    ⦃b : Blake3⦄ ⦃t : Tropic⦄ ⦃s : WitnessSig⦄ ⦃c : Prost⦄ (laws : CounterLaws t)
    (codec : ProstLaws c) (chip : t.Chip) (h0 : ℕ) (root anchor_id : Array 32) (slot : ℕ)
    (l : Link laws) {p q : Pb.OfflineRelease} (x : Acceptance p) (y : Acceptance q)
    → h0 < 2 ^ 32
    → Talk laws (record { app = new chip h0 root anchor_id slot; heard = [] }) l
    → p ∈ l.heard
    → q ∈ l.heard
    → CommitsOnce x.dsm y.dsm
    → x.rel.transition.prev_root ≡ y.rel.transition.prev_root
    → p ≡ q
no_double_spend laws codec chip h0 root anchor_id slot l x y lt k m n one parent =
    OneWire-accepts l.heard x y
      (one_wire_release_per_index laws codec chip h0 root anchor_id slot l lt k) m n one parent
