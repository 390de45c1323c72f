-- ===== src/Accept/Delivery.antt =====
-- anchor-core/src/accept.rs with service.rs and sig.rs: a transfer over frames reaches its receiver.
use dsm_unplugged.Common.{
  ℕ, ◌+◌, ◌-◌, ◌≤◌, ◌<◌, ◌^◌, ◌≡◌, refl, sym, ap, subst, ◌∙◌, inl, inr, true, ◌∷◌, All, Array, some,
  ok, arith,
}
use dsm_unplugged.Hash.{Blake3}
use dsm_unplugged.Tropic.{Tropic, CounterLaws}
use dsm_unplugged.RootAdvance.{Transition, CounterEvidence, OfflineRelease, from, as_transition}
use dsm_unplugged.Sig.{wots_blake3}
use dsm_unplugged.Sig.RoundTrip.{wots_blake3-IsCorrect, length-sign, length-keygen}
use dsm_unplugged.Appliance.{Status, Record, Appliance}
use dsm_unplugged.Appliance.Operations.{prepare, prepared_record, commit, finalize, release_of}
use dsm_unplugged.Appliance.Prepare.{SameDevice, SameDevice-trans, prepare-SameDevice}
use dsm_unplugged.Appliance.Commit.{commit-SameDevice}
use dsm_unplugged.Appliance.Settle.{finalize_chip, finalize-SameDevice}
use dsm_unplugged.Appliance.Preserve.{finalize-Inv}
use dsm_unplugged.Appliance.Invariant.{Inv, prepare-Inv, commit-Inv}
use dsm_unplugged.Appliance.Works.{Works, IsNext, commit-Committed}
use dsm_unplugged.Appliance.Flow.{Transfer, Transfer-works}
use dsm_unplugged.Proto.{Prost, ProstLaws, to_release, release_to_pb}
use dsm_unplugged.Proto.RoundTrip.{IsTransitionSized, IsSized, to_release-release_to_pb}
use dsm_unplugged.Service.History.{Link}
use dsm_unplugged.Service.Transfer.{
  FitsFrame, transfer_requests, ask_all, ask_all-transfer_requests,
}
use dsm_unplugged.Accept.{DsmVerifier, CounterVerifier, VerifierContext, accept_offline}
use dsm_unplugged.Accept.Honest.{IsExpected, emit-accept_offline}

-- A receiver that awaits the package from the device `anchor_id`, enrolled at `h0`, under the
-- challenge `rc`, and that reads `n` from the device's chip.
pub record Awaits (tr : Transition) (rc anchor_id : Array 32) (h0 n : ℕ) (ctx : VerifierContext)
    (dsm : DsmVerifier) (counter : CounterVerifier) : Type 0 where
  pub parent : ctx.accepted_prev_root ≡ tr.prev_root
  pub pinned : ctx.pinned_anchor_id ≡ anchor_id
  pub challenge : ctx.expected_receiver_challenge ≡ rc
  pub policy : ctx.expected_policy_hash ≡ tr.authority_policy_hash
  pub commits : dsm.root_commits_counter tr.prev_root tr.anchor_counter ≡ true
  pub proves : dsm.verify_transition tr ≡ true
  pub delivers : dsm.delivers_to_receiver tr ≡ true
  pub enrolled : ctx.enrolled_counter ≡ h0
  pub reads : (ev : CounterEvidence) → counter.read_authentic_counter anchor_id ev ≡ some n
  pub cap : tr.next_anchor_counter ≤ ctx.exposure_cap_index
  pub sound : ctx.anchor_uncompromised ≡ true

module _ ⦃b : Blake3⦄ ⦃t : Tropic⦄ (laws : CounterLaws t) where
  module _ (tr : Transition) (rc : Array 32) (app : Appliance t.Chip) (n : IsNext laws app tr)
      (d : Transfer laws tr rc app) where
    abbrev app1 : Appliance t.Chip
    app1 = (prepare tr rc app).1

    abbrev app2 : Appliance t.Chip
    app2 = (commit app1).1

    abbrev release : OfflineRelease
    release =
        release_of app1 (prepared_record app.slot app.anchor_id tr rc d.w) (laws.counter app.tropic)

    release-IsSized : IsTransitionSized (from tr) → app.slot < 2 ^ 16 → IsSized release
    unfolding prepared_record release_of from as_transition
    release-IsSized z slot = record {
      transition_size = z;
      pk_hw_size = omega (arith, (length-keygen _).1);
      sigma_size = omega (arith, length-sign _ _);
      slot_size = omega (arith, slot, (prepare-SameDevice tr rc app).same_slot);
      transcript_size = omega arith;
    }

    app2_anchor : app2.anchor_id ≡ app.anchor_id
    app2_anchor =
        (commit-SameDevice app1).same_anchor_id ∙ (prepare-SameDevice tr rc app).same_anchor_id

    -- The counter after the transfer is the enrolled value less the next index.
    final_counter : tr.next_anchor_counter + laws.counter (finalize app2).1.tropic ≡ app.h0
    unfolding prepared_record from
    final_counter =
        let done =
          commit-Committed laws app1 (prepared_record app.slot app.anchor_id tr rc d.w) d.stored
            n.next_index d.commits in
        let same = (commit-SameDevice app1).same_h0 ∙ (prepare-SameDevice tr rc app).same_h0 in
        elim (finalize_chip app2) [
          | inl e ↦ rw e (done.in_step ∙ same)
          | inr e ↦ rw (e, laws.get_keeps app2.tropic) (done.in_step ∙ same)
        ]

    release-IsExpected :
        {ctx : VerifierContext} {dsm : DsmVerifier} {counter : CounterVerifier}
        → Awaits tr rc app.anchor_id app.h0 (laws.counter (finalize app2).1.tropic) ctx dsm counter
        → IsExpected release app2.anchor_id ctx dsm counter
    unfolding prepared_record release_of from as_transition
    release-IsExpected {ctx} {dsm} {counter} a =
        let fallen = final_counter in
        let range = n.range in
        let known = a.enrolled in
        let value : laws.counter (finalize app2).1.tropic
            ≡ ctx.enrolled_counter - tr.next_anchor_counter =
          omega arith in
        record {
          parent = a.parent;
          pinned = a.pinned ∙ sym app2_anchor;
          challenge = a.challenge;
          policy = a.policy;
          commits = a.commits;
          proves = a.proves;
          delivers = a.delivers;
          enrolled = omega arith;
          enrolled_range = omega arith;
          attests = rw (a.pinned, ← value) (a.reads _);
          cap = a.cap;
          sound = a.sound;
        }

-- The link after a transfer over frames.
link_delivered :
    ⦃b : Blake3⦄ ⦃t : Tropic⦄ ⦃c : Prost⦄ (laws : CounterLaws t) (codec : ProstLaws c)
    (tr : Transition) (rc : Array 32) (l : Link laws) (n : IsNext laws l.app tr)
    → IsTransitionSized (from tr)
    → All (FitsFrame c) (transfer_requests tr rc)
    → (d : Transfer laws tr rc l.app)
    → ask_all laws l (transfer_requests tr rc) ≡ record {
      app = (finalize (commit (prepare tr rc l.app).1).1).1;
      heard = release_to_pb (release laws tr rc l.app n d) ∷ l.heard;
    }
link_delivered laws codec tr rc l n z fits d =
    ask_all-transfer_requests laws codec l tr rc (release laws tr rc l.app n d) z fits d.prepares
      d.commits d.emits d.finalizes

-- A transfer over frames leaves the counter in step with the package's next index.
pub counter_delivered :
    ⦃b : Blake3⦄ ⦃t : Tropic⦄ ⦃c : Prost⦄ (laws : CounterLaws t) (works : Works laws)
    (codec : ProstLaws c) (tr : Transition) (rc : Array 32) (l : Link laws)
    → IsNext laws l.app tr
    → IsTransitionSized (from tr)
    → All (FitsFrame c) (transfer_requests tr rc)
    → tr.next_anchor_counter + laws.counter (ask_all laws l (transfer_requests tr rc)).app.tropic
      ≡ l.app.h0
counter_delivered laws works codec tr rc l n z fits =
    let d = Transfer-works laws works tr rc l.app n in
    let said = link_delivered laws codec tr rc l n z fits d in
    ap (λ (m : Link laws). tr.next_anchor_counter + laws.counter m.app.tropic) said
    ∙ final_counter laws tr rc l.app n d

-- A transfer over frames keeps the device's invariant and its fixed values.
pub device_delivered :
    ⦃b : Blake3⦄ ⦃t : Tropic⦄ ⦃c : Prost⦄ (laws : CounterLaws t) (works : Works laws)
    (codec : ProstLaws c) (tr : Transition) (rc : Array 32) (l : Link laws)
    → Inv l.app
    → IsNext laws l.app tr
    → IsTransitionSized (from tr)
    → All (FitsFrame c) (transfer_requests tr rc)
    → Inv (ask_all laws l (transfer_requests tr rc)).app
      × SameDevice l.app (ask_all laws l (transfer_requests tr rc)).app
device_delivered laws works codec tr rc l i n z fits =
    let d = Transfer-works laws works tr rc l.app n in
    let said = link_delivered laws codec tr rc l n z fits d in
    subst (λ (m : Link laws). Inv m.app × SameDevice l.app m.app) (sym said)
      (
        finalize-Inv _
            (commit-Inv wots_blake3-IsCorrect _ (prepare-Inv wots_blake3-IsCorrect tr rc l.app i)),
        SameDevice-trans (prepare-SameDevice tr rc l.app)
            (SameDevice-trans (commit-SameDevice _) (finalize-SameDevice _)),
      )

-- What a transfer over frames leaves, from the link `l` to the link `m`.
pub record Delivered ⦃b : Blake3⦄ ⦃t : Tropic⦄ ⦃c : Prost⦄ {laws : CounterLaws t} (tr : Transition)
    (l m : Link laws) (ctx : VerifierContext) (dsm : DsmVerifier) (counter : CounterVerifier)
    : Type 0 where
  pub rel : OfflineRelease
  pub heard : m.heard ≡ release_to_pb rel ∷ l.heard
  pub decodes : to_release (release_to_pb rel) ≡ ok rel
  pub carries : rel.transition ≡ from tr
  pub accepts : accept_offline rel ctx dsm counter ≡ ok tt
  pub moved : m.app.active ≡ record {
    root = tr.next_root;
    u = tr.next_anchor_counter;
    status = Status.ready;
    record_ = Record.empty;
  }

-- A transfer over frames, of a package that is the next step of the device, is delivered to a
-- receiver that reads the device's counter after it.
pub transfer_delivers :
    ⦃b : Blake3⦄ ⦃t : Tropic⦄ ⦃c : Prost⦄ (laws : CounterLaws t) (works : Works laws)
    (codec : ProstLaws c) (tr : Transition) (rc : Array 32) (l : Link laws) (ctx : VerifierContext)
    (dsm : DsmVerifier) (counter : CounterVerifier)
    → Inv l.app
    → l.app.slot < 2 ^ 16
    → IsNext laws l.app tr
    → IsTransitionSized (from tr)
    → All (FitsFrame c) (transfer_requests tr rc)
    → Awaits tr rc l.app.anchor_id l.app.h0
        (laws.counter (ask_all laws l (transfer_requests tr rc)).app.tropic)
        ctx
        dsm
        counter
    → Delivered tr l (ask_all laws l (transfer_requests tr rc)) ctx dsm counter
unfolding release_of prepared_record as_transition from
transfer_delivers laws works codec tr rc l ctx dsm counter i slot n z fits a =
    let d = Transfer-works laws works tr rc l.app n in
    let said = link_delivered laws codec tr rc l n z fits d in
    let kept =
      commit-Inv wots_blake3-IsCorrect _ (prepare-Inv wots_blake3-IsCorrect tr rc l.app i) in
    let awaited =
      subst
        (λ (m : Link laws).
          Awaits tr rc l.app.anchor_id l.app.h0 (laws.counter m.app.tropic) ctx dsm counter)
        said a in
    record {
      rel = release laws tr rc l.app n d;
      heard = ap (λ (m : Link laws). m.heard) said;
      decodes = to_release-release_to_pb _ (release-IsSized laws tr rc l.app n d z slot);
      carries = refl;
      accepts =
          emit-accept_offline _ _ ctx dsm counter kept d.emits
            (release-IsExpected laws tr rc l.app n d awaited);
      moved = ap (λ (m : Link laws). m.app.active) said ∙ d.active;
    }
