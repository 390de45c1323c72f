-- ===== src/Accept/Honest.antt =====
-- anchor-core/src/accept.rs with appliance.rs: a receiver accepts what an honest device exports.
use dsm_unplugged.Common.{ℕ, ◌-◌, ◌≤◌, ◌<◌, ◌^◌, ◌≡◌, sym, ◌∙◌, true, Array, some, ok, arith}
use dsm_unplugged.Hash.{Blake3}
use dsm_unplugged.Tropic.{Tropic, WitnessSig}
use dsm_unplugged.RootAdvance.{OfflineRelease, as_transition}
use dsm_unplugged.Appliance.{Appliance}
use dsm_unplugged.Appliance.Operations.{emit}
use dsm_unplugged.Appliance.Invariant.{Inv, IsCertified}
use dsm_unplugged.Appliance.Preserve.{emit-IsCertified}
use dsm_unplugged.Accept.{DsmVerifier, CounterVerifier, VerifierContext, accept_offline}
use dsm_unplugged.Accept.Predicate.{accept_offline_iff}

-- What the receiver itself has to know and read of a release of the device `anchor_id`.
pub record IsExpected (rel : OfflineRelease) (anchor_id : Array 32) (ctx : VerifierContext)
    (dsm : DsmVerifier) (counter : CounterVerifier) : Type 0 where
  pub parent : ctx.accepted_prev_root ≡ rel.transition.prev_root
  pub pinned : ctx.pinned_anchor_id ≡ anchor_id
  pub challenge : ctx.expected_receiver_challenge ≡ rel.cert.receiver_challenge
  pub policy : ctx.expected_policy_hash ≡ rel.transition.authority_policy_hash
  pub commits :
      dsm.root_commits_counter rel.transition.prev_root rel.transition.anchor_counter ≡ true
  pub proves : dsm.verify_transition (as_transition rel.transition) ≡ true
  pub delivers : dsm.delivers_to_receiver (as_transition rel.transition) ≡ true
  pub enrolled : rel.transition.next_anchor_counter ≤ ctx.enrolled_counter
  pub enrolled_range : ctx.enrolled_counter < 2 ^ 64
  pub attests :
      counter.read_authentic_counter ctx.pinned_anchor_id rel.counter
      ≡ some (ctx.enrolled_counter - rel.transition.next_anchor_counter)
  pub cap : rel.transition.next_anchor_counter ≤ ctx.exposure_cap_index
  pub sound : ctx.anchor_uncompromised ≡ true

module _ ⦃b : Blake3⦄ ⦃s : WitnessSig⦄ where
  -- A certified release that the receiver expects is accepted.
  IsCertified-accept :
      (rel : OfflineRelease) (anchor_id : Array 32) (slot : ℕ) (ctx : VerifierContext)
      (dsm : DsmVerifier) (counter : CounterVerifier)
      → IsCertified anchor_id slot rel
      → IsExpected rel anchor_id ctx dsm counter
      → accept_offline rel ctx dsm counter ≡ ok tt
  IsCertified-accept rel anchor_id slot ctx dsm counter v x =
      (accept_offline_iff rel ctx dsm counter).1 (record {
        same_prev_root = v.0.same_prev_root;
        same_next_root = v.0.same_next_root;
        same_anchor_counter = v.0.same_anchor_counter;
        same_next_anchor_counter = v.0.same_next_anchor_counter;
        parent_accepted = sym x.parent;
        anchor_pinned = v.0.by_anchor ∙ sym x.pinned;
        counter_in_parent = x.commits;
        next_index = v.0.next_index;
        index_range = omega (arith, x.enrolled, x.enrolled_range);
        challenge_fresh = sym x.challenge;
        digest_recomputes = v.0.digest_recomputes;
        transition_proved = x.proves;
        delivered = x.delivers;
        policy_agrees = sym x.policy;
        input_recomputes = v.0.input_recomputes;
        pk_hash_recomputes = v.0.pk_hash_recomputes;
        signature_verifies = v.1;
        evidence_pinned = v.0.evidence_by_anchor ∙ sym x.pinned;
        index_enrolled = x.enrolled;
        counter_attested = x.attests;
        within_cap = x.cap;
        uncompromised = x.sound;
      })

-- Whatever a device exports in a state that satisfies its invariant is accepted by a receiver that
-- accepts the package's parent root, has pinned the device, gave the challenge and the policy,
-- verifies the DSM proofs, and reads from the chip the enrolled value less the next index, within the
-- cap and with no compromise known.
pub emit-accept_offline :
    ⦃b : Blake3⦄ ⦃t : Tropic⦄ ⦃s : WitnessSig⦄ (app : Appliance t.Chip) (rel : OfflineRelease)
    (ctx : VerifierContext) (dsm : DsmVerifier) (counter : CounterVerifier)
    → Inv app
    → emit app ≡ ok rel
    → IsExpected rel app.anchor_id ctx dsm counter
    → accept_offline rel ctx dsm counter ≡ ok tt
emit-accept_offline app rel ctx dsm counter i h x =
    IsCertified-accept rel app.anchor_id app.slot ctx dsm counter (emit-IsCertified app i h) x
