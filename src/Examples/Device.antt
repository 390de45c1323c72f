-- ===== src/Examples/Device.antt =====
-- anchor-core/src/appliance.rs on a device enrolled at counter 1000: its operations one after the
-- other.
use dsm_unplugged.Common.{ℕ, zero, suc, ◌<◌, ◌≡◌, refl, inr, false, [], ◌∷◌, fill, ok, All, arith}
use dsm_unplugged.Util.{ct_eq_32}
use dsm_unplugged.RootAdvance.{OfflineRelease, from}
use dsm_unplugged.Appliance.{Status, Appliance, Record, PreparedRecord, new, reemit_committed}
use dsm_unplugged.Appliance.Operations.{prepare, prepared_record, commit, emit, release_of}
use dsm_unplugged.Appliance.Recovery.{recover}
use dsm_unplugged.Appliance.Resume.{marked_off, CutOff, in_phase3, interrupted_commit_completes}
use dsm_unplugged.Appliance.Stranded.{SameState, prepare_cut, stranded_for_good}
use dsm_unplugged.Appliance.KeyLost.{Resolved, lost_key_resolves}
use dsm_unplugged.Appliance.Commit.{Passes, CommitCase, commit-CommitCase}
use dsm_unplugged.Appliance.Invariant.{Inv, Inv-new, IsCertified, prepare-Inv, commit-Inv}
use dsm_unplugged.Appliance.Settle.{Settles, recover-Settles}
use dsm_unplugged.Appliance.Trace.{
  World, Step, Reach, here, next, prepares, commits, emits, cut_in_phase1, key_lost, enrolled,
}
use dsm_unplugged.Appliance.OneChain.{OnSome, releases_on_one_chain}
use dsm_unplugged.Appliance.Fork.{OnePerIndex}
use dsm_unplugged.Appliance.Works.{Works}
use dsm_unplugged.Appliance.Safety.{
  IsSafe, Step-IsSafe, Reach-IsSafe, enrolled-IsSafe, one_release_per_index,
}
use dsm_unplugged.Appliance.Certified.{released-IsCertified}
use dsm_unplugged.Appliance.TornKey.{Spoils, torn_key_commits}
use dsm_unplugged.Examples.{
  length_hash, counter_chip, counter_chip_laws, plain_sig, plain_sig-IsCorrect, root0, anchor0,
  challenge0, advance,
}

abbrev pub device0 : Appliance ℕ
device0 = new 1000 1000 root0 anchor0 5

abbrev pub device1 : Appliance ℕ
device1 = (prepare (advance 6) challenge0 device0).1

abbrev pub device2 : Appliance ℕ
device2 = (commit device1).1

-- What `prepare` stores for the example.
abbrev pub record1 : PreparedRecord
record1 = prepared_record 5 anchor0 (advance 6) challenge0 (fill 32 9)

abbrev pub release2 : OfflineRelease
release2 = release_of device1 record1 1000

prepare_runs : (prepare (advance 6) challenge0 device0).0 ≡ ok tt
unfolding prepare new ct_eq_32 prepared_record
prepare_runs = refl

device1_record : device1.active.record_ ≡ Record.prepared record1
unfolding prepare new ct_eq_32 prepared_record
device1_record = refl

pub device2_emits : emit device2 ≡ ok release2
unfolding prepare new ct_eq_32 prepared_record commit emit release_of from
device2_emits = refl

abbrev pub world0 : World counter_chip_laws
world0 = enrolled counter_chip_laws 1000 1000 root0 anchor0 5

pub world2-Reach :
    Reach counter_chip_laws world0 (record { app = device2; released = release2 ∷ release2 ∷ [] })
world2-Reach =
    next
      (next (next (next here (prepares _ (advance 6) challenge0)) (commits _))
        (emits (record { app = device2; released = [] }) release2 device2_emits))
      (emits (record { app = device2; released = release2 ∷ [] }) release2 device2_emits)

one_release_per_index_example : OnePerIndex (release2 ∷ release2 ∷ [])
one_release_per_index_example =
    one_release_per_index counter_chip_laws 1000 1000 root0 anchor0 5
      (record { app = device2; released = release2 ∷ release2 ∷ [] }) (omega arith) world2-Reach

releases_on_one_chain_example : OnSome root0 device2.active (release2 ∷ release2 ∷ [])
releases_on_one_chain_example =
    releases_on_one_chain counter_chip_laws 1000 1000 root0 anchor0 5
      (record { app = device2; released = release2 ∷ release2 ∷ [] }) (omega arith) world2-Reach

released-IsCertified_example : All (IsCertified anchor0 5) (release2 ∷ release2 ∷ [])
unfolding prepare commit new ct_eq_32 prepared_record from world2-Reach
released-IsCertified_example =
    released-IsCertified plain_sig-IsCorrect counter_chip_laws 1000 1000 root0 anchor0 5
      (record { app = device2; released = release2 ∷ release2 ∷ [] }) (omega arith) world2-Reach
      (((((tt, tt), tt), tt), tt))

pub device1-Inv : Inv device1
device1-Inv =
    prepare-Inv plain_sig-IsCorrect (advance 6) challenge0 device0
      (Inv-new 1000 1000 root0 anchor0 5 (omega arith))

pub device2-Inv : Inv device2
device2-Inv = commit-Inv plain_sig-IsCorrect device1 device1-Inv

recover-Settles_example : Settles counter_chip_laws device2 (recover device2)
recover-Settles_example = recover-Settles counter_chip_laws device2

commit-CommitCase_example : CommitCase device1 record1
commit-CommitCase_example = commit-CommitCase device1 record1 device1_record

toy_moves : (c : ℕ) → 0 < c → (counter_chip.counter_update c).0 ≡ ok tt
toy_moves zero h = absurd (omega arith)
toy_moves (suc n) h = refl

toy-Works : Works counter_chip_laws
unfolding counter_chip_laws
toy-Works = record {
  get_ok = λ c. refl;
  mac_ok = λ q x c. (fill 32 9, refl);
  moves = toy_moves;
  keys = λ seed. refl;
}

device1-Passes : Passes device1 record1 1000
unfolding prepare new ct_eq_32 prepared_record from
device1-Passes = record {
  key = refl;
  parent = refl;
  reads = refl;
  movable = omega arith;
  index = omega arith;
}

no_flags : (device1.firmware_boundary_invalid ≡ false) × (device1.rmemory_map_invalid ≡ false)
unfolding prepare new ct_eq_32
no_flags = (refl, refl)

-- The power fails after the record is marked.
abbrev cut1 : Appliance ℕ
cut1 = marked_off counter_chip_laws device1 record1 1000 999

cut1-CutOff : CutOff counter_chip_laws device1 record1 1000 cut1
unfolding counter_chip_laws
cut1-CutOff = in_phase3 999 refl

interrupted_commit_completes_example :
    ((recover cut1).0 ≡ reemit_committed record1.txn.next_root)
    × ((recover cut1).1.active ≡ (commit device1).1.active)
    × (emit (recover cut1).1 ≡ ok (release_of device1 record1 1000))
    × (emit (commit device1).1 ≡ ok (release_of device1 record1 1000))
interrupted_commit_completes_example =
    interrupted_commit_completes counter_chip_laws toy-Works device1 record1 1000 cut1 device1-Inv
      no_flags.0 no_flags.1 device1_record device1-Passes cut1-CutOff

-- The power fails after the key is erased and the status is set.
lost_key_resolves_example : Resolved counter_chip_laws device1 record1 Status.committed (fill 32 8)
lost_key_resolves_example =
    lost_key_resolves counter_chip_laws toy-Works device1 record1 1000 Status.committed (fill 32 8)
      device1-Inv no_flags.0 no_flags.1 device1_record device1-Passes (inr refl)

device1_prepared : device1.active.status ≡ Status.prepared
unfolding prepare new ct_eq_32
device1_prepared = refl

-- The power fails when one byte of the key is overwritten.
torn_key_commits_example : Spoils counter_chip_laws device1 record1 1
torn_key_commits_example =
    torn_key_commits counter_chip_laws toy-Works device1 record1 1000 1 device1-Inv no_flags.0
      no_flags.1 device1_prepared device1_record device1-Passes

device0_empty : device0.active.record_ ≡ Record.empty
unfolding new
device0_empty = refl

stranded_for_good_example :
    Step counter_chip_laws world0 (prepare_cut counter_chip_laws world0 (advance 6) challenge0)
    × ((w : World counter_chip_laws)
        → Reach counter_chip_laws (prepare_cut counter_chip_laws world0 (advance 6) challenge0) w
        → SameState counter_chip_laws
            (prepare_cut counter_chip_laws world0 (advance 6) challenge0)
            w)
stranded_for_good_example =
    stranded_for_good counter_chip_laws world0 (advance 6) challenge0 device0_empty prepare_runs

world1-IsSafe : IsSafe counter_chip_laws (record { app = device1; released = [] })
world1-IsSafe =
    Reach-IsSafe counter_chip_laws
      (enrolled-IsSafe counter_chip_laws 1000 1000 root0 anchor0 5 (omega arith))
      (next here (prepares _ (advance 6) challenge0))

abbrev cut_world : World counter_chip_laws
cut_world = record {
  app = key_lost counter_chip_laws device1 record1 Status.committed;
  released = [];
}

Step-IsSafe_example : IsSafe counter_chip_laws cut_world
Step-IsSafe_example =
    Step-IsSafe counter_chip_laws
      (cut_in_phase1 (record { app = device1; released = [] }) record1 1000 Status.committed
        device1_record device1-Passes (inr refl))
      world1-IsSafe
