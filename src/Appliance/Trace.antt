-- ===== src/Appliance/Trace.antt =====
-- anchor-core/src/appliance.rs: the device over time, as a relation between its states. The host
-- calls the operations in any order, the power fails between any two writes of an operation, the
-- overwriting of a key byte by byte included, and the counter may be lowered from outside. `finalize`
-- writes once; and an operation that has only used the chip so far is one that has let the chip move
-- on by itself.
use dsm_unplugged.Common.{ℕ, ◌≤◌, ◌≡◌, ◌⊎◌, List, [], ◌∷◌, Array, Bool, ok}
use dsm_unplugged.Hash.{Blake3}
use dsm_unplugged.Tropic.{Tropic, WitnessSig, CounterLaws}
use dsm_unplugged.RootAdvance.{Transition, OfflineRelease}
use dsm_unplugged.Appliance.{Record, Status, Appliance, PreparedRecord, new}
use dsm_unplugged.Appliance.Operations.{prepare, commit, emit, finalize, cancel, erased, wiped}
use dsm_unplugged.Appliance.Recovery.{recover}
use dsm_unplugged.Appliance.Commit.{Passes, phase1, phase3, moved}

module _ ⦃b : Blake3⦄ ⦃t : Tropic⦄ ⦃s : WitnessSig⦄ (laws : CounterLaws t) where
  -- The device after a power loss inside phase 1 of `commit`, its counter read and its key erased.
  abbrev pub key_lost : Appliance t.Chip → PreparedRecord → Status → Appliance t.Chip
  key_lost app p st = record app {
    active = record app.active { status = st; record_ = Record.prepared (erased p) };
    tropic = (t.counter_get app.tropic).1;
  }

  -- The device and the releases that it has exported, the latest first.
  pub record World : Type 0 where
    pub app : Appliance t.Chip
    pub released : List OfflineRelease

  pub data Step : World → World → Type 0 where
    prepares :
        (w : World) (tr : Transition) (rc : Array 32)
        → Step w (record w { app = (prepare tr rc w.app).1 })
    commits : (w : World) → Step w (record w { app = (commit w.app).1 })
    finalizes : (w : World) → Step w (record w { app = (finalize w.app).1 })
    cancels : (w : World) → Step w (record w { app = (cancel w.app).1 })
    recovers : (w : World) → Step w (record w { app = (recover w.app).1 })
    emits :
        (w : World) (rel : OfflineRelease)
        → emit w.app ≡ ok rel
        → Step w (record w { released = rel ∷ w.released })
    -- Power loss inside `prepare`: the status is set, and the record is not yet there.
    cut_in_prepare :
        (w : World) (tr : Transition) (rc : Array 32)
        → (prepare tr rc w.app).0 ≡ ok tt
        → Step w (record w {
          app = record w.app {
            active = record w.app.active { status = Status.prepared };
            tropic = (prepare tr rc w.app).1.tropic;
          };
        })
    -- Power loss while `commit` or `cancel` overwrites the key: its first bytes are zero, and it is
    -- not cleared.
    cut_in_zeroize :
        (w : World) (p : PreparedRecord) (n : ℕ)
        → w.app.active.record_ ≡ Record.prepared p
        → Step w (record w {
          app = record w.app {
            active = record w.app.active { record_ = Record.prepared (wiped n p) };
          };
        })
    -- Power loss inside `cancel`: the key is erased, the record is still there, and the status is set
    -- or not.
    cut_in_cancel :
        (w : World) (p : PreparedRecord) (st : Status)
        → w.app.active.record_ ≡ Record.prepared p
        → (st ≡ w.app.active.status) ⊎ (st ≡ Status.ready)
        → Step w (record w {
          app = record w.app {
            active = record w.app.active { status = st; record_ = Record.prepared (erased p) };
          };
        })
    -- Power loss inside phase 1 of `commit`: the key is erased, the candidate is not yet there, and
    -- the status is set or not.
    cut_in_phase1 :
        (w : World) (p : PreparedRecord) (h : ℕ) (st : Status)
        → w.app.active.record_ ≡ Record.prepared p
        → Passes w.app p h
        → (st ≡ w.app.active.status) ⊎ (st ≡ Status.committed)
        → Step w (record w { app = key_lost w.app p st })
    -- Power loss between phase 1 and phase 2.
    cut_before_update :
        (w : World) (p : PreparedRecord) (h : ℕ)
        → w.app.active.record_ ≡ Record.prepared p
        → Passes w.app p h
        → Step w (record w {
          app = record w.app { active = phase1 w.app p h; tropic = (t.counter_get w.app.tropic).1 };
        })
    -- Power loss between phase 2 and phase 3.
    cut_after_update :
        (w : World) (p : PreparedRecord) (h : ℕ)
        → w.app.active.record_ ≡ Record.prepared p
        → Passes w.app p h
        → (moved w.app).0 ≡ ok tt
        → Step w (record w {
          app = record w.app { active = phase1 w.app p h; tropic = (moved w.app).1 };
        })
    -- Power loss inside phase 3: the record is marked, and the index is still the old one.
    cut_in_phase3 :
        (w : World) (p : PreparedRecord) (h : ℕ)
        → w.app.active.record_ ≡ Record.prepared p
        → Passes w.app p h
        → (moved w.app).0 ≡ ok tt
        → Step w (record w {
          app = record w.app {
            active = record (phase3 w.app p h) { u = w.app.active.u };
            tropic = (moved w.app).1;
          };
        })
    -- Power loss inside `recover`, before it sets the index.
    cut_in_recover :
        (w : World)
        → Step w (record w {
          app = record w.app {
            active = record (recover w.app).1.active { u = w.app.active.u };
            tropic = (recover w.app).1.tropic;
          };
        })
    -- The chip moves on by itself: its counter never rises.
    drifts :
        (w : World) (chip : t.Chip)
        → laws.counter chip ≤ laws.counter w.app.tropic
        → Step w (record w { app = record w.app { tropic = chip } })
    -- The boot checks set the two flags.
    boots :
        (w : World) (boundary map : Bool)
        → Step w (record w {
          app = record w.app { firmware_boundary_invalid = boundary; rmemory_map_invalid = map };
        })

  pub data Reach (w : World) : World → Type 0 where
    here : Reach w w
    next : {v u : World} → Reach w v → Step v u → Reach w u

  -- A step other than a power loss while a key is overwritten.
  abbrev pub KeepsKeys : {v w : World} → Step v w → Type 0
  KeepsKeys (cut_in_zeroize w p n r) = ⊥
  KeepsKeys _ = Unit {0}

  -- A history without such a power loss.
  abbrev pub KeysKept : {v w : World} → Reach v w → Type 0
  KeysKept here = Unit {0}
  KeysKept (next r st) = KeysKept r × KeepsKeys st

  -- A device fresh from enrolment that has exported nothing.
  abbrev pub enrolled : t.Chip → ℕ → Array 32 → Array 32 → ℕ → World
  enrolled chip h0 root anchor_id slot = record {
    app = new chip h0 root anchor_id slot;
    released = [];
  }
