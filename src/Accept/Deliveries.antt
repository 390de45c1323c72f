-- ===== src/Accept/Deliveries.antt =====
-- anchor-core/src/accept.rs with service.rs: one transfer after the other reaches its receiver.
use dsm_unplugged.Common.{
  ℕ, ◌+◌, ◌-◌, ◌<◌, ◌^◌, ◌≡◌, sym, ap, ◌∙◌, List, [], ◌∷◌, All, Array, arith,
}
use dsm_unplugged.Hash.{Blake3}
use dsm_unplugged.Tropic.{Tropic, CounterLaws}
use dsm_unplugged.RootAdvance.{Transition, from}
use dsm_unplugged.Sig.{wots_blake3}
use dsm_unplugged.Appliance.{Status, Record, Active, Appliance}
use dsm_unplugged.Appliance.Invariant.{Inv}
use dsm_unplugged.Appliance.Works.{Works, IsNext}
use dsm_unplugged.Proto.{Prost, ProstLaws}
use dsm_unplugged.Proto.RoundTrip.{IsTransitionSized}
use dsm_unplugged.Service.History.{Link}
use dsm_unplugged.Service.Transfer.{FitsFrame, transfer_requests, ask_all}
use dsm_unplugged.Accept.{DsmVerifier, CounterVerifier, VerifierContext}
use dsm_unplugged.Accept.Delivery.{
  Awaits, Delivered, counter_delivered, device_delivered, transfer_delivers,
}

-- A package to transfer, and the receiver that asked for it.
pub record Order : Type 0 where
  pub tr : Transition
  pub rc : Array 32
  pub ctx : VerifierContext
  pub dsm : DsmVerifier
  pub counter : CounterVerifier

-- Orders that continue one another from the root `root` at index `u`, below the enrolled value `h0`
-- of the device `anchor_id`: each receiver awaits its package, and reads the counter that the next
-- index stands for.
abbrev pub Continues :
    Prost → (anchor_id : Array 32) (h0 : ℕ) (root : Array 32) (u : ℕ) → List Order → Type 0
Continues c anchor_id h0 root u [] = Unit {0}
Continues c anchor_id h0 root u (o ∷ os) =
    (root ≡ o.tr.prev_root)
    × (o.tr.anchor_counter ≡ u)
    × (o.tr.next_anchor_counter ≡ u + 1)
    × (u < h0)
    × IsTransitionSized (from o.tr)
    × All (FitsFrame c) (transfer_requests o.tr o.rc)
    × Awaits o.tr o.rc anchor_id h0 (h0 - (u + 1)) o.ctx o.dsm o.counter
    × Continues c anchor_id h0 o.tr.next_root (u + 1) os

module _ ⦃b : Blake3⦄ ⦃t : Tropic⦄ ⦃c : Prost⦄ (laws : CounterLaws t) where
  -- Every order is delivered in its turn.
  abbrev pub AllDelivered : Link laws → List Order → Type 0
  AllDelivered l [] = Unit {0}
  AllDelivered l (o ∷ os) =
      Delivered o.tr l (ask_all laws l (transfer_requests o.tr o.rc)) o.ctx o.dsm o.counter
      × AllDelivered (ask_all laws l (transfer_requests o.tr o.rc)) os

  -- A device that is ready at the root `root` and index `u`, with its counter in step.
  pub record IsReady (app : Appliance t.Chip) (root : Array 32) (u : ℕ) : Type 0 where
    pub inv : Inv app
    pub slot : app.slot < 2 ^ 16
    pub range : app.h0 < 2 ^ 32
    pub at_rest :
        app.active ≡ record { root = root; u = u; status = Status.ready; record_ = Record.empty }
    pub in_step : u + laws.counter app.tropic ≡ app.h0

  IsReady-IsNext :
      (app : Appliance t.Chip) (root : Array 32) (u : ℕ) (tr : Transition)
      → IsReady app root u
      → root ≡ tr.prev_root
      → tr.anchor_counter ≡ u
      → tr.next_anchor_counter ≡ u + 1
      → u < app.h0
      → IsNext laws app tr
  IsReady-IsNext app root u tr z p i n m =
      let at : app.active.u ≡ u = ap (λ (a : Active). a.u) z.at_rest in
      let step = z.in_step in
      record {
        is_ready = ap (λ (a : Active). a.status) z.at_rest;
        parent = ap (λ (a : Active). a.root) z.at_rest ∙ p;
        index = i ∙ sym at;
        next_index = omega arith;
        in_step = omega arith;
        movable = omega arith;
        range = z.range;
      }

  -- Transfers over frames are delivered, one after the other. Take a device that satisfies its
  -- invariant, was enrolled with a 32-bit counter value and has a 16-bit slot, that is ready at a
  -- root and an index with its counter in step, on a chip that works, with WOTS+ signatures and a
  -- codec that reads back what it wrote. Take orders whose packages continue one another from that
  -- root and index, below the enrolled value, within the wire's caps, with requests that the codec
  -- encodes within the frame ceiling, and whose receivers each await their package and read the
  -- counter that its index stands for. When the host sends prepare, commit, emit and finalize frames
  -- for each order in turn, then each time the last thing that it hears is a release message that
  -- decodes, carries that package, and is accepted by its receiver, and the device is left ready at
  -- that package's root and index.
  pub transfers_deliver :
      (works : Works laws) (codec : ProstLaws c) (l : Link laws) (root : Array 32) (u : ℕ)
      (os : List Order)
      → IsReady l.app root u
      → Continues c l.app.anchor_id l.app.h0 root u os
      → AllDelivered l os
  transfers_deliver works codec l root u [] z k = tt
  transfers_deliver works codec l root u (o ∷ os) z (p, i, n, m, size, fits, a, k) =
      let m' : Link laws = ask_all laws l (transfer_requests o.tr o.rc) in
      let first = IsReady-IsNext l.app root u o.tr z p i n m in
      let kept = counter_delivered laws works codec o.tr o.rc l first size fits in
      let (inv, same) = device_delivered laws works codec o.tr o.rc l z.inv first size fits in
      let live : l.app.h0 - (u + 1) ≡ laws.counter m'.app.tropic = omega arith in
      let d =
        transfer_delivers laws works codec o.tr o.rc l o.ctx o.dsm o.counter z.inv z.slot first size
          fits (rw (← live) a) in
      let next : IsReady m'.app o.tr.next_root (u + 1) = record {
        inv = inv;
        slot = rw same.same_slot z.slot;
        range = rw same.same_h0 z.range;
        at_rest = rw (← n) d.moved;
        in_step = rw (← n, same.same_h0) kept;
      } in
      (
        d,
        transfers_deliver works codec m' o.tr.next_root (u + 1) os next
            (rw (same.same_anchor_id, same.same_h0) k),
      )
