-- ===== src/Firmware/Port/Serving.antt =====
-- firmware/src/main.rs: the receive loop on a port without errors, and on one with errors.
use dsm_unplugged.Common.{ℕ, ◌≤◌, ◌≡◌, sym, ◌∙◌, false, List, [], length, All}
use dsm_unplugged.Firmware.Receive.{Served, receive_all}
use dsm_unplugged.Firmware.Served.{Handles, receive_all-Handles}
use dsm_unplugged.Firmware.Output.{WriteResult}
use dsm_unplugged.Firmware.Port.{Run, receive_all_on}
use dsm_unplugged.Firmware.Port.Writes.{IsFine, progress}
use dsm_unplugged.Firmware.Port.Follows.{receive_all_on-Follows}

-- The run `r` on a port, from the state `st`, has done all that the loop `o` does: that is, it has
-- handled some frames in order and sent their framed answers one after the other.
pub record Delivers {St : Type 0} (handle : St → List ℕ → List ℕ × St) (st : St) (o : Served St)
    (r : Run St) : Type 0 where
  pub returns : r.waits ≡ false
  pub sends : r.out ≡ o.sent
  pub same_state : r.state ≡ o.state
  pub same_rx : r.rx ≡ o.rx
  pub handles : Handles handle [] st o

-- The run `r` on a port, from the state `st`, is where the loop `o` is: it has handled the same
-- frames, and has the same buffer.
pub record Proceeds {St : Type 0} (handle : St → List ℕ → List ℕ × St) (st : St) (o : Served St)
    (r : Run St) : Type 0 where
  pub returns : r.waits ≡ false
  pub same_state : r.state ≡ o.state
  pub same_rx : r.rx ≡ o.rx
  pub handles : Handles handle [] st o

module _ {St : Type 0} (handle : St → List ℕ → List ℕ × St) where
  -- A full port delays the receive loop and loses nothing. On a port that gives no error, but may be
  -- full at any time and take any part of what it is offered, and that takes a byte or more at least
  -- as often as there are bytes to send, the loop does not hang in a write, the port takes exactly
  -- the bytes that the loop sends on a port without limits, and state and buffer are the same too.
  -- These bytes are the framed answers to some frames, none above the limit, one after the other, and
  -- the state is the one behind the last frame.
  pub receive_all_on-Delivers :
      (ws : List WriteResult) (st : St) (rx : List ℕ) (chunks : List (List ℕ))
      → All IsFine ws
      → length (receive_all handle st rx chunks).sent ≤ progress ws
      → Delivers handle st (receive_all handle st rx chunks) (receive_all_on handle ws st rx chunks)
  receive_all_on-Delivers ws st rx chunks f enough =
      let z = receive_all_on-Follows handle ws st rx chunks in
      let w = z.writes in
      let sends = z.sends in
      let returns = w.goes_on (rw (← sends) enough) in
      record {
        returns = returns;
        sends = w.whole returns f ∙ sym sends;
        same_state = z.same_state returns;
        same_rx = z.same_rx returns;
        handles = receive_all-Handles handle st rx chunks;
      }

  -- Errors of the port do not change what the device does. Whatever the port answers, errors
  -- included, as long as it takes a byte or more at least as often as there are bytes to send, the
  -- loop does not hang in a write, and its state and its buffer are those of the loop on a port
  -- without limits: it has handled the same frames, whether their answers got out or not. Its state
  -- is the one behind the last of them.
  pub receive_all_on-Proceeds :
      (ws : List WriteResult) (st : St) (rx : List ℕ) (chunks : List (List ℕ))
      → length (receive_all handle st rx chunks).sent ≤ progress ws
      → Proceeds handle st (receive_all handle st rx chunks) (receive_all_on handle ws st rx chunks)
  receive_all_on-Proceeds ws st rx chunks enough =
      let z = receive_all_on-Follows handle ws st rx chunks in
      let sends = z.sends in
      let returns = z.writes.goes_on (rw (← sends) enough) in
      record {
        returns = returns;
        same_state = z.same_state returns;
        same_rx = z.same_rx returns;
        handles = receive_all-Handles handle st rx chunks;
      }
