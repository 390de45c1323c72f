-- ===== src/Firmware/Port.antt =====
-- firmware/src/main.rs: the receive loop of `serve_forever` on a port that may be full, and may fail.
pub mod Writes
pub mod Follows
pub mod Frames
pub mod Serving
pub mod Exchanges
use dsm_unplugged.Common.{
  ℕ, zero, suc, ◌+◌, ◌%◌, ◌^◌, Bool, true, false, List, [], ◌∷◌, ◌++◌, length, take, drop, to_vec,
  ltb, if◌then◌else◌,
}
use dsm_unplugged.Util.{u32_le}
use dsm_unplugged.Firmware.Receive.{max_rx_frame, frame_len, buffered}
use dsm_unplugged.Firmware.Output.{WriteResult, WriteEnd, waiting, Written, write_all}

abbrev pub is_waiting : WriteEnd → Bool
is_waiting waiting = true
is_waiting _ = false

-- `(resp.len() as u32).to_le_bytes()`
unfoldable pub len_prefix : List ℕ → List ℕ
len_prefix resp = to_vec (u32_le (length resp % 2 ^ 32))

-- The two calls of `write_all` for one response. An error in the first does not stop the second.
unfoldable pub respond : List WriteResult → List ℕ → Written
unfolding len_prefix
respond ws resp =
    let first = write_all ws (len_prefix resp) in
    let second = write_all first.port resp in
    if is_waiting first.end then first else record second { out = first.out ++ second.out }

-- What the loop leaves: the bytes that the port took, the state behind the handler, the buffer,
-- whether it still waits inside `write_all`, and the answers of the port that are still to come.
pub record Run (St : Type 0) : Type 0 where
  pub out : List ℕ
  pub state : St
  pub rx : List ℕ
  pub waits : Bool
  pub port : List WriteResult

module _ {St : Type 0} (handle : St → List ℕ → List ℕ × St) where
  -- `while rx.len() >= 4`. The frame is drained from the buffer after its response is written.
  unfoldable pub serve_frames_on : ℕ → List WriteResult → St → List ℕ → Run St
  unfolding respond
  serve_frames_on zero ws st rx = record { out = []; state = st; rx = rx; waits = false; port = ws }
  serve_frames_on (suc fuel) ws st rx =
      let len = frame_len rx in
      let (resp, st') = handle st (take len (drop 4 rx)) in
      let w = respond ws resp in
      let rest = serve_frames_on fuel w.port st' (drop (4 + len) rx) in
      if ltb (length rx) 4
      then record { out = []; state = st; rx = rx; waits = false; port = ws }
      else (if ltb max_rx_frame len
          then record { out = []; state = st; rx = []; waits = false; port = ws }
          else (if ltb (length rx) (4 + len)
              then record { out = []; state = st; rx = rx; waits = false; port = ws }
              else (if is_waiting w.end
                  then record { out = w.out; state = st'; rx = rx; waits = true; port = w.port }
                  else record rest { out = w.out ++ rest.out })))

  -- One read of the port; an empty read does nothing.
  unfoldable pub receive_on : List WriteResult → St → List ℕ → List ℕ → Run St
  unfolding serve_frames_on
  receive_on ws st rx [] = record { out = []; state = st; rx = rx; waits = false; port = ws }
  receive_on ws st rx (x ∷ chunk) =
      let buffer = buffered rx (x ∷ chunk) in serve_frames_on (length buffer) ws st buffer

  -- Successive reads. A loop that waits reads no more.
  unfoldable pub receive_all_on : List WriteResult → St → List ℕ → List (List ℕ) → Run St
  unfolding receive_on
  receive_all_on ws st rx [] = record { out = []; state = st; rx = rx; waits = false; port = ws }
  receive_all_on ws st rx (chunk ∷ chunks) =
      let now = receive_on ws st rx chunk in
      let later = receive_all_on now.port now.state now.rx chunks in
      if now.waits then now else record later { out = now.out ++ later.out }
