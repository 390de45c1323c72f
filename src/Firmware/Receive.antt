-- ===== src/Firmware/Receive.antt =====
-- firmware/src/main.rs: the receive loop of `serve_forever`, over any frame handler.
use dsm_unplugged.Common.{
  ℕ, zero, suc, ◌+◌, ◌*◌, ◌%◌, ◌^◌, List, [], ◌∷◌, ◌++◌, length, take, drop, to_vec, ltb,
  if◌then◌else◌,
}
use dsm_unplugged.Util.{u32_le, from_le_bytes}

abbrev pub max_rx_frame : ℕ
max_rx_frame = 8 * 1024

-- A response on the wire: `(resp.len() as u32).to_le_bytes()` and the bytes.
unfoldable pub framed : List ℕ → List ℕ
framed resp = to_vec (u32_le (length resp % 2 ^ 32)) ++ resp

-- The length prefix at the front of a buffer.
unfoldable pub frame_len : List ℕ → ℕ
frame_len rx = from_le_bytes (take 4 rx)

-- What one turn of the loop leaves: the bytes handed to `write_all`, the state
-- behind the handler, the buffer.
pub record Served (St : Type 0) : Type 0 where
  pub sent : List ℕ
  pub state : St
  pub rx : List ℕ

-- The buffer with the bytes of a read. When they would be more than a frame of the greatest length
-- with its prefix, the buffer is cleared and the bytes are dropped.
abbrev pub buffered : List ℕ → List ℕ → List ℕ
buffered rx chunk = if ltb (max_rx_frame + 4) (length rx + length chunk) then [] else rx ++ chunk

module _ {St : Type 0} (handle : St → List ℕ → List ℕ × St) where
  -- `while rx.len() >= 4`. A round that goes on drains 4 bytes at least, so `length rx` rounds are
  -- enough.
  unfoldable pub serve_frames : ℕ → List ℕ → St → List ℕ → Served St
  serve_frames zero sent st rx = record { sent = sent; state = st; rx = rx }
  serve_frames (suc fuel) sent st rx =
      let len = frame_len rx in
      let (resp, st') = handle st (take len (drop 4 rx)) in
      let rest = serve_frames fuel (sent ++ framed resp) st' (drop (4 + len) rx) in
      if ltb (length rx) 4
      then record { sent = sent; state = st; rx = rx }
      else (if ltb max_rx_frame len
          then record { sent = sent; state = st; rx = [] }
          else (if ltb (length rx) (4 + len)
              then record { sent = sent; state = st; rx = rx }
              else rest))

  -- One read of `n` bytes from the port; an empty read does nothing.
  unfoldable pub receive : St → List ℕ → List ℕ → Served St
  unfolding serve_frames
  receive st rx [] = record { sent = []; state = st; rx = rx }
  receive st rx (x ∷ chunk) =
      let buffer = buffered rx (x ∷ chunk) in serve_frames (length buffer) [] st buffer

  -- Successive reads.
  unfoldable pub receive_all : St → List ℕ → List (List ℕ) → Served St
  unfolding receive
  receive_all st rx [] = record { sent = []; state = st; rx = rx }
  receive_all st rx (chunk ∷ chunks) =
      let now = receive st rx chunk in
      let later = receive_all now.state now.rx chunks in
      record later { sent = now.sent ++ later.sent }
