-- ===== src/Firmware/Framing.antt =====
-- firmware/src/main.rs: the receive buffer of `serve_forever` is bounded.
use dsm_unplugged.Common.{
  ◌<◌, ◌⊎◌, inl, inr, Bool-cases, ℕ, zero, suc, ◌+◌, ◌≤◌, List, [], ◌∷◌, ◌++◌, length,
  length-append, length-drop, take, drop, ltb, arith,
}
use dsm_unplugged.Firmware.Receive.{
  max_rx_frame, framed, frame_len, buffered, serve_frames, receive,
}

-- A buffer from which no frame can be cut: the prefix is incomplete, or the frame is.
abbrev pub IsDrained : List ℕ → Type 0
IsDrained rx = (length rx < 4) ⊎ ((frame_len rx ≤ max_rx_frame) × (length rx < 4 + frame_len rx))

module _ {St : Type 0} (handle : St → List ℕ → List ℕ × St) where
  serve_frames_bound :
      (fuel : ℕ) (sent : List ℕ) (st : St) (rx : List ℕ)
      → length (serve_frames handle fuel sent st rx).rx ≤ length rx
  unfolding serve_frames
  serve_frames_bound zero sent st rx = omega arith
  serve_frames_bound (suc fuel) sent st rx = ground (
    arith,
    serve_frames_bound fuel (sent ++ framed (handle st (take (frame_len rx) (drop 4 rx))).0)
        (handle st (take (frame_len rx) (drop 4 rx))).1 (drop (4 + frame_len rx) rx),
    length-drop (4 + frame_len rx) rx,
  )

  buffered-bound : (rx chunk : List ℕ) → length (buffered rx chunk) ≤ max_rx_frame + 4
  buffered-bound rx chunk = ground (arith, length-append rx chunk)

  -- Whatever arrives, the buffer never holds more than one maximal frame with its prefix. From a
  -- buffer within this limit, the buffer is within it where the bytes of the next read are in, before
  -- any frame is served, which is where it is longest, and what the frames leave of it is no longer.
  pub receive_bound :
      (st : St) (rx chunk : List ℕ)
      → length rx ≤ max_rx_frame + 4
      → (length (buffered rx chunk) ≤ max_rx_frame + 4)
        × (length (receive handle st rx chunk).rx ≤ length (buffered rx chunk))
  unfolding receive
  receive_bound st rx [] h = (buffered-bound rx [], ground (arith, length-append rx []))
  receive_bound st rx (x ∷ chunk) h = (
    buffered-bound rx (x ∷ chunk),
    serve_frames_bound (length (buffered rx (x ∷ chunk))) [] st (buffered rx (x ∷ chunk)),
  )

  serve_frames_enough :
      (fuel : ℕ) (sent : List ℕ) (st : St) (rx : List ℕ)
      → length rx ≤ fuel
      → IsDrained (serve_frames handle fuel sent st rx).rx
  unfolding serve_frames
  serve_frames_enough zero sent st rx h = inl (omega arith)
  serve_frames_enough (suc fuel) sent st rx h = elim (Bool-cases (ltb (length rx) 4)) [
    | inl short ↦ rw short (inl (ground arith))
    | inr long ↦ elim (Bool-cases (ltb max_rx_frame (frame_len rx))) [
      | inl huge ↦ rw (long, huge) (inl (omega arith))
      | inr small ↦ elim (Bool-cases (ltb (length rx) (4 + frame_len rx))) [
        | inl part ↦ rw (long, small, part) (inr (ground arith, ground arith))
        | inr whole ↦
            rw (long, small, whole)
              (serve_frames_enough fuel
                (sent ++ framed (handle st (take (frame_len rx) (drop 4 rx))).0)
                (handle st (take (frame_len rx) (drop 4 rx))).1 (drop (4 + frame_len rx) rx)
                (ground (arith, length-drop (4 + frame_len rx) rx)))
      ]
    ]
  ]

  -- The serving loop terminates by its own tests: after every read that the port gives it, with the
  -- rounds that it is allowed, the buffer is one from which no further frame can be cut.
  pub receive-IsDrained :
      (st : St) (rx chunk : List ℕ) → IsDrained rx → IsDrained (receive handle st rx chunk).rx
  unfolding receive
  receive-IsDrained st rx [] h = h
  receive-IsDrained st rx (x ∷ chunk) h =
      let buffer = buffered rx (x ∷ chunk) in
      serve_frames_enough (length buffer) [] st buffer (omega arith)
