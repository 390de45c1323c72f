-- ===== src/Firmware/Port/Follows.antt =====
-- firmware/src/main.rs: the receive loop on a port, beside the loop on a port without errors.
use dsm_unplugged.Common.{
  ℕ, zero, suc, ◌+◌, ◌≡◌, refl, sym, ap, ◌∙◌, true, false, List, [], ◌∷◌, ◌++◌, length,
  append_assoc, append-nil, take, drop, ltb, Bool-cases, inl, inr,
}
use dsm_unplugged.Firmware.Receive.{
  max_rx_frame, framed, frame_len, buffered, Served, serve_frames, receive, receive_all,
}
use dsm_unplugged.Firmware.Output.{WriteResult}
use dsm_unplugged.Firmware.Port.{
  is_waiting, respond, Run, serve_frames_on, receive_on, receive_all_on,
}
use dsm_unplugged.Firmware.Port.Writes.{
  Sends, Sends-nothing, Sends-then, Sends-stops, respond-Sends,
}

module _ {St : Type 0} (handle : St → List ℕ → List ℕ × St) where
  -- The run `r` on the port follows the loop `o`, which has sent `before` already: it writes the rest
  -- of what the loop sends, and where it does not wait it is where the loop is.
  pub record Follows (before : List ℕ) (ws : List WriteResult) (o : Served St) (r : Run St)
      : Type 0 where
    pub rest : List ℕ
    pub sends : o.sent ≡ before ++ rest
    pub writes : Sends ws rest r.out r.waits r.port
    pub same_state : r.waits ≡ false → r.state ≡ o.state
    pub same_rx : r.waits ≡ false → r.rx ≡ o.rx

  Follows-none :
      (before : List ℕ) (ws : List WriteResult) (st : St) (rx : List ℕ)
      → Follows before ws
          (record { sent = before; state = st; rx = rx })
          (record { out = []; state = st; rx = rx; waits = false; port = ws })
  Follows-none before ws st rx = record {
    rest = [];
    sends = sym (append-nil before);
    writes = Sends-nothing ws;
    same_state = λ _. refl;
    same_rx = λ _. refl;
  }

  serve_frames_on-Follows :
      (fuel : ℕ) (before : List ℕ) (ws : List WriteResult) (st : St) (rx : List ℕ)
      → Follows before ws
          (serve_frames handle fuel before st rx)
          (serve_frames_on handle fuel ws st rx)
  unfolding serve_frames serve_frames_on
  serve_frames_on-Follows zero before ws st rx = Follows-none before ws st rx
  serve_frames_on-Follows (suc fuel) before ws st rx = elim (Bool-cases (ltb (length rx) 4)) [
    | inl short ↦ rw short (Follows-none before ws st rx)
    | inr long ↦ elim (Bool-cases (ltb max_rx_frame (frame_len rx))) [
      | inl huge ↦ rw (long, huge) (Follows-none before ws st [])
      | inr small ↦ elim (Bool-cases (ltb (length rx) (4 + frame_len rx))) [
        | inl part ↦ rw (long, small, part) (Follows-none before ws st rx)
        | inr whole ↦
            let a = handle st (take (frame_len rx) (drop 4 rx)) in
            let w = respond ws a.0 in
            let s = respond-Sends ws a.0 in
            let z =
              serve_frames_on-Follows fuel (before ++ framed a.0) w.port a.1
                (drop (4 + frame_len rx) rx) in
            elim (Bool-cases (is_waiting w.end)) [
              | inl e ↦
                  rw (long, small, whole, e)
                    (record {
                      rest = framed a.0 ++ z.rest;
                      sends = z.sends ∙ append_assoc before (framed a.0) z.rest;
                      writes = Sends-stops z.rest s e refl;
                      same_state = λ f. cc;
                      same_rx = λ f. cc;
                    })
              | inr e ↦
                  rw (long, small, whole, e)
                    (record {
                      rest = framed a.0 ++ z.rest;
                      sends = z.sends ∙ append_assoc before (framed a.0) z.rest;
                      writes = Sends-then s e z.writes;
                      same_state = z.same_state;
                      same_rx = z.same_rx;
                    })
            ]
      ]
    ]
  ]

  receive_on-Follows :
      (ws : List WriteResult) (st : St) (rx chunk : List ℕ)
      → Follows [] ws (receive handle st rx chunk) (receive_on handle ws st rx chunk)
  unfolding receive receive_on
  receive_on-Follows ws st rx [] = Follows-none [] ws st rx
  receive_on-Follows ws st rx (x ∷ chunk) =
      let buffer = buffered rx (x ∷ chunk) in
      serve_frames_on-Follows (length buffer) [] ws st buffer

  Follows-stops :
      {ws : List WriteResult} {o : Served St} {r : Run St} (o' : Served St)
      → Follows [] ws o r
      → r.waits ≡ true
      → Follows [] ws (record o' { sent = o.sent ++ o'.sent }) r
  Follows-stops o' z e = record {
    rest = z.rest ++ o'.sent;
    sends = ap (λ (xs : List ℕ). xs ++ o'.sent) z.sends;
    writes = Sends-stops o'.sent z.writes e e;
    same_state = λ f. cc;
    same_rx = λ f. cc;
  }

  Follows-then :
      {ws : List WriteResult} {o o' : Served St} {r r' : Run St}
      → Follows [] ws o r
      → r.waits ≡ false
      → Follows [] r.port o' r'
      → Follows [] ws (record o' { sent = o.sent ++ o'.sent }) (record r' { out = r.out ++ r'.out })
  Follows-then {o = o} {o' = o'} z e z' = record {
    rest = z.rest ++ z'.rest;
    sends = ap (λ (xs : List ℕ). xs ++ o'.sent) z.sends ∙ ap (◌++◌ z.rest) z'.sends;
    writes = Sends-then z.writes e z'.writes;
    same_state = z'.same_state;
    same_rx = z'.same_rx;
  }

  pub receive_all_on-Follows :
      (ws : List WriteResult) (st : St) (rx : List ℕ) (chunks : List (List ℕ))
      → Follows [] ws (receive_all handle st rx chunks) (receive_all_on handle ws st rx chunks)
  unfolding receive_all receive_all_on
  receive_all_on-Follows ws st rx [] = Follows-none [] ws st rx
  receive_all_on-Follows ws st rx (chunk ∷ chunks) =
      let r = receive_on handle ws st rx chunk in
      let now = receive_on-Follows ws st rx chunk in
      elim (Bool-cases r.waits) [
        | inl e ↦ rw e (Follows-stops _ now e)
        | inr e ↦
            rw (e, ← now.same_state e, ← now.same_rx e)
              (Follows-then now e (receive_all_on-Follows r.port r.state r.rx chunks))
      ]
