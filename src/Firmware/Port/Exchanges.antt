-- ===== src/Firmware/Port/Exchanges.antt =====
-- firmware/src/main.rs: a host that sends a frame and waits for its answer before the next one.
use dsm_unplugged.Common.{
  ℕ, ◌≤◌, ◌≡◌, refl, sym, ap, ◌∙◌, false, List, [], ◌∷◌, ◌++◌, concat, length, append_assoc, All,
}
use mathlib.Core.List.{map}
use dsm_unplugged.Firmware.Receive.{max_rx_frame, framed, Served, receive, receive_all}
use dsm_unplugged.Firmware.Reassembly.{receive_all-framed}
use dsm_unplugged.Firmware.Served.{answers, after}
use dsm_unplugged.Firmware.Output.{WriteResult}
use dsm_unplugged.Firmware.Port.{Run, receive_all_on}
use dsm_unplugged.Firmware.Port.Writes.{IsFine, progress}
use dsm_unplugged.Firmware.Port.Serving.{receive_all_on-Delivers}

-- A frame and the chunks that it arrives in.
pub record Sending : Type 0 where
  pub frame : List ℕ
  pub chunks : List (List ℕ)

-- The frame is within the limit, and the chunks are what the host sends for it.
pub record IsWhole (s : Sending) : Type 0 where
  pub arrives : concat s.chunks ≡ framed s.frame
  pub small : length s.frame ≤ max_rx_frame

abbrev pub frames_of : List Sending → List (List ℕ)
frames_of [] = []
frames_of (s ∷ ss) = s.frame ∷ frames_of ss

abbrev pub chunks_of : List Sending → List (List ℕ)
chunks_of [] = []
chunks_of (s ∷ ss) = s.chunks ++ chunks_of ss

module _ {St : Type 0} (handle : St → List ℕ → List ℕ × St) where
  -- One run of the loop after another.
  abbrev and_then : Served St → List (List ℕ) → Served St
  and_then o chunks =
      let later = receive_all handle o.state o.rx chunks in
      record later { sent = o.sent ++ later.sent }

  receive_all-append :
      (st : St) (rx : List ℕ) (cs ds : List (List ℕ))
      → receive_all handle st rx (cs ++ ds) ≡ and_then (receive_all handle st rx cs) ds
  unfolding receive_all
  receive_all-append st rx [] ds = refl
  receive_all-append st rx (c ∷ cs) ds =
      let now = receive handle st rx c in
      let first = receive_all handle now.state now.rx cs in
      let later = receive_all handle first.state first.rx ds in
      ap (λ (o : Served St). record o { sent = now.sent ++ o.sent })
        (receive_all-append now.state now.rx cs ds)
      ∙ ap (λ (l : List ℕ). record later { sent = l })
          (sym (append_assoc now.sent first.sent later.sent))

  -- The frames that the host sends one after the other, in the loop on a port without limits.
  receive_all-frames :
      (st : St) (ss : List Sending)
      → All IsWhole ss
      → receive_all handle st [] (chunks_of ss) ≡ record {
        sent = concat (map framed (answers handle st (frames_of ss)));
        state = after handle st (frames_of ss);
        rx = [];
      }
  unfolding receive_all
  receive_all-frames st [] h = refl
  receive_all-frames st (s ∷ ss) (w, ws) =
      receive_all-append st [] s.chunks (chunks_of ss)
      ∙ ap (λ (o : Served St). and_then o (chunks_of ss))
          (receive_all-framed handle st s.chunks s.frame w.arrives w.small)
      ∙ ap (λ (o : Served St). record o { sent = framed (handle st s.frame).0 ++ o.sent })
          (receive_all-frames (handle st s.frame).1 ss ws)

  -- The run `r` has answered the frames: all their framed answers are sent, in order, and nothing
  -- else; the state is the one behind the last frame, and the buffer is empty.
  pub record AnswersAll (st : St) (frames : List (List ℕ)) (r : Run St) : Type 0 where
    pub returns : r.waits ≡ false
    pub sends : r.out ≡ concat (map framed (answers handle st frames))
    pub state : r.state ≡ after handle st frames
    pub rx : r.rx ≡ []

  -- Every frame is answered, once and in order, also through a port that is full again and again. For
  -- any frames within the limit, each sent with its length prefix in any chunks, empty ones included,
  -- and a port that gives no error but may be full at any time and take any part of what it is
  -- offered, and that takes a byte or more at least as often as there are bytes in all framed
  -- answers: from an empty buffer the loop does not hang in a write, the port takes the framed
  -- answers one after the other and nothing else, the state is the one behind the last frame, and the
  -- buffer is empty again.
  pub receive_all_on-AnswersAll :
      (st : St) (ss : List Sending) (ws : List WriteResult)
      → All IsWhole ss
      → All IsFine ws
      → length (concat (map framed (answers handle st (frames_of ss)))) ≤ progress ws
      → AnswersAll st (frames_of ss) (receive_all_on handle ws st [] (chunks_of ss))
  receive_all_on-AnswersAll st ss ws whole fine enough =
      let e = receive_all-frames st ss whole in
      let z = receive_all_on-Delivers handle ws st [] (chunks_of ss) fine (rw e enough) in
      record {
        returns = z.returns;
        sends = z.sends ∙ ap (λ (o : Served St). o.sent) e;
        state = z.same_state ∙ ap (λ (o : Served St). o.state) e;
        rx = z.same_rx ∙ ap (λ (o : Served St). o.rx) e;
      }
