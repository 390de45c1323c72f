-- ===== src/Firmware/Served.antt =====
-- firmware/src/main.rs: what the receive loop of `serve_forever` amounts to, over any frame handler.
use dsm_unplugged.Common.{
  ℕ, zero, suc, ◌+◌, ◌≡◌, refl, sym, ap, ◌∙◌, inl, inr, List, [], ◌∷◌, ◌++◌, concat, length,
  append_assoc, length-take_le, All, All-append, ◌≤◌, append-nil, take, drop, ltb, Bool-cases,
  arith,
}
use mathlib.Core.List.{map}
use dsm_unplugged.Firmware.Receive.{
  max_rx_frame, framed, frame_len, buffered, Served, serve_frames, receive, receive_all,
}

module _ {St : Type 0} (handle : St → List ℕ → List ℕ × St) where
  -- The answers to frames that are handled one after the other, and the state behind the last.
  abbrev pub answers : St → List (List ℕ) → List (List ℕ)
  answers st [] = []
  answers st (f ∷ fs) = (handle st f).0 ∷ answers (handle st f).1 fs

  abbrev pub after : St → List (List ℕ) → St
  after st [] = st
  after st (f ∷ fs) = after (handle st f).1 fs

  pub after-append :
      (st : St) (fs gs : List (List ℕ)) → after st (fs ++ gs) ≡ after (after st fs) gs
  after-append st [] gs = refl
  after-append st (f ∷ fs) gs = after-append (handle st f).1 fs gs

  pub answers-after :
      (st : St) (fs gs : List (List ℕ))
      → answers st (fs ++ gs) ≡ answers st fs ++ answers (after st fs) gs
  answers-after st [] gs = refl
  answers-after st (f ∷ fs) gs = ap (◌∷◌ (handle st f).0) (answers-after (handle st f).1 fs gs)

  answers-append :
      (st : St) (fs gs : List (List ℕ))
      → concat (map framed (answers st (fs ++ gs)))
        ≡ concat (map framed (answers st fs)) ++ concat (map framed (answers (after st fs) gs))
  answers-append st [] gs = refl
  answers-append st (f ∷ fs) gs =
      ap (◌++◌ (framed (handle st f).0)) (answers-append (handle st f).1 fs gs)
      ∙ sym (append_assoc (framed (handle st f).0) _ _)

  -- What was sent after `before`, and the state, are those of the frames `frames`.
  pub record Handles (before : List ℕ) (st : St) (o : Served St) : Type 0 where
    pub frames : List (List ℕ)
    pub sends : o.sent ≡ before ++ concat (map framed (answers st frames))
    pub state : o.state ≡ after st frames
    pub small : All (λ f. length f ≤ max_rx_frame) frames

  Handles-none :
      (before : List ℕ) (st : St) (rx : List ℕ)
      → Handles before st (record { sent = before; state = st; rx = rx })
  Handles-none before st rx = record {
    frames = [];
    sends = sym (append-nil before);
    state = refl;
    small = tt;
  }

  Handles-more :
      (before : List ℕ) (st : St) (f : List ℕ) {o : Served St}
      → length f ≤ max_rx_frame
      → Handles (before ++ framed (handle st f).0) (handle st f).1 o
      → Handles before st o
  Handles-more before st f le z = record {
    frames = f ∷ z.frames;
    sends = z.sends ∙ append_assoc before (framed (handle st f).0) _;
    state = z.state;
    small = (le, z.small);
  }

  serve_frames-Handles :
      (fuel : ℕ) (before : List ℕ) (st : St) (rx : List ℕ)
      → Handles before st (serve_frames handle fuel before st rx)
  unfolding serve_frames
  serve_frames-Handles zero before st rx = Handles-none before st rx
  serve_frames-Handles (suc fuel) before st rx = elim (Bool-cases (ltb (length rx) 4)) [
    | inl short ↦ rw short (Handles-none before st rx)
    | inr long ↦ elim (Bool-cases (ltb max_rx_frame (frame_len rx))) [
      | inl huge ↦ rw (long, huge) (Handles-none before st [])
      | inr small ↦ elim (Bool-cases (ltb (length rx) (4 + frame_len rx))) [
        | inl part ↦ rw (long, small, part) (Handles-none before st rx)
        | inr whole ↦
            rw (long, small, whole)
              (Handles-more before st (take (frame_len rx) (drop 4 rx))
                (ground (arith, length-take_le (frame_len rx) (drop 4 rx)))
                (serve_frames-Handles fuel _ _ (drop (4 + frame_len rx) rx)))
      ]
    ]
  ]

  receive-Handles : (st : St) (rx chunk : List ℕ) → Handles [] st (receive handle st rx chunk)
  unfolding receive
  receive-Handles st rx [] = Handles-none [] st rx
  receive-Handles st rx (x ∷ chunk) =
      let buffer = buffered rx (x ∷ chunk) in serve_frames-Handles (length buffer) [] st buffer

  -- Whatever arrives in whatever chunks, and whatever is in the buffer, the loop has handled some
  -- list of frames in order, none above the limit: what it has handed to `write_all` is their framed
  -- answers one after the other and nothing else, and the state is the one behind the last.
  pub receive_all-Handles :
      (st : St) (rx : List ℕ) (chunks : List (List ℕ))
      → Handles [] st (receive_all handle st rx chunks)
  unfolding receive_all
  receive_all-Handles st rx [] = Handles-none [] st rx
  receive_all-Handles st rx (chunk ∷ chunks) =
      let now = receive-Handles st rx chunk in
      let o = receive handle st rx chunk in
      let later = receive_all-Handles o.state o.rx chunks in
      let fs = now.frames in
      let gs = later.frames in
      let s = now.state in
      let s1 = now.sends in
      let s2 = later.sends in
      let e : concat (map framed (answers o.state gs))
          ≡ concat (map framed (answers (after st fs) gs)) =
        ap (λ (a : St). concat (map framed (answers a gs))) s in
      record {
        frames = fs ++ gs;
        sends = cc (answers-append st fs gs);
        state = later.state ∙ ap (λ (a : St). after a gs) s ∙ sym (after-append st fs gs);
        small = All-append _ fs gs now.small later.small;
      }
