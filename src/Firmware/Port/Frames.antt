-- ===== src/Firmware/Port/Frames.antt =====
-- firmware/src/main.rs: the frames that the receive loop has handled, whatever the port answers.
use dsm_unplugged.Common.{
  ℕ, zero, suc, ◌+◌, ◌≤◌, ◌≡◌, refl, sym, ap, ◌∙◌, false, List, [], ◌∷◌, ◌++◌, length,
  length-take_le, append_assoc, append-nil, subst, All, All-append, take, drop, ltb, Bool-cases,
  inl, inr, arith,
}
use dsm_unplugged.Firmware.Receive.{buffered, max_rx_frame, frame_len}
use dsm_unplugged.Firmware.Served.{answers, after, after-append, answers-after}
use dsm_unplugged.Firmware.Output.{WriteResult, write_all, capacity, write_all_lem}
use dsm_unplugged.Firmware.Port.{
  is_waiting, len_prefix, respond, Run, serve_frames_on, receive_on, receive_all_on,
}

-- What a port took of some responses: of each its length prefix and its bytes, both possibly cut off.
pub data IsCut : List (List ℕ) → List ℕ → Type 0 where
  cut_none : IsCut [] []
  cut_more :
      (n m : ℕ) (resp : List ℕ) {resps : List (List ℕ)} {out : List ℕ}
      → IsCut resps out
      → IsCut (resp ∷ resps) ((take n (len_prefix resp) ++ take m resp) ++ out)

IsCut-append :
    {rs rs' : List (List ℕ)} {out out' : List ℕ}
    → IsCut rs out
    → IsCut rs' out'
    → IsCut (rs ++ rs') (out ++ out')
IsCut-append cut_none d = d
IsCut-append {rs' = rs'} {out' = out'} (cut_more n m resp {resps} {out} c) d =
    subst (IsCut (resp ∷ (resps ++ rs')))
      (sym (append_assoc (take n (len_prefix resp) ++ take m resp) out out'))
      (cut_more n m resp (IsCut-append c d))

respond_cuts :
    (ws : List WriteResult) (resp : List ℕ)
    → (n : ℕ) × (m : ℕ) × ((respond ws resp).out ≡ take n (len_prefix resp) ++ take m resp)
unfolding respond
respond_cuts ws resp =
    let first = write_all ws (len_prefix resp) in
    let p = (write_all_lem ws (len_prefix resp)).0 in
    let q = (write_all_lem first.port resp).0 in
    elim (Bool-cases (is_waiting first.end)) [
      | inl e ↦ (capacity ws, 0, rw e (p ∙ sym (append-nil _)))
      | inr e ↦ (capacity ws, capacity first.port, rw (e, p, q) refl)
    ]

module _ {St : Type 0} (handle : St → List ℕ → List ℕ × St) where
  -- The run has handled some frames, none above the limit, and the port took what it wanted of their
  -- answers.
  pub record Serves (st : St) (r : Run St) : Type 0 where
    pub frames : List (List ℕ)
    pub state : r.state ≡ after handle st frames
    pub cut : IsCut (answers handle st frames) r.out
    pub small : All (λ f. length f ≤ max_rx_frame) frames

  Serves-none :
      (ws : List WriteResult) (st : St) (rx : List ℕ)
      → Serves st (record { out = []; state = st; rx = rx; waits = false; port = ws })
  Serves-none ws st rx = record { frames = []; state = refl; cut = cut_none; small = tt }

  Serves-one :
      (ws : List WriteResult) (st : St) (f : List ℕ) {r : Run St}
      → length f ≤ max_rx_frame
      → Serves (handle st f).1 r
      → Serves st (record r { out = (respond ws (handle st f).0).out ++ r.out })
  Serves-one ws st f {r} le z =
      let (n, m, e) = respond_cuts ws (handle st f).0 in
      record {
        frames = f ∷ z.frames;
        state = z.state;
        cut = rw e (cut_more n m (handle st f).0 z.cut);
        small = (le, z.small);
      }

  Serves-last :
      (ws : List WriteResult) (st : St) (f : List ℕ) (r : Run St)
      → length f ≤ max_rx_frame
      → r.out ≡ (respond ws (handle st f).0).out
      → r.state ≡ (handle st f).1
      → Serves st r
  Serves-last ws st f r le out state =
      let (n, m, e) = respond_cuts ws (handle st f).0 in
      record {
        frames = f ∷ [];
        state = state;
        cut =
            subst (IsCut ((handle st f).0 ∷ [])) (append-nil _ ∙ sym e ∙ sym out)
              (cut_more n m (handle st f).0 cut_none);
        small = (le, tt);
      }

  serve_frames_on-Serves :
      (fuel : ℕ) (ws : List WriteResult) (st : St) (rx : List ℕ)
      → Serves st (serve_frames_on handle fuel ws st rx)
  unfolding serve_frames_on
  serve_frames_on-Serves zero ws st rx = Serves-none ws st rx
  serve_frames_on-Serves (suc fuel) ws st rx = elim (Bool-cases (ltb (length rx) 4)) [
    | inl short ↦ rw short (Serves-none ws st rx)
    | inr long ↦ elim (Bool-cases (ltb max_rx_frame (frame_len rx))) [
      | inl huge ↦ rw (long, huge) (Serves-none ws st [])
      | inr small ↦ elim (Bool-cases (ltb (length rx) (4 + frame_len rx))) [
        | inl part ↦ rw (long, small, part) (Serves-none ws st rx)
        | inr whole ↦
            let f = take (frame_len rx) (drop 4 rx) in
            let le : length f ≤ max_rx_frame =
              ground (arith, length-take_le (frame_len rx) (drop 4 rx)) in
            let a = handle st f in
            let w = respond ws a.0 in
            elim (Bool-cases (is_waiting w.end)) [
              | inl e ↦ rw (long, small, whole, e) (Serves-last ws st f _ le refl refl)
              | inr e ↦
                  rw (long, small, whole, e)
                    (Serves-one ws st f le
                      (serve_frames_on-Serves fuel w.port a.1 (drop (4 + frame_len rx) rx)))
            ]
      ]
    ]
  ]

  receive_on-Serves :
      (ws : List WriteResult) (st : St) (rx chunk : List ℕ)
      → Serves st (receive_on handle ws st rx chunk)
  unfolding receive_on
  receive_on-Serves ws st rx [] = Serves-none ws st rx
  receive_on-Serves ws st rx (x ∷ chunk) =
      let buffer = buffered rx (x ∷ chunk) in serve_frames_on-Serves (length buffer) ws st buffer

  Serves-then :
      (st : St) {r r' : Run St}
      → Serves st r
      → Serves r.state r'
      → Serves st (record r' { out = r.out ++ r'.out })
  Serves-then st {r} {r'} z z' =
      let s = z.state in
      record {
        frames = z.frames ++ z'.frames;
        state =
            z'.state
            ∙ ap (λ (a : St). after handle a z'.frames) s
            ∙ sym (after-append handle st z.frames z'.frames);
        cut =
            subst (λ (resps : List (List ℕ)). IsCut resps (r.out ++ r'.out))
              (ap (λ (a : St). answers handle st z.frames ++ answers handle a z'.frames) s
                ∙ sym (answers-after handle st z.frames z'.frames))
              (IsCut-append z.cut z'.cut);
        small = All-append _ z.frames z'.frames z.small z'.small;
      }

  -- Whatever arrives in whatever chunks, whatever is in the buffer and whatever the port answers, the
  -- loop has handled some list of frames in order, none above the limit: its state is the one behind
  -- the last, also while it waits in a write, and what the port took is, frame by frame, a part from
  -- the front of the answer's length prefix and then a part from the front of the answer.
  pub receive_all_on-Serves :
      (ws : List WriteResult) (st : St) (rx : List ℕ) (chunks : List (List ℕ))
      → Serves st (receive_all_on handle ws st rx chunks)
  unfolding receive_all_on
  receive_all_on-Serves ws st rx [] = Serves-none ws st rx
  receive_all_on-Serves ws st rx (chunk ∷ chunks) =
      let r = receive_on handle ws st rx chunk in
      let now = receive_on-Serves ws st rx chunk in
      elim (Bool-cases r.waits) [
        | inl e ↦ rw e now
        | inr e ↦ rw e (Serves-then st now (receive_all_on-Serves r.port r.state r.rx chunks))
      ]
