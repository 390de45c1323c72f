-- ===== src/Firmware/Reassembly.antt =====
-- firmware/src/main.rs: the receive loop puts a frame together from the chunks that it arrives in.
use dsm_unplugged.Common.{
  ℕ, zero, suc, ◌+◌, ◌%◌, ◌^◌, ◌≤◌, ◌<◌, ◌≡◌, refl, sym, ap, ◌∙◌, inl, inr, List, [], ◌∷◌, ◌++◌,
  concat, length, length-append, take, drop, take-append, drop-append, append_assoc, append-nil,
  to_vec, length-to_vec, ltb, Bool-cases, arith,
}
use dsm_unplugged.Util.{u32_le, from_le_bytes}
use dsm_unplugged.Util.Encoding.{from_le_bytes-le_bytes}
use dsm_unplugged.Firmware.Receive.{
  max_rx_frame, framed, frame_len, serve_frames, receive, receive_all,
}

take_front : (n : ℕ) (xs ys : List ℕ) → length xs ≡ n → take n (xs ++ ys) ≡ xs
take_front n xs ys e = ap (λ (k : ℕ). take k (xs ++ ys)) (sym e) ∙ take-append xs ys

drop_front : (n : ℕ) (xs ys : List ℕ) → length xs ≡ n → drop n (xs ++ ys) ≡ ys
drop_front n xs ys e = ap (λ (k : ℕ). drop k (xs ++ ys)) (sym e) ∙ drop-append xs ys

take_within : (n : ℕ) (xs ys : List ℕ) → n ≤ length xs → take n (xs ++ ys) ≡ take n xs
take_within zero xs ys h = refl
take_within (suc n) [] ys h = absurd (omega arith)
take_within (suc n) (x ∷ xs) ys h = ap (◌∷◌ x) (take_within n xs ys (omega arith))

abbrev prefix : List ℕ → List ℕ
prefix f = to_vec (u32_le (length f % 2 ^ 32))

length-prefix : (f : List ℕ) → length (prefix f) ≡ 4
length-prefix f = length-to_vec (u32_le (length f % 2 ^ 32))

length-framed : (f : List ℕ) → length (framed f) ≡ 4 + length f
unfolding framed
length-framed f = length-append (prefix f) f ∙ ap (λ (n : ℕ). n + length f) (length-prefix f)

from_le_bytes-prefix : (f : List ℕ) → length f < 2 ^ 32 → from_le_bytes (prefix f) ≡ length f
unfolding u32_le
from_le_bytes-prefix f h = from_le_bytes-le_bytes 4 (length f % 2 ^ 32) (omega arith) ∙ omega arith

-- A part of a frame that holds its prefix tells the length of the whole.
frame_len_part :
    (f rx rest : List ℕ)
    → rx ++ rest ≡ framed f
    → 4 ≤ length rx
    → length f ≤ max_rx_frame
    → frame_len rx ≡ length f
unfolding framed frame_len
frame_len_part f rx rest e h le =
    let same : take 4 rx ≡ prefix f =
      sym (take_within 4 rx rest h) ∙ ap (take 4) e ∙ take_front 4 (prefix f) f (length-prefix f) in
    ap from_le_bytes same ∙ from_le_bytes-prefix f (omega arith)

body_of : (f : List ℕ) → take (length f) (drop 4 (framed f)) ≡ f
unfolding framed
body_of f =
    ap (take (length f)) (drop_front 4 (prefix f) f (length-prefix f))
    ∙ ap (take (length f)) (sym (append-nil f))
    ∙ take-append f []

rest_of : (f : List ℕ) → drop (4 + length f) (framed f) ≡ []
rest_of f =
    ap (drop (4 + length f)) (sym (append-nil (framed f)))
    ∙ drop_front (4 + length f) (framed f) [] (length-framed f)

module _ {St : Type 0} (handle : St → List ℕ → List ℕ × St) where
  serve_nil :
      (fuel : ℕ) (sent : List ℕ) (st : St)
      → serve_frames handle fuel sent st [] ≡ record { sent = sent; state = st; rx = [] }
  unfolding serve_frames
  serve_nil zero sent st = refl
  serve_nil (suc fuel) sent st = ground arith

  -- A proper part of a frame stays in the buffer.
  serve_part :
      (fuel : ℕ) (sent : List ℕ) (st : St) (f rx rest : List ℕ)
      → rx ++ rest ≡ framed f
      → length rx < 4 + length f
      → length f ≤ max_rx_frame
      → serve_frames handle fuel sent st rx ≡ record { sent = sent; state = st; rx = rx }
  unfolding serve_frames
  serve_part zero sent st f rx rest e h le = refl
  serve_part (suc fuel) sent st f rx rest e h le = elim (Bool-cases (ltb (length rx) 4)) [
    | inl short ↦ ground arith
    | inr long ↦ ground (arith, frame_len_part f rx rest e (ground arith) le)
  ]

  frame_len-framed : (f : List ℕ) → length f ≤ max_rx_frame → frame_len (framed f) ≡ length f
  frame_len-framed f le =
      frame_len_part f (framed f) [] (append-nil (framed f)) (omega (arith, length-framed f)) le

  -- A whole frame is handled once and answered.
  serve_whole :
      (fuel : ℕ) (st : St) (f : List ℕ)
      → length f ≤ max_rx_frame
      → serve_frames handle (suc fuel) [] st (framed f)
        ≡ record { sent = framed (handle st f).0; state = (handle st f).1; rx = [] }
  unfolding serve_frames
  serve_whole fuel st f le =
      rw (frame_len-framed f le, body_of f, rest_of f)
        (ground (arith, length-framed f, serve_nil fuel (framed (handle st f).0) (handle st f).1))

  receive_nothing :
      (st : St) (chunks : List (List ℕ))
      → concat chunks ≡ []
      → receive_all handle st [] chunks ≡ record { sent = []; state = st; rx = [] }
  unfolding receive_all
  receive_nothing st [] e = refl
  receive_nothing st ([] ∷ chunks) e = receive_nothing st chunks e
  receive_nothing st ((x ∷ c) ∷ chunks) e = cc

  receive_fits :
      (st : St) (rx : List ℕ) (x : ℕ) (c : List ℕ)
      → length rx + length (x ∷ c) ≤ max_rx_frame + 4
      → receive handle st rx (x ∷ c)
        ≡ serve_frames handle (length (rx ++ (x ∷ c))) [] st (rx ++ (x ∷ c))
  unfolding receive
  receive_fits st rx x c h = ground arith

  -- What a read that does not complete the frame leaves to the later ones, and what one that does.
  receive_more :
      (st : St) (rx : List ℕ) (x : ℕ) (c : List ℕ) (chunks : List (List ℕ)) (rx' : List ℕ)
      → receive handle st rx (x ∷ c) ≡ record { sent = []; state = st; rx = rx' }
      → receive_all handle st rx ((x ∷ c) ∷ chunks) ≡ receive_all handle st rx' chunks
  unfolding receive_all
  receive_more st rx x c chunks rx' e = rw e refl

  receive_last :
      (st st' : St) (rx : List ℕ) (x : ℕ) (c : List ℕ) (chunks : List (List ℕ)) (sent : List ℕ)
      → receive handle st rx (x ∷ c) ≡ record { sent = sent; state = st'; rx = [] }
      → concat chunks ≡ []
      → receive_all handle st rx ((x ∷ c) ∷ chunks) ≡ record { sent = sent; state = st'; rx = [] }
  unfolding receive_all
  receive_last st st' rx x c chunks sent e n =
      rw (e, receive_nothing st' chunks n)
        (ap (λ (l : List ℕ). record { sent = l; state = st'; rx = [] }) (append-nil sent))

  serve_framed :
      (st : St) (f rx : List ℕ)
      → rx ≡ framed f
      → length f ≤ max_rx_frame
      → serve_frames handle (length rx) [] st rx
        ≡ record { sent = framed (handle st f).0; state = (handle st f).1; rx = [] }
  serve_framed st f rx e le =
      let n : length (framed f) ≡ suc (3 + length f) = length-framed f ∙ omega arith in
      rw (e, n) (serve_whole (3 + length f) st f le)

  receive_rest :
      (st : St) (rx : List ℕ) (chunks : List (List ℕ)) (f : List ℕ)
      → rx ++ concat chunks ≡ framed f
      → length rx < 4 + length f
      → length f ≤ max_rx_frame
      → receive_all handle st rx chunks
        ≡ record { sent = framed (handle st f).0; state = (handle st f).1; rx = [] }
  unfolding receive_all
  receive_rest st rx [] f e h le =
      absurd (omega (arith, ap length (sym (append-nil rx) ∙ e), length-framed f))
  receive_rest st rx ([] ∷ chunks) f e h le = receive_rest st rx chunks f e h le
  receive_rest st rx ((x ∷ c) ∷ chunks) f e h le =
      let e' : (rx ++ (x ∷ c)) ++ concat chunks ≡ framed f =
        append_assoc rx (x ∷ c) (concat chunks) ∙ e in
      let total : length (rx ++ (x ∷ c)) + length (concat chunks) ≡ 4 + length f =
        sym (length-append (rx ++ (x ∷ c)) (concat chunks)) ∙ ap length e' ∙ length-framed f in
      let grown : length (rx ++ (x ∷ c)) ≡ length rx + length (x ∷ c) = length-append rx (x ∷ c) in
      let reads = receive_fits st rx x c (omega arith) in
      elim (Bool-cases (ltb (length (rx ++ (x ∷ c))) (4 + length f))) [
        | inl part ↦
            let less : length (rx ++ (x ∷ c)) < 4 + length f = ground arith in
            receive_more st rx x c chunks (rx ++ (x ∷ c)) (
              reads
              ∙ serve_part (length (rx ++ (x ∷ c))) [] st f (rx ++ (x ∷ c)) (concat chunks) e' less
                  le)
            ∙ receive_rest st (rx ++ (x ∷ c)) chunks f e' less le
        | inr whole ↦
            let none_left : concat chunks ≡ [] = empty_of (concat chunks) (ground arith) in
            let same : rx ++ (x ∷ c) ≡ framed f =
              sym (append-nil (rx ++ (x ∷ c)))
              ∙ ap (λ (l : List ℕ). (rx ++ (x ∷ c)) ++ l) (sym none_left)
              ∙ e' in
            receive_last st (handle st f).1 rx x c chunks (framed (handle st f).0)
              (reads ∙ serve_framed st f (rx ++ (x ∷ c)) same le) none_left
      ]
    where
      empty_of : (l : List ℕ) → length l ≡ 0 → l ≡ []
      empty_of [] k = refl
      empty_of (y ∷ l) k = absurd (omega arith)

  -- From an empty buffer, a frame within the limit that arrives in any chunks, empty ones included,
  -- is handled exactly once, its framed answer is all that is sent, and the buffer is empty again.
  pub receive_all-framed :
      (st : St) (chunks : List (List ℕ)) (f : List ℕ)
      → concat chunks ≡ framed f
      → length f ≤ max_rx_frame
      → receive_all handle st [] chunks
        ≡ record { sent = framed (handle st f).0; state = (handle st f).1; rx = [] }
  receive_all-framed st chunks f e le = receive_rest st [] chunks f e (omega arith) le
