-- ===== src/Firmware/Output.antt =====
-- firmware/src/main.rs: `write_all` to the port, and the report buffer `BufW`.
use dsm_unplugged.Common.{
  ℕ, zero, suc, ◌+◌, ◌-◌, ◌≤◌, ◌≡◌, refl, sym, ap, ◌∙◌, ◌↔◌, List, [], ◌∷◌, ◌++◌, concat, length,
  length-append, length-drop, length-take_le, append_assoc, append-nil, take, drop, arith,
}

-- What one call of `serial.write` returns: bytes taken, a full buffer, or another error.
pub data WriteResult : Type 0 where
  wrote : ℕ → WriteResult
  would_block failed : WriteResult

-- How `write_all` ends: it returns because all is sent, or because of an error, or it still waits.
pub data WriteEnd : Type 0 where
  all_sent gave_up waiting : WriteEnd

-- What a run of writes leaves: the bytes that the port took, in order, how the run ended, and the
-- answers of the port that are still to come.
pub record Written : Type 0 where
  pub out : List ℕ
  pub end : WriteEnd
  pub port : List WriteResult

-- The loop of `write_all` on what is left of the data, with what the port answers call by call. The
-- port takes no more than it is offered.
unfoldable pub write_all : List WriteResult → List ℕ → Written
write_all ws [] = record { out = []; end = all_sent; port = ws }
write_all [] (x ∷ xs) = record { out = []; end = waiting; port = [] }
write_all (wrote n ∷ ws) (x ∷ xs) =
    let later = write_all ws (drop n (x ∷ xs)) in
    record later { out = take n (x ∷ xs) ++ later.out }
write_all (would_block ∷ ws) (x ∷ xs) = write_all ws (x ∷ xs)
write_all (failed ∷ ws) (x ∷ xs) = record { out = []; end = gave_up; port = ws }

-- `write_str` on a `BufW`: its first `len` bytes, of 224 at most. It always returns `Ok`.
abbrev pub buffer_size : ℕ
buffer_size = 224

unfoldable pub write_str : List ℕ → List ℕ → List ℕ
write_str buf s = buf ++ take (buffer_size - length buf) s

-- The pieces that `write!` hands over, one after the other.
unfoldable pub write_pieces : List ℕ → List (List ℕ) → List ℕ
unfolding write_str
write_pieces buf [] = buf
write_pieces buf (s ∷ pieces) = write_pieces (write_str buf s) pieces

take_nil : (n : ℕ) → take {A = ℕ} n [] ≡ []
take_nil zero = refl
take_nil (suc n) = refl

pub take_all : (n : ℕ) (xs : List ℕ) → length xs ≤ n → take n xs ≡ xs
take_all n [] h = take_nil n
take_all zero (x ∷ xs) h = absurd (omega arith)
take_all (suc n) (x ∷ xs) h = ap (◌∷◌ x) (take_all n xs (omega arith))

take-take-drop : (n m : ℕ) (xs : List ℕ) → take n xs ++ take m (drop n xs) ≡ take (n + m) xs
take-take-drop zero m xs = ap (λ (k : ℕ). take k xs) (omega arith)
take-take-drop (suc n) m [] = take_nil m ∙ sym (take_nil (suc n + m))
take-take-drop (suc n) m (x ∷ xs) =
    let e : suc (n + m) ≡ suc n + m = omega arith in
    ap (◌∷◌ x) (take-take-drop n m xs) ∙ ap (λ (k : ℕ). take k (x ∷ xs)) e

take-append_le :
    (n : ℕ) (xs ys : List ℕ) → length xs ≤ n → take n (xs ++ ys) ≡ xs ++ take (n - length xs) ys
take-append_le n [] ys h = ap (λ (k : ℕ). take k ys) (omega arith)
take-append_le zero (x ∷ xs) ys h = absurd (omega arith)
take-append_le (suc n) (x ∷ xs) ys h =
    let e : n - length xs ≡ suc n - suc (length xs) = omega arith in
    ap (◌∷◌ x) (take-append_le n xs ys (omega arith) ∙ ap (λ (k : ℕ). xs ++ take k ys) e)

take-append_cut :
    (n : ℕ) (xs ys : List ℕ) → take n (xs ++ ys) ≡ take n xs ++ take (n - length (take n xs)) ys
take-append_cut zero xs ys = refl
take-append_cut (suc n) [] ys =
    let e : suc n ≡ suc n - 0 = omega arith in ap (λ (k : ℕ). take k ys) e
take-append_cut (suc n) (x ∷ xs) ys =
    let e : n - length (take n xs) ≡ suc n - suc (length (take n xs)) = omega arith in
    ap (◌∷◌ x) (take-append_cut n xs ys ∙ ap (λ (k : ℕ). take n xs ++ take k ys) e)

-- What the port takes before an error, if it is offered enough.
abbrev pub capacity : List WriteResult → ℕ
capacity [] = 0
capacity (wrote n ∷ ws) = n + capacity ws
capacity (would_block ∷ ws) = capacity ws
capacity (failed ∷ ws) = 0

-- `write_all` hands the port the data from its start, in order and without a gap, as far as the port
-- takes it; and it returns with all of it sent exactly when the port takes as much as there is.
pub write_all_lem :
    (ws : List WriteResult) (xs : List ℕ)
    → ((write_all ws xs).out ≡ take (capacity ws) xs)
      × (((write_all ws xs).end ≡ all_sent) ↔ (length xs ≤ capacity ws))
unfolding write_all
write_all_lem ws [] = (sym (take_nil (capacity ws)), (λ _. omega arith, λ _. refl))
write_all_lem [] (x ∷ xs) = (refl, (λ h. cc, λ h. absurd (omega arith)))
write_all_lem (wrote n ∷ ws) (x ∷ xs) =
    let (same, ends) = write_all_lem ws (drop n (x ∷ xs)) in
    let left = length-drop n (x ∷ xs) in
    (
      ap (◌++◌ (take n (x ∷ xs))) same ∙ take-take-drop n (capacity ws) (x ∷ xs),
      (λ h. let k = ends.0 h in omega arith, λ h. ends.1 (omega arith)),
    )
write_all_lem (would_block ∷ ws) (x ∷ xs) = write_all_lem ws (x ∷ xs)
write_all_lem (failed ∷ ws) (x ∷ xs) = (refl, (λ h. cc, λ h. absurd (omega arith)))

write_pieces_from :
    (buf : List ℕ) (pieces : List (List ℕ))
    → length buf ≤ buffer_size
    → write_pieces buf pieces ≡ take buffer_size (buf ++ concat pieces)
unfolding write_pieces
write_pieces_from buf [] h =
    sym (take_all buffer_size buf h) ∙ ap (take buffer_size) (sym (append-nil buf))
write_pieces_from buf (s ∷ pieces) h =
    let room : ℕ = buffer_size - length buf in
    let cut : List ℕ = take room s in
    let size = length-append buf cut in
    let fits : length (buf ++ cut) ≤ buffer_size = omega (arith, size, length-take_le room s) in
    let left : buffer_size - length (buf ++ cut) ≡ room - length cut = omega (arith, size) in
    write_pieces_from (buf ++ cut) pieces fits
    ∙ take-append_le buffer_size (buf ++ cut) (concat pieces) fits
    ∙ append_assoc buf cut _
    ∙ ap (λ (k : ℕ). buf ++ (cut ++ take k (concat pieces))) left
    ∙ ap (◌++◌ buf) (sym (take-append_cut room s (concat pieces)))
    ∙ sym (take-append_le buffer_size buf (s ++ concat pieces) h)

-- Whatever pieces are written, the report buffer holds the first 224 bytes of them all, and never
-- more.
pub write_pieces_lem :
    (pieces : List (List ℕ))
    → (write_pieces [] pieces ≡ take buffer_size (concat pieces))
      × (length (write_pieces [] pieces) ≤ buffer_size)
write_pieces_lem pieces =
    let e = write_pieces_from [] pieces (omega arith) in
    (e, rw e (length-take_le buffer_size (concat pieces)))
