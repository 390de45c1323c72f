-- ===== src/Firmware/Port/Writes.antt =====
-- firmware/src/main.rs: what one or more calls of `write_all` send, by the answers of the port.
use dsm_unplugged.Common.{
  ℕ, zero, suc, ◌+◌, ◌≤◌, ◌≡◌, refl, ap, ◌∙◌, Bool, true, false, List, [], ◌∷◌, ◌++◌, length,
  length-append, length-drop, take, drop, take-drop, All, arith, Bool-cases, inl, inr,
}
use dsm_unplugged.Firmware.Receive.{framed}
use dsm_unplugged.Firmware.Output.{WriteResult, wrote, would_block, failed, write_all}
use dsm_unplugged.Firmware.Port.{is_waiting, len_prefix, respond}

-- The answer is no error.
abbrev pub IsFine : WriteResult → Type 0
IsFine failed = ⊥
IsFine _ = Unit

-- The answers that take at least one byte.
abbrev pub progress : List WriteResult → ℕ
progress [] = 0
progress (wrote zero ∷ ws) = progress ws
progress (wrote (suc n) ∷ ws) = suc (progress ws)
progress (would_block ∷ ws) = progress ws
progress (failed ∷ ws) = progress ws

-- Writes of the bytes `xs` in all: what they took from the port, and what came of it.
pub record Sends (ws : List WriteResult) (xs out : List ℕ) (waits : Bool) (port : List WriteResult)
    : Type 0 where
  pub progress_left : progress ws ≤ progress port + length xs
  pub goes_on : length xs ≤ progress ws → waits ≡ false
  pub fine : All IsFine ws → All IsFine port
  pub whole : waits ≡ false → All IsFine ws → out ≡ xs

pub Sends-nothing : (ws : List WriteResult) → Sends ws [] [] false ws
Sends-nothing ws = record {
  progress_left = omega arith;
  goes_on = λ _. refl;
  fine = λ f. f;
  whole = λ _ _. refl;
}

Sends-wrote :
    (n : ℕ) (ws : List WriteResult) (x : ℕ) (xs out : List ℕ) (waits : Bool)
    (port : List WriteResult)
    → Sends ws (drop n (x ∷ xs)) out waits port
    → Sends (wrote n ∷ ws) (x ∷ xs) (take n (x ∷ xs) ++ out) waits port
Sends-wrote zero ws x xs out waits port z = record {
  progress_left = z.progress_left;
  goes_on = z.goes_on;
  fine = λ f. z.fine f.1;
  whole = λ e f. z.whole e f.1;
}
Sends-wrote (suc n) ws x xs out waits port z =
    let left = length-drop n xs in
    let l = z.progress_left in
    record {
      progress_left = omega arith;
      goes_on = λ h. z.goes_on (omega arith);
      fine = λ f. z.fine f.1;
      whole = λ e f. ap (◌∷◌ x) (ap (◌++◌ (take n xs)) (z.whole e f.1) ∙ take-drop n xs);
    }

pub write_all-Sends :
    (ws : List WriteResult) (xs : List ℕ)
    → Sends ws xs (write_all ws xs).out (is_waiting (write_all ws xs).end) (write_all ws xs).port
unfolding write_all
write_all-Sends ws [] = Sends-nothing ws
write_all-Sends [] (x ∷ xs) = record {
  progress_left = omega arith;
  goes_on = λ h. absurd (omega arith);
  fine = λ f. f;
  whole = λ e f. cc;
}
write_all-Sends (wrote n ∷ ws) (x ∷ xs) =
    Sends-wrote n ws x xs _ _ _ (write_all-Sends ws (drop n (x ∷ xs)))
write_all-Sends (would_block ∷ ws) (x ∷ xs) =
    let z = write_all-Sends ws (x ∷ xs) in
    record {
      progress_left = z.progress_left;
      goes_on = z.goes_on;
      fine = λ f. z.fine f.1;
      whole = λ e f. z.whole e f.1;
    }
write_all-Sends (failed ∷ ws) (x ∷ xs) = record {
  progress_left = omega arith;
  goes_on = λ _. refl;
  fine = λ f. f.1;
  whole = λ e f. absurd f.0;
}

-- Writes one after the other, when the first do not wait.
pub Sends-then :
    {ws port port' : List WriteResult} {xs ys out out' : List ℕ} {waits waits' : Bool}
    → Sends ws xs out waits port
    → waits ≡ false
    → Sends port ys out' waits' port'
    → Sends ws (xs ++ ys) (out ++ out') waits' port'
Sends-then {xs = xs} {ys = ys} {out = out} {out' = out'} v e w =
    let size = length-append xs ys in
    let l = v.progress_left in
    let l' = w.progress_left in
    record {
      progress_left = omega arith;
      goes_on = λ h. w.goes_on (omega arith);
      fine = λ f. w.fine (v.fine f);
      whole = λ e' f.
          ap (◌++◌ out) (w.whole e' (v.fine f)) ∙ ap (λ (o : List ℕ). o ++ ys) (v.whole e f);
    }

-- Writes that wait: what should follow is missing too.
pub Sends-stops :
    {ws port : List WriteResult} {xs out : List ℕ} {waits waits' : Bool} (ys : List ℕ)
    → Sends ws xs out waits port
    → waits ≡ true
    → waits' ≡ true
    → Sends ws (xs ++ ys) out waits' port
Sends-stops {xs = xs} {out = out} ys v e e' =
    let size = length-append xs ys in
    let l = v.progress_left in
    record {
      progress_left = omega arith;
      goes_on = λ h. let k = v.goes_on (omega arith) in cc;
      fine = v.fine;
      whole = λ k f. cc;
    }

-- The two calls for one response send its prefix and its bytes.
pub respond-Sends :
    (ws : List WriteResult) (resp : List ℕ)
    → Sends ws
        (framed resp)
        (respond ws resp).out
        (is_waiting (respond ws resp).end)
        (respond ws resp).port
unfolding respond framed len_prefix
respond-Sends ws resp =
    let first = write_all-Sends ws (len_prefix resp) in
    elim (Bool-cases (is_waiting (write_all ws (len_prefix resp)).end)) [
      | inl e ↦ rw e (Sends-stops resp first e e)
      | inr e ↦ rw e (Sends-then first e (write_all-Sends _ resp))
    ]
