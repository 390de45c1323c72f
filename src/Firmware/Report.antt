-- ===== src/Firmware/Report.antt =====
-- firmware/src/main.rs: the self-test report of phase 4 of `main`, through the 224-byte buffer
-- `BufW`.
use Prim.Native.String.{String}
use dsm_unplugged.Common.{
  ℕ, ◌+◌, ◌≤◌, ◌<◌, ◌^◌, ◌≡◌, ◌∙◌, Bool, true, false, List, [], ◌∷◌, concat, length, length-append,
  Result, ok, err, if◌then◌else◌, arith,
}
use dsm_unplugged.Domain.{as_bytes}
use dsm_unplugged.Firmware.SelfTest.{SelfTest, pass}
use dsm_unplugged.Firmware.Output.{buffer_size, write_pieces, take_all, write_pieces_lem}

-- `core::fmt`: a number of 64 bits has 20 digits at most, and a truth value five letters.
pub record Display : Type 0 where
  pub decimal : ℕ → List ℕ
  pub truth : Bool → List ℕ
  pub decimal_size : (n : ℕ) → n < 2 ^ 64 → length (decimal n) ≤ 20
  pub truth_size : (v : Bool) → length (truth v) ≤ 5

module _ ⦃f : Display⦄ where
  -- The literal pieces and the arguments of the two `write!`, in order.
  unfoldable pub report_pieces : Result SelfTest String → List (List ℕ)
  report_pieces (ok r) =
      as_bytes "[T5] "
      ∷ as_bytes (if pass r then "PASS" else "FAIL")
      ∷ as_bytes "  ops_ok="
      ∷ f.truth r.ops_ok
      ∷ as_bytes " pk="
      ∷ f.decimal r.pk_len
      ∷ as_bytes "B sig="
      ∷ f.decimal r.sig_len
      ∷ as_bytes "B status(idx="
      ∷ f.decimal r.st_index
      ∷ as_bytes ",st="
      ∷ f.decimal r.st_status
      ∷ as_bytes ") verify="
      ∷ as_bytes (if r.verify_ok then "accepted" else "REJECTED")
      ∷ as_bytes "("
      ∷ as_bytes (if r.frontier_match then "root ok" else "root MISMATCH")
      ∷ as_bytes ")\r\n"
      ∷ []
  report_pieces (err e) = as_bytes "[T5] FAIL at step: " ∷ as_bytes e ∷ as_bytes "\r\n" ∷ []

  -- What is put on the port.
  unfoldable pub report : Result SelfTest String → List ℕ
  unfolding report_pieces
  report st = write_pieces [] (report_pieces st)

-- The numbers of a result are machine words, and a step is named in at most 200 bytes.
abbrev pub IsReportable : Result SelfTest String → Type 0
IsReportable (ok r) =
    (r.pk_len < 2 ^ 64) × (r.sig_len < 2 ^ 64) × (r.st_index < 2 ^ 64) × (r.st_status < 2 ^ 64)
IsReportable (err e) = length (as_bytes e) ≤ 200

choice_size :
    (v : Bool) (s t : String)
    → length (as_bytes (if v then s else t)) ≤ length (as_bytes s) + length (as_bytes t)
choice_size true s t = omega arith
choice_size false s t = omega arith

-- The length of pieces one after the other.
abbrev total : List (List ℕ) → ℕ
total [] = 0
total (p ∷ ps) = length p + total ps

length-concat : (ps : List (List ℕ)) → length (concat ps) ≡ total ps
length-concat [] = omega arith
length-concat (p ∷ ps) = length-append p (concat ps) ∙ omega (arith, length-concat ps)

module _ ⦃f : Display⦄ where
  report_size :
      (st : Result SelfTest String) → IsReportable st → total (report_pieces st) ≤ buffer_size
  unfolding report_pieces
  report_size (ok r) (h1, h2, h3, h4) = omega (
    arith,
    choice_size (pass r) "PASS" "FAIL",
    f.truth_size r.ops_ok,
    f.decimal_size r.pk_len h1,
    f.decimal_size r.sig_len h2,
    f.decimal_size r.st_index h3,
    f.decimal_size r.st_status h4,
    choice_size r.verify_ok "accepted" "REJECTED",
    choice_size r.frontier_match "root ok" "root MISMATCH",
  )
  report_size (err e) h = omega arith

  -- The self-test report is never cut off: for a result whose numbers are 64-bit words, or a step
  -- named in at most 200 bytes, what `main` puts on the port is the whole message.
  pub report_whole :
      (st : Result SelfTest String) → IsReportable st → report st ≡ concat (report_pieces st)
  unfolding report
  report_whole st h =
      let all = length-concat (report_pieces st) in
      (write_pieces_lem (report_pieces st)).0
      ∙ take_all buffer_size (concat (report_pieces st)) (omega (arith, report_size st h))
