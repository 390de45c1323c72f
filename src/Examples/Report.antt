-- ===== src/Examples/Report.antt =====
-- firmware/src/main.rs: a self-test report with numbers in decimal.
use Prim.Native.String.{String}
use dsm_unplugged.Common.{
  ℕ, zero, suc, ◌+◌, ◌/◌, ◌%◌, ◌≤◌, ◌≡◌, Bool, true, false, List, [], ◌∷◌, ◌++◌, concat, length,
  length-append, Result, ok, ltb, if◌then◌else◌, arith,
}
use dsm_unplugged.Domain.{as_bytes}
use dsm_unplugged.Firmware.SelfTest.{SelfTest}
use dsm_unplugged.Firmware.Report.{Display, report_pieces, report, report_whole}

abbrev decimal_of : ℕ → ℕ → List ℕ
decimal_of zero n = []
decimal_of (suc places) n =
    let rest = decimal_of places (n / 10) in
    if ltb n 10 then (48 + n) ∷ [] else rest ++ ((48 + n % 10) ∷ [])

length-decimal_of : (places n : ℕ) → length (decimal_of places n) ≤ places
length-decimal_of zero n = omega arith
length-decimal_of (suc places) n = ground (
  arith,
  length-decimal_of places (n / 10),
  length-append (decimal_of places (n / 10)) ((48 + n % 10) ∷ []),
)

abbrev word : Bool → List ℕ
word true = as_bytes "true"
word false = as_bytes "false"

length-word : (v : Bool) → length (word v) ≤ 5
length-word true = omega arith
length-word false = omega arith

instance abbrev decimal_display : Display
decimal_display = record {
  decimal = decimal_of 20;
  truth = word;
  decimal_size = λ n h. length-decimal_of 20 n;
  truth_size = length-word;
}

abbrev passed : Result SelfTest String
passed = ok (record {
  ops_ok = true;
  pk_len = 32;
  sig_len = 2144;
  st_index = 1;
  st_status = 0;
  verify_ok = true;
  frontier_match = true;
})

report_whole_example : report passed ≡ concat (report_pieces passed)
report_whole_example = report_whole passed (omega arith)
