-- ===== src/Sig/Checksum.antt =====
-- anchor-core/src/sig.rs: the Winternitz checksum. Raising message digits lowers a checksum digit.
use dsm_unplugged.Common.{
  ℕ, ◌+◌, ◌-◌, ◌*◌, ◌/◌, ◌%◌, ◌≤◌, ◌<◌, ◌≡◌, refl, List, [], ◌∷◌, ◌++◌, length, All, Array, nil,
  cons, IsBytes, arith,
}
use dsm_unplugged.Sig.{nibbles, checksum, checksum_digits, digits}
use dsm_unplugged.Sig.RoundTrip.{IsDigit, nibbles-IsDigit, length-nibbles}
use mathlib.Core.Path.{ap₂}

-- Every digit of the first list is at most the digit of the second at its place.
abbrev pub AllLe : List ℕ → List ℕ → Type 0
AllLe [] [] = Unit {0}
AllLe [] (y ∷ ys) = ⊥
AllLe (x ∷ xs) [] = ⊥
AllLe (x ∷ xs) (y ∷ ys) = (x ≤ y) × AllLe xs ys

AllLe-append :
    (xs ys us vs : List ℕ)
    → length xs ≡ length ys
    → AllLe (xs ++ us) (ys ++ vs)
    → AllLe xs ys × AllLe us vs
AllLe-append [] [] us vs e h = (tt, h)
AllLe-append [] (y ∷ ys) us vs e h = absurd (omega arith)
AllLe-append (x ∷ xs) [] us vs e h = absurd (omega arith)
AllLe-append (x ∷ xs) (y ∷ ys) us vs e (p, h) =
    let (q, r) = AllLe-append xs ys us vs (omega arith) h in ((p, q), r)

deficit : List ℕ → ℕ
deficit [] = 0
deficit (d ∷ ds) = 15 - d + deficit ds

checksum-deficit : (csum : ℕ) (ds : List ℕ) → checksum csum ds ≡ csum + deficit ds
unfolding checksum deficit
checksum-deficit csum [] = omega arith
checksum-deficit csum (d ∷ ds) = omega (arith, checksum-deficit (csum + (15 - d)) ds)

deficit_bound : (ds : List ℕ) → deficit ds ≤ 15 * length ds
unfolding deficit
deficit_bound [] = omega arith
deficit_bound (d ∷ ds) = omega (arith, deficit_bound ds)

-- Raising digits lowers the deficit, and strictly so unless nothing is raised.
deficit_antitone :
    (xs ys : List ℕ)
    → All IsDigit ys
    → AllLe xs ys
    → (deficit ys ≤ deficit xs) × (deficit xs ≤ deficit ys → xs ≡ ys)
unfolding deficit
deficit_antitone [] [] hy h = (omega arith, λ _. refl)
deficit_antitone [] (y ∷ ys) hy h = absurd h
deficit_antitone (x ∷ xs) [] hy h = absurd h
deficit_antitone (x ∷ xs) (y ∷ ys) (dy, hy) (p, h) =
    let (le, eq) = deficit_antitone xs ys hy h in
    (omega arith, λ k. let e : x ≡ y = omega arith in ap₂ ◌∷◌ e (eq (omega arith)))

checksum_digits_reflect :
    (m n : ℕ) → m < 4096 → n < 4096 → AllLe (checksum_digits m) (checksum_digits n) → m ≤ n
unfolding checksum_digits
checksum_digits_reflect m n hm hn h = omega arith

nibbles_injective : {n : ℕ} (d e : Array n) → nibbles d ≡ nibbles e → d ≡ e
unfolding nibbles
nibbles_injective nil nil h = refl
nibbles_injective (cons b d) (cons c e) h =
    let hi : b / 16 ≡ c / 16 = cc in
    let lo : b % 16 ≡ c % 16 = cc in
    let same : b ≡ c = omega arith in ap₂ cons same (nibbles_injective d e (cc))

-- No digest other than `d` has digits that are all at least those of `d`: to sign another digest some
-- chain has to be walked backwards.
pub digits_incomparable :
    (d e : Array 32) → IsBytes d → IsBytes e → AllLe (digits d) (digits e) → d ≡ e
unfolding digits
digits_incomparable d e vd ve h =
    let ld = length-nibbles d in
    let le = length-nibbles e in
    let (p, q) = AllLe-append (nibbles d) (nibbles e) _ _ (omega arith) h in
    let (_, eq) = deficit_antitone (nibbles d) (nibbles e) (nibbles-IsDigit e ve) p in
    let cd = checksum-deficit 0 (nibbles d) in
    let ce = checksum-deficit 0 (nibbles e) in
    let bd = deficit_bound (nibbles d) in
    let be = deficit_bound (nibbles e) in
    let back =
      checksum_digits_reflect (checksum 0 (nibbles d)) (checksum 0 (nibbles e)) (omega arith)
        (omega arith) q in
    nibbles_injective d e (eq (omega arith))
