-- ===== src/Accept/FirstFailure.antt =====
-- anchor-core/src/accept.rs: checks that are made in order, each with its own error.
use dsm_unplugged.Common.{
  ◌≡◌, refl, ap, ◌↔◌, inl, inr, Bool, true, List, [], ◌∷◌, ◌++◌, All, Result, ok, err, ◌>>◌, guard,
  Bool-cases, arith,
}
use dsm_unplugged.Accept.{AcceptError}

-- The first check of a list that a test fails.
unfoldable pub first_failing :
    (AcceptError → Bool) → List AcceptError → Result (Unit {0}) AcceptError
first_failing test [] = ok tt
first_failing test (e ∷ es) = guard (test e) e >> first_failing test es

-- `e` is in the list, its check fails, and all before it hold.
abbrev pub IsFirstFailure : (AcceptError → Type 0) → List AcceptError → AcceptError → Type 0
IsFirstFailure Holds es e =
    (before : List AcceptError) × (after : List AcceptError) × (es ≡ before ++ (e ∷ after))
    × All Holds before
    × ¬ (Holds e)

module _ (test : AcceptError → Bool) (Holds : AcceptError → Type 0)
    (sound : (e : AcceptError) → (test e ≡ true) ↔ Holds e) where
  pub first_failing-IsFirstFailure :
      (es : List AcceptError) {e : AcceptError}
      → first_failing test es ≡ err e
      → IsFirstFailure Holds es e
  unfolding first_failing
  first_failing-IsFirstFailure [] h = cc
  first_failing-IsFirstFailure (c ∷ es) {e} h = elim (Bool-cases (test c)) [
    | inl holds ↦
        let (before, after, same, passed, fails) = first_failing-IsFirstFailure es (ground arith) in
        (c ∷ before, after, ap (◌∷◌ c) same, ((sound c).0 holds, passed), fails)
    | inr fails ↦
        let same : c ≡ e = ground arith in
        (
          [],
          es,
          ap (λ (a : AcceptError). a ∷ es) same,
          tt,
          rw (← same) (λ k. cc (fails, (sound c).1 k)),
        )
  ]

  pub IsFirstFailure-first_failing :
      (before after : List AcceptError) (e : AcceptError)
      → All Holds before
      → ¬ (Holds e)
      → first_failing test (before ++ (e ∷ after)) ≡ err e
  unfolding first_failing
  IsFirstFailure-first_failing [] after e p n = elim (Bool-cases (test e)) [
    | inl holds ↦ absurd (n ((sound e).0 holds))
    | inr fails ↦ rw fails refl
  ]
  IsFirstFailure-first_failing (c ∷ before) after e (h, p) n =
      rw ((sound c).1 h) (IsFirstFailure-first_failing before after e p n)
