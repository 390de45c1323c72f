-- ===== src/Common/Words.antt =====
-- Checked arithmetic on unsigned machine integers.
use Prim.Native.Nat.{ℕ, ◌+◌, ◌-◌, ◌^◌}
use mathlib.Core.Path.{◌≡◌}
use mathlib.Core.Bool.{Bool, false}
use mathlib.Core.Option.{Option, none, some}
use native.Mathlib.Omega.{arith}
use dsm_unplugged.Common.Tests.{ltb, ◌==◌, if◌then◌else◌}

-- `a.checked_sub(b)`
abbrev pub checked_sub : ℕ → ℕ → Option ℕ
checked_sub a b = if ltb a b then none else some (a - b)

-- `a.checked_add(b)` on u64.
abbrev pub checked_add : ℕ → ℕ → Option ℕ
checked_add a b = if ltb (a + b) (2 ^ 64) then some (a + b) else none

-- `o == Some(n)`
abbrev pub is_some_of : Option ℕ → ℕ → Bool
is_some_of none n = false
is_some_of (some m) n = m == n

-- A checked difference that succeeds adds up again.
pub checked_sub-eq_some : (a b d : ℕ) → checked_sub a b ≡ some d → d + b ≡ a
checked_sub-eq_some a b d h = ground arith
