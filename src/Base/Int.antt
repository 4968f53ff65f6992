-- ===== src/Base/Int.antt =====
-- Signed integers: `i64` columns, and amounts of money that an operator may enter as negative.
use Prim.Native.Nat.{ℕ}
use mathlib.Core.Option.{Option, none, some}
use kinetix.Base.Tests.{ltb, if◌then◌else◌}

-- `negsuc n` is -(n + 1).
pub data ℤ : Type 0 where
  pos : ℕ → ℤ
  negsuc : ℕ → ℤ

-- `.max(0)` as an unsigned number.
abbrev pub pos_part : ℤ → ℕ
pos_part (pos n) = n
pos_part (negsuc n) = 0

-- `.filter(|value| *value > 0)`, as an unsigned number.
abbrev pub positive : Option ℤ → Option ℕ
positive none = none
positive (some (negsuc n)) = none
positive (some (pos n)) = if ltb 0 n then some n else none
