-- ===== src/Base/Words.antt =====
-- 64-bit unsigned arithmetic as the source uses it, and time in nanoseconds.
use Prim.Native.Nat.{ℕ, ◌+◌, ◌*◌, ◌%◌, ◌≤◌, ◌<◌, min}
use mathlib.Core.Path.{◌≡◌}
use native.Mathlib.Omega.{arith}

abbrev pub u64_mod : ℕ
u64_mod = 18446744073709551616

abbrev pub u64_max : ℕ
u64_max = 18446744073709551615

-- `u64::saturating_add`
unfoldable pub saturating_add : ℕ → ℕ → ℕ
saturating_add a b = min (a + b) u64_max

-- `u64::wrapping_add`, and `+` as a release build computes it.
unfoldable pub wrapping_add : ℕ → ℕ → ℕ
wrapping_add a b = (a + b) % u64_mod

pub saturating_add_le : (a b : ℕ) → saturating_add a b ≤ u64_max
unfolding saturating_add
saturating_add_le a b = omega arith

pub saturating_add_mono : (a b c : ℕ) → a ≤ b → saturating_add a c ≤ saturating_add b c
unfolding saturating_add
saturating_add_mono a b c h = omega arith

pub saturating_add_right_comm :
    (a b c : ℕ) → saturating_add (saturating_add a b) c ≡ saturating_add (saturating_add a c) b
unfolding saturating_add
saturating_add_right_comm a b c = omega arith

pub wrapping_add_lem : (a b : ℕ) → a + b < u64_mod → wrapping_add a b ≡ a + b
unfolding wrapping_add
wrapping_add_lem a b h = omega arith

-- Instants and wall-clock times are nanoseconds since a fixed origin, durations nanoseconds.
abbrev pub seconds : ℕ → ℕ
seconds n = n * 1000000000
