-- ===== src/Prelude/Ints.antt =====
-- C's `int` results: signed integers over the native numbers, under the library's names.
use Prim.Native.Nat.{ℕ, ◌-◌}
use mathlib.Core.Bool.{Bool, true, false}
use nfql.Prelude.Tests.{leb, if◌then◌else◌}

-- `negsuc n` is -(n + 1).
pub data ℤ : Type 0 where
  pos : ℕ → ℤ
  negsuc : ℕ → ℤ

-- a - b, as an integer.
abbrev pub sub_ℕ : ℕ → ℕ → ℤ
sub_ℕ a b = if leb b a then pos (a - b) else negsuc (b - a - 1)

-- A comparison used as a number.
abbrev pub of_bool : Bool → ℕ
of_bool true = 1
of_bool false = 0
