-- ===== src/Prelude/Integers.antt =====
-- The integers of the sources over the native numbers.
use Prim.Native.Nat.{ℕ}
use mathlib.Core.Option.{Option, none, some}
use fortai.Prelude.Tests.{ltb, if◌then◌else◌}

-- `negsuc n` is -(n + 1)
pub data ℤ : Type 0 where
  pos negsuc : ℕ → ℤ

-- what a value with `value < 0 || value >= bound` refused is as an index
abbrev pub index_below : ℕ → ℤ → Option ℕ
index_below bound (negsuc n) = none
index_below bound (pos n) = if ltb n bound then some n else none
