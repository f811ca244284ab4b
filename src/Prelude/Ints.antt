-- ===== src/Prelude/Ints.antt =====
-- Go's int64 values as integers: `negsuc n` is -(n + 1).
use Prim.Native.Nat.{ℕ, ◌-◌, ◌^◌}
use kubemacpool.Prelude.Tests.{ltb, leb, if◌then◌else◌}

pub data ℤ : Type 0 where
  pos : ℕ → ℤ
  negsuc : ℕ → ℤ

-- a - b, as an integer.
abbrev pub sub_ℕ : ℕ → ℕ → ℤ
sub_ℕ a b = if leb b a then pos (a - b) else negsuc (b - a - 1)

-- Two's complement wrap-around of a sum that leaves the range at the top.
abbrev pub wrap_int64 : ℤ → ℤ
wrap_int64 (pos n) = if ltb n (2 ^ 63) then pos n else negsuc (2 ^ 64 - n - 1)
wrap_int64 (negsuc n) = negsuc n
