-- ===== src/Common/Int.antt =====
-- Integers, for Go's `time.Duration`: nanoseconds, without the bounds of an `int64`.
use Prim.Native.Nat.{ℕ, suc, ◌+◌, ◌-◌}
use mathlib.Core.Bool.{Bool}
use central_auth.Common.Tests.{leb, ltb, if◌then◌else◌}

-- `negsuc n` is -(n + 1).
pub data ℤ : Type 0 where
  pos negsuc : ℕ → ℤ

abbrev pub pos_part : ℤ → ℕ
pos_part (pos n) = n
pos_part (negsuc n) = 0

abbrev pub neg_part : ℤ → ℕ
neg_part (pos n) = 0
neg_part (negsuc n) = suc n

-- `t.Sub(u)` of two times.
abbrev pub sub_ℕ : ℕ → ℕ → ℤ
sub_ℕ t u = if leb u t then pos (t - u) else negsuc (u - t - 1)

-- `d < e`
abbrev pub lt_ℤ : ℤ → ℤ → Bool
lt_ℤ d e = ltb (pos_part d + neg_part e) (pos_part e + neg_part d)

abbrev pub max_ℤ : ℤ → ℤ → ℤ
max_ℤ d e = if lt_ℤ d e then e else d
