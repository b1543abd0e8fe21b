-- ===== src/Breaker/Word.antt =====
-- Go's `int32` and `int64`: a value is its bit pattern, and the order is that of two's complement.
use central_auth.Common.{ℕ, ◌+◌, ◌-◌, ◌*◌, ◌/◌, ◌%◌, ◌^◌, ◌<◌, ◌≡◌, Bool, arith, ltb, if◌then◌else◌}

abbrev pub int64 : ℕ → ℕ
int64 n = n % 2 ^ 64

abbrev pub int32 : ℕ → ℕ
int32 n = n % 2 ^ 32

unfoldable pub add64 : ℕ → ℕ → ℕ
add64 a b = int64 (a + b)

unfoldable pub sub64 : ℕ → ℕ → ℕ
sub64 a b = int64 (a + (2 ^ 64 - b))

unfoldable pub mul64 : ℕ → ℕ → ℕ
mul64 a b = int64 (a * b)

-- `a < b` on signed values: flipping the sign bit turns their order into that of the patterns.
unfoldable pub lt64 : ℕ → ℕ → Bool
lt64 a b = ltb (int64 (a + 2 ^ 63)) (int64 (b + 2 ^ 63))

-- `a / d` at a positive literal `d`: division rounds towards zero.
unfoldable pub div64 : ℕ → ℕ → ℕ
div64 a d = if ltb a (2 ^ 63) then a / d else int64 (2 ^ 64 - (2 ^ 64 - a) / d)

-- `int(n)` of an `int32`: the sign is extended.
unfoldable pub widen : ℕ → ℕ
widen n = if ltb n (2 ^ 31) then n else n + (2 ^ 64 - 2 ^ 32)

-- Below `2 ^ 62` nothing wraps, and the order is that of the numbers.
abbrev pub small : ℕ
small = 2 ^ 62

pub add64-small : (a b : ℕ) → a < small → b < small → add64 a b ≡ a + b
unfolding add64
add64-small a b h k = omega arith

pub mul64-small : (a b : ℕ) → a * b < small → mul64 a b ≡ a * b
unfolding mul64
mul64-small a b h = omega arith

pub div64-small : (a d : ℕ) → a < small → div64 a d ≡ a / d
unfolding div64
div64-small a d h = ground arith
