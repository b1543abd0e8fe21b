-- ===== src/Config.antt =====
-- What the readers of the environment in internal/config have in common, and `strings` and `strconv`
-- as far as they use them.
pub mod Blank
pub mod Kafka
pub mod Server
pub mod Edge
use Prim.Native.Char.{Char, code}
use Prim.Native.String.{[] as empty, ◌∷◌ as ◌∷ₛ◌}
use central_auth.Common.{
  ℕ, ◌+◌, ◌-◌, ◌*◌, ◌^◌, String, Bool, true, false, ◌&&◌, ◌||◌, Option, none, some, leb, ltb, ◌==◌,
  if◌then◌else◌, str_eq, List, [], ◌∷◌,
}
use central_auth.Http.Query.{split}
use central_auth.Common.Int.{ℤ, pos, negsuc, lt_ℤ}

-- `os.Getenv`: the empty text where the variable is not set
abbrev pub Env : Type 0
Env = String → String

abbrev pub or_default : String → String → String
or_default v default = if str_eq v "" then default else v

-- `unicode.IsSpace`
unfoldable pub is_space : Char → Bool
is_space c =
    (leb 9 (code c) && leb (code c) 13)
    || (code c == 32)
    || (code c == 0x85)
    || (code c == 0xa0)
    || (code c == 0x1680)
    || (leb 0x2000 (code c) && leb (code c) 0x200a)
    || (code c == 0x2028)
    || (code c == 0x2029)
    || (code c == 0x202f)
    || (code c == 0x205f)
    || (code c == 0x3000)

unfoldable pub trim_left : String → String
unfolding is_space
trim_left empty = empty
trim_left (c ∷ₛ s) = let rest = trim_left s in if is_space c then rest else c ∷ₛ s

abbrev pub cons_unless_blank : Char → String → String
cons_unless_blank c empty = if is_space c then empty else c ∷ₛ empty
cons_unless_blank c (d ∷ₛ s) = c ∷ₛ (d ∷ₛ s)

unfoldable pub trim_right : String → String
unfolding is_space
trim_right empty = empty
trim_right (c ∷ₛ s) = cons_unless_blank c (trim_right s)

-- `strings.TrimSpace`
abbrev pub trim_space : String → String
trim_space s = trim_right (trim_left s)

abbrev is_digit : Char → Bool
is_digit c = leb 48 (code c) && leb (code c) 57

unfoldable pub number : ℕ → String → Option ℕ
number n empty = some n
number n (c ∷ₛ s) =
    let rest = number (n * 10 + (code c - 48)) s in if is_digit c then rest else none

abbrev digits_of : String → Option ℕ
digits_of empty = none
digits_of (c ∷ₛ s) = number 0 (c ∷ₛ s)

abbrev positive : Option ℕ → Option ℤ
positive none = none
positive (some n) = if ltb n (2 ^ 63) then some (pos n) else none

abbrev minus : ℕ → ℤ
minus n = if n == 0 then pos 0 else negsuc (n - 1)

abbrev negative : Option ℕ → Option ℤ
negative none = none
negative (some n) = if leb n (2 ^ 63) then some (minus n) else none

-- `strconv.Atoi`, on 64 bits
unfoldable pub atoi : String → Option ℤ
unfolding number
atoi empty = none
atoi (c ∷ₛ s) =
    if code c == 43
    then positive (digits_of s)
    else if code c == 45
    then negative (digits_of s)
    else positive (digits_of (c ∷ₛ s))

abbrev lower : ℕ → ℕ
lower c = if leb 65 c && leb c 90 then c + 32 else c

-- `strings.EqualFold` with "true", whose letters have no other case than the two of ASCII
unfoldable pub equal_fold : String → String → Bool
equal_fold empty empty = true
equal_fold empty (d ∷ₛ t) = false
equal_fold (c ∷ₛ s) empty = false
equal_fold (c ∷ₛ s) (d ∷ₛ t) =
    let rest = equal_fold s t in (lower (code c) == lower (code d)) && rest

abbrev pub comma : ℕ
comma = 44

-- The parts of a list in a variable, trimmed, without the empty ones
unfoldable pub kept : List String → List String
kept [] = []
kept (p ∷ ps) = let rest = kept ps in if str_eq (trim_space p) "" then rest else trim_space p ∷ rest

-- `splitAndTrim`
unfoldable pub split_and_trim : String → List String
unfolding kept
split_and_trim s = kept (split comma s)

abbrev or_fallback : ℕ → Option ℤ → ℕ
or_fallback fallback none = fallback
or_fallback fallback (some (pos n)) = if n == 0 then fallback else n
or_fallback fallback (some (negsuc n)) = fallback

-- `envInt`
unfoldable pub env_int : Env → (key : String) → (fallback : ℕ) → ℕ
env_int env key fallback =
    if str_eq (env key) "" then fallback else or_fallback fallback (atoi (env key))
