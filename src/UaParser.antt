-- ===== src/UaParser.antt =====
-- internal/uaparser/parser.go: the browser and the system that a User-Agent names. Texts are read
-- character by character; `\d` is an ASCII digit.
pub mod Version
use Prim.Native.Char.{Char, code}
use Prim.Native.String.{[] as empty, ◌∷◌ as ◌∷ₛ◌, ◌++◌}
use text.Mathlib.Text.{find?}
use central_auth.Common.{
  ℕ, String, Bool, true, false, ◌&&◌, ◌||◌, Option, none, some, leb, ◌==◌, if◌then◌else◌,
}

-- `Result`
pub record UaResult : Type 0 where
  pub browser : String
  pub os : String

abbrev is_found : Option ℕ → Bool
is_found none = false
is_found (some _) = true

-- `strings.Contains`
abbrev contains : String → String → Bool
contains ua w = is_found (find? ua w)

-- `\d`
abbrev pub is_digit : Char → Bool
is_digit c = leb 48 (code c) && leb (code c) 57

-- `\d*`, as many digits as there are
unfoldable pub digits : String → String
digits empty = empty
digits (c ∷ₛ s) = let rest = digits s in if is_digit c then c ∷ₛ rest else empty

-- What follows the word in a text that begins with it
unfoldable pub after : String → String → Option String
after empty s = some s
after (c ∷ₛ w) empty = none
after (c ∷ₛ w) (d ∷ₛ s) = let rest = after w s in if code c == code d then rest else none

-- The group `(\d+)`, which is not empty
unfoldable pub group : String → Option String
unfolding digits
group empty = none
group (c ∷ₛ s) = if is_digit c then some (c ∷ₛ digits s) else none

unfoldable pub group_after : Option String → Option String
unfolding group
group_after none = none
group_after (some t) = group t

abbrev pub or_else : Option String → Option String → Option String
or_else none m = m
or_else (some v) m = some v

-- `FindStringSubmatch` of `chromeVersionRe` and `firefoxVersionRe`: the group of the leftmost match
-- of the word and one digit or more
unfoldable pub find_version : String → String → Option String
unfolding after group_after
find_version w empty = none
find_version w (c ∷ₛ s) =
    let rest = find_version w s in or_else (group_after (after w (c ∷ₛ s))) rest

abbrev pub versioned : String → Option String → String
versioned name none = name
versioned name (some v) = (name ++ " ") ++ v

unfoldable pub parse_os : String → String
parse_os ua =
    if contains ua "Android"
    then "Android"
    else if contains ua "iPhone" || contains ua "iPad"
    then "iOS"
    else if contains ua "Windows"
    then "Windows"
    else if contains ua "Macintosh" || contains ua "Mac OS X"
    then "macOS"
    else if contains ua "Linux"
    then "Linux"
    else "Unknown"

unfoldable pub parse_browser : String → String
unfolding find_version
parse_browser ua =
    if contains ua "Edg/"
    then "Edge"
    else if contains ua "OPR/" || contains ua "Opera"
    then "Opera"
    else if contains ua "Firefox/"
    then versioned "Firefox" (find_version "Firefox/" ua)
    else if contains ua "Chrome/"
    then versioned "Chrome" (find_version "Chrome/" ua)
    else if contains ua "Safari/"
    then "Safari"
    else "Unknown"

-- `Parse`
abbrev pub parse : String → UaResult
parse ua = record { browser = parse_browser ua; os = parse_os ua }
