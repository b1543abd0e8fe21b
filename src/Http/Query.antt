-- ===== src/Http/Query.antt =====
-- Raw query strings, as `extractRawParam` of internal/hydra/client.go walks them.
use Prim.Native.Char.{Char, code}
use Prim.Native.String.{[] as empty, ◌∷◌ as ◌∷ₛ◌, ◌++◌, char_at}
use text.Mathlib.TextLemmas.{nil-append, cons-append}
use central_auth.Common.{
  ◌≡◌, refl, sym, ap, ◌∙◌, ℕ, String, Bool, true, false, none, some, List, [], ◌∷◌, arith, ◌==◌,
  leb, ◌&&◌, ◌||◌, if◌then◌else◌, str_eq, Bool-cases, inl, inr,
}
use central_auth.Failure.{Result, ok, err, plain}
use central_auth.UaParser.{after}

abbrev pub ampersand : ℕ
ampersand = 38

abbrev pub on_first : Char → List String → List String
on_first c [] = (c ∷ₛ empty) ∷ []
on_first c (x ∷ xs) = (c ∷ₛ x) ∷ xs

-- `strings.Split` at one ASCII character
unfoldable pub split : (separator : ℕ) → String → List String
split separator empty = empty ∷ []
split separator (c ∷ₛ s) =
    let rest = split separator s in if code c == separator then empty ∷ rest else on_first c rest

abbrev not_empty : String → Result String
not_empty v = if str_eq v "" then err plain else ok v

-- The loop of `extractRawParam`: what follows the prefix in the first part that has it.
unfoldable pub find_raw : (prefix : String) → List String → Result String
unfolding after
find_raw prefix [] = err plain
find_raw prefix (kv ∷ rest) =
    let next = find_raw prefix rest in elim (after prefix kv) [ none ↦ next | some v ↦ not_empty v ]

-- `extractRawParam` on a raw query
abbrev pub raw_param : (param raw : String) → Result String
raw_param param raw = find_raw (param ++ "=") (split ampersand raw)

unfoldable pub has_ampersand : String → Bool
has_ampersand empty = false
has_ampersand (c ∷ₛ s) = let rest = has_ampersand s in if code c == ampersand then true else rest

split_first :
    (e rest : String)
    → has_ampersand e ≡ false
    → split ampersand (e ++ ("&" ++ rest)) ≡ e ∷ split ampersand rest
unfolding split has_ampersand
split_first empty rest h = ap (split ampersand) (
    nil-append ("&" ++ rest)
    ∙ cons-append (char_at "&" 0) "" rest
    ∙ ap (λ t. char_at "&" 0 ∷ₛ t) (nil-append rest))
split_first (c ∷ₛ e) rest h = elim (Bool-cases (code c == ampersand)) [
  | inl k ↦ ground (arith, h, k)
  | inr k ↦
      ap (split ampersand) (cons-append c e ("&" ++ rest))
      ∙ rw k (rw (split_first e rest (rw k at h)))
]

split_last : (e : String) → has_ampersand e ≡ false → split ampersand e ≡ e ∷ []
unfolding split has_ampersand
split_last empty h = refl
split_last (c ∷ₛ e) h = elim (Bool-cases (code c == ampersand)) [
  | inl k ↦ ground (arith, h, k)
  | inr k ↦ rw k (rw (split_last e (rw k at h)))
]

pub has_ampersand-append :
    (p e : String)
    → has_ampersand p ≡ false
    → has_ampersand e ≡ false
    → has_ampersand (p ++ e) ≡ false
unfolding has_ampersand
has_ampersand-append empty e h k = ap has_ampersand (nil-append e) ∙ k
has_ampersand-append (c ∷ₛ p) e h k = elim (Bool-cases (code c == ampersand)) [
  | inl a ↦ ground (arith, h, a)
  | inr a ↦ ap has_ampersand (cons-append c p e) ∙ rw a (has_ampersand-append p e (rw a at h) k)
]

-- The characters of a query that have no meaning of their own, with the two that make its parts
abbrev is_plain_char : Char → Bool
is_plain_char c =
    (leb 48 (code c) && leb (code c) 57)
    || (leb 64 (code c) && leb (code c) 90)
    || (leb 97 (code c) && leb (code c) 122)
    || (code c == 95)
    || (code c == 45)
    || (code c == 46)
    || (code c == 61)
    || (code c == ampersand)

unfoldable pub is_plain : String → Bool
is_plain empty = true
is_plain (c ∷ₛ s) = is_plain_char c && is_plain s

pub is_plain-append :
    (p e : String) → is_plain p ≡ true → is_plain e ≡ true → is_plain (p ++ e) ≡ true
unfolding is_plain
is_plain-append empty e h k = ap is_plain (nil-append e) ∙ k
is_plain-append (c ∷ₛ p) e h k =
    ap is_plain (cons-append c p e) ∙ ground (arith, h, is_plain-append p e)

module _ (reads : String → Bool) where
  -- The parts of a query that a server reads
  unfoldable pub read_parts : List String → List String
  read_parts [] = []
  read_parts (p ∷ ps) = let rest = read_parts ps in if reads p then p ∷ rest else rest

  -- A part and what follows it, none of which is read, is read like the part alone.
  pub read_parts-cut :
      (p rest : String)
      → has_ampersand p ≡ false
      → read_parts (split ampersand rest) ≡ []
      → read_parts (split ampersand (p ++ ("&" ++ rest))) ≡ read_parts (split ampersand p)
  unfolding read_parts
  read_parts-cut p rest one unread =
      ap read_parts (split_first p rest one)
      ∙ rw unread refl
      ∙ ap read_parts (sym (split_last p one))
