-- ===== src/Config/Blank.antt =====
-- Lists in the environment that hold separators alone.
use Prim.Native.Char.{Char, code}
use Prim.Native.String.{[] as empty, ◌∷◌ as ◌∷ₛ◌}
use central_auth.Common.{
  ◌≡◌, refl, String, true, ◌||◌, List, [], ◌∷◌, arith, ◌==◌, Bool-cases, inl, inr,
}
use central_auth.Http.Query.{split, on_first}
use central_auth.Config.{is_space, trim_left, trim_right, kept, split_and_trim, comma}

-- White space and commas, and nothing else
abbrev pub IsBlank : String → Type 0
IsBlank empty = Unit {0}
IsBlank (c ∷ₛ s) = ((is_space c || (code c == comma)) ≡ true) × IsBlank s

abbrev IsSpaces : String → Type 0
IsSpaces empty = Unit {0}
IsSpaces (c ∷ₛ s) = (is_space c ≡ true) × IsSpaces s

abbrev AllSpaces : List String → Type 0
AllSpaces [] = Unit {0}
AllSpaces (p ∷ ps) = IsSpaces p × AllSpaces ps

on_first-AllSpaces :
    (c : Char) (ps : List String) → is_space c ≡ true → AllSpaces ps → AllSpaces (on_first c ps)
on_first-AllSpaces c [] h k = ((h, tt), tt)
on_first-AllSpaces c (p ∷ ps) h (g, k) = ((h, g), k)

split-AllSpaces : (s : String) → IsBlank s → AllSpaces (split comma s)
unfolding split
split-AllSpaces empty h = (tt, tt)
split-AllSpaces (c ∷ₛ s) (h, k) =
    let rest = split-AllSpaces s k in
    elim (Bool-cases (code c == comma)) [
      | inl at ↦ rw at (tt, rest)
      | inr other ↦ rw other (on_first-AllSpaces c (split comma s) (ground (arith, h, other)) rest)
    ]

trim_left-empty : (s : String) → IsSpaces s → trim_left s ≡ empty
unfolding trim_left
trim_left-empty empty h = refl
trim_left-empty (c ∷ₛ s) (h, k) = rw h (trim_left-empty s k)

kept-empty : (ps : List String) → AllSpaces ps → kept ps ≡ []
unfolding kept trim_right
kept-empty [] h = refl
kept-empty (p ∷ ps) (h, k) = rw (trim_left-empty p h) (kept-empty ps k)

-- A list of separators alone has no element.
pub split_and_trim-blank : (s : String) → IsBlank s → split_and_trim s ≡ []
unfolding split_and_trim
split_and_trim-blank s h = kept-empty (split comma s) (split-AllSpaces s h)
