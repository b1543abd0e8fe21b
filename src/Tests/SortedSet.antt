-- ===== src/Tests/SortedSet.antt =====
-- A sorted set of Redis in memory.
use central_auth.Common.{
  ℕ, ◌+◌, ◌-◌, ◌≤◌, leb, ◌≡◌, refl, String, true, false, ◌||◌, Option, none, some, List, [], ◌∷◌,
  length, arith, str_eq, eq_iff, if◌then◌else◌,
}
use central_auth.Redis.{has, remove}
use central_auth.Redis.Members.{length-remove, has-remove_same, has-remove_ne}

-- A sorted set in the order of its scores; each score is kept as the distance from the one before.
abbrev pub SortedSet : Type 0
SortedSet = List (ℕ × String)

abbrev pub members : SortedSet → List String
members [] = []
members ((g, x) ∷ l) = x ∷ members l

abbrev later : ℕ → Option ℕ → Option ℕ
later g none = none
later g (some s) = some (g + s)

abbrev pub score_of : String → SortedSet → Option ℕ
score_of d [] = none
score_of d ((g, x) ∷ l) = let rest = later g (score_of d l) in if str_eq x d then some g else rest

abbrev shift : ℕ → SortedSet → SortedSet
shift g [] = []
shift g ((h, y) ∷ l) = (g + h, y) ∷ l

abbrev pub without : String → SortedSet → SortedSet
without d [] = []
without d ((g, x) ∷ l) =
    let rest = without d l in if str_eq x d then shift g rest else (g, x) ∷ rest

abbrev place : ℕ → String → SortedSet → SortedSet
place s d [] = (s, d) ∷ []
place s d ((g, x) ∷ l) =
    let rest = place (s - g) d l in if leb g s then (g, x) ∷ rest else (s, d) ∷ (g - s, x) ∷ l

abbrev pub placed : ℕ → String → SortedSet → SortedSet
placed s d l = place s d (without d l)

members-shift : (g : ℕ) (l : SortedSet) → members (shift g l) ≡ members l
members-shift g [] = refl
members-shift g ((h, y) ∷ l) = refl

pub members-without : (d : String) (l : SortedSet) → members (without d l) ≡ remove d (members l)
members-without d [] = refl
members-without d ((g, x) ∷ l) = ground (arith, members-without d l, members-shift g (without d l))

has-place :
    (s : ℕ) (d e : String) (l : SortedSet)
    → has e (members (place s d l)) ≡ (str_eq d e || has e (members l))
has-place s d e [] = refl
has-place s d e ((g, x) ∷ l) = ground (arith, has-place (s - g) d e l)

length-place :
    (s : ℕ) (d : String) (l : SortedSet) → length (members (place s d l)) ≡ length (members l) + 1
length-place s d [] = refl
length-place s d ((g, x) ∷ l) = ground (arith, length-place (s - g) d l)

length-remove_has :
    (d : String) (xs : List String) → length (remove d xs) + (if has d xs then 1 else 0) ≤ length xs
length-remove_has d [] = ground arith
length-remove_has d (x ∷ xs) = ground (arith, length-remove_has d xs, length-remove d xs)

pub has-placed :
    (s : ℕ) (d e : String) (l : SortedSet)
    → has e (members (placed s d l)) ≡ (str_eq d e || has e (members l))
has-placed s d e l = ground (
  arith,
  has-place s d e (without d l),
  members-without d l,
  has-remove_ne d e (members l),
  eq_iff d e,
)

pub length-placed :
    (s : ℕ) (d : String) (l : SortedSet)
    → length (members (placed s d l))
      ≤ (if has d (members l) then length (members l) else length (members l) + 1)
length-placed s d l =
    ground
      (arith, length-place s d (without d l), members-without d l, length-remove_has d (members l))

pub score-has :
    (d : String) (l : SortedSet)
    → (elim (score_of d l) [ none ↦ false | some s ↦ true ]) ≡ has d (members l)
score-has d [] = refl
score-has d ((g, x) ∷ l) = ground (arith, score-has d l)

score-shift : (g : ℕ) (e : String) (l : SortedSet) → score_of e (shift g l) ≡ later g (score_of e l)
score-shift g e [] = refl
score-shift g e ((h, y) ∷ l) = ground arith

pub score-without :
    (d e : String) (l : SortedSet)
    → score_of e (without d l) ≡ (if str_eq d e then none else score_of e l)
score-without d e [] = ground arith
score-without d e ((g, x) ∷ l) =
    ground (
      arith,
      score-without d e l,
      score-shift g e (without d l),
      eq_iff x d,
      eq_iff x e,
      eq_iff d e,
    )

score-place :
    (s : ℕ) (d e : String) (l : SortedSet)
    → has d (members l) ≡ false
    → score_of e (place s d l) ≡ (if str_eq d e then some s else score_of e l)
score-place s d e [] new = refl
score-place s d e ((g, x) ∷ l) new =
    ground (arith, new, score-place (s - g) d e l, eq_iff x d, eq_iff x e, eq_iff d e)

pub score-placed :
    (s : ℕ) (d e : String) (l : SortedSet)
    → score_of e (placed s d l) ≡ (if str_eq d e then some s else score_of e l)
score-placed s d e l = ground (
  arith,
  score-place s d e (without d l),
  members-without d l,
  has-remove_same d (members l),
  score-without d e l,
)

pub score-first :
    (d e : String) (ids : List String) (s t : ℕ) (l : SortedSet)
    → members l ≡ d ∷ ids
    → score_of d l ≡ some s
    → score_of e l ≡ some t
    → s ≤ t
score-first d e ids s t [] same here there = ground (arith, same)
score-first d e ids s t ((g, x) ∷ l) same here there = ground (arith, same, here, there, eq_iff x d)
