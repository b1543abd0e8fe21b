-- ===== src/Redis/Members.antt =====
-- The lists of members: removal, and the parts of a list.
use central_auth.Common.{
  ◌≡◌, refl, ◌≤◌, ◌-◌, ◌||◌, ◌⊎◌, inl, inr, ℕ, zero, suc, Bool, Option, none, String, false, List,
  [], ◌∷◌, length, take, drop, if◌then◌else◌, arith, eq_iff,
}
use central_auth.Redis.{has, remove, run_of}

pub length-remove : (x : String) (xs : List String) → length (remove x xs) ≤ length xs
length-remove x [] = ground arith
length-remove x (y ∷ ys) = ground (arith, length-remove x ys)

pub has-remove_same : (x : String) (xs : List String) → has x (remove x xs) ≡ false
has-remove_same x [] = refl
has-remove_same x (y ∷ ys) = ground (arith, has-remove_same x ys)

pub has-remove_ne : (x y : String) (xs : List String) → ¬ (x ≡ y) → has y (remove x xs) ≡ has y xs
has-remove_ne x y [] ne = refl
has-remove_ne x y (z ∷ zs) ne =
    ground (arith, has-remove_ne x y zs ne, eq_iff z x, eq_iff z y, ne, eq_iff x y)

pub has-take-drop :
    (n : ℕ) (e : String) (xs : List String) → (has e (take n xs) || has e (drop n xs)) ≡ has e xs
has-take-drop zero e xs = refl
has-take-drop (suc n) e [] = refl
has-take-drop (suc n) e (x ∷ xs) = ground (arith, has-take-drop n e xs)

pub length-drop : (n : ℕ) (xs : List String) → length (drop n xs) ≡ length xs - n
length-drop zero xs = ground arith
length-drop (suc n) [] = ground arith
length-drop (suc n) (x ∷ xs) = ground (arith, length-drop n xs)

pub either_has :
    (a b : Bool) (t : Option String)
    → (if b then none else if a then none else t) ≡ (if a || b then none else t)
either_has a b t = ground arith

pub run_of-cases {ℓ} :
    {A : Type ℓ} → (n : ℕ) (f : A → A) (r : A) → (run_of n f r ≡ r) ⊎ (run_of n f r ≡ f r)
run_of-cases zero f r = inl refl
run_of-cases (suc n) f r = inr refl
