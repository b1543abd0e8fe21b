-- ===== src/UaParser/Version.antt =====
-- The version in a User-Agent.
use Prim.Native.Char.{Char, code}
use Prim.Native.String.{[] as empty, ◌∷◌ as ◌∷ₛ◌, ◌++◌}
use mathlib.Core.Option.{some-injective}
use text.Mathlib.TextLemmas.{
  nil-append, cons-append, cons≢nil, append-eq-nil_iff, tail-eq_of_cons-eq,
}
use text.Mathlib.TextEquality.{Char-path}
use central_auth.Common.{
  ◌≡◌, ◌≢◌, refl, ap, sym, ◌∙◌, String, true, false, Option, none, some, arith, ◌==◌, Bool-cases,
  Option-cases, inl, inr,
}
use central_auth.UaParser.{is_digit, digits, after, group, group_after, find_version, or_else}

digits-cons : (c : Char) (s : String) → is_digit c ≡ true → digits (c ∷ₛ s) ≡ c ∷ₛ digits s
unfolding digits
digits-cons c s h = rw h

digits_stop : (c : Char) (s : String) → is_digit c ≡ false → digits (c ∷ₛ s) ≡ empty
unfolding digits
digits_stop c s h = rw h

digits_idem : (s : String) → digits (digits s) ≡ digits s
unfolding digits
digits_idem empty = refl
digits_idem (c ∷ₛ s) = elim (Bool-cases (is_digit c)) [
  | inl h ↦ rw h (rw h (rw (digits_idem s)))
  | inr h ↦ rw h
]

digits_rest : (s : String) → (b : String) × (s ≡ digits s ++ b)
unfolding digits
digits_rest empty = (empty, sym (nil-append empty))
digits_rest (c ∷ₛ s) = elim (Bool-cases (is_digit c)) [
  | inl h ↦ (
    (digits_rest s).0,
    ap (λ t. c ∷ₛ t) (digits_rest s).1
        ∙ sym (cons-append c (digits s) (digits_rest s).0)
        ∙ sym (ap (λ t. t ++ (digits_rest s).0) (digits-cons c s h)),
  )
  | inr h ↦ (c ∷ₛ s, sym (ap (λ t. t ++ (c ∷ₛ s)) (digits_stop c s h) ∙ nil-append (c ∷ₛ s)))
]

pub after-append : (w s t : String) → after w s ≡ some t → s ≡ w ++ t
unfolding after
after-append empty s t h = grind (arith, nil-append t)
after-append (c ∷ₛ w) empty t h = ground arith
after-append (c ∷ₛ w) (d ∷ₛ s) t h = elim (Bool-cases (code c == code d)) [
  | inl e ↦
      ap (λ x. x ∷ₛ s) (sym (Char-path c d (ground (arith, e))))
      ∙ ap (λ u. c ∷ₛ u) (after-append w s t (ground (arith, e, h)))
      ∙ sym (cons-append c w t)
  | inr e ↦ ground (arith, e, h)
]

-- What the group matches: digits, one at least, as many as there are.
group-digits : (t v : String) → group t ≡ some v → (digits t ≡ v) × (v ≢ empty)
unfolding group
group-digits empty v h = ground arith
group-digits (c ∷ₛ t) v h = elim (Bool-cases (is_digit c)) [
  | inl e ↦
      let same : some (c ∷ₛ digits t) ≡ some v = rw e at h in
      (digits-cons c t e ∙ some-injective _ _ same, λ no. cons≢nil (some-injective _ _ same ∙ no))
  | inr e ↦ ground (arith, e, h)
]

-- No group matches only where there is no digit.
group-none : (t : String) → group t ≡ none → digits t ≡ empty
unfolding group digits
group-none empty h = refl
group-none (c ∷ₛ t) h = elim (Bool-cases (is_digit c)) [
  | inl e ↦ ground (arith, e, h)
  | inr e ↦ digits_stop c t e
]

pub after_word : (w t : String) → after w (w ++ t) ≡ some t
unfolding after
after_word empty t = ap (after empty) (nil-append t)
after_word (c ∷ₛ w) t = ap (after (c ∷ₛ w)) (cons-append c w t) ∙ ground (arith, after_word w t)

group_after_found :
    (w s v : String)
    → group_after (after w s) ≡ some v
    → (t : String) × (s ≡ w ++ t) × (digits t ≡ v) × (v ≢ empty)
unfolding group_after
group_after_found w s v h = elim (Option-cases (after w s)) [
  | inl e ↦ ground (arith, e, h)
  | inr (t, e) ↦
      let found = group-digits t v (rw e at h) in (t, after-append w s t e, found.0, found.1)
]

-- The version is a run of digits right behind the word, all of those that stand there.
pub find_version-Match :
    (w s v : String)
    → find_version w s ≡ some v
    → (a : String) × (t : String) × (s ≡ a ++ (w ++ t)) × (digits t ≡ v) × (v ≢ empty)
unfolding find_version
find_version-Match w empty v h = ground arith
find_version-Match w (c ∷ₛ s) v h = elim (Option-cases (group_after (after w (c ∷ₛ s)))) [
  | inl e ↦
      let (a, t, eq, run, some_digit) = find_version-Match w s v (rw e at h) in
      (c ∷ₛ a, t, ap (λ u. c ∷ₛ u) eq ∙ sym (cons-append c a (w ++ t)), run, some_digit)
  | inr (u, e) ↦
      let (t, eq, run, some_digit) = group_after_found w (c ∷ₛ s) v (e ∙ (rw e at h)) in
      (empty, t, eq ∙ sym (nil-append (w ++ t)), run, some_digit)
]

or_else-none : (m r : Option String) → or_else m r ≡ none → (m ≡ none) × (r ≡ none)
or_else-none none r h = (refl, h)
or_else-none (some v) r h = ground arith

-- Without a version no digit follows the word, wherever it stands.
pub find_version-none :
    (w s : String) → find_version w s ≡ none → (a t : String) → s ≡ a ++ (w ++ t) → digits t ≡ empty
unfolding find_version group_after
find_version-none w empty h a t eq =
    let t_empty = (append-eq-nil_iff.0 ((append-eq-nil_iff.0 (sym eq)).1)).1 in ap digits t_empty
find_version-none w (c ∷ₛ s) h empty t eq =
    let here = ap (after w) (eq ∙ nil-append (w ++ t)) ∙ after_word w t in
    group-none t (sym (ap group_after here) ∙ (or_else-none _ _ h).0)
find_version-none w (c ∷ₛ s) h (x ∷ₛ a) t eq =
    find_version-none w s (or_else-none _ (find_version w s) h).1 a t
      (tail-eq_of_cons-eq (eq ∙ cons-append x a (w ++ t)))
