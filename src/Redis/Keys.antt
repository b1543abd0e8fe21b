-- ===== src/Redis/Keys.antt =====
-- The keys of the repository do not meet.
use Prim.Native.String.{◌++◌, count}
use text.Mathlib.TextLemmas.{append_inj}
use central_auth.Common.{String, ◌≡◌, refl}

-- Keys that begin with different texts of one length are different.
pub prefix_ne : (p q s t : String) → count p ≡ count q → ¬ (p ≡ q) → ¬ (p ++ s ≡ q ++ t)
prefix_ne p q s t same ne h = ne (append_inj {s₁ = p} {s₂ = q} {t₁ = s} {t₂ = t} h same).0

pub prefix_inj : (p s t : String) → p ++ s ≡ p ++ t → s ≡ t
prefix_inj p s t h = (append_inj {s₁ = p} {s₂ = p} {t₁ = s} {t₂ = t} h refl).1
