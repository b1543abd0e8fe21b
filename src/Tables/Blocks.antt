-- ===== src/Tables/Blocks.antt =====
-- internal/repository/global_blacklist_pg_repository.go: the table `blacklists`, behind the service of
-- the administration.
use central_auth.Common.{
  ◌≡◌, refl, ℕ, String, Bool, true, false, ◌&&◌, ◌||◌, not, Option, none, some, List, [], ◌∷◌,
  arith, ltb, if◌then◌else◌, str_eq, eq_iff, Bool-cases, inl, inr,
}
use central_auth.Common.Eff.{Eff, Try}
use central_auth.Failure.{Failure, ok, err, wrap}
use central_auth.Admin.{TargetType, target_name}
use central_auth.Tables.{Db, exec}

-- `GlobalBlacklistEntry`
pub record GlobalBlacklistEntry : Type 0 where
  pub target_type : TargetType
  pub target_value : String
  pub reason : String
  pub created_at : ℕ

-- `target_type = $1 AND target_value = $2`
abbrev pub is_of : TargetType → String → GlobalBlacklistEntry → Bool
is_of t value e = str_eq (target_name e.target_type) (target_name t) && str_eq e.target_value value

unfoldable pub exists : TargetType → String → List GlobalBlacklistEntry → Bool
exists t value [] = false
exists t value (e ∷ es) = is_of t value e || exists t value es

-- The upsert of `Add`; a new row is created now, an old one keeps its time.
unfoldable pub upsert :
    ℕ → TargetType → (value reason : String) → List GlobalBlacklistEntry → List GlobalBlacklistEntry
upsert now t value reason [] =
    record { target_type = t; target_value = value; reason = reason; created_at = now } ∷ []
upsert now t value reason (e ∷ es) =
    let rest = upsert now t value reason es in
    if is_of t value e then record e { reason = reason } ∷ es else e ∷ rest

unfoldable pub deleted : TargetType → String → List GlobalBlacklistEntry → List GlobalBlacklistEntry
deleted t value [] = []
deleted t value (e ∷ es) =
    let rest = deleted t value es in if is_of t value e then rest else e ∷ rest

-- `ORDER BY created_at`; rows of one time may come in any order.
unfoldable pub place : GlobalBlacklistEntry → List GlobalBlacklistEntry → List GlobalBlacklistEntry
place e [] = e ∷ []
place e (f ∷ fs) =
    let rest = place e fs in if ltb f.created_at e.created_at then f ∷ rest else e ∷ f ∷ fs

unfoldable pub sorted : List GlobalBlacklistEntry → List GlobalBlacklistEntry
unfolding place
sorted [] = []
sorted (e ∷ es) = place e (sorted es)

abbrev pub Blocks : Type 0
Blocks = Db GlobalBlacklistEntry

-- `PostgresGlobalBlacklistRepository`
unfoldable pub add : TargetType → (value reason : String) → Eff Blocks (Option Failure)
unfolding upsert
add t value reason d = exec (upsert d.now t value reason) d

unfoldable pub is_blacklisted : TargetType → String → Try Blocks Bool
unfolding exists
is_blacklisted t value d = elim d.fault [
  | some e ↦ (err (wrap e), d)
  | none ↦ (ok (exists t value d.rows), d)
]

unfoldable pub list_all : Try Blocks (List GlobalBlacklistEntry)
unfolding sorted
list_all d = elim d.fault [ some e ↦ (err (wrap e), d) | none ↦ (ok (sorted d.rows), d) ]

unfoldable pub remove : TargetType → String → Eff Blocks (Option Failure)
unfolding deleted
remove t value d = exec (deleted t value) d

or_again : (a b : Bool) → (a || b) ≡ (a || (a || b))
or_again true b = refl
or_again false b = refl

or_swap : (a b c : Bool) → (a || (b || c)) ≡ (b || (a || c))
or_swap true true c = refl
or_swap true false c = refl
or_swap false b c = refl

and_false : (a : Bool) → false ≡ (a && false)
and_false true = refl
and_false false = refl

dropped : (a b : Bool) → (not a && b) ≡ (not a && (a || b))
dropped true b = refl
dropped false b = refl

-- Two targets are the same.
abbrev pub same : (t u : TargetType) → (value v : String) → Bool
same t u value v = str_eq (target_name t) (target_name u) && str_eq value v

is_of-same :
    (t u : TargetType) (value v : String) (e : GlobalBlacklistEntry)
    → is_of t value e ≡ true
    → is_of u v e ≡ same t u value v
is_of-same t u value v e h =
    let type_same = (eq_iff (target_name e.target_type) (target_name t)).0 (ground (arith, h)) in
    let value_same = (eq_iff e.target_value value).0 (ground (arith, h)) in
    rw type_same (rw value_same)

is_of-other :
    (t u : TargetType) (value v : String) (e : GlobalBlacklistEntry)
    → is_of t value e ≡ false
    → is_of u v e ≡ true
    → same t u value v ≡ false
is_of-other t u value v e miss hit = elim (Bool-cases (same t u value v)) [
  | inl s ↦
      let type_same = (eq_iff (target_name t) (target_name u)).0 (ground (arith, s)) in
      let value_same = (eq_iff value v).0 (ground (arith, s)) in
      let missed : is_of u v e ≡ false = rw value_same at (rw type_same at miss) in
      ground (arith, missed, hit)
  | inr other ↦ other
]

kept_row : (a b c : Bool) → (b ≡ true → a ≡ false) → (b || (not a && c)) ≡ (not a && (b || c))
kept_row true true c h = ground (arith, h refl)
kept_row true false c h = refl
kept_row false b c h = refl

pub exists-upsert :
    (now : ℕ) (t u : TargetType) (value reason v : String) (es : List GlobalBlacklistEntry)
    → exists u v (upsert now t value reason es) ≡ (same t u value v || exists u v es)
unfolding exists upsert
exists-upsert now t u value reason v [] = refl
exists-upsert now t u value reason v (e ∷ es) =
    let ih = exists-upsert now t u value reason v es in
    elim (Bool-cases (is_of t value e)) [
      | inl hit ↦
          rw hit (rw (is_of-same t u value v e hit) (or_again (same t u value v) (exists u v es)))
      | inr miss ↦ rw miss (rw ih (or_swap (is_of u v e) (same t u value v) (exists u v es)))
    ]

pub exists-deleted :
    (t u : TargetType) (value v : String) (es : List GlobalBlacklistEntry)
    → exists u v (deleted t value es) ≡ (not (same t u value v) && exists u v es)
unfolding exists deleted
exists-deleted t u value v [] = and_false (not (same t u value v))
exists-deleted t u value v (e ∷ es) =
    let ih = exists-deleted t u value v es in
    elim (Bool-cases (is_of t value e)) [
      | inl hit ↦
          rw hit
            (rw ih (rw (is_of-same t u value v e hit) (dropped (same t u value v) (exists u v es))))
      | inr miss ↦ rw miss (
          rw ih (
            kept_row (same t u value v) (is_of u v e) (exists u v es)
              (is_of-other t u value v e miss)))
    ]
