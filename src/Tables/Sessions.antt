-- ===== src/Tables/Sessions.antt =====
-- internal/repository/blacklist_pg_repository.go: the table `blacklisted_sessions`, as the decorator of
-- the blacklist takes it.
pub mod Remembered
use central_auth.Common.{
  ◌≡◌, refl, ap, ◌≤◌, ◌+◌, ℕ, String, Bool, true, false, ◌&&◌, ◌||◌, not, Option, none, some, List,
  [], ◌∷◌, arith, if◌then◌else◌, str_eq, eq_iff, Bool-cases, Option-cases, ◌∙◌, inl, inr,
}
use central_auth.Common.Int.{ℤ, pos, lt_ℤ, max_ℤ}
use central_auth.Common.Eff.{Eff, Try}
use central_auth.Failure.{Failure, Result, ok, err, wrap}
use central_auth.Resilient.{BlacklistEntry, BlacklistPgRepository}
use central_auth.Tables.{Db, exec}

-- `expires_at > NOW()`
abbrev pub is_active : ℕ → BlacklistEntry → Bool
is_active now e = lt_ℤ (pos now) e.expires_at

unfoldable pub exists : ℕ → String → List BlacklistEntry → Bool
exists now id [] = false
exists now id (e ∷ es) = (str_eq e.session_id id && is_active now e) || exists now id es

-- `INSERT ... ON CONFLICT (session_id) DO UPDATE`; the session id is the primary key.
unfoldable pub upsert : String → ℤ → List BlacklistEntry → List BlacklistEntry
upsert id expires_at [] = record { session_id = id; expires_at = expires_at } ∷ []
upsert id expires_at (e ∷ es) =
    let rest = upsert id expires_at es in
    if str_eq e.session_id id
    then record { session_id = id; expires_at = max_ℤ expires_at e.expires_at } ∷ es
    else e ∷ rest

unfoldable pub active_rows : ℕ → List BlacklistEntry → List BlacklistEntry
active_rows now [] = []
active_rows now (e ∷ es) =
    let rest = active_rows now es in if is_active now e then e ∷ rest else rest

-- `ORDER BY expires_at`; rows of one expiry may come in any order.
unfoldable pub place : BlacklistEntry → List BlacklistEntry → List BlacklistEntry
place e [] = e ∷ []
place e (f ∷ fs) =
    let rest = place e fs in if lt_ℤ f.expires_at e.expires_at then f ∷ rest else e ∷ f ∷ fs

unfoldable pub sorted : List BlacklistEntry → List BlacklistEntry
unfolding place
sorted [] = []
sorted (e ∷ es) = place e (sorted es)

-- `PostgresBlacklistRepository`
unfoldable pub is_blacklisted : String → Try (Db BlacklistEntry) Bool
unfolding exists
is_blacklisted id d = elim d.fault [
  | some e ↦ (err (wrap e), d)
  | none ↦ (ok (exists d.now id d.rows), d)
]

unfoldable pub add : String → ℤ → Eff (Db BlacklistEntry) (Option Failure)
unfolding upsert
add id expires_at d = exec (upsert id expires_at) d

unfoldable pub delete_expired : Eff (Db BlacklistEntry) (Option Failure)
unfolding active_rows
delete_expired d = exec (active_rows d.now) d

unfoldable pub list_active : Try (Db BlacklistEntry) (List BlacklistEntry)
unfolding active_rows sorted
list_active d = elim d.fault [
  | some e ↦ (err (wrap e), d)
  | none ↦ (ok (sorted (active_rows d.now d.rows)), d)
]

unfoldable pub repository : BlacklistPgRepository (Db BlacklistEntry)
repository = record {
  is_blacklisted = is_blacklisted;
  add = add;
  delete_expired = delete_expired;
  list_active = list_active;
}

pub exists-upsert :
    (now : ℕ) (id j : String) (t : ℤ) (es : List BlacklistEntry)
    → exists now j (upsert id t es) ≡ ((str_eq id j && lt_ℤ (pos now) t) || exists now j es)
unfolding exists upsert
exists-upsert now id j t [] = ground arith
exists-upsert now id j t (e ∷ es) =
    ground (
      arith,
      exists-upsert now id j t es,
      eq_iff e.session_id id,
      eq_iff e.session_id j,
      eq_iff id j,
    )

skipped : (a b c : Bool) → ¬ (b ≡ true) → c ≡ ((a && b) || c)
skipped true true c h = absurd (h refl)
skipped true false c h = refl
skipped false b c h = refl

gone_and_active : (b : Bool) → b ≡ false → ¬ (b ≡ true)
gone_and_active b h k = ground (arith, h, k)

-- A row that is active at a later time is active now.
is_active-earlier :
    (now later : ℕ) (e : BlacklistEntry)
    → now ≤ later
    → is_active later e ≡ true
    → is_active now e ≡ true
is_active-earlier now later e h k = ground (arith, h, k)

pub exists-active_rows :
    (now later : ℕ) (id : String) (es : List BlacklistEntry)
    → now ≤ later
    → exists later id (active_rows now es) ≡ exists later id es
unfolding exists active_rows
exists-active_rows now later id [] h = refl
exists-active_rows now later id (e ∷ es) h =
    let ih = exists-active_rows now later id es h in
    elim (Bool-cases (is_active now e)) [
      | inl kept ↦ rw kept (rw ih)
      | inr gone ↦ rw gone (
          rw ih (
            skipped (str_eq e.session_id id) (is_active later e) (exists later id es)
              (λ k. gone_and_active (is_active now e) gone (is_active-earlier now later e h k))))
    ]

exists-place :
    (now : ℕ) (id : String) (e : BlacklistEntry) (es : List BlacklistEntry)
    → exists now id (place e es) ≡ exists now id (e ∷ es)
unfolding exists place
exists-place now id e [] = refl
exists-place now id e (f ∷ fs) = ground (arith, exists-place now id e fs)

pub exists-sorted :
    (now : ℕ) (id : String) (es : List BlacklistEntry)
    → exists now id (sorted es) ≡ exists now id es
unfolding exists sorted
exists-sorted now id [] = refl
exists-sorted now id (e ∷ es) =
    ground (arith, exists-place now id e (sorted es), exists-sorted now id es)
