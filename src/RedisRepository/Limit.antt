-- ===== src/RedisRepository/Limit.antt =====
-- The limit on the devices of a user that `SaveLogin` enforces.
use Prim.Native.String.{◌++◌}
use text.Mathlib.TextLemmas.{append_assoc}
use central_auth.Common.{
  sym, ◌∙◌, ℕ, ◌+◌, ◌≤◌, ◌≡◌, refl, String, Bool, true, false, ◌||◌, ◌&&◌, not, none, List, [], ◌∷◌,
  length, arith, str_eq, eq_iff, if◌then◌else◌, leb,
}
use central_auth.Common.Int.{ℤ, pos, lt_ℤ}
use central_auth.Bff.{second}
use central_auth.Redis.{QuietLink, Redis, SortedSetLaws, has, remove}
use central_auth.Redis.Keys.{prefix_ne, prefix_inj}
use central_auth.Redis.Members.{length-remove, has-remove_same, has-remove_ne}
use central_auth.RedisRepository.{
  devices_key, refresh_key, refresh_prefix, make_room, evict_oldest, extend_ttl, save_login_script,
  save_login, seconds_of, max_devices,
}

-- The members without the one of the lowest score, and what the script leaves for a new device.
abbrev pub without_oldest : List String → List String
without_oldest [] = []
without_oldest (x ∷ xs) = remove x (x ∷ xs)

abbrev pub with_room : ℕ → String → List String → List String
with_room max d ids =
    if has d ids then ids else if leb max (length ids) then without_oldest ids else ids

abbrev pub is_oldest : String → List String → Bool
is_oldest e [] = false
is_oldest e (x ∷ xs) = str_eq x e

-- Whether the login of `d` evicts `e`.
abbrev pub evicts : ℕ → (d e : String) → List String → Bool
evicts max d e ids = not (has d ids) && leb max (length ids) && is_oldest e ids

has-without_oldest :
    (e : String) (ids : List String)
    → has e (without_oldest ids) ≡ (has e ids && not (is_oldest e ids))
has-without_oldest e [] = refl
has-without_oldest e (x ∷ xs) =
    ground (arith, has-remove_same x (x ∷ xs), has-remove_ne x e (x ∷ xs), eq_iff x e)

has-with_room :
    (max : ℕ) (d e : String) (ids : List String)
    → has e (with_room max d ids) ≡ (has e ids && not (evicts max d e ids))
has-with_room max d e ids = ground (arith, has-without_oldest e ids)

length-without_oldest :
    (n : ℕ) (xs : List String) → 1 ≤ n → length xs ≤ n → length (without_oldest xs) + 1 ≤ n
length-without_oldest n [] h few = ground (arith, h)
length-without_oldest n (x ∷ xs) h few = ground (arith, length-remove x xs, eq_iff x x, few)

length-with_room :
    (max : ℕ) (d : String) (ids : List String)
    → 1 ≤ max
    → length ids ≤ max
    → length (with_room max d ids) + (if has d (with_room max d ids) then 0 else 1) ≤ max
length-with_room max d ids h few = ground (arith, h, few, length-without_oldest max ids h few)

-- The keys of a device's token and of the devices are apart.
pub devices_key_ne : (k d j : String) → ¬ (refresh_key k d ≡ devices_key j)
devices_key_ne k d j h =
    prefix_ne "auth:refresh:" "auth:devices:" ((k ++ ":") ++ d) j refl
      (ground (arith, eq_iff "auth:refresh:" "auth:devices:"))
      (sym (append_assoc "auth:refresh:" (k ++ ":") d) ∙ h)

pub refresh_key_ne : (k d e : String) → ¬ (d ≡ e) → ¬ (refresh_key k d ≡ refresh_key k e)
refresh_key_ne k d e ne h = ne (prefix_inj (refresh_prefix k) d e h)

pub positive_seconds : (ttl : ℕ) → second ≤ ttl → lt_ℤ (pos 0) (seconds_of (pos ttl)) ≡ true
positive_seconds ttl long = ground (arith, long)

module _ {R : Type 0} (c : Redis R) (sorted : SortedSetLaws c) (k : String) where
  abbrev pub devices : R → List String
  devices r = c.z_range (devices_key k) r

  devices-evict_oldest :
      (ids : List String) (r : R)
      → devices r ≡ ids
      → devices (evict_oldest c k ids r) ≡ without_oldest ids
  unfolding evict_oldest
  devices-evict_oldest [] r h = h
  devices-evict_oldest (x ∷ ids) r h = ground (
    arith,
    h,
    sorted.z_range-del_ne (devices_key k) (refresh_key k x) (c.z_rem (devices_key k) x r),
    devices_key_ne k x k,
    sorted.z_range-z_rem (devices_key k) x r,
  )

  devices-make_room :
      (max : ℕ) (d : String) (r : R) → devices (make_room c k max d r) ≡ with_room max d (devices r)
  unfolding make_room
  devices-make_room max d r = ground (
    arith,
    sorted.z_score_lem (devices_key k) d r,
    sorted.z_card_lem (devices_key k) r,
    devices-evict_oldest (devices r) r refl,
  )

  devices-extend_ttl :
      (ttl : ℤ) (r : R) → lt_ℤ (pos 0) ttl ≡ true → devices (extend_ttl c k ttl r) ≡ devices r
  unfolding extend_ttl
  devices-extend_ttl ttl r positive =
      ground (arith, sorted.z_range-expire_seconds (devices_key k) (devices_key k) ttl r, positive)

  devices-save_login_script :
      (score max : ℕ) (d token : String) (ttl : ℤ) (r : R)
      → lt_ℤ (pos 0) ttl ≡ true
      → devices (save_login_script c k score max d token ttl r)
        ≡ devices (c.z_add (devices_key k) score d (make_room c k max d r))
  unfolding save_login_script
  devices-save_login_script score max d token ttl r positive =
      let r₂ = c.z_add (devices_key k) score d (make_room c k max d r) in
      devices-extend_ttl ttl (c.set_seconds (refresh_key k d) token ttl r₂) positive
      ∙ sorted.z_range-set_seconds (devices_key k) (refresh_key k d) token ttl r₂
          (devices_key_ne k d k)

  pub save_login_script-AtMost :
      (score max : ℕ) (d token : String) (ttl : ℤ) (r : R)
      → lt_ℤ (pos 0) ttl ≡ true
      → 1 ≤ max
      → length (devices r) ≤ max
      → (length (devices (save_login_script c k score max d token ttl r)) ≤ max)
        × (has d (devices (save_login_script c k score max d token ttl r)) ≡ true)
  save_login_script-AtMost score max d token ttl r positive some_room few =
      let r₁ = make_room c k max d r in
      ground (
        arith,
        devices-save_login_script score max d token ttl r positive,
        sorted.length-z_add (devices_key k) d score r₁,
        sorted.has-z_add (devices_key k) d d score r₁,
        eq_iff d d,
        devices-make_room max d r,
        length-with_room max d (devices r) some_room few,
      )

  pub has-save_login_script :
      (score max : ℕ) (d e token : String) (ttl : ℤ) (r : R)
      → lt_ℤ (pos 0) ttl ≡ true
      → has e (devices (save_login_script c k score max d token ttl r))
        ≡ (str_eq d e || (has e (devices r) && not (evicts max d e (devices r))))
  has-save_login_script score max d e token ttl r positive =
      let r₁ = make_room c k max d r in
      ground (
        arith,
        devices-save_login_script score max d token ttl r positive,
        sorted.has-z_add (devices_key k) d e score r₁,
        devices-make_room max d r,
        has-with_room max d e (devices r),
      )

  module _ (quiet : QuietLink c) where
    -- By what Redis documents, a login never leaves a user with more than five devices, if there
    -- were no more before: whether the script runs, or the link fails, before it or after. When
    -- `SaveLogin` returns no error, the device that logged in is one of them. The time to live is
    -- a second at least.
    pub save_login-AtMost :
        (now ttl : ℕ) (d token : String) (r : R)
        → second ≤ ttl
        → length (devices r) ≤ 5
        → (let (e, r') = save_login c k now d token (pos ttl) r in
            (length (devices r') ≤ 5) × (e ≡ none → has d (devices r') ≡ true))
    unfolding save_login
    save_login-AtMost now ttl d token r long few =
        let r' = (c.link r).1 in
        let positive = positive_seconds ttl long in
        ground (
          arith,
          few,
          quiet.z_range-link (devices_key k) r,
          save_login_script-AtMost now max_devices d token (seconds_of (pos ttl)) r' positive,
        )
