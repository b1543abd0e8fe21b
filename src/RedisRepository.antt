-- ===== src/RedisRepository.antt =====
-- internal/repository/redis_repository.go: the devices of a user and their refresh tokens. The two
-- Lua scripts are functions on what the server holds; Redis runs a script in one step.
pub mod Limit
pub mod Scores
pub mod Tokens
pub mod Logout
use Prim.Native.String.{◌++◌}
use central_auth.Common.{
  ℕ, ◌+◌, ◌-◌, ◌*◌, ◌/◌, String, Bool, true, false, Option, none, some, List, [], ◌∷◌, leb, ltb,
  if◌then◌else◌, zero, suc, length, take, drop,
}
use central_auth.Common.Int.{ℤ, pos, negsuc, lt_ℤ}
use central_auth.Common.Eff.{Eff, Try, return, wrapping, checked, ◌>>=◌, ◌>>◌}
use central_auth.Failure.{
  Failure, Result, ok, err, wrap, sentinel, is, redis_nil, device_token_not_found,
}
use central_auth.Ports.{RedisRepo}
use central_auth.Bff.{second}
use central_auth.Redis.{Redis, round_trip, send}

-- `MaxDevices`
abbrev pub max_devices : ℕ
max_devices = 5

abbrev pub devices_key : String → String
devices_key kratos_id = "auth:devices:" ++ kratos_id

-- `rPrefix`
abbrev pub refresh_prefix : String → String
refresh_prefix kratos_id = "auth:refresh:" ++ (kratos_id ++ ":")

abbrev pub refresh_key : (kratos_id device_id : String) → String
refresh_key kratos_id device_id = refresh_prefix kratos_id ++ device_id

-- `int64(ttl.Seconds())`
abbrev pub seconds_of : ℤ → ℤ
seconds_of (pos n) = pos (n / second)
seconds_of (negsuc n) = if ltb (suc n) second then pos 0 else negsuc (suc n / second - 1)

abbrev pub is_none {ℓ} : {A : Type ℓ} → Option A → Bool
is_none none = true
is_none (some a) = false

-- `logoutAllChunkSize`
abbrev pub chunk_size : ℕ
chunk_size = 50

module _ {R : Type 0} (c : Redis R) (kratos_id : String) where
  abbrev pub d_key : String
  d_key = devices_key kratos_id

  unfoldable pub evict_oldest : List String → R → R
  evict_oldest [] r = r
  evict_oldest (oldest ∷ rest) r =
      c.del (refresh_prefix kratos_id ++ oldest) (c.z_rem d_key oldest r)

  -- The first part of the script: room for a new device.
  unfoldable pub make_room : (max : ℕ) → String → R → R
  unfolding evict_oldest
  make_room max device_id r =
      if is_none (c.z_score d_key device_id r)
      then (if leb max (c.z_card d_key r) then evict_oldest (c.z_range d_key r) r else r)
      else r

  -- The last part: the set lives at least as long as the new token.
  unfoldable pub extend_ttl : ℤ → R → R
  extend_ttl ttl r =
      let current = c.ttl d_key r in
      if lt_ℤ current (pos 0)
      then c.expire_seconds d_key ttl r
      else if lt_ℤ current ttl
      then c.expire_seconds d_key ttl r
      else r

  -- `saveLoginScript`
  unfoldable pub save_login_script : (score max : ℕ) → (device_id token : String) → ℤ → R → R
  unfolding make_room extend_ttl
  save_login_script score max device_id token ttl r =
      let r₁ = make_room max device_id r in
      let r₂ = c.z_add d_key score device_id r₁ in
      extend_ttl ttl (c.set_seconds (refresh_key kratos_id device_id) token ttl r₂)

  -- `logoutDeviceScript`; its reply is not read.
  unfoldable pub logout_device_script : String → R → R
  logout_device_script device_id r =
      c.del (refresh_key kratos_id device_id) (c.z_rem d_key device_id r)

  -- `SaveLogin`; `now` is the clock in seconds.
  unfoldable pub save_login : (now : ℕ) → (device_id token : String) → ℤ → Eff R (Option Failure)
  unfolding save_login_script
  save_login now device_id token ttl =
      send c (save_login_script now max_devices device_id token (seconds_of ttl))

  -- `GetDeviceRefreshToken`
  abbrev found : Option String → Result String
  found none = err (sentinel device_token_not_found)
  found (some token) = ok token

  abbrev flatten : Result (Result String) → Result String
  flatten (ok r) = r
  flatten (err e) = if is redis_nil e then err (sentinel device_token_not_found) else err e

  unfoldable pub get_device_refresh_token : String → Try R String
  get_device_refresh_token device_id r =
      let (reply, r') =
        round_trip c (λ r. (found (c.get (refresh_key kratos_id device_id) r), r)) r in
      (flatten reply, r')

  -- `RotateRefreshToken`
  unfoldable pub rotate_refresh_token : (device_id token : String) → ℤ → Eff R (Option Failure)
  rotate_refresh_token device_id token ttl =
      send c (c.set (refresh_key kratos_id device_id) token ttl)

  -- `LogoutDevice`
  unfoldable pub logout_device : String → Eff R (Option Failure)
  unfolding logout_device_script
  logout_device device_id = send c (logout_device_script device_id)

  -- One pipeline of `LogoutAll`
  unfoldable pub delete_tokens : List String → R → R
  delete_tokens [] r = r
  delete_tokens (device_id ∷ rest) r =
      delete_tokens rest (c.del (refresh_key kratos_id device_id) r)

  -- The rest of `LogoutAll`; the sorted set goes last.
  unfoldable pub delete_devices : Option Failure → Eff R (Option Failure)
  delete_devices none r = send c (c.del d_key) r
  delete_devices (some e) r = (some (wrap e), r)

  -- A pipeline is no transaction: when the link fails, any number of its first commands has run.
  unfoldable pub send_pipeline : List String → Eff R (Option Failure)
  unfolding delete_tokens
  send_pipeline ids r =
      let (e, r') = c.link r in
      elim e [
        | none ↦ (none, delete_tokens ids r')
        | some f ↦ (some f, delete_tokens (take (c.ran r) ids) r')
      ]

  -- The loop of `LogoutAll` over chunks of `size`, on fuel.
  unfoldable pub delete_chunks : (size fuel : ℕ) → List String → Eff R (Option Failure)
  unfolding send_pipeline
  delete_chunks size zero ids r = (none, r)
  delete_chunks size (suc fuel) [] r = (none, r)
  delete_chunks size (suc fuel) (id ∷ ids) r =
      let (e, r') = send_pipeline (take size (id ∷ ids)) r in
      elim e [ some f ↦ (some f, r') | none ↦ delete_chunks size fuel (drop size (id ∷ ids)) r' ]

  abbrev logout_listed : Result (List String) → Eff R (Option Failure)
  unfolding delete_chunks delete_devices
  logout_listed (err e) r = (some e, r)
  logout_listed (ok ids) r =
      let (e, r') = delete_chunks chunk_size (length ids) ids r in delete_devices e r'

  -- `LogoutAll`
  unfoldable pub logout_all : Eff R (Option Failure)
  unfolding logout_listed
  logout_all r =
      let (ids, r') = round_trip c (λ r. (c.z_range d_key r, r)) r in logout_listed ids r'

-- `RedisRepository`; the clock is in seconds.
abbrev pub redis_repository : {R : Type 0} → Redis R → (R → ℕ) → RedisRepo R
redis_repository c now = record {
  save_login =
      λ kratos_id device_id token ttl r. save_login c kratos_id (now r) device_id token ttl r;
  get_device_refresh_token = get_device_refresh_token c;
  rotate_refresh_token = rotate_refresh_token c;
  logout_device = logout_device c;
  logout_all = logout_all c;
}
