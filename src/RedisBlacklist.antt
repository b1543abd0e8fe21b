-- ===== src/RedisBlacklist.antt =====
-- internal/blacklist/blacklist.go: the blacklist in Redis, an implementation of the interface
-- `Blacklist`. The commands of the Redis client are parameters.
pub mod Contract
use Prim.Native.String.{◌++◌}
use central_auth.Common.{
  ℕ, String, Bool, true, false, not, Option, none, some, List, [], ◌∷◌, map, ltb, if◌then◌else◌,
}
use central_auth.Common.Int.{ℤ, pos, lt_ℤ}
use central_auth.Common.Eff.{Eff, Try}
use central_auth.Failure.{Failure, Result, ok, err, wrap}
use central_auth.Ports.{Blacklist}

-- A `SET` with an expiry: the key, the value and the time to live.
abbrev pub SetArgs : Type 0
SetArgs = String × String × ℤ

-- The commands of go-redis that are called: `Set`, `Exists`, and the `Exec` of a transaction that
-- holds only `SET`s.
pub record RedisClient (W : Type 0) : Type 0 where
  pub set : SetArgs → Eff W (Option Failure)
  pub exists : String → Try W ℕ
  pub exec : List SetArgs → Eff W (Option Failure)

-- `minBlacklistTTL`, one minute
abbrev pub min_blacklist_ttl : ℤ
min_blacklist_ttl = pos 60_000_000_000

-- `blacklistKey`
abbrev pub blacklist_key : String → String
blacklist_key session_id = "bff:blacklist:" ++ session_id

abbrev pub entry : ℤ → String → SetArgs
entry ttl id = (blacklist_key id, "1", ttl)

abbrev wrapped : Option Failure → Option Failure
wrapped none = none
wrapped (some e) = some (wrap e)

abbrev answer : Result ℕ → Bool × Option Failure
answer (ok n) = (ltb 0 n, none)
answer (err e) = (true, some (wrap e))

module _ {W : Type 0} (rdb : RedisClient W) where
  -- `Add`
  unfoldable pub add : String → ℤ → Eff W (Option Failure)
  add session_id ttl w =
      let ttl' = if lt_ℤ (pos 0) ttl then ttl else min_blacklist_ttl in
      let (e, w') = rdb.set (entry ttl' session_id) w in (wrapped e, w')

  -- `IsBlacklisted`
  unfoldable pub is_blacklisted : String → Eff W (Bool × Option Failure)
  is_blacklisted session_id w =
      let (r, w') = rdb.exists (blacklist_key session_id) w in (answer r, w')

  -- `AddBatch`
  unfoldable pub add_batch : List String → ℤ → Eff W (Option Failure)
  add_batch [] ttl w = (none, w)
  add_batch (id ∷ ids) ttl w =
      if lt_ℤ (pos 0) ttl
      then (let (e, w') = rdb.exec (map (entry ttl) (id ∷ ids)) w in (wrapped e, w'))
      else (none, w)

  -- `RedisBlacklist`
  abbrev pub redis_blacklist : Blacklist W
  redis_blacklist = record { add = add; is_blacklisted = is_blacklisted; add_batch = add_batch }
