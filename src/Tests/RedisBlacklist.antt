-- ===== src/Tests/RedisBlacklist.antt =====
-- The blacklist in Redis over a list of keys.
use central_auth.Common.{
  ◌≡◌, String, Bool, true, false, ◌||◌, none, List, [], ◌∷◌, ◌++◌, All, All-mono, arith, str_eq,
  eq_iff, if◌then◌else◌,
}
use central_auth.Failure.{ok}
use central_auth.RedisBlacklist.{RedisClient, SetArgs}
use central_auth.RedisBlacklist.Contract.{RedisLaws}

record World : Type 0 where
  keys : List String

abbrev has : String → List String → Bool
has key [] = false
has key (x ∷ xs) = str_eq x key || has key xs

abbrev keys_of : List SetArgs → List String
keys_of [] = []
keys_of ((key, value, ttl) ∷ sets) = key ∷ keys_of sets

abbrev client : RedisClient World
client = record {
  set = λ c w. (none, record { keys = c.0 ∷ w.keys });
  exists = λ key w. (ok (if has key w.keys then 1 else 0), w);
  exec = λ sets w. (none, record { keys = keys_of sets ++ w.keys });
}

keys_found :
    (sets : List SetArgs) (rest : List String)
    → All (λ c. has c.0 (keys_of sets ++ rest) ≡ true) sets
keys_found [] rest = tt
keys_found ((key, value, ttl) ∷ sets) rest = (
  ground (arith, eq_iff key key),
  All-mono sets (λ c h. ground (arith, h)) (keys_found sets rest),
)

laws : RedisLaws client
laws = record {
  set_exists = λ key value ttl w positive h. ground (arith, eq_iff key key);
  exec_exists =
      λ sets w positive h. All-mono sets (λ c h. ground (arith, h)) (keys_found sets w.keys);
}

abbrev empty : World
empty = record { keys = [] }
