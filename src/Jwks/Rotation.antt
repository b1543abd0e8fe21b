-- ===== src/Jwks/Rotation.antt =====
-- What the grace period gives, and where it gives nothing.
use central_auth.Common.{
  ℕ, ◌-◌, ◌≤◌, ◌≡◌, refl, String, true, false, Option, none, some, List, [], ◌∷◌, ltb,
  if◌then◌else◌, arith,
}
use central_auth.Common.Assoc.{Assoc, lookup}
use central_auth.Failure.{Result, ok, is_ok}
use central_auth.Jwks.{
  JwkKey, JwksCache, get, set, is_stale, is_empty, collect, refresh, resolve_key,
}

module _ {K : Type 0} where
  lookup-is_empty : (kid : String) (m : Assoc K) → is_empty m ≡ true → lookup kid m ≡ none
  unfolding lookup
  lookup-is_empty kid [] h = refl
  lookup-is_empty kid (x ∷ m) h = ground arith

  -- After a rotation a key id is served from the new keys, or else from the old ones while the
  -- grace period runs; that period starts when the old keys were fetched.
  pub get-set :
      (now later : ℕ) (kid : String) (keys : Assoc K) (c : JwksCache K)
      → get later kid (set now keys c) ≡ elim (lookup kid keys) [
        | some k ↦ some k
        | none ↦ if ltb (later - c.fetched_at) c.grace_period then lookup kid c.keys else none
      ]
  unfolding get set
  get-set now later kid keys c = ground (arith, lookup-is_empty kid c.keys)

  module _ (parse : JwkKey → Option K) (c : JwksCache K) (kid : String) where
    -- A failed fetch changes nothing in the cache.
    resolve_key-error :
        (now later : ℕ) (fetched : Result (List JwkKey))
        → is_ok fetched ≡ false
        → (resolve_key parse now later fetched kid c).0 ≡ c
    unfolding resolve_key refresh
    resolve_key-error now later fetched h = ground arith

    -- A lookup never empties the cache of keys, whatever the endpoint answers.
    resolve_key-ne_empty :
        (now later : ℕ) (fetched : Result (List JwkKey))
        → is_empty c.keys ≡ false
        → is_empty (resolve_key parse now later fetched kid c).0.keys ≡ false
    unfolding resolve_key refresh set
    resolve_key-ne_empty now later fetched h = ground arith

    -- Where a stale cache is refreshed, the grace period is no longer than the time to live, and
    -- the new set does not hold the key id, the lookup fails: the old keys are refused at once.
    pub resolve_key-stale :
        (now later : ℕ) (raw : List JwkKey)
        → is_stale now c ≡ true
        → c.grace_period ≤ c.ttl
        → now ≤ later
        → lookup kid (collect parse [] raw) ≡ none
        → is_ok (resolve_key parse now later (ok raw) kid c).1 ≡ false
    unfolding resolve_key refresh is_stale get set
    resolve_key-stale now later raw s g l h = ground arith

    -- A second fetch of the same usable keys drops the old generation, however much of its grace
    -- period is left: a key id that those keys do not hold is found no more.
    pub refresh_twice :
        (first second later : ℕ) (raw : List JwkKey)
        → is_empty (collect parse [] raw) ≡ false
        → lookup kid (collect parse [] raw) ≡ none
        → get later kid (refresh parse second (ok raw) (refresh parse first (ok raw) c).0).0 ≡ none
    unfolding refresh get set
    refresh_twice first second later raw n h = ground arith
