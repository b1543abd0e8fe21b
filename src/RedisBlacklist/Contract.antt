-- ===== src/RedisBlacklist/Contract.antt =====
-- What the blacklist in Redis promises, from what Redis documents of `SET` and `EXISTS`.
use mathlib.Core.Path.{subst}
use central_auth.Common.{◌≡◌, sym, String, true, none, List, [], ◌∷◌, map, arith, All}
use central_auth.Common.Int.{ℤ, pos, lt_ℤ}
use central_auth.Failure.{ok}
use central_auth.Resilient.Blacklist.{ResilientBlacklist}
use central_auth.Resilient.Blacklist.{is_blacklisted as resilient_check}
use central_auth.Resilient.Blacklist.Closed.{
  fails_closed, is_blacklisted-fails_closed, with_delegate,
}
use central_auth.RedisBlacklist.{
  RedisClient, SetArgs, min_blacklist_ttl, blacklist_key, entry, add, is_blacklisted, add_batch,
  redis_blacklist,
}

-- A key that was set with a positive time to live, alone or in a transaction, exists.
pub record RedisLaws {W : Type 0} (rdb : RedisClient W) : Type 0 where
  pub set_exists :
      (key value : String) (ttl : ℤ) (w : W)
      → lt_ℤ (pos 0) ttl ≡ true
      → (rdb.set (key, value, ttl) w).0 ≡ none
      → (rdb.exists key (rdb.set (key, value, ttl) w).1).0 ≡ ok 1
  pub exec_exists :
      (sets : List SetArgs) (w : W)
      → All (λ c. lt_ℤ (pos 0) c.2 ≡ true) sets
      → (rdb.exec sets w).0 ≡ none
      → All (λ c. (rdb.exists c.0 (rdb.exec sets w).1).0 ≡ ok 1) sets

module _ {W : Type 0} (rdb : RedisClient W) where
  redis-fails_closed : (id : String) (w : W) → fails_closed (is_blacklisted rdb id w).0 ≡ true
  unfolding is_blacklisted
  redis-fails_closed id w = ground arith

  -- The blacklist in Redis is the delegate that the resilient blacklist expects: around it every
  -- check that ends in an error denies access.
  redis_delegate-fails_closed :
      (r : ResilientBlacklist W) (id : String) (w : W)
      → fails_closed (resilient_check (with_delegate r (redis_blacklist rdb)) id w).0 ≡ true
  redis_delegate-fails_closed r id w =
      is_blacklisted-fails_closed (with_delegate r (redis_blacklist rdb)) id (redis-fails_closed id)
        w

  module _ (laws : RedisLaws rdb) where
    -- By the laws of Redis, a session whose `Add` returned no error is blacklisted right after it,
    -- whatever time to live was asked for, also one that has run out.
    pub add-is_blacklisted :
        (id : String) (ttl : ℤ) (w : W)
        → (add rdb id ttl w).0 ≡ none
        → (is_blacklisted rdb id (add rdb id ttl w).1).0 ≡ (true, none)
    unfolding add is_blacklisted
    add-is_blacklisted id ttl w h = ground (
      arith,
      h,
      laws.set_exists (blacklist_key id) "1" ttl w,
      laws.set_exists (blacklist_key id) "1" min_blacklist_ttl w,
    )

    entries-live :
        (ttl : ℤ) (ids : List String)
        → lt_ℤ (pos 0) ttl ≡ true
        → All (λ c. lt_ℤ (pos 0) c.2 ≡ true) (map (entry ttl) ids)
    entries-live ttl [] h = tt
    entries-live ttl (id ∷ ids) h = (h, entries-live ttl ids h)

    answers_listed :
        (ttl : ℤ) (ids : List String) (v : W)
        → All (λ c. (rdb.exists c.0 v).0 ≡ ok 1) (map (entry ttl) ids)
        → All (λ id. (is_blacklisted rdb id v).0 ≡ (true, none)) ids
    unfolding is_blacklisted
    answers_listed ttl [] v h = tt
    answers_listed ttl (id ∷ ids) v h = (ground (arith, h.0), answers_listed ttl ids v h.1)

    exec-ok :
        (id : String) (ids : List String) (ttl : ℤ) (w : W)
        → lt_ℤ (pos 0) ttl ≡ true
        → (add_batch rdb (id ∷ ids) ttl w).0 ≡ none
        → (let sets = map (entry ttl) (id ∷ ids) in
            ((rdb.exec sets w).0 ≡ none)
            × ((add_batch rdb (id ∷ ids) ttl w).1 ≡ (rdb.exec sets w).1))
    unfolding add_batch
    exec-ok id ids ttl w positive h = ground (arith, positive, h)

    -- By the laws of Redis, after an `AddBatch` with a positive time to live that returned no
    -- error each of its sessions is blacklisted.
    pub add_batch-is_blacklisted :
        (ids : List String) (ttl : ℤ) (w : W)
        → lt_ℤ (pos 0) ttl ≡ true
        → (add_batch rdb ids ttl w).0 ≡ none
        → All (λ id. (is_blacklisted rdb id (add_batch rdb ids ttl w).1).0 ≡ (true, none)) ids
    add_batch-is_blacklisted [] ttl w positive h = tt
    add_batch-is_blacklisted (id ∷ ids) ttl w positive h =
        let sets = map (entry ttl) (id ∷ ids) in
        let (done, end) = exec-ok id ids ttl w positive h in
        subst (λ v. All (λ x. (is_blacklisted rdb x v).0 ≡ (true, none)) (id ∷ ids)) (sym end)
          (answers_listed ttl (id ∷ ids) (rdb.exec sets w).1
            (laws.exec_exists sets w (entries-live ttl (id ∷ ids) positive) done))
