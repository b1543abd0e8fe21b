-- ===== src/Resilient/Blacklist/Outage.antt =====
-- What a revocation is worth that the decorated blacklist takes while Redis is out.
use central_auth.Common.{
  ℕ, ◌≡◌, refl, ap, ◌∙◌, String, Bool, true, false, Option, none, some, List, [], ◌∷◌, arith,
}
use central_auth.Common.Int.{ℤ, lt_ℤ, pos}
use central_auth.Failure.{Failure, Result, ok, err, is_infra_error, sentinel, redis_unavailable}
use central_auth.Resilient.{CacheLaws, BlacklistEntry}
use central_auth.Resilient.Blacklist.{
  ResilientBlacklist, is_blacklisted, check_fallback, after_l1, add, add_fallback, after_pg_add,
  add_time, load, until, sync_from_pg, load_result, background_sync, sync_if_open,
}
use central_auth.Breaker.{State, opened, closed, half_open}

module _ {W : Type 0} (r : ResilientBlacklist W) where
  add-open :
      (id : String) (ttl : ℤ) (w : W)
      → (r.cb.allow w).0 ≡ false
      → (r.pg_repo.add id (add_time (r.now (r.cb.allow w).1) ttl) (r.cb.allow w).1).0 ≡ none
      → (let w1 = (r.cb.allow w).1 in
          let w2 = (r.pg_repo.add id (add_time (r.now w1) ttl) w1).1 in
          add r id ttl w ≡ (some (sentinel redis_unavailable), (r.l1.set id true ttl w2).1))
  unfolding add add_fallback after_pg_add
  add-open id ttl w refused written = ground (arith, refused, written)

  is_blacklisted-cached :
      (id : String) (b : Bool) (w : W)
      → (r.cb.allow w).0 ≡ false
      → (r.l1.get id (r.cb.allow w).1).0 ≡ some b
      → (is_blacklisted r id w).0 ≡ (b, none)
  unfolding is_blacklisted check_fallback after_l1
  is_blacklisted-cached id b w refused found = ground (arith, refused, found)

  is_blacklisted-redis :
      (id : String) (b : Bool) (w : W)
      → (r.cb.allow w).0 ≡ true
      → (r.delegate.is_blacklisted id (r.cb.allow w).1).0 ≡ (b, none)
      → (is_blacklisted r id w).0 ≡ (b, none)
  unfolding is_blacklisted is_infra_error
  is_blacklisted-redis id b w allowed answer = ground (arith, allowed, answer)

  -- In an outage a revocation holds: the circuit refuses an `Add` with a positive lifetime and
  -- then an `IsBlacklisted` of the same session, asking the circuit does not touch the cache, the
  -- cache keeps its laws, and PostgreSQL takes the row. Then the `Add` answers
  -- `ErrRedisUnavailable` and the check `true` without an error.
  pub add-is_blacklisted_open :
      CacheLaws r.l1
      → (id : String) (ttl : ℤ) (w : W)
      → ((v : W) → (r.l1.get id (r.cb.allow v).1).0 ≡ (r.l1.get id v).0)
      → lt_ℤ (pos 0) ttl ≡ true
      → (r.cb.allow w).0 ≡ false
      → (r.pg_repo.add id (add_time (r.now (r.cb.allow w).1) ttl) (r.cb.allow w).1).0 ≡ none
      → (r.cb.allow (add r id ttl w).1).0 ≡ false
      → ((add r id ttl w).0 ≡ some (sentinel redis_unavailable))
        × ((is_blacklisted r id (add r id ttl w).1).0 ≡ (true, none))
  add-is_blacklisted_open laws id ttl w keeps positive refused written still =
      let w1 = (r.cb.allow w).1 in
      let w2 = (r.pg_repo.add id (add_time (r.now w1) ttl) w1).1 in
      let added = add-open id ttl w refused written in
      (
        ap (λ p. p.0) added,
        is_blacklisted-cached id true (add r id ttl w).1 still (
            keeps (add r id ttl w).1
            ∙ ap (λ p. (r.l1.get id p.1).0) added
            ∙ laws.get_set id true ttl w2 positive),
      )

-- What the fallback does is not seen in Redis: the circuit, the cache and PostgreSQL leave its
-- answers alone.
pub record RedisApart {W : Type 0} (r : ResilientBlacklist W) (id : String) : Type 0 where
  pub after_allow :
      (w : W)
      → (r.delegate.is_blacklisted id (r.cb.allow w).1).0 ≡ (r.delegate.is_blacklisted id w).0
  pub after_state :
      (w : W)
      → (r.delegate.is_blacklisted id (r.cb.state w).1).0 ≡ (r.delegate.is_blacklisted id w).0
  pub after_set :
      (i : String) (b : Bool) (ttl : ℤ) (w : W)
      → (r.delegate.is_blacklisted id (r.l1.set i b ttl w).1).0 ≡ (r.delegate.is_blacklisted id w).0
  pub after_pg_add :
      (i : String) (t : ℤ) (w : W)
      → (r.delegate.is_blacklisted id (r.pg_repo.add i t w).1).0
        ≡ (r.delegate.is_blacklisted id w).0
  pub after_list :
      (w : W)
      → (r.delegate.is_blacklisted id (r.pg_repo.list_active w).1).0
        ≡ (r.delegate.is_blacklisted id w).0

module _ {W : Type 0} (r : ResilientBlacklist W) (id : String) (apart : RedisApart r id) where
  abbrev in_redis : W → Bool × Option Failure
  in_redis w = (r.delegate.is_blacklisted id w).0

  load-Apart :
      (now : ℕ) (entries : List BlacklistEntry) (w : W)
      → in_redis (load r now entries w) ≡ in_redis w
  unfolding load
  load-Apart now [] w = refl
  load-Apart now (e ∷ entries) w =
      let w' = (r.l1.set e.session_id true (until e.expires_at now) w).1 in
      ground (
        arith,
        load-Apart now entries w,
        load-Apart now entries w',
        apart.after_set e.session_id true (until e.expires_at now) w,
      )

  load_result-Apart :
      (entries : Result (List BlacklistEntry)) (w : W)
      → in_redis (load_result r entries w) ≡ in_redis w
  unfolding load_result
  load_result-Apart (err e) w = refl
  load_result-Apart (ok entries) w = load-Apart (r.now w) entries w

  sync_from_pg-Apart : (w : W) → in_redis (sync_from_pg r w) ≡ in_redis w
  unfolding sync_from_pg
  sync_from_pg-Apart w =
      load_result-Apart (r.pg_repo.list_active w).0 (r.pg_repo.list_active w).1 ∙ apart.after_list w

  sync_if_open-Apart : (s : State) (w : W) → in_redis (sync_if_open r s w) ≡ in_redis w
  unfolding sync_if_open
  sync_if_open-Apart opened w = sync_from_pg-Apart w
  sync_if_open-Apart closed w = refl
  sync_if_open-Apart half_open w = refl

  background_sync-Apart : (w : W) → in_redis (background_sync r w) ≡ in_redis w
  unfolding background_sync
  background_sync-Apart w =
      sync_if_open-Apart (r.cb.state w).0 (r.cb.state w).1 ∙ apart.after_state w

  add-Apart :
      (ttl : ℤ) (w : W)
      → (r.cb.allow w).0 ≡ false
      → (r.pg_repo.add id (add_time (r.now (r.cb.allow w).1) ttl) (r.cb.allow w).1).0 ≡ none
      → in_redis (add r id ttl w).1 ≡ in_redis w
  add-Apart ttl w refused written =
      let w1 = (r.cb.allow w).1 in
      let t = add_time (r.now w1) ttl in
      let w2 = (r.pg_repo.add id t w1).1 in
      ap (λ p. in_redis p.1) (add-open r id ttl w refused written)
      ∙ apart.after_set id true ttl w2
      ∙ apart.after_pg_add id t w1
      ∙ apart.after_allow w

  -- A revocation that was accepted in an outage is forgotten when Redis is back: a session that
  -- Redis does not list is revoked while the circuit refuses, the background sync runs, and time
  -- passes (`pause`) without a change of what Redis answers. Once the circuit lets a call
  -- through, the check answers that the session is not blacklisted.
  pub recovery_forgets :
      (ttl : ℤ) (w : W) (pause : W → W)
      → ((v : W) → in_redis (pause v) ≡ in_redis v)
      → in_redis w ≡ (false, none)
      → (r.cb.allow w).0 ≡ false
      → (r.pg_repo.add id (add_time (r.now (r.cb.allow w).1) ttl) (r.cb.allow w).1).0 ≡ none
      → (r.cb.allow (pause (background_sync r (add r id ttl w).1))).0 ≡ true
      → (is_blacklisted r id (pause (background_sync r (add r id ttl w).1))).0 ≡ (false, none)
  recovery_forgets ttl w pause apart_pause unlisted refused written back =
      let added = (add r id ttl w).1 in
      let synced = background_sync r added in
      is_blacklisted-redis r id false (pause synced) back (
        apart.after_allow (pause synced)
        ∙ apart_pause synced
        ∙ background_sync-Apart added
        ∙ add-Apart ttl w refused written
        ∙ unlisted)
