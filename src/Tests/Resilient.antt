-- ===== src/Tests/Resilient.antt =====
-- The decorated blacklist on a small world, with the circuit open or closed by hand.
use central_auth.Common.{
  ◌≡◌, refl, String, Bool, true, false, not, ◌||◌, none, some, List, [], ◌∷◌, ◌++◌, arith,
  if◌then◌else◌, str_eq, eq_iff,
}
use central_auth.Common.Assoc.{Assoc, lookup, insert, lookup-insert}
use central_auth.Common.Int.{ℤ, pos}
use central_auth.Failure.{ok, sentinel, plain, redis_unavailable}
use central_auth.Breaker.{opened, closed}
use central_auth.Ports.{Blacklist}
use central_auth.Resilient.{BlacklistEntry, CacheLaws}
use central_auth.Resilient.Blacklist.{ResilientBlacklist, is_blacklisted, add, background_sync}
use central_auth.Resilient.Blacklist.Closed.{fails_closed, is_blacklisted-fails_closed}
use central_auth.Resilient.Blacklist.Outage.{add-is_blacklisted_open, RedisApart, recovery_forgets}

record World : Type 0 where
  is_open : Bool
  redis : List String
  cache : Assoc Bool
  rows : List BlacklistEntry

abbrev has : String → List String → Bool
has id [] = false
has id (x ∷ xs) = str_eq x id || has id xs

abbrev redis_blacklist : Blacklist World
redis_blacklist = record {
  add = λ id ttl w. (none, record w { redis = id ∷ w.redis });
  is_blacklisted = λ id w. ((has id w.redis, none), w);
  add_batch = λ ids ttl w. (none, record w { redis = ids ++ w.redis });
}

abbrev broken : Blacklist World
broken = record {
  add = λ id ttl w. (some plain, w);
  is_blacklisted = λ id w. ((true, some plain), w);
  add_batch = λ ids ttl w. (some plain, w);
}

abbrev shop : ResilientBlacklist World
shop = record {
  delegate = redis_blacklist;
  cb = record {
    allow = λ w. (not w.is_open, w);
    record_success = λ w. (tt, w);
    record_failure = λ w. (tt, w);
    state = λ w. (if w.is_open then opened else closed, w);
  };
  l1 = record {
    get = λ id w. (lookup id w.cache, w);
    set = λ id b ttl w. (tt, record w { cache = insert id b w.cache });
  };
  pg_repo = record {
    is_blacklisted = λ id w. (ok false, w);
    add = λ id t w. (none, record w { rows = record { session_id = id; expires_at = t } ∷ w.rows });
    delete_expired = λ w. (none, w);
    list_active = λ w. (ok w.rows, w);
  };
  now = λ w. 1000;
}

shop-CacheLaws : CacheLaws shop.l1
shop-CacheLaws = record {
  get_set = λ id v ttl w positive. ground (arith, lookup-insert id id v w.cache, eq_iff id id);
  get_set_ne =
      λ i j v ttl w ne. ground (arith, lookup-insert j i v w.cache, eq_iff j i, eq_iff i j, ne);
}

abbrev outage : World
outage = record {
  is_open = true;
  redis = [];
  cache = [];
  rows = record { session_id = "s0"; expires_at = pos 9000 } ∷ [];
}

abbrev calm : World
calm = record outage { is_open = false }

abbrev minute : ℤ
minute = pos 60_000_000_000

is_blacklisted-fails_closed_example : fails_closed (is_blacklisted shop "s" outage).0 ≡ true
is_blacklisted-fails_closed_example = is_blacklisted-fails_closed shop "s" (λ w. refl) outage

add-is_blacklisted_open_example :
    ((add shop "s" minute outage).0 ≡ some (sentinel redis_unavailable))
    × ((is_blacklisted shop "s" (add shop "s" minute outage).1).0 ≡ (true, none))
unfolding add
add-is_blacklisted_open_example =
    add-is_blacklisted_open shop shop-CacheLaws "s" minute outage (λ v. refl) refl refl refl refl

shop-RedisApart : RedisApart shop "s"
shop-RedisApart = record {
  after_allow = λ w. refl;
  after_state = λ w. refl;
  after_set = λ i b ttl w. refl;
  after_pg_add = λ i t w. refl;
  after_list = λ w. refl;
}

-- The circuit closes again.
abbrev recover : World → World
recover w = record w { is_open = false }

recovery_forgets_example :
    (is_blacklisted shop "s" (recover (background_sync shop (add shop "s" minute outage).1))).0
    ≡ (false, none)
unfolding background_sync add
recovery_forgets_example =
    recovery_forgets shop "s" shop-RedisApart minute outage recover (λ v. refl) refl refl refl refl
