-- ===== src/Resilient/Tokens/Stale.antt =====
-- Which token the cache hands out after a logout, with the Redis repository behind the decorator.
use central_auth.Bff.{second}
use central_auth.Common.{
  ℕ, ◌≤◌, ◌≡◌, ◌∙◌, ap, String, Option, none, some, true, arith, eq_iff, refl,
}
use central_auth.Common.Eff.{Eff}
use central_auth.Common.Int.{ℤ, pos}
use central_auth.Failure.{Failure, ok, sentinel, redis_unavailable}
use central_auth.Redis.{Redis, SortedSetLaws, StringLaws, QuietLink, has}
use central_auth.RedisRepository.{
  devices_key, refresh_key, redis_repository, save_login_script, seconds_of, max_devices,
}
use central_auth.RedisRepository as Repository
use central_auth.RedisRepository.Limit.{has-save_login_script, positive_seconds}
use central_auth.RedisRepository.Tokens.{get-save_login_script}
use central_auth.RedisRepository.Logout.{logout_all-ends}
use central_auth.Resilient.{CircuitBreaker}
use central_auth.Resilient.Guarded.{Cache, Finds, Apart, guarded, cached_read-hit}
use central_auth.Resilient.Tokens.{
  ResilientRedisRepo, device_token_l1_key, get_device_refresh_token, save_login, logout_device,
  logout_all,
}

module _ {W : Type 0} (r : ResilientRedisRepo W) (found : String → W → Option String)
    (finds : Finds r.l1 found) (apart : Apart r.cb found) (k : String) where
  open r use {delegate, cb, l1}

  guarded-called :
      (after : W → W) (call : W → Option Failure × W) (w : W)
      → (guarded cb after call w).0 ≡ none
      → (call (cb.allow w).1).0 ≡ none
  unfolding guarded
  guarded-called after call w done = ground (arith, done)

  guarded-none :
      (after : W → W) (call : W → Option Failure × W) (w : W)
      → (guarded cb after call w).0 ≡ none
      → (guarded cb after call w).1 ≡ after (cb.record_success (call (cb.allow w).1).1).1
  unfolding guarded
  guarded-none after call w done = ground (arith, done)

  cache-kept :
      (d token : String) (ttl : ℤ) (w : W)
      → ((key : String) (v : W) → found key (delegate.logout_all k v).1 ≡ found key v)
      → (save_login r k d token ttl w).0 ≡ none
      → (let w₁ = (save_login r k d token ttl w).1 in
          ((get_device_refresh_token r k d w₁).0 ≡ ok token)
          × ((logout_all r k w₁).0 ≡ none
              → (get_device_refresh_token r k d (logout_all r k w₁).1).0 ≡ ok token)
          × ((logout_device r k d w₁).0 ≡ none
              → found (device_token_l1_key k d) (logout_device r k d w₁).1 ≡ none))
  unfolding get_device_refresh_token save_login logout_all logout_device
  cache-kept d token ttl w keeps saved =
      let hit = cached_read-hit l1 cb (sentinel redis_unavailable) found finds apart in
      let key = device_token_l1_key k d in
      let w₁ = (save_login r k d token ttl w).1 in
      let here : (found key w₁ ≡ some token) =
        ap (found key)
          (guarded-none (λ v. (l1.set key token v).1) (delegate.save_login k d token ttl) w saved)
        ∙ finds.set_same key token
            (cb.record_success (delegate.save_login k d token ttl (cb.allow w).1).1).1 in
      (
        ap (λ v. v.0) (hit key token (delegate.get_device_refresh_token k d) w₁ here),
        (λ out.
            let w₂ = (logout_all r k w₁).1 in
            let still : (found key w₂ ≡ some token) =
              ap (found key) (guarded-none (λ v. v) (delegate.logout_all k) w₁ out)
              ∙ apart.success_keeps key (delegate.logout_all k (cb.allow w₁).1).1
              ∙ keeps key (cb.allow w₁).1
              ∙ apart.allow_keeps key w₁
              ∙ here in
            ap (λ v. v.0) (hit key token (delegate.get_device_refresh_token k d) w₂ still)),
        (λ out.
            ap (found key)
              (guarded-none (λ v. (l1.delete key v).1) (delegate.logout_device k d) w₁ out)
            ∙ finds.delete_same key
                (cb.record_success (delegate.logout_device k d (cb.allow w₁).1).1).1),
      )

-- A step on what Redis holds, and one on the memory of the process.
abbrev on_redis : {A R V : Type 0} → Eff R A → Eff (R × V) A
on_redis f w = ((f w.0).0, ((f w.0).1, w.1))

abbrev in_process : {A R V : Type 0} → Eff V A → Eff (R × V) A
in_process f w = ((f w.1).0, (w.0, (f w.1).1))

module _ {R V : Type 0} (c : Redis R) (now : R → ℕ) (cb : CircuitBreaker V)
    (l1 : Cache String V) where
  -- The repository of Redis behind the decorator
  abbrev pub decorated : ResilientRedisRepo (R × V)
  decorated =
      let repo = redis_repository c now in
      record {
        delegate = record {
          save_login = λ k d token ttl. on_redis (repo.save_login k d token ttl);
          get_device_refresh_token = λ k d. on_redis (repo.get_device_refresh_token k d);
          rotate_refresh_token =
              λ k d token ttl. on_redis (repo.rotate_refresh_token k d token ttl);
          logout_device = λ k d. on_redis (repo.logout_device k d);
          logout_all = λ k. on_redis (repo.logout_all k);
        };
        cb = record {
          allow = in_process cb.allow;
          record_success = in_process cb.record_success;
          record_failure = in_process cb.record_failure;
          state = in_process cb.state;
        };
        l1 = record {
          get = λ key. in_process (l1.get key);
          set = λ key v. in_process (l1.set key v);
          delete = λ key. in_process (l1.delete key);
        };
      }

  module _ (sorted : SortedSetLaws c) (strings : StringLaws c) (quiet : QuietLink c)
      (found : String → V → Option String) (finds : Finds l1 found) (apart : Apart cb found)
      (k : String) where
    abbrev cached : String → R × V → Option String
    cached key w = found key w.1

    decorated-Finds : Finds decorated.l1 cached
    decorated-Finds = record {
      get_found = λ key w. finds.get_found key w.1;
      get_keeps = λ key j w. finds.get_keeps key j w.1;
      set_same = λ key v w. finds.set_same key v w.1;
      set_ne = λ key j v w ne. finds.set_ne key j v w.1 ne;
      delete_same = λ key w. finds.delete_same key w.1;
      delete_ne = λ key j w ne. finds.delete_ne key j w.1 ne;
    }

    decorated-Apart : Apart decorated.cb cached
    decorated-Apart = record {
      allow_keeps = λ j w. apart.allow_keeps j w.1;
      success_keeps = λ j w. apart.success_keeps j w.1;
      failure_keeps = λ j w. apart.failure_keeps j w.1;
    }

    abbrev token_of : String → R × V → Option String
    token_of d w = c.get (refresh_key k d) w.0

    -- A login that returns no error has listed the device and stored its token.
    stored-save_login :
        (t ttl : ℕ) (d token : String) (r : R)
        → second ≤ ttl
        → (Repository.save_login c k t d token (pos ttl) r).0 ≡ none
        → (let r' = (Repository.save_login c k t d token (pos ttl) r).1 in
            (has d (c.z_range (devices_key k) r') ≡ true)
            × (c.get (refresh_key k d) r' ≡ some token))
    unfolding Repository.save_login
    stored-save_login t ttl d token r long h =
        let r₁ = (c.link r).1 in
        let s = seconds_of (pos ttl) in
        let positive = positive_seconds ttl long in
        ground (
          arith,
          h,
          eq_iff d d,
          has-save_login_script c sorted k t max_devices d d token s r₁ positive,
          get-save_login_script c sorted strings k t max_devices d d token s r₁ positive,
        )

    -- As long as the cache lets no entry expire, by what Redis documents, and with a time to live of
    -- at least a second: after a `SaveLogin` without error Redis holds the new token, and
    -- `GetDeviceRefreshToken` returns it. After a `LogoutAll` without error that follows, Redis
    -- holds no token for the device, but `GetDeviceRefreshToken` still returns the old one, from
    -- the cache. A `LogoutDevice` without error instead takes the token out of the cache.
    pub logout_all-stale :
        (d token : String) (ttl : ℕ) (w : R × V)
        → second ≤ ttl
        → (save_login decorated k d token (pos ttl) w).0 ≡ none
        → (let w₁ = (save_login decorated k d token (pos ttl) w).1 in
            (token_of d w₁ ≡ some token)
            × ((get_device_refresh_token decorated k d w₁).0 ≡ ok token)
            × ((logout_all decorated k w₁).0 ≡ none
                → (let w₂ = (logout_all decorated k w₁).1 in
                    (token_of d w₂ ≡ none)
                    × ((get_device_refresh_token decorated k d w₂).0 ≡ ok token)))
            × ((logout_device decorated k d w₁).0 ≡ none
                → cached (device_token_l1_key k d) (logout_device decorated k d w₁).1 ≡ none))
    unfolding save_login logout_all
    logout_all-stale d token ttl w long saved =
        let called = guarded-called decorated cached decorated-Finds decorated-Apart k in
        let ended = guarded-none decorated cached decorated-Finds decorated-Apart k in
        let login = decorated.delegate.save_login k d token (pos ttl) in
        let out_all = decorated.delegate.logout_all k in
        let store = λ (v : R × V). (decorated.l1.set (device_token_l1_key k d) token v).1 in
        let w₁ = (save_login decorated k d token (pos ttl) w).1 in
        let first = ap (λ v. v.0) (ended store login w saved) in
        let (is_listed, is_stored) =
          stored-save_login (now w.0) ttl d token w.0 long (called store login w saved) in
        let (hit, still, gone) =
          cache-kept decorated cached decorated-Finds decorated-Apart k d token (pos ttl) w
            (λ key v. refl) saved in
        (
          ap (c.get (refresh_key k d)) first ∙ is_stored,
          hit,
          (λ out.
              let emptied =
                (logout_all-ends c sorted strings quiet k w₁.0).0
                  (called (λ v. v) out_all w₁ out) in
              (
                ap (λ v. token_of d v) (ended (λ v. v) out_all w₁ out)
                    ∙ emptied.no_tokens d
                        (ap (λ r. has d (c.z_range (devices_key k) r)) first ∙ is_listed),
                still out,
              )),
          gone,
        )
