-- ===== src/Resilient/Sessions.antt =====
-- internal/resilience/resilient_session_store.go: the session store behind the circuit breaker, with
-- the in-process cache for reads. Log lines and counters are left out. `copySess` copies a
-- struct of values, which is the identity here.
pub mod Evicted
pub mod Refresh
use Prim.Native.String.{◌++◌}
use central_auth.Common.{
  String, Bool, true, false, Option, none, some, List, [], ◌∷◌, if◌then◌else◌,
}
use central_auth.Common.Int.{ℤ}
use central_auth.Common.Eff.{Eff, Try}
use central_auth.Failure.{Failure, Result, ok, err, sentinel, session_not_found, is_infra}
use central_auth.Ports.{SessionStore}
use central_auth.Ports.Types.{BffSession}
use central_auth.Resilient.{CircuitBreaker}
use central_auth.Resilient.Guarded.{Cache, guarded, guarded_try, cached_read}

pub record ResilientSessionStore (W : Type 0) : Type 0 where
  pub delegate : SessionStore W
  pub cb : CircuitBreaker W
  pub l1 : Cache BffSession W

-- `sessionL1Prefix + sessionID`
abbrev pub l1_key : String → String
l1_key session_id = "sess:" ++ session_id

module _ {W : Type 0} (s : ResilientSessionStore W) where
  open s use {delegate, cb, l1}

  -- `Get`
  unfoldable pub get : String → Try W BffSession
  get session_id =
      cached_read l1 cb (sentinel session_not_found) (l1_key session_id) (delegate.get session_id)

  abbrev cache_session : BffSession → W → W
  cache_session sess w = (l1.set (l1_key sess.session_id) sess w).1

  -- `Create`
  unfoldable pub create : BffSession → Eff W (Option Failure)
  create sess = guarded cb (cache_session sess) (delegate.create sess)

  -- `Update`
  unfoldable pub update : BffSession → Eff W (Option Failure)
  update sess = guarded cb (cache_session sess) (delegate.update sess)

  -- `Delete`; the cache is cleared first.
  unfoldable pub delete : String → Eff W (Option Failure)
  delete session_id w =
      let (_, w') = l1.delete (l1_key session_id) w in
      guarded cb (λ v. v) (delegate.delete session_id) w'

  -- `GetAllForUser`
  unfoldable pub get_all_for_user : String → Try W (List BffSession)
  get_all_for_user kratos_id =
      guarded_try cb (λ sessions w. w) (delegate.get_all_for_user kratos_id)

  unfoldable pub evict_all : List String → W → W
  evict_all [] w = w
  evict_all (id ∷ ids) w = evict_all ids (l1.delete (l1_key id) w).1

  -- `DeleteAllForUser`
  unfoldable pub delete_all_for_user : String → Try W (List String)
  unfolding evict_all
  delete_all_for_user kratos_id = guarded_try cb evict_all (delegate.delete_all_for_user kratos_id)

  lock_reply : Result Bool → Try W Bool
  lock_reply (ok acquired) w = (ok acquired, (cb.record_success w).1)
  lock_reply (err e) w =
      if is_infra e then (ok false, (cb.record_failure w).1) else (err e, (cb.record_success w).1)

  -- `AcquireRefreshLock`
  unfoldable pub acquire_refresh_lock : String → ℤ → Try W Bool
  unfolding lock_reply
  acquire_refresh_lock session_id ttl w =
      let (allowed, w₁) = cb.allow w in
      if allowed
      then (let (r, w₂) = delegate.acquire_refresh_lock session_id ttl w₁ in lock_reply r w₂)
      else (ok false, w₁)

  -- `ReleaseRefreshLock`
  unfoldable pub release_refresh_lock : String → Eff W (Option Failure)
  release_refresh_lock session_id = guarded cb (λ v. v) (delegate.release_refresh_lock session_id)

  -- The decorator, as a session store.
  abbrev pub as_store : SessionStore W
  as_store = record {
    create = create;
    get = get;
    update = update;
    delete = delete;
    get_all_for_user = get_all_for_user;
    delete_all_for_user = delete_all_for_user;
    acquire_refresh_lock = acquire_refresh_lock;
    release_refresh_lock = release_refresh_lock;
  }
