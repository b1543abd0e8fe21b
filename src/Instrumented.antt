-- ===== src/Instrumented.antt =====
-- The wrappers that record metrics around a call: internal/service/instrumented_auth_service.go, and
-- instrumented_redis_repository.go and instrumented_device_session_repository.go of
-- internal/repository. A metric is what is added to a list; `now` is the clock of the world.
use central_auth.Common.{ℕ, ◌-◌, ◌≡◌, refl, String, Bool, Option, List, [], ◌∷◌, ◌++◌, arith}
use central_auth.Common.Eff.{Eff, Try}
use central_auth.Failure.{Result, ok, err}
use central_auth.Ports.{RedisRepo, DeviceSessionRepository}
use central_auth.Auth.{
  AuthService, VerifyResult, login, logout, logout_all, refresh, verify_token, signup, google_login,
}

-- `AuthOps`, and the three histograms, `OryOps`, `RedisOps` and `PostgresOps`, with a duration
pub data Sample : Type 0 where
  auth_ops : (operation result : String) → Sample
  ory_ops redis_ops postgres_ops : (operation : String) → (elapsed : ℕ) → Sample

abbrev pub Metrics : Type 0
Metrics = List Sample

-- `service.AuthServiceI`
pub record AuthServiceI (W : Type 0) : Type 0 where
  pub login :
      (kratos_id device_id : String)
      → Bool
      → (user_agent ip : Option String) → Try W (String × String)
  pub logout : String → Try W Unit
  pub logout_all : String → Try W Unit
  pub refresh : String → Try W (String × String)
  pub verify_token : String → Try W VerifyResult
  pub signup : String → Try W String
  pub google_login :
      (email device_id : String) → Bool → (user_agent ip : Option String) → Try W (String × String)

-- `OryAuthService` as that interface
abbrev pub auth_service : {W : Type 0} → AuthService W → AuthServiceI W
auth_service s = record {
  login = login s;
  logout = logout s;
  logout_all = logout_all s;
  refresh = refresh s;
  verify_token = verify_token s;
  signup = signup s;
  google_login = google_login s;
}

abbrev pub result_of : {A : Type 0} → Result A → String
result_of (ok a) = "ok"
result_of (err e) = "error"

module _ {W : Type 0} (now : W → ℕ) where
  -- A call between `time.Now()` and `Observe`
  unfoldable pub observed : {A : Type 0} → (ℕ → Sample) → Eff W A → Eff (Metrics × W) A
  observed sample m (ms, w) = let (a, w') = m w in (a, (ms ++ (sample (now w' - now w) ∷ []), w'))

  -- The same, with the count of its result before
  unfoldable pub counted :
      {A : Type 0} → (operation : String) → (ℕ → Sample) → Try W A → Try (Metrics × W) A
  counted operation sample m (ms, w) =
      let (r, w') = m w in
      (r, (ms ++ (auth_ops operation (result_of r) ∷ sample (now w' - now w) ∷ []), w'))

  -- `InstrumentedAuthService`
  unfoldable pub instrumented_auth_service : AuthServiceI W → AuthServiceI (Metrics × W)
  unfolding counted observed
  instrumented_auth_service delegate = record {
    login =
        λ k d r ua ip. counted "login" (ory_ops "hydra_issue_tokens") (delegate.login k d r ua ip);
    logout = λ t. counted "logout" (ory_ops "hydra_revoke_token") (delegate.logout t);
    logout_all = λ t. counted "logout_all" (ory_ops "hydra_revoke_all") (delegate.logout_all t);
    refresh = λ t. counted "refresh" (ory_ops "hydra_refresh_token") (delegate.refresh t);
    verify_token = λ t. observed (ory_ops "hydra_validate_jwt") (delegate.verify_token t);
    signup = λ e. counted "signup" (ory_ops "kratos_create_identity") (delegate.signup e);
    google_login = λ e d r ua ip.
        counted "google_login" (ory_ops "kratos_get_by_email") (delegate.google_login e d r ua ip);
  }

  -- `InstrumentedRedisRepo`
  unfoldable pub instrumented_redis_repo : RedisRepo W → RedisRepo (Metrics × W)
  unfolding observed
  instrumented_redis_repo delegate = record {
    save_login = λ k d t ttl. observed (redis_ops "save_login") (delegate.save_login k d t ttl);
    get_device_refresh_token = λ k d.
        observed (redis_ops "get_device_refresh_token") (delegate.get_device_refresh_token k d);
    rotate_refresh_token = λ k d t ttl.
        observed (redis_ops "rotate_refresh_token") (delegate.rotate_refresh_token k d t ttl);
    logout_device = λ k d. observed (redis_ops "logout_device") (delegate.logout_device k d);
    logout_all = λ k. observed (redis_ops "logout_all") (delegate.logout_all k);
  }

  -- `InstrumentedDeviceSessionRepository`
  unfoldable pub instrumented_device_session_repository :
      DeviceSessionRepository W → DeviceSessionRepository (Metrics × W)
  unfolding observed
  instrumented_device_session_repository delegate = record {
    save_device_session =
        λ s. observed (postgres_ops "save_device_session") (delegate.save_device_session s);
    update_last_used_at =
        λ k d. observed (postgres_ops "update_last_used_at") (delegate.update_last_used_at k d);
    revoke_device = λ k d. observed (postgres_ops "revoke_device") (delegate.revoke_device k d);
    revoke_all_devices =
        λ k. observed (postgres_ops "revoke_all_devices") (delegate.revoke_all_devices k);
    get_device_sessions =
        λ k. observed (postgres_ops "get_device_sessions") (delegate.get_device_sessions k);
    count_active_devices =
        λ k. observed (postgres_ops "count_active_devices") (delegate.count_active_devices k);
  }

-- A call of the service, and what it answers
pub data Call : Type 0 where
  logs_in signs_in : (who device_id : String) → Bool → (user_agent ip : Option String) → Call
  logs_out logs_out_all refreshes verifies signs_up : String → Call

pub data Outcome : Type 0 where
  tokens : Result (String × String) → Outcome
  done : Result (Unit {0}) → Outcome
  verified : Result VerifyResult → Outcome
  created : Result String → Outcome

abbrev with_outcome : {W A : Type 0} → (A → Outcome) → Eff W A → Eff W Outcome
with_outcome f m w = let (a, w') = m w in (f a, w')

module _ {W : Type 0} (s : AuthServiceI W) where
  abbrev pub call : Call → Eff W Outcome
  call (logs_in k d r ua ip) = with_outcome tokens (s.login k d r ua ip)
  call (signs_in e d r ua ip) = with_outcome tokens (s.google_login e d r ua ip)
  call (logs_out t) = with_outcome done (s.logout t)
  call (logs_out_all t) = with_outcome done (s.logout_all t)
  call (refreshes t) = with_outcome tokens (s.refresh t)
  call (verifies t) = with_outcome verified (s.verify_token t)
  call (signs_up e) = with_outcome created (s.signup e)

  abbrev pub calls : List Call → Eff W (List Outcome)
  calls [] w = ([], w)
  calls (c ∷ cs) w = let (o, w') = call c w in let (os, w'') = calls cs w' in (o ∷ os, w'')

module _ {W : Type 0} (now : W → ℕ) (s : AuthServiceI W) where
  call-instrumented_auth_service :
      (c : Call) (ms : Metrics) (w : W)
      → ((call (instrumented_auth_service now s) c (ms, w)).0 ≡ (call s c w).0)
        × ((call (instrumented_auth_service now s) c (ms, w)).1.1 ≡ (call s c w).1)
  unfolding instrumented_auth_service observed counted
  call-instrumented_auth_service (logs_in k d r ua ip) ms w = (refl, refl)
  call-instrumented_auth_service (signs_in e d r ua ip) ms w = (refl, refl)
  call-instrumented_auth_service (logs_out t) ms w = (refl, refl)
  call-instrumented_auth_service (logs_out_all t) ms w = (refl, refl)
  call-instrumented_auth_service (refreshes t) ms w = (refl, refl)
  call-instrumented_auth_service (verifies t) ms w = (refl, refl)
  call-instrumented_auth_service (signs_up e) ms w = (refl, refl)

  -- Whatever calls are made, the wrapped service answers them like the service, and leaves the same
  -- world beside the metrics.
  pub calls-instrumented_auth_service :
      (cs : List Call) (ms : Metrics) (w : W)
      → ((calls (instrumented_auth_service now s) cs (ms, w)).0 ≡ (calls s cs w).0)
        × ((calls (instrumented_auth_service now s) cs (ms, w)).1.1 ≡ (calls s cs w).1)
  calls-instrumented_auth_service [] ms w = (refl, refl)
  calls-instrumented_auth_service (c ∷ cs) ms w =
      let (o, (ms', w')) = call (instrumented_auth_service now s) c (ms, w) in
      let (same_outcome, same_world) = call-instrumented_auth_service c ms w in
      let rest = calls-instrumented_auth_service cs ms' w' in
      ground (arith, same_outcome, same_world, rest)
