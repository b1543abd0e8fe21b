-- ===== src/Auth/Verify.antt =====
-- What `VerifyToken` accepts, and what a logout leaves for it.
use mathlib.Core.Path.{subst}
use Prim.Native.String.{◌++◌}
use central_auth.Common.{
  ◌≡◌, Option-cases, inl, inr, sym, ap, ◌∙◌, String, Bool, true, false, Option, none, some, arith,
  if◌then◌else◌, str_eq,
}
use central_auth.Common.Int.{ℤ, pos}
use central_auth.Common.Eff.{Eff, Try, continue, wrapped_result, checked_result}
use central_auth.Failure.{Failure, Result, ok, err, is_ok}
use central_auth.Ports.{Blacklist}
use central_auth.Ports.Types.{
  AccessTokenClaims, IntrospectResult, BlacklistSyncEvent, AuthSessionEvent, device_id,
}
use central_auth.Bff.{is_fatal, refresh_ttl_long, refresh_ttl_short}
use central_auth.Bff.Revocation.{blocks, Keeps}
use central_auth.Auth.{
  AuthService, VerifyResult, device_key, user_key, verify_token, verify_claims, check_revoked,
  check_keys, logout, logout_active, revoke_one, publish_sync, login, audit_jti, unix,
}

module _ {W : Type 0} (s : AuthService W) (token : String) (w w₁ : W) (claims : AccessTokenClaims)
    (valid : s.hydra.validate_access_token token w ≡ (ok claims, w₁)) where
  -- With a blacklist configured, a token of a valid signature is accepted only with a subject and
  -- a device, its result names both, and the blacklist has answered, for the device and then for
  -- the user, that neither is revoked.
  pub verify_token-ok :
      (b : Blacklist W) (result : VerifyResult)
      → s.blacklist ≡ some b
      → (verify_token s token w).0 ≡ ok result
      → (result ≡ record {
        kratos_id = claims.subject;
        device_id = device_id claims.ext;
        expires_at = unix claims.expires_at;
      })
        × (str_eq result.kratos_id "" ≡ false)
        × (str_eq result.device_id "" ≡ false)
        × (let device = b.is_blacklisted (device_key claims.subject (device_id claims.ext)) w₁ in
            (device.0 ≡ (false, none))
            × ((b.is_blacklisted (user_key claims.subject) device.1).0 ≡ (false, none)))
  unfolding verify_token verify_claims check_revoked check_keys
  verify_token-ok b result set accepted = ground (arith, valid, set, accepted)

  -- With a blacklist or without, the result of an accepted token is that of its claims.
  pub verify_token-claims :
      (result : VerifyResult)
      → (verify_token s token w).0 ≡ ok result
      → result ≡ record {
        kratos_id = claims.subject;
        device_id = device_id claims.ext;
        expires_at = unix claims.expires_at;
      }
  unfolding verify_token verify_claims check_revoked
  verify_token-claims result accepted = elim (Option-cases s.blacklist) [
    | inl unset ↦ ground (arith, valid, unset, accepted)
    | inr (b, set) ↦ (verify_token-ok b result set accepted).0
  ]

  -- The check of `VerifyToken` fails closed: a device that the blacklist lists, or cannot be asked
  -- about, is refused.
  verify_token-blocked :
      (b : Blacklist W)
      → s.blacklist ≡ some b
      → blocks (b.is_blacklisted (device_key claims.subject (device_id claims.ext)) w₁).0 ≡ true
      → is_ok (verify_token s token w).0 ≡ false
  unfolding verify_token verify_claims check_revoked check_keys
  verify_token-blocked b set blocked = ground (arith, valid, set, blocked)

-- The contract of the blacklist behind the service, as in Bff.Revocation.
pub record AuthLaws {W : Type 0} (s : AuthService W) (b : Blacklist W)
    (Revoked : String → W → Type 0) : Type 0 where
  pub add_revokes :
      (key : String) (ttl : ℤ) (w : W)
      → is_fatal (b.add key ttl w).0 ≡ false
      → Revoked key (b.add key ttl w).1
  pub check_blocks :
      (key : String) (w : W) → Revoked key w → blocks (b.is_blacklisted key w).0 ≡ true
  pub keeps_publish :
      (e : BlacklistSyncEvent) → Keeps Revoked (s.publisher.publish_blacklist_sync e)
  pub keeps_publish_auth :
      (e : AuthSessionEvent) → Keeps Revoked (s.publisher.publish_auth_session e)
  pub keeps_logout_device : (k d : String) → Keeps Revoked (s.redis_repo.logout_device k d)
  pub keeps_revoke_device : (k d : String) → Keeps Revoked (s.device_session_repo.revoke_device k d)
  pub keeps_issue : (k d : String) (r : Bool) → Keeps Revoked (s.hydra.issue_tokens k d r)
  pub keeps_save : (k d t : String) (ttl : ℤ) → Keeps Revoked (s.redis_repo.save_login k d t ttl)
  pub keeps_validate : (t : String) → Keeps Revoked (s.hydra.validate_access_token t)

continue-Revoked :
    {W A B : Type 0} (Revoked : String → W → Type 0) (r : Result A) (f : A → Try W B) (key : String)
    (w : W)
    → ((a : A) → Keeps Revoked (f a))
    → Revoked key w
    → Revoked key (continue r f w).1
continue-Revoked Revoked (ok a) f key w k h = k a key w h
continue-Revoked Revoked (err e) f key w k h = h

module _ {W : Type 0} (s : AuthService W) (b : Blacklist W) (set : s.blacklist ≡ some b)
    (Revoked : String → W → Type 0) (laws : AuthLaws s b Revoked) where
  -- The call of the blacklist in a logout, and what follows it.
  entry : (token k d : String) → Eff W (Option Failure)
  entry token k d w = b.add (device_key k d) (pos refresh_ttl_long) (s.hydra.revoke_token token w).1

  after_entry : (k d : String) → W → W
  unfolding publish_sync
  after_entry k d v =
      let v₁ = (publish_sync s "DEVICE" (k ++ ":" ++ d) "user logout" v).1 in
      (s.device_session_repo.revoke_device k d (s.redis_repo.logout_device k d v₁).1).1

  revoke_one-ok :
      (token k d : String) (w : W)
      → is_ok (revoke_one s token k d w).0 ≡ true
      → (is_fatal (entry token k d w).0 ≡ false)
        × ((revoke_one s token k d w).1 ≡ after_entry k d (entry token k d w).1)
  unfolding revoke_one entry after_entry publish_sync
  revoke_one-ok token k d w h = ground (arith, set, h)

  after_entry-Keeps : (k d key : String) (v : W) → Revoked key v → Revoked key (after_entry k d v)
  unfolding after_entry publish_sync
  after_entry-Keeps k d key v q =
      laws.keeps_revoke_device k d key _
        (laws.keeps_logout_device k d key _ (laws.keeps_publish _ key v q))

  revoke_one-Revoked :
      (token k d : String) (w : W)
      → is_ok (revoke_one s token k d w).0 ≡ true
      → Revoked (device_key k d) (revoke_one s token k d w).1
  revoke_one-Revoked token k d w h =
      let (taken, end) = revoke_one-ok token k d w h in
      subst (Revoked (device_key k d)) (sym end) (
        after_entry-Keeps k d (device_key k d) (entry token k d w).1 (
          unfold entry in
          laws.add_revokes (device_key k d) (pos refresh_ttl_long) (s.hydra.revoke_token token w).1
            taken))

  logout-ok :
      (token : String) (r : IntrospectResult) (w w₁ : W)
      → s.hydra.introspect_token token w ≡ (ok r, w₁)
      → is_ok (logout s token w).0 ≡ true
      → logout s token w ≡ revoke_one s token r.subject (device_id r.ext) w₁
  unfolding logout logout_active
  logout-ok token r w w₁ h accepted = ground (arith, h, accepted)

  -- With a blacklist configured that keeps its contract, a logout that returns no error, of a
  -- token that Hydra introspects, leaves the device on the blacklist.
  pub device-Revoked :
      (token : String) (r : IntrospectResult) (w w₁ : W)
      → s.hydra.introspect_token token w ≡ (ok r, w₁)
      → is_ok (logout s token w).0 ≡ true
      → Revoked (device_key r.subject (device_id r.ext)) (logout s token w).1
  device-Revoked token r w w₁ h accepted =
      let end = logout-ok token r w w₁ h accepted in
      subst (λ p. Revoked (device_key r.subject (device_id r.ext)) p.1) (sym end)
        (revoke_one-Revoked token r.subject (device_id r.ext) w₁
          (ap (λ p. is_ok p.0) (sym end) ∙ accepted))

  login-Keeps :
      (k d : String) (remember_me : Bool) (user_agent ip : Option String)
      → Keeps Revoked (login s k d remember_me user_agent ip)
  unfolding login audit_jti
  login-Keeps k d remember_me user_agent ip key w h =
      let (issued, w₁) = s.hydra.issue_tokens k d remember_me w in
      continue-Revoked Revoked (wrapped_result issued) _ key w₁
        (λ tokens key v h.
          let ttl = pos (if remember_me then refresh_ttl_long else refresh_ttl_short) in
          let (saved, v₁) = s.redis_repo.save_login k d tokens.refresh_token ttl v in
          continue-Revoked Revoked (wrapped_result (checked_result saved)) _ key v₁
            (λ _ key u h.
              continue-Revoked Revoked (audit_jti s tokens.access_token u).0 _ key
                (audit_jti s tokens.access_token u).1
                (λ jti key t h. laws.keeps_publish_auth _ key t h)
                (laws.keeps_validate tokens.access_token key u h))
            (laws.keeps_save k d tokens.refresh_token ttl key v h))
        (laws.keeps_issue k d remember_me key w h)

  -- With a blacklist configured that keeps its contract, a logout locks the device out: after it,
  -- the token of a new login on the same device is refused by `VerifyToken`.
  pub relogin-refused :
      (old new : String) (r : IntrospectResult) (claims : AccessTokenClaims)
      → (remember_me : Bool) (user_agent ip : Option String) (w w₁ w₂ : W)
      → s.hydra.introspect_token old w ≡ (ok r, w₁)
      → is_ok (logout s old w).0 ≡ true
      → s.hydra.validate_access_token new
          (login s r.subject (device_id r.ext) remember_me user_agent ip (logout s old w).1).1
        ≡ (ok claims, w₂)
      → claims.subject ≡ r.subject
      → device_id claims.ext ≡ device_id r.ext
      → is_ok
          (verify_token s new
            (login s r.subject (device_id r.ext) remember_me user_agent ip (logout s old w).1).1).0
        ≡ false
  relogin-refused old new r claims remember_me user_agent ip w w₁ w₂ h out valid subject device =
      let k = device_key r.subject (device_id r.ext) in
      let v = (logout s old w).1 in
      let u = (login s r.subject (device_id r.ext) remember_me user_agent ip v).1 in
      let there =
        login-Keeps r.subject (device_id r.ext) remember_me user_agent ip k v
          (device-Revoked old r w w₁ h out) in
      let listed = subst (Revoked k) (ap (λ p. p.1) valid) (laws.keeps_validate new k u there) in
      verify_token-blocked s new u w₂ claims valid b set
        (rw subject (rw device (laws.check_blocks k w₂ listed)))
