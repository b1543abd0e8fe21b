-- ===== src/Bff/Logout/Order.antt =====
-- The order of a logout: the blacklist first, and nothing after it if it fails.
use central_auth.Common.{
  ℕ, ◌<◌, [], ◌∷◌, String, true, false, ◌≡◌, Option, some, List, All, All-mono, arith,
  if◌then◌else◌, str_eq,
}
use central_auth.Common.Int.{ℤ, sub_ℕ, pos, lt_ℤ, max_ℤ}
use central_auth.Failure.{Failure, ok, err, is_ok, wrap}
use central_auth.Ports.Types.{BffSession}
use central_auth.Bff.{BffService, is_fatal}
use central_auth.Bff.Revocation.{RevocationLaws, Keeps}
use central_auth.Bff.Logout.{logout, logout_all, revoke_one, revoke_all, max_ttl, session_ids}
use central_auth.Bff.Resolve.{resolve_session, who_am_i}
use central_auth.Bff.Resolve.Guard.{resolve-Revoked}

module _ {W : Type 0} (s : BffService W) (id : String) (w w₁ : W) (sess : BffSession)
    (found : s.session_store.get id w ≡ (ok sess, w₁)) where
  -- The call of the blacklist that a logout makes.
  abbrev entry : Option Failure × W
  entry = s.blacklist.add id (sub_ℕ sess.expires_at (s.runtime.now w₁)) w₁

  -- If the blacklist fails with an error other than `ErrRedisUnavailable`, the logout of a session
  -- that the store holds fails with its error, and no token, session or device is
  -- touched: the world is as the failed call left it.
  pub logout_aborts :
      (e : Failure) (w₂ : W)
      → s.blacklist.add id (sub_ℕ sess.expires_at (s.runtime.now w₁)) w₁ ≡ (some e, w₂)
      → is_fatal (some e) ≡ true
      → logout s id w ≡ (err (wrap e), w₂)
  unfolding logout
  logout_aborts e w₂ h f = ground arith

  not_fatal : is_ok (logout s id w).0 ≡ true → is_fatal entry.0 ≡ false
  unfolding logout
  not_fatal h = ground arith

  logout_goes_on : is_fatal entry.0 ≡ false → logout s id w ≡ revoke_one s id sess entry.1
  unfolding logout
  logout_goes_on h = ground arith

  module _ (Revoked : String → W → Type 0) (laws : RevocationLaws s Revoked) where
    revoke_one-Keeps : Keeps Revoked (revoke_one s id sess)
    unfolding revoke_one
    revoke_one-Keeps k v r = laws.keeps_revoke_device sess.kratos_id sess.device_id k _ (
        laws.keeps_logout_device sess.kratos_id sess.device_id k _ (
          laws.keeps_delete id k _
            (kratos-Keeps k _ (laws.keeps_revoke_token sess.hydra_refresh_token k v r))))
      where
        kratos-Keeps : Keeps Revoked (
            if str_eq sess.kratos_session_id ""
            then s.kratos_client.delete_sessions sess.kratos_id
            else s.kratos_client.delete_session sess.kratos_session_id)
        kratos-Keeps j u q = ground (
          arith,
          laws.keeps_delete_sessions sess.kratos_id j u q,
          laws.keeps_delete_session sess.kratos_session_id j u q,
        )

    -- Where the blacklist keeps its contract, the logout of a session that the store holds, if it
    -- reports no error, has revoked the session, whatever failed after the blacklisting; right
    -- after it neither a token nor an identity is handed out for the session.
    pub logout-Revoked :
        is_ok (logout s id w).0 ≡ true
        → Revoked id (logout s id w).1
          × (is_ok (resolve_session s id (logout s id w).1).0 ≡ false)
          × (is_ok (who_am_i s id (logout s id w).1).0 ≡ false)
    logout-Revoked h =
        let r : Revoked id (logout s id w).1 = recorded in
        let closed = resolve-Revoked s Revoked laws id (logout s id w).1 r in
        (r, closed.0, closed.1)
      where
        recorded : Revoked id (logout s id w).1
        recorded = rw (logout_goes_on (not_fatal h)) (
            revoke_one-Keeps id entry.1
              (laws.add_revokes id (sub_ℕ sess.expires_at (s.runtime.now w₁)) w₁ (not_fatal h)))

max_ttl-pos :
    (now : ℕ) (max : ℤ) (all : List BffSession)
    → lt_ℤ (pos 0) max ≡ true
    → lt_ℤ (pos 0) (max_ttl now max all) ≡ true
max_ttl-pos now max [] h = h
max_ttl-pos now max (x ∷ all) h =
    max_ttl-pos now (max_ℤ max (sub_ℕ x.expires_at now)) all (ground arith)

max_ttl-ge :
    (now : ℕ) (max d : ℤ) (all : List BffSession)
    → lt_ℤ max d ≡ false
    → lt_ℤ (max_ttl now max all) d ≡ false
max_ttl-ge now max d [] h = h
max_ttl-ge now max d (x ∷ all) h =
    max_ttl-ge now (max_ℤ max (sub_ℕ x.expires_at now)) d all (ground arith)

-- The time to live of the batch is at least what each of the sessions has left.
pub max_ttl-covers :
    (now : ℕ) (max : ℤ) (all : List BffSession)
    → All (λ x. lt_ℤ (max_ttl now max all) (sub_ℕ x.expires_at now) ≡ false) all
max_ttl-covers now max [] = tt
max_ttl-covers now max (x ∷ all) = (
  max_ttl-ge now (max_ℤ max (sub_ℕ x.expires_at now)) (sub_ℕ x.expires_at now) all (ground arith),
  max_ttl-covers now (max_ℤ max (sub_ℕ x.expires_at now)) all,
)

module _ {W : Type 0} (s : BffService W) (id : String) (w w₁ w₂ : W) (sess : BffSession)
    (all : List BffSession) (found : s.session_store.get id w ≡ (ok sess, w₁))
    (listed : s.session_store.get_all_for_user sess.kratos_id w₁ ≡ (ok all, w₂)) where
  -- The time to live of the batch: the longest that any session has left.
  abbrev ttl : ℤ
  ttl = max_ttl (s.runtime.now w₂) (sub_ℕ sess.expires_at (s.runtime.now w₂)) all

  abbrev batch : Option Failure × W
  batch = s.blacklist.add_batch (session_ids all) ttl w₂

  -- If the batch write of the blacklist fails with an error other than `ErrRedisUnavailable`,
  -- `LogoutAll` fails with its error, and no token, session or device is touched: the world is as
  -- the failed call left it.
  pub logout_all_aborts :
      (e : Failure) (w₃ : W)
      → s.blacklist.add_batch (session_ids all) ttl w₂ ≡ (some e, w₃)
      → is_fatal (some e) ≡ true
      → logout_all s id w ≡ (err (wrap e), w₃)
  unfolding logout_all
  logout_all_aborts e w₃ h f = ground arith

  all_not_fatal : is_ok (logout_all s id w).0 ≡ true → is_fatal batch.0 ≡ false
  unfolding logout_all
  all_not_fatal h = ground arith

  logout_all_goes_on :
      is_fatal batch.0 ≡ false → logout_all s id w ≡ revoke_all s sess.kratos_id batch.1
  unfolding logout_all
  logout_all_goes_on h = ground arith

  module _ (Revoked : String → W → Type 0) (laws : RevocationLaws s Revoked) where
    revoke_all-Keeps : (k : String) → Keeps Revoked (revoke_all s k)
    unfolding revoke_all
    revoke_all-Keeps k j v r =
        let first = laws.keeps_revoke_subject k j v r in
        let rest = laws.keeps_revoke_all_devices k j _ (
          laws.keeps_logout_all k j _
            (laws.keeps_delete_all k j _ (laws.keeps_delete_sessions k j _ first))) in
        ground arith

    -- Where the blacklist keeps its contract, a `LogoutAll` that reports no error, from a session
    -- that has not expired, has revoked every session that the store lists for the user.
    pub logout_all-Revoked :
        s.runtime.now w₂ < sess.expires_at
        → is_ok (logout_all s id w).0 ≡ true
        → All (λ x. Revoked x (logout_all s id w).1) (session_ids all)
    logout_all-Revoked live h = rw (logout_all_goes_on (all_not_fatal h)) (
        All-mono (session_ids all) (λ x r. revoke_all-Keeps sess.kratos_id x batch.1 r)
          (laws.batch_revokes (session_ids all) ttl w₂
            (max_ttl-pos (s.runtime.now w₂) (sub_ℕ sess.expires_at (s.runtime.now w₂)) all
              (ground arith))
            (all_not_fatal h)))
