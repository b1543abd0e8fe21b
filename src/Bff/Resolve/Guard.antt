-- ===== src/Bff/Resolve/Guard.antt =====
-- Who gets through: `ResolveSession` and `WhoAmI` are closed to a revoked session and to any
-- failure of the blacklist, and a failed refresh does not fail a request.
use central_auth.Common.{String, true, false, ◌≡◌, none, arith, if◌then◌else◌}
use central_auth.Failure.{ok, is_ok}
use central_auth.Ports.Types.{BffSession}
use central_auth.Bff.{BffService}
use central_auth.Bff.Revocation.{RevocationLaws, blocks}
use central_auth.Bff.Refresh.{do_refresh}
use central_auth.Bff.Resolve.{or_stale, resolve_session, who_am_i, lookup_session, refresh_if_due}
use central_auth.Common.Int.{sub_ℕ, lt_ℤ}

-- What a request gets of a session.
abbrev pub granted : BffSession → String × String × String
granted sess = (sess.hydra_access_token, sess.kratos_id, sess.device_id)

module _ {W : Type 0} (s : BffService W) (id : String) (w : W) where
  lookup_closed :
      blocks (s.blacklist.is_blacklisted id w).0 ≡ true → is_ok (lookup_session s id w).0 ≡ false
  unfolding lookup_session
  lookup_closed h = ground arith

  -- Fail-closed: if a request is let through, the blacklist answered that the session is not
  -- revoked and reported no error; and the store held the session.
  pub resolve_open :
      (t : String × String × String)
      → (resolve_session s id w).0 ≡ ok t
      → ((s.blacklist.is_blacklisted id w).0 ≡ (false, none))
        × ((sess : BffSession) × ((s.session_store.get id (s.blacklist.is_blacklisted id w).1).0
              ≡ ok sess))
  unfolding resolve_session lookup_session refresh_if_due
  resolve_open t h = ground arith

  -- A request whose session is found is answered on every path: with the stored token if no
  -- refresh is due, with nothing else called; else with what the refresh returns, and with the
  -- stored token again if the refresh fails.
  pub resolve_available :
      (sess : BffSession) (w₁ : W)
      → lookup_session s id w ≡ (ok sess, w₁)
      → resolve_session s id w ≡ (
          if lt_ℤ (sub_ℕ sess.access_token_exp (s.runtime.now w₁)) s.access_token_refresh_buffer
          then (ok (granted (or_stale sess (do_refresh s sess w₁).0)), (do_refresh s sess w₁).1)
          else (ok (granted sess), w₁))
  unfolding resolve_session refresh_if_due
  resolve_available sess w₁ h = ground arith

module _ {W : Type 0} (s : BffService W) (Revoked : String → W → Type 0)
    (laws : RevocationLaws s Revoked) (id : String) (w : W) (revoked : Revoked id w) where
  -- A revoked session gets neither a token nor an identity.
  pub resolve-Revoked :
      (is_ok (resolve_session s id w).0 ≡ false) × (is_ok (who_am_i s id w).0 ≡ false)
  unfolding resolve_session who_am_i lookup_session
  resolve-Revoked = ground (arith, laws.check_blocks id w revoked)
