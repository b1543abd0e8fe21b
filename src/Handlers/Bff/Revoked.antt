-- ===== src/Handlers/Bff/Revoked.antt =====
-- What the browser is told after a logout.
use central_auth.Common.{inl, inr, ◌≡◌, String, Bool, true, false, arith}
use central_auth.Failure.{Failure, ok, err, is_ok, is, Result-cases, session_gone}
use central_auth.Ports.Types.{BffSession}
use central_auth.Bff.{BffService}
use central_auth.Bff.Revocation.{RevocationLaws}
use central_auth.Bff.Logout.{logout_found}
use central_auth.Bff.Logout as Service
use central_auth.Bff.Logout.Order.{logout-Revoked}
use central_auth.Handlers.{Reply, success, failure}
use central_auth.Handlers.Bff.{BffConfig, logout, who_am_i, cleared}

-- Whether a reply is a success.
abbrev pub succeeded : {A : Type 0} → Reply A → Bool
succeeded (success status a) = true
succeeded (failure status) = false

module _ {W : Type 0} (s : BffService W) (cfg : BffConfig W) (id : String) (w w₁ : W)
    (sess : BffSession) (found : s.session_store.get id w ≡ (ok sess, w₁))
    (Revoked : String → W → Type 0) (laws : RevocationLaws s Revoked) where
  logout_accepted :
      ((e : Failure) → (Service.logout s id w).0 ≡ err e → is session_gone e ≡ false)
      → succeeded (logout s cfg id w).0.reply ≡ true
      → is_ok (Service.logout s id w).0 ≡ true
  unfolding logout
  logout_accepted other done = elim (Result-cases (Service.logout s id w).0) [
    | inl (u, h) ↦ ground (arith, h)
    | inr (e, h) ↦ ground (arith, h, done, other e h)
  ]

  -- Where the blacklist keeps its contract and its errors are not that of a missing session: if
  -- POST /bff/logout of a session that the store holds is answered with success, the three cookies are
  -- cleared, and GET /bff/whoami with the old cookie is not answered with success right after it.
  pub logout-who_am_i :
      ((e : Failure) → (Service.logout s id w).0 ≡ err e → is session_gone e ≡ false)
      → succeeded (logout s cfg id w).0.reply ≡ true
      → ((logout s cfg id w).0.cookies ≡ cleared)
        × (succeeded (who_am_i s cfg id (logout s cfg id w).1).0.reply ≡ false)
  unfolding logout who_am_i
  logout-who_am_i other done =
      let accepted = logout_accepted other done in
      let (_, _, refused) = logout-Revoked s id w w₁ sess found Revoked laws accepted in
      (ground (arith, accepted), ground (arith, refused))
