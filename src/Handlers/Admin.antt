-- ===== src/Handlers/Admin.antt =====
-- internal/http/handler/admin_blacklist_handler.go and admin_handler.go. The type of a target is
-- bound to one of its three names.
use central_auth.Common.{String, Option, none, some}
use central_auth.Common.Eff.{Eff}
use central_auth.Failure.{Failure, Result, ok, err}
use central_auth.Admin.{
  AdminBlacklistService, TargetType, block as service_block, unblock as service_unblock,
}
use central_auth.Handlers.{Reply, success, failure}

-- `blockRequest`
pub record BlockRequest : Type 0 where
  pub target_type : TargetType
  pub target_value : String
  pub reason : String

-- `unblockRequest`
pub record UnblockRequest : Type 0 where
  pub target_type : TargetType
  pub target_value : String

abbrev answered : {A : Type 0} → A → Result (Unit {0}) → Reply A
answered a (ok u) = success 200 a
answered a (err e) = failure 500

module _ {W : Type 0} (s : AdminBlacklistService W) where
  -- `Block`
  unfoldable pub block : Option BlockRequest → Eff W (Reply (TargetType × String))
  block none w = (failure 400, w)
  block (some req) w =
      let (r, w') = service_block s req.target_type req.target_value req.reason w in
      (answered (req.target_type, req.target_value) r, w')

  -- `Unblock`
  unfoldable pub unblock : Option UnblockRequest → Eff W (Reply (TargetType × String))
  unblock none w = (failure 400, w)
  unblock (some req) w =
      let (r, w') = service_unblock s req.target_type req.target_value w in
      (answered (req.target_type, req.target_value) r, w')

-- `RefreshJWKS`; `force_refresh_jwks` is the method of `hydra.ClientI`.
unfoldable pub refresh_jwks :
    {W : Type 0} → (force_refresh_jwks : Eff W (Option Failure)) → Eff W (Reply (Unit {0}))
refresh_jwks force_refresh_jwks w =
    let (e, w') = force_refresh_jwks w in
    (elim e [ none ↦ success 200 tt | some _ ↦ failure 500 ], w')
