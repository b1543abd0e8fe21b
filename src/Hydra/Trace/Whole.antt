-- ===== src/Hydra/Trace/Whole.antt =====
-- A run of `IssueTokens` as a whole.
use central_auth.Common.{◌++◌, Bool, List, [], ◌∷◌}
use Prim.Native.String as Text
use central_auth.Http.{Request}
use central_auth.Hydra.{Client, get_of, accept_request}
use central_auth.Hydra.Flow.{auth_request, login_body, login_path}
use central_auth.Hydra.Trace.{Redeemed}

module _ {W Jar : Type 0} (c : Client W Jar) where
  -- The steps of a flow, as it is seen in what was sent: PKCE binds the first request to the last.
  pub record IsFlow (k d : Text.String) (r : Bool) (trace : List Request) : Type 0 where
    pub state : Text.String
    pub nonce : Text.String
    pub code_verifier : Text.String
    pub login_challenge : Text.String
    pub login_redirect : Text.String
    pub redeemed :
        Redeemed c
          (auth_request c state nonce (c.challenge code_verifier)
            ∷ accept_request (Text.◌++◌ c.admin_url (login_path login_challenge)) (login_body k d r)
            ∷ get_of login_redirect
            ∷ [])
          d
          r
          state
          code_verifier
          trace
