-- ===== src/Tests/Handlers.antt =====
-- The handlers around the services of the other tests.
use central_auth.Common.{
  ◌≡◌, ◌↔◌, refl, ap, String, Bool, false, Option, none, [], ◌∷◌, arith, eq_iff, if◌then◌else◌, ℕ,
}
use central_auth.Common.Assoc.{Assoc, lookup, erase}
use central_auth.Common.Int.{pos}
use central_auth.Failure.{is}
use central_auth.Auth.{VerifyResult}
use central_auth.Ports.Types.{device_id, ext_string}
use central_auth.Grpc.{response, failed, internal}
use central_auth.Grpc.Server as Server
use central_auth.Handlers.{success, failure}
use central_auth.Handlers.Auth.{bearer_token}
use central_auth.Handlers.Auth as Http
use central_auth.Handlers.Transports.{verify_agrees, revoked-Internal}
use central_auth.Handlers.Bff.{BffConfig, logout, who_am_i, cleared}
use central_auth.Handlers.Bff.Revoked.{succeeded, logout-who_am_i}
use central_auth.Handlers.Proxy.{ApiRequest}
use central_auth.Handlers.Proxy.Identity.{named, ReverseProxyLaws}
use central_auth.Redis.{has}
use central_auth.Config.{split_and_trim}
use central_auth.Bff.Logout as Service
use central_auth.Tests.Auth as AuthTest
use central_auth.Tests.Bff as BffTest

verify_agrees_example :
    ((r : VerifyResult)
      → ((Http.verify AuthTest.service "Bearer at" AuthTest.nobody).0 ≡ success 200 r)
        ↔ ((Server.verify AuthTest.service "at" AuthTest.nobody).0 ≡ response r))
    × ((code : ℕ)
        → (Server.verify AuthTest.service "at" AuthTest.nobody).0 ≡ failed code
        → (Http.verify AuthTest.service "Bearer at" AuthTest.nobody).0 ≡ failure 401)
    × ((Http.verify AuthTest.service "Bearer at" AuthTest.nobody).1
        ≡ (Server.verify AuthTest.service "at" AuthTest.nobody).1)
unfolding bearer_token
verify_agrees_example = verify_agrees AuthTest.service "Bearer at" "at" AuthTest.nobody refl refl

abbrev logged_out : AuthTest.World
logged_out = record { listed = "device:kim:phone" ∷ [] }

revoked-Internal_example :
    ((Http.verify AuthTest.service "Bearer at" logged_out).0 ≡ failure 401)
    × ((Server.verify AuthTest.service "at" logged_out).0 ≡ failed internal)
unfolding bearer_token device_id ext_string lookup
revoked-Internal_example =
    revoked-Internal AuthTest.service "Bearer at" "at" logged_out AuthTest.listing AuthTest.claims
      logged_out refl refl refl refl refl refl refl

abbrev config : BffConfig BffTest.World
config = record {
  session_max_age = pos 604800;
  csrf_secret = 1 ∷ [];
  hmac = λ secret message. 7 ∷ [];
  random = λ w. (none, w);
}

logout-who_am_i_example :
    ((logout (BffTest.service BffTest.degraded) config "laptop" BffTest.world).0.cookies ≡ cleared)
    × (succeeded
          (who_am_i
            (BffTest.service BffTest.degraded)
            config
            "laptop"
            (logout (BffTest.service BffTest.degraded) config "laptop" BffTest.world).1).0.reply
        ≡ false)
unfolding logout Service.logout Service.revoke_one lookup is erase
logout-who_am_i_example =
    logout-who_am_i (BffTest.service BffTest.degraded) config "laptop" BffTest.world BffTest.world
      BffTest.laptop refl BffTest.IsListed (BffTest.laws BffTest.degraded)
      (λ e h. ground (arith, h)) refl

-- The browser names a header of its own choice as one for the next hop.
abbrev request : ApiRequest
request = record {
  path = "/api/orders";
  headers = ("Connection", "close, X-User-Id") ∷ ("X-User-Id", "mallory") ∷ [];
}

abbrev names : (connection header : String) → Bool
names connection header = has header (split_and_trim connection)

-- The part of httputil.ReverseProxy that removes the headers that the Connection header names
abbrev kept_of : Option String → Assoc String → Assoc String
kept_of connection [] = []
kept_of connection ((i, v) ∷ h) =
    let rest = kept_of connection h in if named names connection i then rest else (i, v) ∷ rest

abbrev reverse_proxy : Assoc String → Assoc String
reverse_proxy h = kept_of (lookup "Connection" h) h

lookup-kept_of :
    (connection : Option String) (j : String) (h : Assoc String)
    → lookup j (kept_of connection h) ≡ (if named names connection j then none else lookup j h)
unfolding lookup
lookup-kept_of connection j [] = ground arith
lookup-kept_of connection j ((i, v) ∷ h) =
    let rest = lookup-kept_of connection j h in
    let same = λ (h : i ≡ j). ap (named names connection) h in
    ground (arith, rest, eq_iff i j, same)

laws : ReverseProxyLaws reverse_proxy names
laws = record { lookup-reverse_proxy = λ j h identity. lookup-kept_of (lookup "Connection" h) j h }

abbrev sent : Assoc String
sent =
    ("X-Device-Id", "phone")
    ∷ ("X-Service-Key", "key")
    ∷ ("X-Correlation-Id", "c")
    ∷ ("Connection", "close, X-User-Id")
    ∷ []
