-- ===== src/Handlers/Proxy/Identity.antt =====
-- Which identity the backend is told.
use central_auth.Common.{
  ◌≡◌, Bool, ◌||◌, String, true, false, Option, none, some, if◌then◌else◌, str_eq,
}
use central_auth.Common.Assoc.{Assoc, lookup, insert}
use central_auth.Handlers.Proxy.{ApiRequest, tagged, stripped}

-- Whether the value of a Connection header names another header
abbrev pub named : (names : (connection header : String) → Bool) → Option String → String → Bool
named names none j = false
named names (some v) j = names v j

abbrev is_identity : String → Bool
is_identity j =
    str_eq j "X-User-Id"
    || str_eq j "X-Device-Id"
    || str_eq j "X-Service-Key"
    || str_eq j "Authorization"

-- What net/http/httputil documents of the four headers: a header that the Connection header of the
-- request names is removed, as one for the next hop, and any other is passed on. `names` tells whether
-- the value of Connection names a header.
pub record ReverseProxyLaws (reverse_proxy : Assoc String → Assoc String)
    (names : (connection header : String) → Bool) : Type 0 where
  pub lookup-reverse_proxy :
      (j : String) (h : Assoc String)
      → is_identity j ≡ true
      → lookup j (reverse_proxy h)
        ≡ (if named names (lookup "Connection" h) j then none else lookup j h)

module _ (reverse_proxy : Assoc String → Assoc String) (names : (connection header : String) → Bool)
    (laws : ReverseProxyLaws reverse_proxy names) (key id : String) (req : ApiRequest) where
  -- The headers of a request that is forwarded without an identity
  abbrev base : Assoc String
  base = tagged key id (stripped req.headers)

  -- What the handler gives to the reverse proxy
  record Handed (user device : Option String) (h : Assoc String) : Type 0 where
    user_header : lookup "X-User-Id" h ≡ user
    device_header : lookup "X-Device-Id" h ≡ device
    no_authorization : lookup "Authorization" h ≡ none
    key_header : lookup "X-Service-Key" h ≡ some key
    connection_header : lookup "Connection" h ≡ lookup "Connection" req.headers

  -- A header is passed on unless the browser's Connection header names it.
  abbrev pub unless_named : String → Option String → Option String
  unless_named j v = if named names (lookup "Connection" req.headers) j then none else v

  -- What the backend can read of a forwarded request
  pub record Trusted (user device : Option String) (h : Assoc String) : Type 0 where
    pub user_header : lookup "X-User-Id" h ≡ unless_named "X-User-Id" user
    pub device_header : lookup "X-Device-Id" h ≡ unless_named "X-Device-Id" device
    pub no_authorization : lookup "Authorization" h ≡ none
    pub key_header : lookup "X-Service-Key" h ≡ unless_named "X-Service-Key" (some key)

  abbrev no_value : Option String
  no_value = none

  abbrev with_identity : String → Option String → Assoc String
  with_identity u none = insert "X-User-Id" u base
  with_identity u (some d) =
      if str_eq d ""
      then insert "X-User-Id" u base
      else insert "X-Device-Id" d (insert "X-User-Id" u base)

  abbrev pub non_empty : Option String → Option String
  non_empty none = none
  non_empty (some d) = if str_eq d "" then none else some d
