-- ===== src/Ports/Types.antt =====
-- The values that cross the interfaces. Times are nanoseconds; a time that is sent as RFC 3339 text
-- is kept as the time.
use central_auth.Common.{ℕ, String, Bool, Option, none, some, List, [], ◌∷◌}
use central_auth.Common.Assoc.{Assoc, lookup}

-- `session.BFFSession`
pub record BffSession : Type 0 where
  pub session_id : String
  pub kratos_id : String
  pub device_id : String
  pub kratos_session_id : String
  pub hydra_access_token : String
  pub hydra_refresh_token : String
  pub access_token_exp : ℕ
  pub created_at : ℕ
  pub expires_at : ℕ

-- `hydra.TokenSet`
pub record TokenSet : Type 0 where
  pub access_token : String
  pub refresh_token : String
  pub id_token : String
  pub token_type : String
  pub expires_in : ℕ

-- A value of the `ext` claims: a string, a `[]string`, an `[]interface{}` with `none` for each
-- element that is no string, or anything else.
pub data Claim : Type 0 where
  text : String → Claim
  texts : List String → Claim
  items : List (Option String) → Claim
  other : Claim

-- `hydra.AccessTokenClaims`, with the registered claims that are read
pub record AccessTokenClaims : Type 0 where
  pub subject : String
  pub ext : Assoc Claim
  pub client_id : String
  pub id : String
  pub expires_at : Option ℕ

-- `hydra.IntrospectResult`
pub record IntrospectResult : Type 0 where
  pub active : Bool
  pub subject : String
  pub ext : Assoc Claim
  pub client_id : String
  pub exp : ℕ

abbrev text_of : Option Claim → String
text_of (some (text s)) = s
text_of (some (texts ss)) = ""
text_of (some (items os)) = ""
text_of (some other) = ""
text_of none = ""

abbrev strings_only : List (Option String) → List String
strings_only [] = []
strings_only (none ∷ os) = strings_only os
strings_only (some s ∷ os) = s ∷ strings_only os

abbrev texts_of : Option Claim → List String
texts_of none = []
texts_of (some (text s)) = []
texts_of (some (texts ss)) = ss
texts_of (some (items os)) = strings_only os
texts_of (some other) = []

-- `Roles` and `Permissions`; a nil slice is the empty list.
abbrev pub roles : Assoc Claim → List String
roles ext = texts_of (lookup "roles" ext)

abbrev pub permissions : Assoc Claim → List String
permissions ext = texts_of (lookup "permissions" ext)

-- `extString`, and the body of both `DeviceID` methods at the key `device_id`
unfoldable pub ext_string : String → Assoc Claim → String
ext_string key ext = text_of (lookup key ext)

unfoldable pub device_id : Assoc Claim → String
unfolding ext_string
device_id ext = ext_string "device_id" ext

-- `kratos.Identity`; the traits are not read by the services.
pub record Identity : Type 0 where
  pub id : String

-- `domain.DeviceSession`
pub record DeviceSession : Type 0 where
  pub id : ℕ
  pub kratos_id : String
  pub device_id : String
  pub hydra_jti : Option String
  pub issued_at : ℕ
  pub last_used_at : Option ℕ
  pub revoked : Bool
  pub user_agent : Option String
  pub ip : Option String

-- `kafka.AuthSessionEvent`; `event_type` is always "auth.session.created".
pub record AuthSessionEvent : Type 0 where
  pub event_type : String
  pub kratos_id : String
  pub ip_address : String
  pub user_agent : String
  pub hydra_jti : String
  pub device_id : String
  pub timestamp : ℕ

-- `kafka.BlacklistSyncEvent`; an unblock event has no expiry.
pub record BlacklistSyncEvent : Type 0 where
  pub event_type : String
  pub target_type : String
  pub target_value : String
  pub reason : String
  pub expires_at : Option ℕ
  pub timestamp : ℕ
