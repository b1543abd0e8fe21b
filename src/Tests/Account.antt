-- ===== src/Tests/Account.antt =====
-- Logging out the other device of a user with two devices.
use central_auth.Common.{◌≡◌, String, Bool, true, false, ◌||◌, Option, none, List, [], ◌∷◌, str_eq}
use central_auth.Common.Eff.{Eff}
use central_auth.Failure.{Failure, ok, err, plain}
use central_auth.Ports.Types.{BffSession, DeviceSession}
use central_auth.Account.{AccountService}

-- The sessions that were logged out.
record World : Type 0 where
  out : List String

abbrev has : String → List String → Bool
has id [] = false
has id (x ∷ xs) = str_eq x id || has id xs

abbrev nothing : Eff World (Option Failure)
nothing w = (none, w)

abbrev session : (id device : String) → BffSession
session id device = record {
  session_id = id;
  kratos_id = "kim";
  device_id = device;
  kratos_session_id = "";
  hydra_access_token = "";
  hydra_refresh_token = "";
  access_token_exp = 0;
  created_at = 0;
  expires_at = 9;
}

abbrev sessions : List BffSession
sessions = session "s1" "phone" ∷ session "s2" "laptop" ∷ []

abbrev row : String → Bool → DeviceSession
row device revoked = record {
  id = 0;
  kratos_id = "kim";
  device_id = device;
  hydra_jti = none;
  issued_at = 0;
  last_used_at = none;
  revoked = revoked;
  user_agent = none;
  ip = none;
}

abbrev service : AccountService World
service = record {
  bff = record {
    logout = λ id w. (ok tt, record { out = id ∷ w.out });
    who_am_i = λ id w. (ok ("kim", "phone"), w);
  };
  session_store = record {
    create = λ s. nothing;
    get = λ id w. (err plain, w);
    update = λ s. nothing;
    delete = λ id. nothing;
    get_all_for_user = λ k w. (ok sessions, w);
    delete_all_for_user = λ k w. (ok [], w);
    acquire_refresh_lock = λ id ttl w. (ok true, w);
    release_refresh_lock = λ id. nothing;
  };
  device_session_repo = record {
    save_device_session = λ d. nothing;
    update_last_used_at = λ k d. nothing;
    revoke_device = λ k d. nothing;
    revoke_all_devices = λ k. nothing;
    get_device_sessions = λ k w. (ok [], w);
    count_active_devices = λ k w. (ok 0, w);
  };
  get_identity_full = λ k w. (err plain, w);
  parse_traits = λ t. err plain;
}

abbrev start : World
start = record { out = [] }

-- No logout of the device that asks.
abbrev IsCalm : World → Type 0
IsCalm w = has "s1" w.out ≡ false
