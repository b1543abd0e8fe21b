-- ===== src/Tests/Auth.antt =====
-- The gRPC service on a small world: one user and one device.
use central_auth.Common.{
  ◌≡◌, refl, String, Bool, true, false, ◌||◌, Option, none, some, List, [], ◌∷◌, arith, str_eq,
  eq_iff,
}
use central_auth.Common.Assoc.{lookup}
use central_auth.Common.Eff.{Eff}
use central_auth.Failure.{Failure, ok, err, plain, is_ok}
use central_auth.Ports.{Blacklist}
use central_auth.Ports.Types.{
  text, TokenSet, AccessTokenClaims, IntrospectResult, device_id, ext_string,
}
use central_auth.Auth.{AuthService, VerifyResult, unix, login, logout, verify_token}
use central_auth.Auth.Verify.{AuthLaws, verify_token-ok, relogin-refused}

-- The keys of the blacklist.
pub record World : Type 0 where
  pub listed : List String

abbrev has : String → List String → Bool
has key [] = false
has key (x ∷ xs) = str_eq x key || has key xs

abbrev nothing : Eff World (Option Failure)
nothing w = (none, w)

abbrev tokens : TokenSet
tokens = record {
  access_token = "at";
  refresh_token = "rt";
  id_token = "";
  token_type = "bearer";
  expires_in = 900;
}

abbrev pub claims : AccessTokenClaims
claims = record {
  subject = "kim";
  ext = ("device_id", text "phone") ∷ [];
  client_id = "web";
  id = "jti";
  expires_at = some 5_000_000_000;
}

abbrev active : IntrospectResult
active = record {
  active = true;
  subject = "kim";
  ext = ("device_id", text "phone") ∷ [];
  client_id = "web";
  exp = 5;
}

abbrev pub listing : Blacklist World
listing = record {
  add = λ key ttl w. (none, record { listed = key ∷ w.listed });
  is_blacklisted = λ key w. ((has key w.listed, none), w);
  add_batch = λ keys ttl w. (some plain, w);
}

abbrev pub service : AuthService World
service = record {
  hydra = record {
    issue_tokens = λ k d r w. (ok tokens, w);
    refresh_token = λ t w. (ok tokens, w);
    revoke_token = λ t. nothing;
    revoke_all_for_subject = λ k. nothing;
    introspect_token = λ t w. (ok active, w);
    validate_access_token = λ t w. (ok claims, w);
  };
  redis_repo = record {
    save_login = λ k d t ttl. nothing;
    get_device_refresh_token = λ k d w. (err plain, w);
    rotate_refresh_token = λ k d t ttl. nothing;
    logout_device = λ k d. nothing;
    logout_all = λ k. nothing;
  };
  device_session_repo = record {
    save_device_session = λ d. nothing;
    update_last_used_at = λ k d. nothing;
    revoke_device = λ k d. nothing;
    revoke_all_devices = λ k. nothing;
    get_device_sessions = λ k w. (ok [], w);
    count_active_devices = λ k w. (ok 0, w);
  };
  kratos_client = none;
  blacklist = some listing;
  publisher = record {
    publish_auth_session = λ e w. (tt, w);
    publish_blacklist_sync = λ e w. (tt, w);
  };
  runtime = record { now = λ w. 1000; random_session_id = λ w. (ok "id", w); wait = λ d. nothing };
}

abbrev IsListed : String → World → Type 0
IsListed key w = has key w.listed ≡ true

laws : AuthLaws service listing IsListed
laws = record {
  add_revokes = λ key ttl w h. ground (arith, eq_iff key key);
  check_blocks = λ key w h. ground (arith, h);
  keeps_publish = λ e key w h. h;
  keeps_publish_auth = λ e key w h. h;
  keeps_logout_device = λ k d key w h. h;
  keeps_revoke_device = λ k d key w h. h;
  keeps_issue = λ k d r key w h. h;
  keeps_save = λ k d t ttl key w h. h;
  keeps_validate = λ t key w h. h;
}

abbrev pub nobody : World
nobody = record { listed = [] }

abbrev kim : VerifyResult
kim = record { kratos_id = "kim"; device_id = "phone"; expires_at = 5 }

verify_token-ok_example :
    (kim ≡ record {
      kratos_id = "kim";
      device_id = device_id claims.ext;
      expires_at = unix claims.expires_at;
    })
    × (str_eq kim.kratos_id "" ≡ false)
    × (str_eq kim.device_id "" ≡ false)
    × (((listing.is_blacklisted "device:kim:phone" nobody).0 ≡ (false, none))
        × ((listing.is_blacklisted "user:kim" nobody).0 ≡ (false, none)))
unfolding verify_token device_id ext_string lookup
verify_token-ok_example =
    verify_token-ok service "at" nobody nobody claims refl listing kim refl refl

abbrev after_logout : World
after_logout = (logout service "rt" nobody).1

relogin-refused_example :
    is_ok
      (verify_token service "at"
        (login service "kim" (device_id active.ext) true none none after_logout).1).0
    ≡ false
unfolding login logout device_id ext_string lookup
relogin-refused_example =
    relogin-refused service listing refl IsListed laws "rt" "at" active claims true none none nobody
      nobody (record { listed = "device:kim:phone" ∷ [] }) refl refl refl refl refl
