-- ===== src/Tests/Bff.antt =====
-- The browser sessions on a small world: two sessions of one user, one of them about to expire.
use central_auth.Common.{
  All-mono, ℕ, ◌+◌, ◌≡◌, refl, String, Bool, true, false, ◌||◌, Option, none, some, List, [], ◌∷◌,
  ◌++◌, All, arith, if◌then◌else◌, str_eq, eq_iff, ◌/◌,
}
use central_auth.Common.Assoc.{Assoc, lookup, insert, erase}
use central_auth.Common.Int.{pos}
use central_auth.Common.Eff.{Eff}
use central_auth.Failure.{
  Failure, Result, ok, err, sentinel, wrap, plain, is, is_ok, session_not_found, redis_unavailable,
}
use central_auth.Ports.Types.{BffSession, TokenSet, AccessTokenClaims}
use central_auth.Bff.{BffService}
use central_auth.Bff.Revocation.{RevocationLaws}
use central_auth.Bff.Logout.{logout, revoke_one, revoke_all, logout_all}
use central_auth.Bff.Logout.Order.{logout-Revoked, logout_all-Revoked}
use central_auth.Bff.Resolve.{resolve_session, lookup_session, refresh_if_due, who_am_i}
use central_auth.Bff.Resolve.Guard.{resolve_open}
use central_auth.Bff.Refresh.{do_refresh, rotate, poll, poll_fuel, lock_ttl}
use central_auth.Bff.Refresh.Lock.{TimeLaws, poll_fuel_enough}

pub record World : Type 0 where
  clock : ℕ
  sessions : Assoc BffSession
  listed : List String
  locked : Bool
  exchanged : ℕ  -- refresh tokens that Hydra has exchanged

abbrev listed_in : String → List String → Bool
listed_in id [] = false
listed_in id (x ∷ xs) = str_eq x id || listed_in id xs

abbrev found : Option BffSession → Result BffSession
found none = err (sentinel session_not_found)
found (some sess) = ok sess

abbrev all_of : Assoc BffSession → List BffSession
all_of [] = []
all_of ((k, sess) ∷ m) = sess ∷ all_of m

abbrev nothing : Eff World (Option Failure)
nothing w = (none, w)

abbrev fresh_tokens : TokenSet
fresh_tokens = record {
  access_token = "fresh";
  refresh_token = "next";
  id_token = "";
  token_type = "bearer";
  expires_in = 900;
}

abbrev claims : AccessTokenClaims
claims = record {
  subject = "kim";
  ext = [];
  client_id = "web";
  id = "jti";
  expires_at = some 5_000_000_000_000;
}

-- A service over the small world; `answer` is what a write of the blacklist returns.
abbrev pub service : Option Failure → BffService World
service answer = record {
  hydra = record {
    issue_tokens = λ k d r w. (ok fresh_tokens, w);
    refresh_token = λ t w. (ok fresh_tokens, record w { exchanged = w.exchanged + 1 });
    revoke_token = λ t. nothing;
    revoke_all_for_subject = λ k. nothing;
    introspect_token = λ t w. (err plain, w);
    validate_access_token = λ t w. (ok claims, w);
  };
  kratos_client = record {
    get_identity_by_email = λ e w. (err plain, w);
    delete_sessions = λ k w. (some plain, w);
    create_identity = λ e w. (err plain, w);
    get_session_id_by_token = λ t w. (ok "ory", w);
    delete_session = λ k. nothing;
  };
  session_store = record {
    create = λ sess w. (none, record w { sessions = insert sess.session_id sess w.sessions });
    get = λ id w. (found (lookup id w.sessions), w);
    update = λ sess w. (none, record w { sessions = insert sess.session_id sess w.sessions });
    delete = λ id w. (none, record w { sessions = erase id w.sessions });
    get_all_for_user = λ k w. (ok (all_of w.sessions), w);
    delete_all_for_user = λ k w. (ok [], record w { sessions = [] });
    acquire_refresh_lock =
        λ id ttl w. (ok (if w.locked then false else true), record w { locked = true });
    release_refresh_lock = λ id w. (none, record w { locked = false });
  };
  blacklist = record {
    add = λ id ttl w. (answer, record w { listed = id ∷ w.listed });
    is_blacklisted = λ id w. ((listed_in id w.listed, none), w);
    add_batch = λ ids ttl w. (answer, record w { listed = ids ++ w.listed });
  };
  redis_repo = record {
    save_login = λ k d t ttl. nothing;
    get_device_refresh_token = λ k d w. (err plain, w);
    rotate_refresh_token = λ k d t ttl. nothing;
    logout_device = λ k d w. (some plain, w);
    logout_all = λ k. nothing;
  };
  device_session_repo = record {
    save_device_session = λ d. nothing;
    update_last_used_at = λ k d. nothing;
    revoke_device = λ k d. nothing;
    revoke_all_devices = λ k. nothing;
    get_device_sessions = λ k w. (ok [], w);
    count_active_devices = λ k w. (ok 0, w);
  };
  publisher = record {
    publish_auth_session = λ e w. (tt, w);
    publish_blacklist_sync = λ e w. (tt, w);
  };
  runtime = record {
    now = λ w. w.clock;
    random_session_id = λ w. (ok "new", w);
    wait = λ d w. (none, record w { clock = w.clock + d });
  };
  access_token_refresh_buffer = pos 60_000_000_000;
}

abbrev session : String → ℕ → BffSession
session id exp = record {
  session_id = id;
  kratos_id = "kim";
  device_id = "phone";
  kratos_session_id = "";
  hydra_access_token = "old";
  hydra_refresh_token = "rt";
  access_token_exp = exp;
  created_at = 0;
  expires_at = 9_000_000_000_000;
}

abbrev pub laptop : BffSession
laptop = session "laptop" 1_000_000_000_000

abbrev phone : BffSession
phone = session "phone" 1_010_000_000_000

abbrev pub world : World
world = record {
  clock = 1_000_000_000_000;
  sessions = ("laptop", laptop) ∷ ("phone", phone) ∷ [];
  listed = [];
  locked = false;
  exchanged = 0;
}

abbrev pub IsListed : String → World → Type 0
IsListed id w = listed_in id w.listed ≡ true

listed_in-append :
    (ids rest : List String) (id : String)
    → listed_in id rest ≡ true
    → listed_in id (ids ++ rest) ≡ true
listed_in-append [] rest id h = h
listed_in-append (x ∷ ids) rest id h = ground (arith, listed_in-append ids rest id h)

All-listed : (ids rest : List String) → All (λ id. listed_in id (ids ++ rest) ≡ true) ids
All-listed [] rest = tt
All-listed (x ∷ ids) rest =
    (ground (arith, eq_iff x x), All-mono ids (λ id h. ground (arith, h)) (All-listed ids rest))

pub laws : (answer : Option Failure) → RevocationLaws (service answer) IsListed
laws answer = record {
  add_revokes = λ id ttl w h. ground (arith, eq_iff id id);
  batch_revokes = λ ids ttl w positive h. All-listed ids w.listed;
  check_blocks = λ id w h. ground (arith, h);
  keeps_revoke_token = λ t id w h. h;
  keeps_revoke_subject = λ k id w h. h;
  keeps_delete_sessions = λ k id w h. h;
  keeps_delete_session = λ k id w h. h;
  keeps_delete = λ k id w h. h;
  keeps_delete_all = λ k id w h. h;
  keeps_logout_device = λ k d id w h. h;
  keeps_logout_all = λ k id w h. h;
  keeps_revoke_device = λ k d id w h. h;
  keeps_revoke_all_devices = λ k id w h. h;
}

time_laws : (answer : Option Failure) → TimeLaws (service answer)
time_laws answer = record { get_later = λ id w. omega arith; wait_passes = λ d w h. omega arith }

-- Redis is out, and the entry stands in PostgreSQL.
abbrev pub degraded : Option Failure
degraded = some (wrap (sentinel redis_unavailable))

logout-Revoked_example :
    IsListed "laptop" (logout (service degraded) "laptop" world).1
    × (is_ok
          (resolve_session
            (service degraded)
            "laptop"
            (logout (service degraded) "laptop" world).1).0
        ≡ false)
    × (is_ok (who_am_i (service degraded) "laptop" (logout (service degraded) "laptop" world).1).0
        ≡ false)
unfolding logout revoke_one lookup is erase
logout-Revoked_example =
    logout-Revoked (service degraded) "laptop" world world laptop refl IsListed (laws degraded) refl

logout_all-Revoked_example :
    All (λ x. IsListed x (logout_all (service none) "laptop" world).1) ("laptop" ∷ "phone" ∷ [])
unfolding logout_all revoke_all lookup is
logout_all-Revoked_example =
    logout_all-Revoked (service none) "laptop" world world world laptop (laptop ∷ phone ∷ []) refl
      refl IsListed (laws none) (omega arith) refl

resolve_open_example :
    (((service none).blacklist.is_blacklisted "phone" world).0 ≡ (false, none))
    × ((sess : BffSession) × (((service none).session_store.get "phone" world).0 ≡ ok sess))
unfolding resolve_session lookup_session refresh_if_due do_refresh rotate lookup
resolve_open_example = resolve_open (service none) "phone" world ("fresh", "kim", "phone") refl

poll_fuel_enough_example :
    poll (service none) 50 (1_000_000_000_000 + lock_ttl / 2) phone world
    ≡ poll (service none) poll_fuel (1_000_000_000_000 + lock_ttl / 2) phone world
poll_fuel_enough_example =
    poll_fuel_enough (service none) phone 50 world (time_laws none) (omega arith)

-- Another request holds the lock.
abbrev busy : World
busy = record world { locked = true }

abbrev NoExchange : World → Type 0
NoExchange w = w.exchanged ≡ 0
