-- ===== src/Tests/Decorators.antt =====
-- The decorated session store and Redis repository, with the circuit open or closed by hand, over a
-- Redis that accepts everything and remembers nothing, or the one in memory.
use central_auth.Common.{
  ℕ, ◌+◌, ◌*◌, some, ◌≡◌, refl, String, Bool, true, false, not, Option, none, [], ◌∷◌, arith,
  if◌then◌else◌, eq_iff,
}
use central_auth.Common.Assoc.{Assoc, lookup, insert, erase, lookup-insert, lookup-erase}
use central_auth.Common.Int.{pos}
use central_auth.Failure.{
  Failure, ok, err, plain, sentinel, session_not_found, device_token_not_found,
}
use central_auth.Breaker.{opened, closed}
use central_auth.Ports.{SessionStore, RedisRepo}
use central_auth.Ports.Types.{BffSession}
use central_auth.Bff.{BffService}
use central_auth.Bff.Refresh.{do_refresh, lock_ttl}
use central_auth.Resilient.{CircuitBreaker}
use central_auth.Resilient.Guarded.{Finds, Apart, guarded}
use central_auth.Resilient.Sessions.{ResilientSessionStore, acquire_refresh_lock}
use central_auth.Resilient.Sessions.Refresh.{Aside, do_refresh-Unseen, bff}
use central_auth.Resilient.Tokens.{
  ResilientRedisRepo, device_token_l1_key, get_device_refresh_token, save_login, logout_device,
  logout_all,
}
use central_auth.Resilient.Tokens.Stale.{decorated, logout_all-stale}
use central_auth.Bff.{second}
use central_auth.RedisRepository.{refresh_key}
use central_auth.RedisRepository as Repository
use central_auth.Tests.Server.{
  Server, server, empty, server-QuietLink, server-SortedSetLaws, server-StringLaws,
}

record World : Type 0 where
  is_open : Bool
  clock : ℕ
  sessions : Assoc BffSession
  tokens : Assoc String

abbrev cb : CircuitBreaker World
cb = record {
  allow = λ w. (not w.is_open, w);
  record_success = λ w. (tt, w);
  record_failure = λ w. (tt, w);
  state = λ w. (if w.is_open then opened else closed, w);
}

abbrev store : SessionStore World
store = record {
  create = λ s w. (none, w);
  get = λ id w. (err (sentinel session_not_found), w);
  update = λ s w. (none, w);
  delete = λ id w. (none, w);
  get_all_for_user = λ k w. (ok [], w);
  delete_all_for_user = λ k w. (ok ("s" ∷ []), w);
  acquire_refresh_lock = λ id t w. (ok false, w);
  release_refresh_lock = λ id w. (none, w);
}

abbrev repo : RedisRepo World
repo = record {
  save_login = λ k d token ttl w. (none, w);
  get_device_refresh_token = λ k d w. (err (sentinel device_token_not_found), w);
  rotate_refresh_token = λ k d token ttl w. (none, w);
  logout_device = λ k d w. (none, w);
  logout_all = λ k w. (none, w);
}

abbrev sessions : ResilientSessionStore World
sessions = record {
  delegate = store;
  cb = cb;
  l1 = record {
    get = λ k w. (lookup k w.sessions, w);
    set = λ k s w. (tt, record w { sessions = insert k s w.sessions });
    delete = λ k w. (tt, record w { sessions = erase k w.sessions });
  };
}

abbrev devices : ResilientRedisRepo World
devices = record {
  delegate = repo;
  cb = cb;
  l1 = record {
    get = λ k w. (lookup k w.tokens, w);
    set = λ k t w. (tt, record w { tokens = insert k t w.tokens });
    delete = λ k w. (tt, record w { tokens = erase k w.tokens });
  };
}

abbrev cached_session : String → World → Option BffSession
cached_session k w = lookup k w.sessions

abbrev cached_token : String → World → Option String
cached_token k w = lookup k w.tokens

sessions-Finds : Finds sessions.l1 cached_session
sessions-Finds = record {
  get_found = λ k w. refl;
  get_keeps = λ k j w. refl;
  set_same = λ k s w. ground (arith, lookup-insert k k s w.sessions, eq_iff k k);
  set_ne = λ k j s w ne. ground (arith, lookup-insert k j s w.sessions, eq_iff k j, ne);
  delete_same = λ k w. ground (arith, lookup-erase k k w.sessions, eq_iff k k);
  delete_ne = λ k j w ne. ground (arith, lookup-erase k j w.sessions, eq_iff k j, ne);
}

devices-Finds : Finds devices.l1 cached_token
devices-Finds = record {
  get_found = λ k w. refl;
  get_keeps = λ k j w. refl;
  set_same = λ k s w. ground (arith, lookup-insert k k s w.tokens, eq_iff k k);
  set_ne = λ k j s w ne. ground (arith, lookup-insert k j s w.tokens, eq_iff k j, ne);
  delete_same = λ k w. ground (arith, lookup-erase k k w.tokens, eq_iff k k);
  delete_ne = λ k j w ne. ground (arith, lookup-erase k j w.tokens, eq_iff k j, ne);
}

sessions-Apart : Apart cb cached_session
sessions-Apart = record {
  allow_keeps = λ j w. refl;
  success_keeps = λ j w. refl;
  failure_keeps = λ j w. refl;
}

devices-Apart : Apart cb cached_token
devices-Apart = record {
  allow_keeps = λ j w. refl;
  success_keeps = λ j w. refl;
  failure_keeps = λ j w. refl;
}

abbrev session : BffSession
session = record {
  session_id = "s";
  kratos_id = "u";
  device_id = "d";
  kratos_session_id = "k";
  hydra_access_token = "a";
  hydra_refresh_token = "r";
  access_token_exp = 5;
  created_at = 0;
  expires_at = 9;
}

abbrev outage : World
outage = record { is_open = true; clock = 0; sessions = ("sess:s", session) ∷ []; tokens = [] }

abbrev calm : World
calm = record outage { is_open = false }

abbrev in_front : ResilientRedisRepo (Server × World)
in_front = decorated server (λ r. 7) cb devices.l1

logout_all-stale_example :
    (let w₁ = (save_login in_front "u" "d" "t" (pos (60 * second)) (empty, calm)).1 in
      (server.get (refresh_key "u" "d") w₁.0 ≡ some "t")
      × ((get_device_refresh_token in_front "u" "d" w₁).0 ≡ ok "t")
      × ((logout_all in_front "u" w₁).0 ≡ none
          → (let w₂ = (logout_all in_front "u" w₁).1 in
              (server.get (refresh_key "u" "d") w₂.0 ≡ none)
              × ((get_device_refresh_token in_front "u" "d" w₂).0 ≡ ok "t")))
      × ((logout_device in_front "u" "d" w₁).0 ≡ none
          → lookup (device_token_l1_key "u" "d") (logout_device in_front "u" "d" w₁).1.1.tokens
            ≡ none))
unfolding save_login guarded Repository.save_login
logout_all-stale_example =
    logout_all-stale server (λ r. 7) cb devices.l1 server-SortedSetLaws server-StringLaws
      server-QuietLink cached_token devices-Finds devices-Apart "u" "d" "t" (60 * second)
      (empty, calm) (omega arith) refl

abbrev nothing : World → Option Failure × World
nothing w = (none, w)

-- A service whose other calls do nothing, or fail.
abbrev service : BffService World
service = record {
  hydra = record {
    issue_tokens = λ k d r w. (err plain, w);
    refresh_token = λ t w. (err plain, w);
    revoke_token = λ t. nothing;
    revoke_all_for_subject = λ k. nothing;
    introspect_token = λ t w. (err plain, w);
    validate_access_token = λ t w. (err plain, w);
  };
  kratos_client = record {
    get_identity_by_email = λ e w. (err plain, w);
    delete_sessions = λ k. nothing;
    create_identity = λ e w. (err plain, w);
    get_session_id_by_token = λ t w. (err plain, w);
    delete_session = λ k. nothing;
  };
  session_store = store;
  blacklist = record {
    add = λ id ttl. nothing;
    is_blacklisted = λ id w. ((false, none), w);
    add_batch = λ ids ttl. nothing;
  };
  redis_repo = repo;
  device_session_repo = record {
    save_device_session = λ d. nothing;
    update_last_used_at = λ k d. nothing;
    revoke_device = λ k d. nothing;
    revoke_all_devices = λ k. nothing;
    get_device_sessions = λ k w. (ok [], w);
    count_active_devices = λ k w. (ok 0, w);
  };
  publisher = record {
    publish_auth_session = λ e w. (tt, w);
    publish_blacklist_sync = λ e w. (tt, w);
  };
  runtime = record {
    now = λ w. w.clock;
    random_session_id = λ w. (ok "new", w);
    wait = λ d w. (none, record w { clock = w.clock + d });
  };
  access_token_refresh_buffer = pos 60;
}

service-Aside : Aside service sessions cached_session sessions-Finds sessions-Apart session
service-Aside = record { waits = λ d v. (refl, refl); locks = λ id t v. refl }

do_refresh-Unseen_example :
    ((acquire_refresh_lock sessions "s" (pos lock_ttl) outage).0 ≡ ok false
      → (do_refresh
          (bff service sessions cached_session sessions-Finds sessions-Apart)
          session
          outage).0
        ≡ ok session)
    × ((cb.allow outage).0 ≡ false
        → (acquire_refresh_lock sessions "s" (pos lock_ttl) outage).0 ≡ ok false)
unfolding lookup
do_refresh-Unseen_example =
    do_refresh-Unseen service sessions cached_session sessions-Finds sessions-Apart session
      service-Aside outage refl
