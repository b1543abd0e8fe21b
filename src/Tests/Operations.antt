-- ===== src/Tests/Operations.antt =====
-- The configuration, the consumer and the tables of revocations.
use central_auth.Common.{
  ◌≡◌, refl, ℕ, String, Bool, true, false, ◌&&◌, ◌||◌, not, Option, none, some, List, [], ◌∷◌,
  str_eq, if◌then◌else◌,
}
use central_auth.Common.Int.{pos}
use central_auth.Failure.{Failure, ok, plain, sentinel, canceled, deadline_exceeded, is}
use central_auth.Ports.Types.{AuthSessionEvent}
use central_auth.Config.{Env, atoi, number, split_and_trim, kept, is_space, trim_left, trim_right}
use central_auth.Http.Query.{split}
use central_auth.Config.Kafka.{channel_size_of, clamp, brokers_of, load_kafka_config}
use central_auth.Config.Edge.{load_nets}
use central_auth.Kafka.Startup.{panics, start}
use central_auth.Config.Server.{ServerConfig, byte_len, load_server_config, server_config}
use central_auth.Devices.{Table, other_type, login, done, refused, row_of}
use central_auth.Kafka.Consumer as Consumer
use central_auth.Kafka.Consumer.{
  Round, fetched, failed, run, round, reached, rows_of, save_all, messages, run-replay,
}
use central_auth.Tables.{Db}
use central_auth.Tables.Sessions as Sessions
use central_auth.Tables.Sessions.Remembered.{adds, purges, passes, connects, steps, add-remembered}
use central_auth.Resilient.{BlacklistEntry}
use central_auth.Admin.{user, AdminBlacklistService, block, unblock}
use central_auth.Admin.Stored.{IsOverTable, repository, block-unblock}
use central_auth.Tables.Blocks as Blocks

-- An environment of production
abbrev production : Env
production key =
    if str_eq key "CENTRAL_AUTH_SERVICE_KEY"
    then "0123456789abcdef0123456789abcdef"
    else if str_eq key "APP_ENV"
    then "production"
    else if str_eq key "POSTGRES_PASSWORD"
    then "correct horse"
    else if str_eq key "METRICS_BASIC_AUTH_USER"
    then "prometheus"
    else if str_eq key "METRICS_BASIC_AUTH_PASSWORD"
    then "secret"
    else if str_eq key "METRICS_ALLOWED_CIDR"
    then "10.0.0.0/8"
    else if str_eq key "KAFKA_BROKERS"
    then " , "
    else ""

sizes :
    (channel_size_of "100" ≡ 100)
    × (channel_size_of "+70" ≡ 70)
    × (channel_size_of "-5" ≡ 64)
    × (channel_size_of "70000" ≡ 65536)
    × (channel_size_of "9223372036854775808" ≡ 4096)
    × (channel_size_of "1e3" ≡ 4096)
unfolding channel_size_of atoi number clamp
sizes = (refl, refl, refl, refl, refl, refl)

brokers : brokers_of " a:1,, b:2 " ≡ "a:1" ∷ "b:2" ∷ []
unfolding brokers_of split_and_trim kept split trim_left trim_right is_space
brokers = refl

abbrev config : ServerConfig
config = record {
  service_api_key = "0123456789abcdef0123456789abcdef";
  app_env = "production";
  metrics_basic_auth_user = "prometheus";
  metrics_basic_auth_password = "secret";
  trusted_proxy_cidrs = "172.16.0.0/12" ∷ [];
  rate_limit_requests_per_min = 0;
}

abbrev parse_cidr : String → Option (ℕ → Bool)
parse_cidr c = none

production_starts : load_server_config production ≡ some config
unfolding load_server_config server_config is_space byte_len
production_starts = refl

-- Lists of separators alone
no_ranges : load_nets parse_cidr " , " ≡ some []
unfolding load_nets split_and_trim kept split trim_left trim_right is_space
no_ranges = refl

no_brokers : start {L = ℕ} (load_kafka_config production) (λ b. none) ≡ panics
unfolding start load_kafka_config brokers_of split_and_trim kept split trim_left trim_right is_space
no_brokers = refl

abbrev event : AuthSessionEvent
event = record {
  event_type = "auth.session.created";
  kratos_id = "kim";
  ip_address = "";
  user_agent = "";
  hydra_jti = "jti";
  device_id = "phone";
  timestamp = 5;
}

-- A login whose commit fails, an error of the fetch, a login that PostgreSQL refuses, and the end
abbrev rounds : List Round
rounds =
    fetched (login event (some 5)) 9 done (some plain)
    ∷ failed (sentinel deadline_exceeded) false
    ∷ fetched (login event none) 10 (refused plain) none
    ∷ failed (sentinel canceled) false
    ∷ fetched other_type 11 done none
    ∷ []

abbrev no_devices : Table
no_devices = record { rows = []; next_id = 1 }

run-replay_example :
    ((run rounds (Consumer.start no_devices)).table ≡ save_all (row_of 5 event ∷ []) no_devices)
    × ((run rounds (Consumer.start no_devices)).committed
        ≡ login event (some 5) ∷ login event none ∷ [])
unfolding reached rows_of is Consumer.start
run-replay_example = run-replay rounds (Consumer.start no_devices) refl

abbrev revocations : Db BlacklistEntry
revocations = record { rows = []; now = 10; fault = none }

add-remembered_example :
    (Sessions.is_blacklisted "s1" (
      steps
        (passes 50
          ∷ adds "s1" (pos 20)
          ∷ purges
          ∷ connects (some plain)
          ∷ purges
          ∷ connects none
          ∷ [])
        (Sessions.add "s1" (pos 100) revocations).1)).0
    ≡ ok true
unfolding Sessions.add Sessions.delete_expired
add-remembered_example =
    add-remembered "s1" (pos 100) revocations
      (passes 50
        ∷ adds "s1" (pos 20)
        ∷ purges
        ∷ connects (some plain)
        ∷ purges
        ∷ connects none
        ∷ [])
      refl refl refl

abbrev nothing : {W : Type 0} → W → Option Failure × W
nothing w = (none, w)

abbrev Office : Type 0
Office = Blocks.Blocks × ℕ

abbrev office : AdminBlacklistService Office
office = record {
  repo = repository;
  device_session_repo = record {
    save_device_session = λ d. nothing;
    update_last_used_at = λ k d. nothing;
    revoke_device = λ k d. nothing;
    revoke_all_devices = λ k. nothing;
    get_device_sessions = λ k w. (ok [], w);
    count_active_devices = λ k w. (ok 0, w);
  };
  publisher = record {
    publish_auth_session = λ e w. (tt, w);
    publish_blacklist_sync = λ e w. (tt, w);
  };
  runtime = record { now = λ w. 1000; random_session_id = λ w. (ok "id", w); wait = λ d. nothing };
}

over_table : IsOverTable office
over_table = record { stored = refl; keeps_revoke = λ k w. refl; keeps_publish = λ e w. refl }

abbrev monday : Office
monday = (record { rows = []; now = 10; fault = none }, 0)

abbrev blocked : Office
blocked = (block office user "kim" "fraud" monday).1

block-unblock_example :
    (Blocks.exists user "kim" blocked.0.rows ≡ (Blocks.same user user "kim" "kim" || false))
    × (Blocks.exists user "kim" (unblock office user "kim" blocked).1.0.rows
        ≡ (not (Blocks.same user user "kim" "kim") && false))
unfolding block unblock repository Blocks.add Blocks.remove Blocks.exists
block-unblock_example =
    block-unblock office over_table user "kim" "fraud" monday refl refl user "kim"
