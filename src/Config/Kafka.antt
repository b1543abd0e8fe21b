-- ===== src/Config/Kafka.antt =====
-- internal/config/kafka.go.
use central_auth.Common.{
  ℕ, ◌≤◌, String, Bool, Option, none, some, List, arith, if◌then◌else◌, str_eq,
}
use central_auth.Common.Int.{ℤ, pos, negsuc, lt_ℤ}
use central_auth.Config.{Env, or_default, split_and_trim, atoi, equal_fold}

-- `KafkaConfig`
pub record KafkaConfig : Type 0 where
  pub brokers : List String
  pub topic : String
  pub blacklist_sync_topic : String
  pub channel_size : ℕ
  pub write_timeout : ℕ
  pub is_production : Bool

-- The loop over `KAFKA_BROKERS` is that of `splitAndTrim`.
unfoldable pub brokers_of : String → List String
brokers_of raw = split_and_trim (or_default raw "kafka:9092")

unfoldable pub clamp : ℤ → ℕ
clamp (negsuc n) = 64
clamp (pos n) = if lt_ℤ (pos n) (pos 64) then 64 else if lt_ℤ (pos 65536) (pos n) then 65536 else n

abbrev size_of : Option ℤ → ℕ
size_of none = 4096
size_of (some n) = clamp n

unfoldable pub channel_size_of : String → ℕ
unfolding clamp
channel_size_of v = if str_eq v "" then 4096 else size_of (atoi v)

-- `LoadKafkaConfig`
unfoldable pub load_kafka_config : Env → KafkaConfig
unfolding brokers_of channel_size_of
load_kafka_config env = record {
  brokers = brokers_of (env "KAFKA_BROKERS");
  topic = or_default (env "KAFKA_TOPIC") "access-logs";
  blacklist_sync_topic = or_default (env "KAFKA_BLACKLIST_SYNC_TOPIC") "blacklist-sync";
  channel_size = channel_size_of (env "KAFKA_CHANNEL_SIZE");
  write_timeout = 5_000_000_000;
  is_production = equal_fold (env "IS_PRODUCTION") "true";
}

-- The channel of the access log holds between 64 and 65536 events, whatever the environment says.
pub channel_size-bounds :
    (env : Env)
    → (64 ≤ (load_kafka_config env).channel_size) × ((load_kafka_config env).channel_size ≤ 65536)
unfolding load_kafka_config channel_size_of clamp
channel_size-bounds env = ground arith
