-- ===== src/Kafka/Startup.antt =====
-- `NewProducer` of internal/kafka/producer.go with the configuration that it is given,
-- `ShouldStartConsumer` of startup.go, and `Close`. Whether the first broker answers is an argument.
use central_auth.Common.{
  ◌≡◌, String, Bool, true, false, ◌&&◌, not, Option, none, some, List, [], ◌∷◌, str_eq,
  if◌then◌else◌,
}
use central_auth.Failure.{Failure}
use central_auth.Config.{Env}
use central_auth.Config.Blank.{IsBlank, split_and_trim-blank}
use central_auth.Config.Kafka.{KafkaConfig, load_kafka_config, brokers_of}
use central_auth.Kafka.{
  Producer, new_producer, close_channels, run_worker, run_auth_worker, run_blacklist_worker,
}

-- What `NewProducer` ends in: a panic, `os.Exit(1)`, a `NoopPublisher` with the error of the dial, or a
-- producer.
pub data Start (L : Type 0) : Type 0 where
  panics exits : Start L
  noop : Failure → Start L
  running : Producer L → Start L

-- One round of one of the three workers
pub data Worker : Type 0 where
  access auth blacklist : Worker

-- The error that `Close` returns
unfoldable pub close_error : (blacklist_writer writer : Option Failure) → Option Failure
close_error none e = e
close_error (some e) f = some e

module _ {L : Type 0} where
  -- After the dial
  abbrev pub connected : KafkaConfig → Option Failure → Start L
  connected cfg none = running (new_producer cfg.channel_size)
  connected cfg (some e) = if cfg.is_production then exits else noop e

  abbrev pub with_brokers : KafkaConfig → (dial : String → Option Failure) → List String → Start L
  with_brokers cfg dial [] = panics
  with_brokers cfg dial (b ∷ bs) = connected cfg (dial b)

  -- `NewProducer`; the index of `cfg.Brokers[0]` is out of range where there is no broker.
  unfoldable pub start : KafkaConfig → (dial : String → Option Failure) → Start L
  start cfg dial = with_brokers cfg dial cfg.brokers

  -- `ShouldStartConsumer`
  unfoldable pub should_start_consumer : Start L → Bool
  should_start_consumer (running p) = true
  should_start_consumer (noop e) = false
  should_start_consumer panics = false
  should_start_consumer exits = false

  -- A KAFKA_BROKERS of commas and white space alone makes the start panic, whether any broker answers or
  -- not and in every mode.
  pub blank-panics :
      (env : Env) (dial : String → Option Failure)
      → str_eq (env "KAFKA_BROKERS") "" ≡ false
      → IsBlank (env "KAFKA_BROKERS")
      → start (load_kafka_config env) dial ≡ panics
  unfolding start load_kafka_config brokers_of
  blank-panics env dial set blank = rw set (rw (split_and_trim-blank (env "KAFKA_BROKERS") blank))

  abbrev pub work_of : Worker → Bool → Producer L → Producer L
  work_of access written p = run_worker written p
  work_of auth written p = run_auth_worker written p
  work_of blacklist written p = run_blacklist_worker written p

  unfoldable pub works : List (Worker × Bool) → Producer L → Producer L
  works [] p = p
  works ((w, written) ∷ rounds) p = works rounds (work_of w written p)

  abbrev pub all_done : Producer L → Bool
  all_done p = p.ch.done && (p.auth_ch.done && p.blacklist_ch.done)

  -- `Close`: the producer after the rounds that the workers get before the deadline, whether it has
  -- timed out, and the error.
  unfoldable pub close :
      List (Worker × Bool)
      → (blacklist_writer writer : Option Failure) → Producer L
      → Producer L × Bool × Option Failure
  unfolding works close_error
  close rounds blacklist_writer writer p =
      let p' = works rounds (close_channels p) in
      (p', not (all_done p'), close_error blacklist_writer writer)
