-- ===== src/Kafka.antt =====
-- internal/kafka/producer.go: the three bounded channels of `Producer` and their workers. Each
-- channel with its worker is a lane; a method and one round of a worker are one step each. Whether a
-- write to Kafka succeeds is an argument; the payload and the topics are left out.
pub mod Balance
pub mod Consumer
pub mod Startup
use central_auth.Common.{
  ℕ, suc, ◌+◌, Bool, true, false, Option, none, some, List, [], ◌∷◌, ◌++◌, length, ltb,
  if◌then◌else◌, ◌>>=◌,
}
use central_auth.Ports.Types.{AuthSessionEvent, BlacklistSyncEvent}

-- A channel of `make(chan A, capacity)`, its counter of drops, and what its worker has taken, each
-- event with whether it reached Kafka
pub record Lane (A : Type 0) : Type 0 where
  pub capacity : ℕ
  pub queue : List A
  pub closed : Bool
  pub dropped : ℕ
  pub taken : List (A × Bool)
  pub done : Bool

module _ {A : Type 0} where
  unfoldable pub make_lane : ℕ → Lane A
  make_lane n = record {
    capacity = n;
    queue = [];
    closed = false;
    dropped = 0;
    taken = [];
    done = false;
  }

  -- The `select` of the three methods that publish; a send on a closed channel panics.
  unfoldable pub publish : A → Lane A → Option (Lane A)
  publish event l =
      if l.closed
      then none
      else if ltb (length l.queue) l.capacity
      then some (record l { queue = l.queue ++ (event ∷ []) })
      else some (record l { dropped = l.dropped + 1 })

  -- One round of the worker: an event is taken and written, or lost; on a channel that is closed and
  -- empty the worker ends.
  unfoldable pub work : (written : Bool) → Lane A → Lane A
  work written l = elim l.queue [
    | [] ↦ if l.closed then record l { done = true } else l
    | event ∷ rest ↦ record l { queue = rest; taken = l.taken ++ ((event, written) ∷ []) }
  ]

  unfoldable pub close : Lane A → Lane A
  close l = record l { closed = true }

-- `Producer`; the events of the access log are of type `L`.
pub record Producer (L : Type 0) : Type 0 where
  pub ch : Lane L
  pub auth_ch : Lane AuthSessionEvent
  pub blacklist_ch : Lane BlacklistSyncEvent

module _ {L : Type 0} where
  -- The producer that `NewProducer` returns once the broker answers
  unfoldable pub new_producer : (channel_size : ℕ) → Producer L
  unfolding make_lane
  new_producer channel_size = record {
    ch = make_lane channel_size;
    auth_ch = make_lane 512;
    blacklist_ch = make_lane 128;
  }

  -- `Publish`
  unfoldable pub publish_access_log : L → Producer L → Option (Producer L)
  publish_access_log e p = do ch ← publish e p.ch; some (record p { ch = ch })

  -- `PublishAuthSession`
  unfoldable pub publish_auth_session : AuthSessionEvent → Producer L → Option (Producer L)
  publish_auth_session e p = do ch ← publish e p.auth_ch; some (record p { auth_ch = ch })

  -- `PublishBlacklistSync`
  unfoldable pub publish_blacklist_sync : BlacklistSyncEvent → Producer L → Option (Producer L)
  publish_blacklist_sync e p = do
    ch ← publish e p.blacklist_ch
    some (record p { blacklist_ch = ch })

  -- One round of `runWorker`, of `runAuthWorker` and of `runBlacklistWorker`
  unfoldable pub run_worker : (written : Bool) → Producer L → Producer L
  run_worker written p = record p { ch = work written p.ch }

  unfoldable pub run_auth_worker : (written : Bool) → Producer L → Producer L
  run_auth_worker written p = record p { auth_ch = work written p.auth_ch }

  unfoldable pub run_blacklist_worker : (written : Bool) → Producer L → Producer L
  run_blacklist_worker written p = record p { blacklist_ch = work written p.blacklist_ch }

  -- The part of `Close` that closes the channels; a second call changes nothing.
  unfoldable pub close_channels : Producer L → Producer L
  close_channels p = record {
    ch = close p.ch;
    auth_ch = close p.auth_ch;
    blacklist_ch = close p.blacklist_ch;
  }
