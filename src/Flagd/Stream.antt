-- ===== src/Flagd/Stream.antt =====
-- providers/flagd/pkg/service/rpc/service.go: the event stream and its retries. What each attempt to
-- connect meets is an `Attempt`; connect's client is outside the repository.
pub mod Exhausted
use go_sdk_contrib.Common.{
  ℕ, String, ◌⊎◌, inl, inr, Bool, true, false, not, Option, none, some, List, [], ◌∷◌, concat,
  if◌then◌else◌,
}
use go_sdk_contrib.OpenFeature.{
  Fields, EventType, provider_ready, provider_config_change, provider_error, FlagEvent,
}
use go_sdk_contrib.Flagd.Cache.{CacheOps, Service, cache_purge, disable}
use go_sdk_contrib.Flagd.RetryCounter.{RetryCounter, new_retry_counter, reset, retry, sleep}
use go_sdk_contrib.Flagd.Changes.{handle_configuration_change_event}

-- The messages of the stream; that of a change has its data as a map, or none.
pub data Message (F X : Type 0) : Type 0 where
  configuration_change : Option (Fields F X) → Message F X
  ready_message shutdown_message keep_alive other_message : Message F X

-- The connection is refused with an error, or gives messages until it ends, with an error perhaps.
pub data Connection (F X : Type 0) : Type 0 where
  refused : String → Connection F X
  opened : List (Message F X) → Option String → Connection F X

-- `closed` is whether the context is cancelled when the connection is refused or has ended.
pub record Attempt (F X : Type 0) : Type 0 where
  pub connection : Connection F X
  pub closed : Bool

-- `stream_ready` is the channel of capacity 1 whose value Init returns, and `events` those that have
-- been sent, the newest first.
pub record RpcService (L V : Type 0) : Type 0 where
  pub cache : Service L V
  pub retry_counter : RetryCounter
  pub stream_ready : Option (Option String)
  pub signaled : Bool
  pub events : List FlagEvent

abbrev pub failed_message : String
failed_message = "grpc connection establishment failed"

abbrev pub cancelled_message : String
cancelled_message = "context canceled"

-- What startEventStream has done: `running` before the next attempt, else it has returned.
pub data Progress (L V : Type 0) : Type 0 where
  running returned : RpcService L V → Progress L V

module _ {L V : Type 0} where
  unfoldable pub new_service : Service L V → ℕ → RpcService L V
  unfolding new_retry_counter
  new_service cache retries = record {
    cache = cache;
    retry_counter = new_retry_counter retries;
    stream_ready = none;
    signaled = false;
    events = [];
  }

  unfoldable pub signal_stream_ready : Option String → RpcService L V → RpcService L V
  signal_stream_ready err s = elim s.stream_ready [
    | none ↦ record s { stream_ready = some err }
    | some earlier ↦ s
  ]

  -- sendEvent while the context is not cancelled
  unfoldable pub send_event : EventType → String → List String → RpcService L V → RpcService L V
  send_event t message flag_changes s = record s {
    events = record { event_type = t; message = message; flag_changes = flag_changes } ∷ s.events;
  }

  -- the signal of an error, unless the stream has been ready
  unfoldable pub signal_error : String → RpcService L V → RpcService L V
  unfolding signal_stream_ready
  signal_error err s = if s.signaled then s else signal_stream_ready (some err) s

  -- the signal of the first connection
  unfoldable pub connected : RpcService L V → RpcService L V
  unfolding signal_stream_ready
  connected s = if s.signaled then s else record (signal_stream_ready none s) { signaled = true }

  -- the wait before the next attempt
  unfoldable pub pause : RpcService L V → RpcService L V
  unfolding sleep
  pause s = record s { retry_counter = (sleep s.retry_counter).0 }

  -- the counter's test before an attempt
  unfoldable pub try_again : RpcService L V → RpcService L V × Bool
  unfolding retry
  try_again s = (record s { retry_counter = (retry s.retry_counter).0 }, (retry s.retry_counter).1)

module _ {L V : Type 0} (lru_ops : CacheOps L V) where
  -- the cache after an error of the stream
  unfoldable pub purge_enabled : Service L V → Option (Service L V)
  unfolding cache_purge
  purge_enabled c =
      if c.cache_enabled
      then elim c.cache [
        | none ↦ none
        | some b ↦ some (record c { cache = some (cache_purge lru_ops b) })
      ]
      else some c

  -- what follows the last attempt
  unfoldable pub give_up : RpcService L V → Option (RpcService L V)
  unfolding disable signal_error send_event
  give_up s = elim (disable lru_ops s.cache) [
    | none ↦ none
    | some cache ↦ some (
        send_event provider_error failed_message []
          (signal_error failed_message (record s { cache = cache })))
  ]

module _ {L V F X : Type 0} (lru_ops : CacheOps L V) where
  -- One message, with whether it ends the stream; `none` is the panic of a call on a nil cache.
  unfoldable pub handle_message : Message F X → RpcService L V → Option (RpcService L V × Bool)
  unfolding reset send_event handle_configuration_change_event
  handle_message m s =
      let s' : RpcService L V = record s { retry_counter = reset s.retry_counter } in
      elim m [
        | configuration_change data_map ↦
            elim (handle_configuration_change_event lru_ops data_map s'.cache) [
              | none ↦ none
              | some (cache, none) ↦ some (record s' { cache = cache }, false)
              | some (cache, some keys) ↦ some (
                send_event provider_config_change "flags changed" keys
                    (record s' { cache = cache }),
                false,
              )
            ]
        | ready_message ↦ some (send_event provider_ready "" [] s', false)
        | shutdown_message ↦ some (s', true)
        | keep_alive ↦ some (s', false)
        | other_message ↦ some (s', false)
      ]

  -- the messages, up to the one that ends the stream
  unfoldable pub receive : List (Message F X) → RpcService L V → Option (RpcService L V × Bool)
  unfolding handle_message
  receive [] s = some (s, false)
  receive (m ∷ messages) s = elim (handle_message m s) [
    | none ↦ none
    | some (s', true) ↦ some (s', true)
    | some (s', false) ↦ receive messages s'
  ]

  -- with the error that it returns, if it returns one
  unfoldable pub stream_client :
      Connection F X → RpcService L V → Option (RpcService L V × Option String)
  unfolding connected receive send_event
  stream_client (refused err) s = some (s, some err)
  stream_client (opened messages failed) s = elim (receive messages (connected s)) [
    | none ↦ none
    | some (s', true) ↦ some (s', none)
    | some (s', false) ↦ elim failed [
      | none ↦ some (s', none)
      | some err ↦ some (send_event provider_error (concat "stream error: " err) [] s', some err)
    ]
  ]

  -- One turn of the loop. If the context has been cancelled and the wait is over, the select is taken
  -- to choose the context, and an event that is then sent is taken to be sent.
  unfoldable pub attempt : Attempt F X → RpcService L V → Option (Progress L V)
  unfolding stream_client signal_error purge_enabled pause
  attempt a s = elim (stream_client a.connection s) [
    | none ↦ none
    | some (s', none) ↦ some (
        if a.closed
        then returned (signal_error cancelled_message (pause s'))
        else running (pause s'))
    | some (s', some err) ↦
        if a.closed
        then some (returned (signal_error cancelled_message s'))
        else elim (purge_enabled lru_ops s'.cache) [
          | none ↦ none
          | some cache ↦ some (running (pause (record s' { cache = cache })))
        ]
  ]

  -- the loop, after the counter's test
  unfoldable pub loop : List (Attempt F X) → RpcService L V → Bool → Option (Progress L V)
  unfolding try_again give_up attempt
  loop attempts s false = elim (give_up lru_ops s) [ none ↦ none | some s' ↦ some (returned s') ]
  loop [] s true = some (running s)
  loop (a ∷ attempts) s true = elim (attempt a s) [
    | none ↦ none
    | some (returned s') ↦ some (returned s')
    | some (running s') ↦ loop attempts (try_again s').0 (try_again s').1
  ]

  unfoldable pub start_event_stream : List (Attempt F X) → RpcService L V → Option (Progress L V)
  unfolding loop try_again
  start_event_stream attempts s = loop attempts (try_again s).0 (try_again s).1
