-- ===== src/Flagd/InProcess/GrpcSync.antt =====
-- providers/flagd/pkg/service/in_process/grpc_sync.go and the set of codes of grpc_config.go: the
-- provider of flags that follows a stream. What happens to its goroutines, one thing at a time, is a
-- list of occurrences. The gRPC client, its connection and the status codes `C` are outside the
-- repository, and so are `unmarshal`, which is codes.Code.UnmarshalJSON, and the equality of codes.
use go_sdk_contrib.Common.{
  ℕ, String, Bool, true, false, not, ◌&&◌, Option, none, some, List, [], ◌∷◌, ◌++◌, length, any,
  ltb, if◌then◌else◌,
}
use go_sdk_contrib.OpenFeature.{EventType, provider_error}

-- connectivity.State
pub data Connectivity : Type 0 where
  idle connecting connected transient_failure shut_down : Connectivity

-- How Sync has returned.
pub data Ending (C : Type 0) : Type 0 where
  cancelled : Ending C
  provider_fatal : C → Ending C

-- A message of the stream, which is passed on; the end of a cycle with an error, and its status code
-- if it is a status error; a new state of the connection; the receipt of an event by the service;
-- and the end of the context.
pub data Occurrence (D C : Type 0) : Type 0 where
  message : D → Occurrence D C
  cycle_failed : Option C → Occurrence D C
  connection : Connectivity → Occurrence D C
  receipt : Occurrence D C
  cancellation : Occurrence D C

-- `events` are those in the channel, the oldest first, `passed_on` the data, the newest first, and
-- `closed` whether the context has ended.
pub record Sync (D C : Type 0) : Type 0 where
  pub non_retryable : List C
  pub ready : Bool
  pub events : List EventType
  pub passed_on : List D
  pub ending : Option (Ending C)
  pub closed : Bool

abbrev pub channel_size : ℕ
channel_size = 10

-- initNonRetryableStatusCodesSet
unfoldable pub non_retryable_codes : {C : Type 0} → (String → Option C) → List String → List C
non_retryable_codes unmarshal [] = []
non_retryable_codes unmarshal (code ∷ codes) =
    let rest = non_retryable_codes unmarshal codes in
    elim (unmarshal code) [ none ↦ rest | some c ↦ c ∷ rest ]

module _ {D C : Type 0} where
  unfoldable pub init_sync : (String → Option C) → List String → Sync D C
  unfolding non_retryable_codes
  init_sync unmarshal fatal_status_codes = record {
    non_retryable = non_retryable_codes unmarshal fatal_status_codes;
    ready = false;
    events = [];
    passed_on = [];
    ending = none;
    closed = false;
  }

  -- An event that finds the channel full is dropped.
  unfoldable pub send_event : EventType → Sync D C → Sync D C
  send_event t g =
      if ltb (length g.events) channel_size then record g { events = g.events ++ (t ∷ []) } else g

  unfoldable pub process_flag_data : D → Sync D C → Sync D C
  process_flag_data d g = record g { passed_on = d ∷ g.passed_on; ready = true }

  unfoldable pub handle_connection_state : Connectivity → Sync D C → Sync D C
  unfolding send_event
  handle_connection_state transient_failure g = send_event provider_error g
  handle_connection_state idle g = g
  handle_connection_state connecting g = g
  handle_connection_state connected g = g
  handle_connection_state shut_down g = g

module _ {D C : Type 0} (same_code : C → C → Bool) where
  abbrev pub is_fatal : Sync D C → C → Bool
  is_fatal g c = not g.ready && any (same_code c) g.non_retryable

  -- what Sync does with the error of a cycle
  unfoldable pub fail : Option C → Sync D C → Sync D C
  unfolding send_event
  fail none g = send_event provider_error g
  fail (some c) g =
      if is_fatal g c
      then record g { ending = some (provider_fatal c) }
      else send_event provider_error g

  -- After a fatal error Sync has returned, but the connection is watched until the context ends.
  unfoldable pub occur : Occurrence D C → Sync D C → Sync D C
  unfolding process_flag_data fail handle_connection_state
  occur (message d) g = elim g.ending [ none ↦ process_flag_data d g | some e ↦ g ]
  occur (cycle_failed c) g = elim g.ending [ none ↦ fail c g | some e ↦ g ]
  occur (connection c) g = if g.closed then g else handle_connection_state c g
  occur receipt g = record g { events = elim g.events [ [] ↦ [] | e ∷ events ↦ events ] }
  occur cancellation g = record g {
    closed = true;
    ending = elim g.ending [ none ↦ some cancelled | some e ↦ some e ];
  }

  unfoldable pub follow : List (Occurrence D C) → Sync D C → Sync D C
  unfolding occur
  follow [] g = g
  follow (o ∷ occurrences) g = follow occurrences (occur o g)
