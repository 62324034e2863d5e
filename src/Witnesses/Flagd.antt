-- ===== src/Witnesses/Flagd.antt =====
-- The provider of flagd, its configuration and its in-process service.
use mathlib.Core.Option
use go_sdk_contrib.Common.{
  ℕ, String, ◌==◌, eqb, ◌≡◌, refl, inr, Bool, true, false, Option, none, some, List, [], ◌∷◌,
  lookup, if◌then◌else◌,
}
use go_sdk_contrib.OpenFeature.{
  pos, string, empty, field, provider_ready, provider_error, ready_state, not_ready_state,
  error_state,
}
use go_sdk_contrib.Flagd.Cache.{CacheOps, Service}
use go_sdk_contrib.Flagd.InProcess.Diff.{StoredFlag, contains, compute_changed_flags}
use go_sdk_contrib.Flagd.InProcess.Changed.{differs, compute_changed_flags-differs}
use go_sdk_contrib.Flagd.InProcess.Resolve.{
  Model, Evaluation, create_service_metadata, append_metadata, resolve_value,
}
use go_sdk_contrib.Flagd.InProcess.Details.{resolve_value-answer}
use go_sdk_contrib.Flagd.InProcess.{
  Core, InProcess, Input, sync_event, timer, data_sync, new_in_process, handle_sync_event, expire,
  run, event,
}
use go_sdk_contrib.Flagd.InProcess.Ready.{run-new-IsConsistent}
use go_sdk_contrib.Flagd.InProcess.GrpcSync.{
  transient_failure, Occurrence, message, cycle_failed, connection, receipt, cancellation,
}
use go_sdk_contrib.Flagd.InProcess.Streaming.{IsSound as IsSoundSync}
use go_sdk_contrib.Flagd.Environment.{Environment}
use go_sdk_contrib.Flagd.Configuration.{
  ProviderConfiguration, ProviderOption, preset, new_provider_configuration,
}
use go_sdk_contrib.Flagd.Configuration.Options.{
  with_deadline, with_file_resolver, with_offline_file_path, from_env,
}
use go_sdk_contrib.Flagd.Configuration.Laws.{IsSettled, new_provider_configuration-IsSettled}
use go_sdk_contrib.Flagd.Configuration.Reset.{new_provider_configuration-from_env}
use go_sdk_contrib.Flagd.Provider.{
  Provider, Happening, init_done, service_event, deadline, in_process_service, file_configuration,
}
use go_sdk_contrib.Flagd.Provider.Composed.{
  following, following-ready, following-stale, following-overtaken,
}
use go_sdk_contrib.Flagd.InProcess.Interleaved.{
  Action, receive_event, monitor_on, fire, callback, receive_data, listener_on, at_rest, act_all,
}
use go_sdk_contrib.Flagd.InProcess.Interleaved.Alone.{handlers, overtaken}
use go_sdk_contrib.Flagd.InProcess.Interleaved.Sound.{IsSound, act_all-new-IsSound}
use go_sdk_contrib.Flagd.Stream.{
  Attempt, refused, RpcService, returned, new_service, start_event_stream,
}
use go_sdk_contrib.Flagd.Stream.Exhausted.{IsGivenUp, start_event_stream-IsGivenUp}
use go_sdk_contrib.Witnesses.Sdk.{small_sdk, small_laws}

-- a store whose flags are replaced by what comes
abbrev Flags : Type 0
Flags = List (StoredFlag ℕ)

abbrev flag : String → ℕ → StoredFlag ℕ
flag key content = record { key = key; content = content }

abbrev core : Core Flags Flags ℕ
core = record { get_all = inr; set_state = λ d s. (d, none); deep_equal = eqb }

abbrev inputs : List (Input Flags)
inputs =
    data_sync (flag "a" 1 ∷ [])
    ∷ sync_event provider_error
    ∷ timer
    ∷ data_sync (flag "a" 2 ∷ [])
    ∷ []

abbrev served : InProcess Flags
served = run core inputs (new_in_process [])

-- data that comes while the handler of a lost connection is under way
abbrev interleaved : List (Action Flags)
interleaved =
    receive_event provider_error
    ∷ receive_data (flag "a" 1 ∷ [])
    ∷ listener_on
    ∷ monitor_on
    ∷ listener_on
    ∷ monitor_on
    ∷ fire
    ∷ callback
    ∷ listener_on
    ∷ []

act_all-new-IsSound_example : IsSound (act_all core interleaved (at_rest (new_in_process [])))
act_all-new-IsSound_example = act_all-new-IsSound core interleaved []

compute_changed_flags-differs_example :
    contains "b"
      (compute_changed_flags eqb (("a", 1) ∷ ("b", 2) ∷ []) (flag "a" 1 ∷ flag "b" 3 ∷ []))
    ≡ differs eqb (some 2) (some 3)
unfolding lookup
compute_changed_flags-differs_example =
    compute_changed_flags-differs eqb "b" (("a", 1) ∷ ("b", 2) ∷ []) (flag "a" 1 ∷ flag "b" 3 ∷ [])
      (refl, (refl, tt))

abbrev model : Model
model = record {
  flag_not_found_error_code = "FLAG_NOT_FOUND";
  type_mismatch_error_code = "TYPE_MISMATCH";
  parse_error_code = "PARSE_ERROR";
  disabled_reason = "DISABLED";
  fallback_reason = "FALLBACK";
}

abbrev evaluation : Evaluation Bool ℕ ℕ
evaluation = record {
  value = true;
  variant = "on";
  reason = "STATIC";
  metadata = some (field "scope" (string "x") empty);
  err = none;
}

resolve_value-answer_example :
    Option.map {B = Bool × Bool}
      (λ r. (r.value, small_sdk.has_error r.detail.resolution_error))
      (resolve_value small_sdk model (create_service_metadata "s" "p") "key" false evaluation)
    ≡ some (true, false)
unfolding append_metadata create_service_metadata
resolve_value-answer_example =
    resolve_value-answer small_sdk model small_laws (create_service_metadata "s" "p") "key" false
      evaluation

abbrev fatal : List (Occurrence ℕ ℕ)
fatal =
    connection transient_failure ∷ receipt ∷ cycle_failed (some 7) ∷ message 1 ∷ cancellation ∷ []

abbrev unmarshal : String → Option ℕ
unmarshal code = if code == "PERMISSION_DENIED" then some 7 else none

abbrev environment : Environment
environment name =
    if name == "FLAGD_HOST" then "flags.example" else if name == "FLAGD_PORT" then "9000" else ""

abbrev file_options : List (ProviderOption ℕ ℕ)
file_options = with_file_resolver ∷ with_offline_file_path "flags.json" ∷ []

new_provider_configuration-IsSettled_example :
    IsSettled
      (new_provider_configuration environment file_options).0
      (new_provider_configuration environment file_options).1
new_provider_configuration-IsSettled_example =
    new_provider_configuration-IsSettled environment file_options

new_provider_configuration-from_env_example :
    new_provider_configuration environment (from_env environment ∷ file_options)
    ≡ new_provider_configuration environment file_options
new_provider_configuration-from_env_example =
    new_provider_configuration-from_env environment file_options

abbrev slow : ProviderConfiguration ℕ ℕ
slow = with_deadline (pos 9000) preset

abbrev fresh : Provider ℕ ℕ ℕ ℕ
fresh = record {
  initialized = false;
  provider_configuration = (new_provider_configuration environment file_options).0;
  service =
      in_process_service
        (file_configuration (new_provider_configuration environment file_options).0);
  status = not_ready_state;
  sent = [];
}

abbrev happenings : List Happening
happenings = init_done none ∷ service_event (event provider_ready "") ∷ deadline ∷ []

following-ready_example :
    (following
      (act_all core (handlers inputs) (at_rest (new_in_process []))).service.sent
      fresh).status
    ≡ ready_state
unfolding act_all new_in_process
following-ready_example = following-ready core inputs [] fresh refl

following-overtaken_example :
    ((act_all core (overtaken (flag "a" 2 ∷ [])) (at_rest served)).service.ready ≡ true)
    × ((following
          (act_all core (overtaken (flag "a" 2 ∷ [])) (at_rest served)).service.sent
          fresh).status
        ≡ error_state)
unfolding run new_in_process
following-overtaken_example =
    following-overtaken core (flag "a" 2 ∷ []) served (flag "a" 2 ∷ []) fresh refl refl refl

following-stale_example :
    ((handle_sync_event provider_error served).ready ≡ false)
    × ((following (handle_sync_event provider_error served).sent fresh).status ≡ ready_state)
    × ((following (expire (handle_sync_event provider_error served)).sent fresh).status
        ≡ error_state)
unfolding run new_in_process
following-stale_example = following-stale served fresh (run-new-IsConsistent core inputs []) refl

abbrev attempts : List (Attempt ℕ ℕ)
attempts =
    record { connection = refused "unavailable"; closed = false }
    ∷ record { connection = refused "unavailable"; closed = false }
    ∷ []

abbrev no_cache : Service ℕ ℕ
no_cache = record { cache_enabled = false; cache = none }

abbrev counted : CacheOps ℕ ℕ
counted = record {
  add = λ k v s. (s, false);
  purge = λ s. 0;
  get = λ k s. (s, none);
  remove = λ k s. (s, false);
}

start_event_stream-IsGivenUp_example :
    (after : RpcService ℕ ℕ) × (start_event_stream counted attempts (new_service no_cache 2)
      ≡ some (returned after))
    × IsGivenUp (new_service no_cache 2) after
start_event_stream-IsGivenUp_example =
    start_event_stream-IsGivenUp counted attempts no_cache (refl, (refl, tt)) refl
