-- ===== src/Flagd/Provider.antt =====
-- providers/flagd/pkg/provider.go: the choice of the service, the wait for the first event, and the
-- status that the service's events give. The methods that evaluate flags pass their arguments on
-- to the service.
pub mod Lifecycle
pub mod Composed
use go_sdk_contrib.Common.{
  ℕ, String, ◌⊎◌, inl, inr, Bool, true, false, Option, none, some, List, [], ◌∷◌, if◌then◌else◌,
}
use go_sdk_contrib.OpenFeature.{
  ℤ, pos, State, not_ready_state, ready_state, error_state, EventType, provider_ready,
  provider_config_change, provider_stale, provider_error, FlagEvent,
}
use go_sdk_contrib.Flagd.Cache.{Service, new_cache_service}
use go_sdk_contrib.Flagd.Environment.{Environment}
use go_sdk_contrib.Flagd.Configuration.{
  rpc, in_process, file, ProviderConfiguration, ProviderOption, new_provider_configuration,
}
use go_sdk_contrib.Flagd.InProcess.Sources.{Configuration}

-- rpc.Configuration
pub record RpcConfiguration : Type 0 where
  pub port : ℕ
  pub host : String
  pub certificate_path : String
  pub socket_path : String
  pub tls_enabled : Bool
  pub otel_interceptor : Bool
  pub deadline_ms : ℤ
  pub selector : String

-- The service, as it has been configured: with `L` and `V` the cache's states and values.
pub data Configured (L V Y O : Type 0) : Type 0 where
  rpc_service : RpcConfiguration → Service L V → ℤ → Configured L V Y O
  in_process_service : Configuration Y O → Configured L V Y O

-- `sent` are the events that eventStream has been given, the newest first.
pub record Provider (L V Y O : Type 0) : Type 0 where
  pub initialized : Bool
  pub provider_configuration : ProviderConfiguration Y O
  pub service : Configured L V Y O
  pub status : State
  pub sent : List FlagEvent

-- what Init's select meets
pub data Happening : Type 0 where
  init_done : Option String → Happening
  service_event : FlagEvent → Happening
  deadline : Happening

pub data InitError : Type 0 where
  init_failed : String → InitError
  initialization_failed : String → InitError
  unexpected_event : EventType → InitError
  deadline_exceeded : ℤ → InitError

module _ {Y O : Type 0} where
  unfoldable pub rpc_configuration : ProviderConfiguration Y O → RpcConfiguration
  rpc_configuration cfg = record {
    port = cfg.port;
    host = cfg.host;
    certificate_path = cfg.cert_path;
    socket_path = cfg.socket_path;
    tls_enabled = cfg.tls;
    otel_interceptor = cfg.otel_intercept;
    deadline_ms = cfg.deadline_ms;
    selector = cfg.selector;
  }

  unfoldable pub in_process_configuration : ProviderConfiguration Y O → Configuration Y O
  in_process_configuration cfg = record {
    host = some cfg.host;
    port = some cfg.port;
    target_uri = cfg.target_uri;
    provider_id = cfg.provider_id;
    selector = cfg.selector;
    tls_enabled = cfg.tls;
    offline_flag_source = cfg.offline_flag_source_path;
    custom_sync_provider = cfg.custom_sync_provider;
    custom_sync_provider_uri = cfg.custom_sync_provider_uri;
    grpc_dial_options_override = cfg.grpc_dial_options_override;
    certificate_path = cfg.cert_path;
    retry_grace_period = cfg.retry_grace_period;
    retry_back_off_ms = cfg.retry_backoff_ms;
    retry_back_off_max_ms = cfg.retry_backoff_max_ms;
    fatal_status_codes = cfg.fatal_status_codes;
    deadline_ms = cfg.deadline_ms;
  }

  unfoldable pub file_configuration : ProviderConfiguration Y O → Configuration Y O
  file_configuration cfg = record {
    host = none;
    port = none;
    target_uri = "";
    provider_id = "";
    selector = "";
    tls_enabled = false;
    offline_flag_source = cfg.offline_flag_source_path;
    custom_sync_provider = none;
    custom_sync_provider_uri = "";
    grpc_dial_options_override = none;
    certificate_path = "";
    retry_grace_period = pos 0;
    retry_back_off_ms = pos 0;
    retry_back_off_max_ms = pos 0;
    fatal_status_codes = [];
    deadline_ms = cfg.deadline_ms;
  }

module _ {L V Y O : Type 0} where
  -- `new_lru` is lru.New.
  unfoldable pub choose_service : (ℤ → Option L) → ProviderConfiguration Y O → Configured L V Y O
  unfolding new_cache_service rpc_configuration in_process_configuration file_configuration
  choose_service new_lru cfg = elim cfg.resolver [
    | rpc ↦
        rpc_service (rpc_configuration cfg) (new_cache_service new_lru cfg.cache cfg.max_cache_size)
          cfg.event_stream_connection_max_attempts
    | in_process ↦ in_process_service (in_process_configuration cfg)
    | file ↦ in_process_service (file_configuration cfg)
  ]

  -- the provider, unless its configuration is refused
  unfoldable pub made :
      (ℤ → Option L) → ProviderConfiguration Y O → Option String → String ⊎ Provider L V Y O
  unfolding choose_service
  made new_lru cfg (some err) = inl err
  made new_lru cfg none = inr (record {
    initialized = false;
    provider_configuration = cfg;
    service = choose_service new_lru cfg;
    status = not_ready_state;
    sent = [];
  })

  unfoldable pub new_provider :
      (ℤ → Option L) → Environment → List (ProviderOption Y O) → String ⊎ Provider L V Y O
  unfolding new_provider_configuration made
  new_provider new_lru env opts =
      let (cfg, failed) = new_provider_configuration env opts in made new_lru cfg failed

  -- The loop of Init, with what it returns once it does: `some none` is no error. What service.Init
  -- returns comes once at most.
  unfoldable pub wait :
      List Happening → Provider L V Y O → Provider L V Y O × Option (Option InitError)
  wait [] p = (p, none)
  wait (init_done none ∷ happenings) p = wait happenings p
  wait (init_done (some err) ∷ happenings) p = (p, some (some (init_failed err)))
  wait (service_event e ∷ happenings) p = elim e.event_type [
    | provider_ready ↦ (record p { status = ready_state; initialized = true }, some none)
    | provider_error ↦ (p, some (some (initialization_failed e.message)))
    | provider_stale ↦ (p, some (some (initialization_failed e.message)))
    | provider_config_change ↦ (p, some (some (unexpected_event provider_config_change)))
  ]
  wait (deadline ∷ happenings) p =
      (p, some (some (deadline_exceeded p.provider_configuration.deadline_ms)))

  unfoldable pub init :
      List Happening → Provider L V Y O → Provider L V Y O × Option (Option InitError)
  unfolding wait
  init happenings p = if p.initialized then (p, some none) else wait happenings p

  unfoldable pub set_status : State → Provider L V Y O → Provider L V Y O
  set_status status p = record p { status = status }

  unfoldable pub handle_event : FlagEvent → Provider L V Y O → Provider L V Y O
  unfolding set_status
  handle_event event p =
      let p' : Provider L V Y O = record p { sent = event ∷ p.sent } in
      elim event.event_type [
        | provider_ready ↦ set_status ready_state p'
        | provider_config_change ↦ set_status ready_state p'
        | provider_error ↦ set_status error_state p'
        | provider_stale ↦ p'
      ]

  -- the events in the order in which the service has sent them
  unfoldable pub handle_events : List FlagEvent → Provider L V Y O → Provider L V Y O
  unfolding handle_event
  handle_events [] p = p
  handle_events (event ∷ events) p = handle_events events (handle_event event p)

  unfoldable pub shutdown : Provider L V Y O → Provider L V Y O
  shutdown p = record p { initialized = false }
