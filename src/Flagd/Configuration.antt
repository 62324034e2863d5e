-- ===== src/Flagd/Configuration.antt =====
-- providers/flagd/pkg/configuration.go. Environment variables are a function from their names; the
-- logger is left out.
pub mod Options
pub mod Laws
pub mod Reset
use go_sdk_contrib.Common.{
  ℕ, String, ◌==◌, Bool, true, false, not, ◌&&◌, ◌||◌, Option, none, some, List, [], ◌∷◌, eqb,
  if◌then◌else◌,
}
use go_sdk_contrib.OpenFeature.{ℤ, pos}
use go_sdk_contrib.Flagd.Environment.{
  Environment, atoi, lowers_to, to_uint16, set_or, int_or_default, status_codes,
}

pub data ResolverType : Type 0 where
  rpc in_process file : ResolverType

abbrev pub lru_value : String
lru_value = "lru"

abbrev pub in_mem_value : String
in_mem_value = "mem"

abbrev pub disabled_value : String
disabled_value = "disabled"

abbrev pub default_rpc_port : ℕ
default_rpc_port = 8013

abbrev pub default_in_process_port : ℕ
default_in_process_port = 8015

abbrev pub default_max_cache_size : ℤ
default_max_cache_size = pos 1000

abbrev pub default_max_event_stream_retries : ℤ
default_max_event_stream_retries = pos 5

abbrev pub default_grace_period : ℤ
default_grace_period = pos 5

abbrev pub default_retry_backoff_ms : ℤ
default_retry_backoff_ms = pos 1000

abbrev pub default_retry_backoff_max_ms : ℤ
default_retry_backoff_max_ms = pos 12000

abbrev pub default_init_deadline_ms : ℤ
default_init_deadline_ms = pos 500

-- `Y` is isync.ISync, and `O` is []grpc.DialOption; `port` is a uint16.
pub record ProviderConfiguration (Y O : Type 0) : Type 0 where
  pub cache : String
  pub cert_path : String
  pub event_stream_connection_max_attempts : ℤ
  pub host : String
  pub max_cache_size : ℤ
  pub offline_flag_source_path : String
  pub otel_intercept : Bool
  pub port : ℕ
  pub target_uri : String
  pub resolver : ResolverType
  pub provider_id : String
  pub selector : String
  pub socket_path : String
  pub tls : Bool
  pub custom_sync_provider : Option Y
  pub custom_sync_provider_uri : String
  pub grpc_dial_options_override : Option O
  pub retry_grace_period : ℤ
  pub retry_backoff_ms : ℤ
  pub retry_backoff_max_ms : ℤ
  pub fatal_status_codes : List String
  pub deadline_ms : ℤ

unfoldable pub cache_from : String → String → String
cache_from value old =
    if value == ""
    then old
    else if value == lru_value
    then lru_value
    else if value == in_mem_value
    then in_mem_value
    else if value == disabled_value
    then disabled_value
    else lru_value

unfoldable pub resolver_from : String → ResolverType → ResolverType
unfolding lowers_to
resolver_from value old =
    if value == ""
    then old
    else if lowers_to value "rpc"
    then rpc
    else if lowers_to value "in-process"
    then in_process
    else if lowers_to value "file"
    then file
    else rpc

-- whether the environment asks for TLS
unfoldable pub tls_from : Environment → Bool
unfolding lowers_to
tls_from env = not (env "FLAGD_SERVER_CERT_PATH" == "") || lowers_to (env "FLAGD_TLS") "true"

-- the text of the port's variable
unfoldable pub port_text : Environment → ResolverType → String
port_text env in_process =
    if env "FLAGD_SYNC_PORT" == "" then env "FLAGD_PORT" else env "FLAGD_SYNC_PORT"
port_text env rpc = env "FLAGD_PORT"
port_text env file = env "FLAGD_PORT"

unfoldable pub default_port : ResolverType → ℕ
default_port rpc = default_rpc_port
default_port in_process = default_in_process_port
default_port file = 0

-- the resolver of a configuration, with the path of the offline flags
unfoldable pub effective : String → ResolverType → ResolverType
effective path in_process = if path == "" then in_process else file
effective path rpc = rpc
effective path file = file

abbrev pub ProviderOption : Type 0 → Type 0 → Type 0
ProviderOption Y O = ProviderConfiguration Y O → ProviderConfiguration Y O

module _ {Y O : Type 0} where
  -- the configuration before the environment has been read
  unfoldable pub preset : ProviderConfiguration Y O
  preset = record {
    cache = lru_value;
    cert_path = "";
    event_stream_connection_max_attempts = default_max_event_stream_retries;
    host = "localhost";
    max_cache_size = default_max_cache_size;
    offline_flag_source_path = "";
    otel_intercept = false;
    port = 0;
    target_uri = "";
    resolver = rpc;
    provider_id = "";
    selector = "";
    socket_path = "";
    tls = false;
    custom_sync_provider = none;
    custom_sync_provider_uri = "";
    grpc_dial_options_override = none;
    retry_grace_period = default_grace_period;
    retry_backoff_ms = default_retry_backoff_ms;
    retry_backoff_max_ms = default_retry_backoff_max_ms;
    fatal_status_codes = [];
    deadline_ms = default_init_deadline_ms;
  }

  unfoldable pub update_from_env_var :
      Environment → ProviderConfiguration Y O → ProviderConfiguration Y O
  unfolding set_or tls_from int_or_default cache_from resolver_from status_codes
  update_from_env_var env cfg = record cfg {
    host = set_or (env "FLAGD_HOST") cfg.host;
    socket_path = set_or (env "FLAGD_SOCKET_PATH") cfg.socket_path;
    tls = if tls_from env then true else cfg.tls;
    cert_path = if tls_from env then env "FLAGD_SERVER_CERT_PATH" else cfg.cert_path;
    max_cache_size = int_or_default (env "FLAGD_MAX_CACHE_SIZE") default_max_cache_size;
    cache = cache_from (env "FLAGD_CACHE") cfg.cache;
    event_stream_connection_max_attempts =
        int_or_default (env "FLAGD_MAX_EVENT_STREAM_RETRIES") default_max_event_stream_retries;
    resolver = resolver_from (env "FLAGD_RESOLVER") cfg.resolver;
    offline_flag_source_path =
        set_or (env "FLAGD_OFFLINE_FLAG_SOURCE_PATH") cfg.offline_flag_source_path;
    provider_id = set_or (env "FLAGD_PROVIDER_ID") cfg.provider_id;
    selector = set_or (env "FLAGD_SOURCE_SELECTOR") cfg.selector;
    target_uri = set_or (env "FLAGD_TARGET_URI") cfg.target_uri;
    retry_grace_period = int_or_default (env "FLAGD_RETRY_GRACE_PERIOD") default_grace_period;
    retry_backoff_ms = int_or_default (env "FLAGD_RETRY_BACKOFF_MS") default_retry_backoff_ms;
    retry_backoff_max_ms =
        int_or_default (env "FLAGD_RETRY_BACKOFF_MAX_MS") default_retry_backoff_max_ms;
    deadline_ms = int_or_default (env "FLAGD_DEADLINE_MS") default_init_deadline_ms;
    fatal_status_codes = status_codes (env "FLAGD_FATAL_STATUS_CODES");
  }

  unfoldable pub new_default_configuration : Environment → ProviderConfiguration Y O
  unfolding preset update_from_env_var
  new_default_configuration env = update_from_env_var env preset

  unfoldable pub update_port_from_env_var :
      Environment → ProviderConfiguration Y O → ProviderConfiguration Y O
  unfolding port_text atoi to_uint16
  update_port_from_env_var env cfg =
      let text = port_text env cfg.resolver in
      if not (eqb cfg.port 0)
      then cfg
      else if text == ""
      then cfg
      else elim (atoi text) [ none ↦ cfg | some n ↦ record cfg { port = to_uint16 n } ]

  unfoldable pub configure_provider_configuration :
      ProviderConfiguration Y O → ProviderConfiguration Y O
  unfolding effective default_port
  configure_provider_configuration p =
      let resolver = effective p.offline_flag_source_path p.resolver in
      record p {
        resolver = resolver;
        port = if eqb p.port 0 then default_port resolver else p.port;
      }

  unfoldable pub validate_provider_configuration : ProviderConfiguration Y O → Option String
  validate_provider_configuration p = elim p.resolver [
    | file ↦
        if p.offline_flag_source_path == ""
        then some "resolver Type 'file' requires a OfflineFlagSourcePath"
        else none
    | _ ↦ none
  ]

  unfoldable pub apply :
      List (ProviderOption Y O) → ProviderConfiguration Y O → ProviderConfiguration Y O
  apply [] cfg = cfg
  apply (opt ∷ opts) cfg = apply opts (opt cfg)

  -- what follows the options
  unfoldable pub finish :
      Environment → ProviderConfiguration Y O → ProviderConfiguration Y O × Option String
  unfolding update_port_from_env_var configure_provider_configuration
      validate_provider_configuration
  finish env cfg =
      let cfg' = configure_provider_configuration (update_port_from_env_var env cfg) in
      (cfg', validate_provider_configuration cfg')

  -- the configuration, and the text of the error if there is one
  unfoldable pub new_provider_configuration :
      Environment → List (ProviderOption Y O) → ProviderConfiguration Y O × Option String
  unfolding new_default_configuration apply finish
  new_provider_configuration env opts = finish env (apply opts (new_default_configuration env))
