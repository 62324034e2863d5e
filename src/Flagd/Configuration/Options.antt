-- ===== src/Flagd/Configuration/Options.antt =====
-- providers/flagd/pkg/configuration.go: the options, which change a configuration. WithLogger
-- only sets the logger, which is left out.
use go_sdk_contrib.Common.{ℕ, zero, suc, String, Bool, true, some, List}
use go_sdk_contrib.OpenFeature.{ℤ, pos, negsuc}
use go_sdk_contrib.Flagd.Environment.{Environment}
use go_sdk_contrib.Flagd.Configuration.{
  rpc, in_process, file, lru_value, in_mem_value, disabled_value, ProviderOption,
  update_from_env_var,
}

-- provider.go
abbrev pub default_custom_sync_provider_uri : String
default_custom_sync_provider_uri = "syncprovider://custom"

module _ {Y O : Type 0} where
  unfoldable pub with_socket_path : String → ProviderOption Y O
  with_socket_path value p = record p { socket_path = value }

  unfoldable pub with_certificate_path : String → ProviderOption Y O
  with_certificate_path path p = record p { cert_path = path; tls = true }

  unfoldable pub with_port : ℕ → ProviderOption Y O
  with_port value p = record p { port = value }

  unfoldable pub with_host : String → ProviderOption Y O
  with_host value p = record p { host = value }

  unfoldable pub with_target_uri : String → ProviderOption Y O
  with_target_uri value p = record p { target_uri = value }

  unfoldable pub without_cache : ProviderOption Y O
  without_cache p = record p { cache = disabled_value }

  unfoldable pub with_basic_in_memory_cache : ProviderOption Y O
  with_basic_in_memory_cache p = record p { cache = in_mem_value }

  unfoldable pub with_lru_cache : ℤ → ProviderOption Y O
  with_lru_cache size p = record p {
    max_cache_size = elim size [
      | pos zero ↦ p.max_cache_size
      | pos (suc n) ↦ pos (suc n)
      | negsuc n ↦ p.max_cache_size
    ];
    cache = lru_value;
  }

  unfoldable pub with_event_stream_connection_max_attempts : ℤ → ProviderOption Y O
  with_event_stream_connection_max_attempts value p = record p {
    event_stream_connection_max_attempts = value;
  }

  unfoldable pub with_tls : String → ProviderOption Y O
  with_tls cert_path p = record p { tls = true; cert_path = cert_path }

  unfoldable pub with_otel_interceptor : Bool → ProviderOption Y O
  with_otel_interceptor value p = record p { otel_intercept = value }

  unfoldable pub with_rpc_resolver : ProviderOption Y O
  with_rpc_resolver p = record p { resolver = rpc }

  unfoldable pub with_in_process_resolver : ProviderOption Y O
  with_in_process_resolver p = record p { resolver = in_process }

  unfoldable pub with_offline_file_path : String → ProviderOption Y O
  with_offline_file_path value p = record p { offline_flag_source_path = value }

  unfoldable pub with_file_resolver : ProviderOption Y O
  with_file_resolver p = record p { resolver = file }

  unfoldable pub with_selector : String → ProviderOption Y O
  with_selector value p = record p { selector = value }

  unfoldable pub with_provider_id : String → ProviderOption Y O
  with_provider_id value p = record p { provider_id = value }

  unfoldable pub from_env : Environment → ProviderOption Y O
  unfolding update_from_env_var
  from_env env p = update_from_env_var env p

  unfoldable pub with_custom_sync_provider_and_uri : Y → String → ProviderOption Y O
  with_custom_sync_provider_and_uri provider uri p = record p {
    custom_sync_provider = some provider;
    custom_sync_provider_uri = uri;
  }

  unfoldable pub with_custom_sync_provider : Y → ProviderOption Y O
  unfolding with_custom_sync_provider_and_uri
  with_custom_sync_provider provider =
      with_custom_sync_provider_and_uri provider default_custom_sync_provider_uri

  unfoldable pub with_grpc_dial_options_override : O → ProviderOption Y O
  with_grpc_dial_options_override value p = record p { grpc_dial_options_override = some value }

  unfoldable pub with_retry_grace_period : ℤ → ProviderOption Y O
  with_retry_grace_period value p = record p { retry_grace_period = value }

  unfoldable pub with_retry_backoff_ms : ℤ → ProviderOption Y O
  with_retry_backoff_ms value p = record p { retry_backoff_ms = value }

  unfoldable pub with_retry_backoff_max_ms : ℤ → ProviderOption Y O
  with_retry_backoff_max_ms value p = record p { retry_backoff_max_ms = value }

  unfoldable pub with_fatal_status_codes : List String → ProviderOption Y O
  with_fatal_status_codes value p = record p { fatal_status_codes = value }

  unfoldable pub with_deadline : ℤ → ProviderOption Y O
  with_deadline value p = record p { deadline_ms = value }
