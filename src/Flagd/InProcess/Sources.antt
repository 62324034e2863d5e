-- ===== src/Flagd/InProcess/Sources.antt =====
-- providers/flagd/pkg/service/in_process/service.go: where the in-process service has its flags
-- from. Sprintf("%s:%d", host, port) of values of type any and the regular expression of the target
-- schemes, which flagd's core declares, are parameters.
use go_sdk_contrib.Common.{
  ℕ, String, ◌==◌, Bool, not, ◌&&◌, Option, none, some, List, if◌then◌else◌,
}
use go_sdk_contrib.OpenFeature.{ℤ}

-- Configuration; `Y` is isync.ISync, `O` []grpc.DialOption, and the host and the port are nil where
-- they have not been set.
pub record Configuration (Y O : Type 0) : Type 0 where
  pub host : Option String
  pub port : Option ℕ
  pub target_uri : String
  pub provider_id : String
  pub selector : String
  pub tls_enabled : Bool
  pub offline_flag_source : String
  pub custom_sync_provider : Option Y
  pub custom_sync_provider_uri : String
  pub grpc_dial_options_override : Option O
  pub certificate_path : String
  pub retry_grace_period : ℤ
  pub retry_back_off_ms : ℤ
  pub retry_back_off_max_ms : ℤ
  pub fatal_status_codes : List String
  pub deadline_ms : ℤ

-- Sync, as far as it is configured
pub record GrpcSync (O : Type 0) : Type 0 where
  pub grpc_dial_options_override : Option O
  pub secure : Bool
  pub cert_path : String
  pub provider_id : String
  pub selector : String
  pub uri : String
  pub fatal_status_codes : List String
  pub retry_back_off_max_ms : ℤ
  pub retry_back_off_ms : ℤ

-- the providers of flags: one that the user has given, one that reads a file, and that of grpc_sync.go
pub data SyncProvider (Y O : Type 0) : Type 0 where
  custom : Y → SyncProvider Y O
  file_sync : String → SyncProvider Y O
  grpc_sync : GrpcSync O → SyncProvider Y O

module _ {Y O : Type 0} (host_port : Option String → Option ℕ → String)
    (is_valid_target_scheme : String → Bool) where
  unfoldable pub build_grpc_uri : Configuration Y O → String
  build_grpc_uri cfg =
      if not (cfg.target_uri == "") && is_valid_target_scheme cfg.target_uri
      then cfg.target_uri
      else host_port cfg.host cfg.port

  unfoldable pub create_sync_provider : Configuration Y O → SyncProvider Y O × String
  unfolding build_grpc_uri
  create_sync_provider cfg = elim cfg.custom_sync_provider [
    | some provider ↦ (custom provider, cfg.custom_sync_provider_uri)
    | none ↦
        if not (cfg.offline_flag_source == "")
        then (file_sync cfg.offline_flag_source, cfg.offline_flag_source)
        else let uri = build_grpc_uri cfg in
          (
            grpc_sync (record {
              grpc_dial_options_override = cfg.grpc_dial_options_override;
              secure = cfg.tls_enabled;
              cert_path = cfg.certificate_path;
              provider_id = cfg.provider_id;
              selector = cfg.selector;
              uri = uri;
              fatal_status_codes = cfg.fatal_status_codes;
              retry_back_off_max_ms = cfg.retry_back_off_max_ms;
              retry_back_off_ms = cfg.retry_back_off_ms;
            }),
            uri,
          )
  ]
