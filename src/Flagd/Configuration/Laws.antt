-- ===== src/Flagd/Configuration/Laws.antt =====
-- What holds of every configuration that NewProviderConfiguration makes, whatever the options do.
use go_sdk_contrib.Common.{String, ◌≡◌, ◌≢◌, ◌↔◌, ◌⊎◌, eq_iff, Option, none, List, arith}
use go_sdk_contrib.Flagd.Environment.{Environment}
use go_sdk_contrib.Flagd.Configuration.{
  in_process, file, ProviderConfiguration, ProviderOption, default_port, effective,
  update_port_from_env_var, configure_provider_configuration, validate_provider_configuration,
  new_default_configuration, apply, finish, new_provider_configuration,
}

-- The configuration can be used if there is no error.
pub record IsSettled {Y O : Type 0} (cfg : ProviderConfiguration Y O) (err : Option String)
    : Type 0 where
  pub online : (cfg.resolver ≢ in_process) ⊎ (cfg.offline_flag_source_path ≡ "")
  pub refused : (err ≢ none) ↔ ((cfg.resolver ≡ file) × (cfg.offline_flag_source_path ≡ ""))
  pub has_port : (cfg.resolver ≡ file) ⊎ (cfg.port ≢ 0)

-- A configuration that differs from the one asked for in the port and the resolver at most.
record IsKept {Y O : Type 0} (asked cfg : ProviderConfiguration Y O) : Type 0 where
  pub others : cfg ≡ record asked { port = cfg.port; resolver = cfg.resolver }
  pub same_port : (asked.port ≡ 0) ⊎ (cfg.port ≡ asked.port)
  pub same_resolver : (asked.resolver ≡ in_process) ⊎ (cfg.resolver ≡ asked.resolver)

module _ {Y O : Type 0} where
  configured-IsSettled :
      (cfg : ProviderConfiguration Y O)
      → IsSettled
          (configure_provider_configuration cfg)
          (validate_provider_configuration (configure_provider_configuration cfg))
  unfolding configure_provider_configuration validate_provider_configuration effective default_port
  configured-IsSettled cfg = record {
    online = ground (arith, eq_iff cfg.offline_flag_source_path "");
    refused = ground (arith, eq_iff cfg.offline_flag_source_path "");
    has_port = ground (arith, eq_iff cfg.offline_flag_source_path "");
  }

  finish-IsKept :
      (env : Environment) (asked : ProviderConfiguration Y O) → IsKept asked (finish env asked).0
  unfolding finish configure_provider_configuration update_port_from_env_var effective
  finish-IsKept env asked = record {
    others = ground arith;
    same_port = ground arith;
    same_resolver = ground arith;
  }

  -- Whatever the environment and the options are, the configuration of the in-process resolver has no
  -- path of offline flags, a configuration is refused exactly if its resolver is the file resolver
  -- and it has no such path, and for the other two resolvers the port is not 0.
  pub new_provider_configuration-IsSettled :
      (env : Environment) (opts : List (ProviderOption Y O))
      → IsSettled (new_provider_configuration env opts).0 (new_provider_configuration env opts).1
  unfolding new_provider_configuration finish
  new_provider_configuration-IsSettled env opts =
      configured-IsSettled
        (update_port_from_env_var env (apply opts (new_default_configuration env)))

  -- What the options have left is not changed afterwards, but for a port that is 0 and a resolver
  -- that is the in-process resolver.
  new_provider_configuration-IsKept :
      (env : Environment) (opts : List (ProviderOption Y O))
      → IsKept (apply opts (new_default_configuration env)) (new_provider_configuration env opts).0
  unfolding new_provider_configuration
  new_provider_configuration-IsKept env opts =
      finish-IsKept env (apply opts (new_default_configuration env))
