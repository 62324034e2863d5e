-- ===== src/Flagd/Configuration/Reset.antt =====
-- Reading the environment again: the option FromEnv.
use go_sdk_contrib.Common.{
  String, ◌≡◌, refl, ap, Bool, true, false, List, [], ◌∷◌, arith, if◌then◌else◌,
}
use go_sdk_contrib.Flagd.Environment.{Environment, lowers_to, set_or, int_or_default, status_codes}
use go_sdk_contrib.Flagd.Configuration.{
  ResolverType, ProviderConfiguration, ProviderOption, default_max_cache_size,
  default_max_event_stream_retries, default_grace_period, default_retry_backoff_ms,
  default_retry_backoff_max_ms, default_init_deadline_ms, cache_from, resolver_from, tls_from,
  preset, update_from_env_var, new_default_configuration, apply, finish, new_provider_configuration,
}
use go_sdk_contrib.Flagd.Configuration.Options.{from_env}

set_or-twice : (value old : String) → set_or value (set_or value old) ≡ set_or value old
unfolding set_or
set_or-twice value old = ground arith

cache_from-twice :
    (value old : String) → cache_from value (cache_from value old) ≡ cache_from value old
unfolding cache_from
cache_from-twice value old = ground arith

resolver_from-twice :
    (value : String) (old : ResolverType)
    → resolver_from value (resolver_from value old) ≡ resolver_from value old
unfolding resolver_from
resolver_from-twice value old = ground arith

if-twice :
    {A : Type 0} (b : Bool) (x y : A) → (if b then x else if b then x else y) ≡ (if b then x else y)
if-twice true x y = refl
if-twice false x y = refl

module _ {Y O : Type 0} where
  update_from_env_var-twice :
      (env : Environment) (cfg : ProviderConfiguration Y O)
      → update_from_env_var env (update_from_env_var env cfg) ≡ update_from_env_var env cfg
  unfolding update_from_env_var
  update_from_env_var-twice env cfg =
      simp (set_or-twice, cache_from-twice, resolver_from-twice, if-twice)

  -- The option FromEnv changes nothing if it is the first one: the environment has been read before.
  pub new_provider_configuration-from_env :
      (env : Environment) (opts : List (ProviderOption Y O))
      → new_provider_configuration env (from_env env ∷ opts) ≡ new_provider_configuration env opts
  unfolding new_provider_configuration apply from_env new_default_configuration
  new_provider_configuration-from_env env opts =
      ap (λ cfg. finish env (apply opts cfg)) (update_from_env_var-twice env preset)

  -- Where no environment variable is set, FromEnv still changes a configuration: it sets the size of
  -- the cache, the attempts to connect, the grace period, the backoffs, the deadline and the fatal
  -- status codes to their defaults, whatever an earlier option has made them, and nothing else.
  from_env-resets :
      (env : Environment) (cfg : ProviderConfiguration Y O)
      → ((name : String) → env name ≡ "")
      → from_env env cfg ≡ record cfg {
        max_cache_size = default_max_cache_size;
        event_stream_connection_max_attempts = default_max_event_stream_retries;
        retry_grace_period = default_grace_period;
        retry_backoff_ms = default_retry_backoff_ms;
        retry_backoff_max_ms = default_retry_backoff_max_ms;
        deadline_ms = default_init_deadline_ms;
        fatal_status_codes = [];
      }
  unfolding from_env update_from_env_var set_or tls_from int_or_default cache_from resolver_from
      status_codes lowers_to
  from_env-resets env cfg h = simp h
