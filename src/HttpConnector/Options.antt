-- ===== src/HttpConnector/Options.antt =====
-- tools/flagd-http-connector/pkg/http_connector_options.go, and NewHttpConnector and
-- NewFailSafeCache. The headers, the proxy's address and the client are left out: they are settings
-- of the HTTP client. url.ParseRequestURI and http.NewRequest are parameters.
use mathlib.Core.Path.{subst}
use mathlib.Core.Sum.{inr-injective}
use go_sdk_contrib.Common.{
  ℕ, zero, ◌*◌, suc, String, ◌≡◌, ◌≢◌, ◌⊎◌, inl, inr, refl, leb, ◌==◌, Bool, true, false, not, ◌&&◌,
  ◌||◌, Option, none, some, [], concat, arith, if◌then◌else◌,
}
use go_sdk_contrib.OpenFeature.{ℤ, pos, negsuc}
use go_sdk_contrib.HttpConnector.{FailSafeCache, HttpConnector}

abbrev pub default_poll_interval_seconds : ℤ
default_poll_interval_seconds = pos 60

abbrev pub default_connect_timeout_seconds : ℤ
default_connect_timeout_seconds = pos 10

abbrev pub default_request_timeout_seconds : ℤ
default_request_timeout_seconds = pos 10

-- `payload_cache_options` is UpdateIntervalSeconds of the options, if there are any.
pub record HttpConnectorOptions (P : Type 0) : Type 0 where
  pub has_log : Bool
  pub poll_interval_seconds : ℤ
  pub connect_timeout_seconds : ℤ
  pub request_timeout_seconds : ℤ
  pub proxy_host : String
  pub proxy_port : ℤ
  pub payload_cache_options : Option ℤ
  pub payload_cache : Option P
  pub use_http_cache : Bool
  pub use_failsafe_cache : Bool
  pub use_polling_cache : Bool
  pub url : String

abbrev pub is_zero : ℤ → Bool
is_zero (pos zero) = true
is_zero _ = false

-- whether a number is neither below the first bound nor above the second
abbrev pub is_between : ℕ → ℕ → ℤ → Bool
is_between low high (pos n) = leb low n && leb n high
is_between low high (negsuc n) = false

abbrev pub is_some : {A : Type 0} → Option A → Bool
is_some none = false
is_some (some a) = true

module _ {P : Type 0} (is_valid_url : String → Bool) where
  -- the text of the error, if there is one
  unfoldable pub validate : HttpConnectorOptions P → Option String
  validate o =
      if not (is_valid_url o.url)
      then some (concat "invalid URL: " o.url)
      else if not (is_between 1 60 o.request_timeout_seconds)
      then some "requestTimeoutSeconds must be between 1 and 60"
      else if not (is_between 1 60 o.connect_timeout_seconds)
      then some "connectTimeoutSeconds must be between 1 and 60"
      else if not (is_between 1 600 o.poll_interval_seconds)
      then some "pollIntervalSeconds must be between 1 and 600"
      else if not (o.proxy_host == "") && is_zero o.proxy_port
      then some "proxyPort must be set if proxyHost is set"
      else if o.proxy_host == "" && not (is_zero o.proxy_port)
      then some "proxyHost must be set if proxyPort is set"
      else if (is_some o.payload_cache_options && not (is_some o.payload_cache))
          || (is_some o.payload_cache && not (is_some o.payload_cache_options))
      then some "both payloadCache and payloadCacheOptions must be set together"
      else if (o.use_failsafe_cache || o.use_polling_cache) && not (is_some o.payload_cache)
      then some "payloadCache must be set if useFailsafeCache or usePollingCache is true"
      else if o.use_polling_cache && not (is_some o.payload_cache)
      then some
          "when usePollingCache is set, payloadCache must implement Put(key, payload, ttlSeconds)"
      else if not o.has_log
      then some "log is required for HttpConnector"
      else none

module _ {P : Type 0} where
  -- the options with the defaults
  unfoldable pub with_defaults : HttpConnectorOptions P → HttpConnectorOptions P
  with_defaults o = record o {
    poll_interval_seconds =
        if is_zero o.poll_interval_seconds
        then default_poll_interval_seconds
        else o.poll_interval_seconds;
    connect_timeout_seconds =
        if is_zero o.connect_timeout_seconds
        then default_connect_timeout_seconds
        else o.connect_timeout_seconds;
    request_timeout_seconds =
        if is_zero o.request_timeout_seconds
        then default_request_timeout_seconds
        else o.request_timeout_seconds;
  }

-- with the interval of the options, which are not nil
unfoldable pub new_fail_safe_cache : ℤ → FailSafeCache
new_fail_safe_cache (pos zero) = record { last_update_time = none; update_interval = 30 * 60 }
new_fail_safe_cache (pos (suc n)) = record { last_update_time = none; update_interval = suc n }
new_fail_safe_cache (negsuc n) = record { last_update_time = none; update_interval = 30 * 60 }

module _ {P : Type 0} (is_valid_url can_request : String → Bool) where
  -- The connector of valid options. The fail-safe cache needs its options, which the validation has
  -- made sure of.
  unfoldable pub assemble : HttpConnectorOptions P → HttpConnector P
  unfolding new_fail_safe_cache
  assemble opts = record {
    use_polling_cache = opts.use_polling_cache;
    request_ok = can_request opts.url;
    payload_cache = opts.payload_cache;
    cache_fetcher =
        if opts.use_http_cache
        then some (record { cached_etag = ""; cached_last_modified = "" })
        else none;
    fail_safe_cache =
        if opts.use_failsafe_cache
        then elim opts.payload_cache_options [
          | none ↦ none
          | some interval ↦ some (new_fail_safe_cache interval)
        ]
        else none;
    poll_interval_seconds = opts.poll_interval_seconds;
    payload_cache_poll_ttl_seconds = opts.poll_interval_seconds;
    is_initialized = false;
    is_shutdown = false;
    scheduled = [];
    delivered = [];
  }

  unfoldable pub new_http_connector : HttpConnectorOptions P → String ⊎ HttpConnector P
  unfolding with_defaults validate assemble
  new_http_connector options =
      let opts = with_defaults options in
      elim (validate is_valid_url opts) [ some err ↦ inl err | none ↦ inr (assemble opts) ]

-- The polling interval is in its bounds, the polling cache keeps a payload as long, and the caches that are used are there.
pub record IsUsable {P : Type 0} (c : HttpConnector P) : Type 0 where
  pub interval : is_between 1 600 c.poll_interval_seconds ≡ true
  pub lifetime : c.payload_cache_poll_ttl_seconds ≡ c.poll_interval_seconds
  pub can_poll : (c.use_polling_cache ≡ false) ⊎ (c.payload_cache ≢ none)
  pub can_fall_back : (c.fail_safe_cache ≡ none) ⊎ (c.payload_cache ≢ none)

module _ {P : Type 0} (is_valid_url can_request : String → Bool) where
  assemble-IsUsable :
      (o : HttpConnectorOptions P)
      → validate is_valid_url o ≡ none
      → IsUsable (assemble is_valid_url can_request o)
  unfolding validate assemble
  assemble-IsUsable o h = record {
    interval = ground (arith, h);
    lifetime = refl;
    can_poll = ground (arith, h);
    can_fall_back = ground (arith, h);
  }

  accepted-new_http_connector :
      (o : HttpConnectorOptions P) (c : HttpConnector P) (failed : Option String)
      → validate is_valid_url o ≡ failed
      → (elim failed [ some err ↦ inl err | none ↦ inr (assemble is_valid_url can_request o) ])
        ≡ inr c
      → IsUsable c
  accepted-new_http_connector o c none v h =
      subst IsUsable (inr-injective _ c h) (assemble-IsUsable o v)
  accepted-new_http_connector o c (some err) v h = cc

  -- A connector that NewHttpConnector makes polls at intervals of 1 to 600 seconds, for as long as which
  -- its polling cache keeps a payload, and it has a cache of payloads if it reads payloads from it before it polls or has a fail-safe cache.
  pub new_http_connector-IsUsable :
      (o : HttpConnectorOptions P) (c : HttpConnector P)
      → new_http_connector is_valid_url can_request o ≡ inr c
      → IsUsable c
  unfolding new_http_connector
  new_http_connector-IsUsable o c h =
      accepted-new_http_connector (with_defaults o) c (validate is_valid_url (with_defaults o)) refl
        h
