-- ===== src/Witnesses/Polling.antt =====
-- The evaluators of GO Feature Flag and the HTTP connector.
use go_sdk_contrib.Common.{
  ℕ, String, ◌≡◌, refl, Bool, true, false, none, List, [], ◌∷◌, Assoc, lookup, insert,
  lookup-insert, eq_refl, eq_iff, arith, some,
}
use go_sdk_contrib.OpenFeature.{pos, bool, get, Fields, empty, field, ResolutionDetail}
use go_sdk_contrib.GoFeatureFlag.Api.{FlagConfigResponse, Refresh, changed, not_modified, failed}
use go_sdk_contrib.GoFeatureFlag.Cache.{Cached, is_enabled}
use go_sdk_contrib.GoFeatureFlag.Remote.{
  Remote, evaluate, init as init_remote, shutdown as shutdown_remote,
}
use go_sdk_contrib.GoFeatureFlag.Remote.Laws.{PurgeLaws, init-restarted}
use go_sdk_contrib.GoFeatureFlag.Polling.{InProcess, init, new_inprocess_evaluator}
use go_sdk_contrib.GoFeatureFlag.Polling.Current.{
  IsCurrent, latest, last_failed, ticks, init-ticks-IsCurrent,
}
use go_sdk_contrib.GoFeatureFlag.Polling.Evaluation.{VarResult, Core, evaluate as evaluate_flag}
use go_sdk_contrib.GoFeatureFlag.Polling.Answers.{evaluate-answer}
use go_sdk_contrib.HttpConnector.{
  PayloadCache, FailSafeCache, Client, fetch_directly, HttpConnector, start, tick, stop, run,
  shutdown, sync, fail_safe_payload_cache_key,
}
use go_sdk_contrib.HttpConnector.Polling.{IsShut, shutdown-IsShut}
use go_sdk_contrib.HttpConnector.Options.{
  HttpConnectorOptions, IsUsable, new_http_connector, new_http_connector-IsUsable,
}
use go_sdk_contrib.HttpConnector.Fallback.{CacheLaws, sync-falls_back}
use go_sdk_contrib.Witnesses.Sdk.{Error, small_sdk, small_laws}
use go_sdk_contrib.Witnesses.Providers.{roomy, context_text, cache}

-- an answer that may be cached
abbrev cacheable : Bool → ResolutionDetail Bool Error ℕ ℕ
cacheable value = record {
  value = value;
  detail = record {
    resolution_error = small_sdk.no_error;
    reason = "TARGETING_MATCH";
    variant = "on";
    flag_metadata = some (field "gofeatureflag_cacheable" (bool true) empty);
  };
}

abbrev remote : Remote (Assoc (Cached Error ℕ ℕ))
remote = record { cache = cache; etag = "1"; polling = true; shutdown_once = false }

roomy-PurgeLaws : PurgeLaws roomy
unfolding lookup
roomy-PurgeLaws = record { get-purge = λ k s. ("KeyNotFoundError", refl) }

abbrev resting : Remote (Assoc (Cached Error ℕ ℕ))
resting = record { cache = cache; etag = ""; polling = false; shutdown_once = false }

abbrev response : FlagConfigResponse (Assoc ℕ) (Fields ℕ ℕ)
response = record { flags = ("flag", 1) ∷ []; evaluation_context_enrichment = empty; etag = "2" }

abbrev polls : List (Refresh (Assoc ℕ) (Fields ℕ ℕ))
polls = not_modified ∷ failed "unavailable" ∷ []

init-ticks-IsCurrent_example :
    IsCurrent
      (latest response polls)
      (last_failed false polls)
      (ticks polls (init (changed response) new_inprocess_evaluator).0)
init-ticks-IsCurrent_example = init-ticks-IsCurrent response polls

-- the evaluation of a flag that always has the same value
abbrev always :
    {V : Type 0} → V → ℕ → String → String → Fields ℕ ℕ → Fields ℕ ℕ → V → VarResult V ℕ ℕ
always value flag name key attributes enrichment default_value = record {
  value = value;
  is_failed = false;
  error_code = "";
  error_details = "";
  reason = "STATIC";
  variation_type = "on";
  metadata = none;
  err = none;
}

abbrev module_core : Core ℕ ℕ ℕ
module_core = record {
  evaluate_bool = always true;
  evaluate_string = always "a";
  evaluate_float = always 1;
  evaluate_int = always (pos 1);
  evaluate_object = always (bool true);
  provider_not_ready_code = "PROVIDER_NOT_READY";
  flag_not_found_code = "FLAG_NOT_FOUND";
  parse_error_code = "PARSE_ERROR";
  type_mismatch_code = "TYPE_MISMATCH";
  targeting_key_missing_code = "TARGETING_KEY_MISSING";
  invalid_context_code = "INVALID_CONTEXT";
  general_code = "GENERAL";
}

abbrev polled : InProcess ℕ ℕ ℕ
polled = record {
  flag_config = ("flag", 1) ∷ [];
  evaluation_context_enrichment = empty;
  etag = "2";
  stale = false;
  events = [];
  polling = true;
}

evaluate-answer_example :
    let answer = evaluate_flag small_sdk module_core (always true) "flag" false empty polled in
    (answer.value ≡ true) × (small_sdk.has_error answer.detail.resolution_error ≡ false)
unfolding lookup
evaluate-answer_example =
    evaluate-answer small_sdk module_core small_laws (always true) "flag" false empty polled

-- a cache of payloads that keeps everything
abbrev kept : PayloadCache (Assoc String)
kept = record {
  get = λ k p. (
    p,
    elim (lookup k p) [ none ↦ "" | some v ↦ v ],
    elim (lookup k p) [ none ↦ true | some v ↦ false ],
  );
  put = λ k v p. (insert k v p, false);
  put_with_ttl = λ k v ttl p. (insert k v p, false);
}

kept-CacheLaws : CacheLaws kept
kept-CacheLaws = record {
  get_pure = λ k p. refl;
  get-put = λ k v p h. (
    ground (arith, lookup-insert k k v p, eq_refl k),
    ground (arith, lookup-insert k k v p, eq_refl k),
  );
}

abbrev offline : Client
offline etag last_modified = none

abbrev broken : Client
broken etag last_modified =
    some (record { status = 500; etag = ""; last_modified = ""; body = some "error" })

abbrev fail_safe : FailSafeCache
fail_safe = record { last_update_time = none; update_interval = 60 }

abbrev stored : Assoc String
stored = (fail_safe_payload_cache_key, "flags") ∷ []

abbrev connector : HttpConnector (Assoc String)
connector = record {
  use_polling_cache = false;
  request_ok = true;
  payload_cache = some stored;
  cache_fetcher = none;
  fail_safe_cache = some fail_safe;
  poll_interval_seconds = pos 60;
  payload_cache_poll_ttl_seconds = pos 60;
  is_initialized = false;
  is_shutdown = false;
  scheduled = [];
  delivered = [];
}

abbrev started : HttpConnector (Assoc String)
started = record connector { is_initialized = true; delivered = "flags" ∷ [] }

shutdown-IsShut_example :
    IsShut ("flags" ∷ []) (run kept (tick broken ∷ start offline ∷ stop ∷ []) (shutdown started))
shutdown-IsShut_example =
    shutdown-IsShut kept (tick broken ∷ start offline ∷ stop ∷ []) started refl

abbrev conditional : HttpConnector (Assoc String)
conditional = record started {
  cache_fetcher = some (record { cached_etag = ""; cached_last_modified = "" });
}

abbrev options : HttpConnectorOptions (Assoc String)
options = record {
  has_log = true;
  poll_interval_seconds = pos 0;
  connect_timeout_seconds = pos 0;
  request_timeout_seconds = pos 5;
  proxy_host = "";
  proxy_port = pos 0;
  payload_cache_options = some (pos 60);
  payload_cache = some stored;
  use_http_cache = false;
  use_failsafe_cache = true;
  use_polling_cache = false;
  url = "http://flags.example";
}

new_http_connector-IsUsable_example : IsUsable connector
unfolding new_http_connector
new_http_connector-IsUsable_example =
    new_http_connector-IsUsable (λ url. true) (λ url. true) options connector refl

sync-falls_back_example :
    ((sync kept offline connector).delivered ≡ "flags" ∷ [])
    × ((sync kept offline connector).is_initialized ≡ true)
unfolding fetch_directly lookup
sync-falls_back_example =
    sync-falls_back kept kept-CacheLaws offline connector stored fail_safe "flags" refl refl refl
      refl refl refl refl refl refl (ground (arith, eq_iff "flags" ""))

init-restarted_example :
    shutdown_remote small_sdk roomy context_text (
      init_remote small_sdk roomy context_text
        (changed response)
        (record resting { polling = false; shutdown_once = true; etag = "2" }))
    ≡ none
unfolding is_enabled shutdown_remote init_remote
init-restarted_example =
    init-restarted small_sdk roomy context_text (changed response) (changed response) resting
      (record resting { polling = false; shutdown_once = true; etag = "2" }) refl refl refl
