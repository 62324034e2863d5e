-- ===== src/Witnesses/Events.antt =====
-- The events that the provider of GO Feature Flag collects.
use go_sdk_contrib.Common.{
  ℕ, String, ◌≡◌, refl, true, false, none, List, [], ◌∷◌, arith, some, inr, ◌++◌, Option,
}
use go_sdk_contrib.OpenFeature.{pos, bool, string, empty, field}
use go_sdk_contrib.GoFeatureFlag.Collector.{DataCollectorManager, new_data_collector_manager}
use go_sdk_contrib.GoFeatureFlag.Provider.{
  evaluation_type_remote, EvaluationContext, Event, feature, ProviderOptions, Provider,
  new_provider, after, new_feature_event, get_source, tracking,
}
use go_sdk_contrib.GoFeatureFlag.Provider.Collected.{held, after-collected}
use go_sdk_contrib.Witnesses.Sdk.{small_sdk}

-- a provider with remote evaluation, and an evaluation that its cache has answered
abbrev remote_options : ProviderOptions ℕ ℕ
remote_options = record {
  endpoint = "http://relay-proxy";
  exporter_metadata = none;
  evaluation_type = evaluation_type_remote;
  data_collector_max_event_stored = pos 2;
  data_collector_collect_interval = pos 0;
  data_collector_disabled = false;
  disable_cache = false;
}

abbrev remote_provider : Provider ℕ ℕ
remote_provider = record {
  exporter_metadata = field "provider" (string "go") (field "openfeature" (bool true) empty);
  evaluation_type = evaluation_type_remote;
  remote = true;
  data_collector = some (new_data_collector_manager (pos 2) (pos 0));
  collects = true;
}

remote_provider-made : new_provider remote_options ≡ inr remote_provider
unfolding new_provider
remote_provider-made = refl

abbrev one_event : DataCollectorManager (Event ℕ ℕ)
one_event = record {
  events =
      tracking (record {
        context_kind = "user";
        user_key = "undefined";
        creation_date = 1;
        key = "order";
        evaluation_context = empty;
        tracking_details = empty;
      })
      ∷ [];
  max_event_stored = 2;
  collect_interval = 1;
  collected = [];
}

-- a relay proxy that accepts all events
abbrev accepting : List (Event ℕ ℕ) → Option String
accepting events = none

abbrev user : EvaluationContext ℕ ℕ
user = record { targeting_key = "user-1"; attributes = empty }

after-collected_example :
    held (
      after small_sdk accepting 7 user "flag"
        (bool true)
        "on"
        "CACHED"
        (record remote_provider { data_collector = some one_event }))
    ≡ one_event.events
      ++ (feature (new_feature_event 7 user "flag" (bool true) "on" false "" "PROVIDER_CACHE") ∷ [])
unfolding get_source
after-collected_example =
    after-collected small_sdk accepting 7 remote_options remote_provider one_event user "flag" "on"
      "CACHED" (bool true) remote_provider-made (ground arith)
