-- ===== src/GoFeatureFlag/Provider.antt =====
-- providers/go-feature-flag/pkg: provider.go, provider_options.go, the hooks, and the events of
-- model. The evaluator is that of Remote or of Polling, and events go to a Collector; times are
-- those of time.Now, in seconds.
pub mod Collected
pub mod Lifecycle
use go_sdk_contrib.Common.{
  ℕ, String, ◌==◌, ◌⊎◌, inl, inr, Bool, true, false, not, ◌&&◌, ◌||◌, Option, none, some, List,
  if◌then◌else◌,
}
use go_sdk_contrib.OpenFeature.{ℤ, Any, bool, string, object, Fields, empty, field, get, put, Sdk}
use go_sdk_contrib.GoFeatureFlag.Collector.{
  DataCollectorManager, new_data_collector_manager, add_event,
}

abbrev pub evaluation_type_remote : String
evaluation_type_remote = "REMOTE"

-- of.EvaluationContext
pub record EvaluationContext (F X : Type 0) : Type 0 where
  pub targeting_key : String
  pub attributes : Fields F X

pub record FeatureEvent (F X : Type 0) : Type 0 where
  pub context_kind : String
  pub user_key : String
  pub creation_date : ℕ
  pub key : String
  pub variation : String
  pub value : Any F X
  pub default : Bool
  pub version : String
  pub source : String

pub record TrackingEvent (F X : Type 0) : Type 0 where
  pub context_kind : String
  pub user_key : String
  pub creation_date : ℕ
  pub key : String
  pub evaluation_context : Fields F X
  pub tracking_details : Fields F X

-- CollectableEvent
pub data Event (F X : Type 0) : Type 0 where
  feature : FeatureEvent F X → Event F X
  tracking : TrackingEvent F X → Event F X

-- ProviderOptions, as far as the choices of the provider depend on them
pub record ProviderOptions (F X : Type 0) : Type 0 where
  pub endpoint : String
  pub exporter_metadata : Option (Fields F X)
  pub evaluation_type : String
  pub data_collector_max_event_stored : ℤ
  pub data_collector_collect_interval : ℤ
  pub data_collector_disabled : Bool
  pub disable_cache : Bool

-- `remote` is whether the evaluator is the remote one, and `collects` whether there is a hook that
-- collects events.
pub record Provider (F X : Type 0) : Type 0 where
  pub exporter_metadata : Fields F X
  pub evaluation_type : String
  pub remote : Bool
  pub data_collector : Option (DataCollectorManager (Event F X))
  pub collects : Bool

unfoldable pub get_source : String → String
get_source evaluation_type =
    if evaluation_type == evaluation_type_remote then "PROVIDER_CACHE" else "INPROCESS"

module _ {F X : Type 0} where
  unfoldable pub validation : ProviderOptions F X → Option String
  validation o = if o.endpoint == "" then some "invalid option: Endpoint is required" else none

  -- the condition of buildHooks
  unfoldable pub build_hooks : ProviderOptions F X → Bool
  build_hooks o =
      not o.data_collector_disabled
      && (not (o.evaluation_type == evaluation_type_remote) || not o.disable_cache)

  unfoldable pub new_provider : ProviderOptions F X → String ⊎ Provider F X
  unfolding validation build_hooks new_data_collector_manager put
  new_provider o = elim (validation o) [
    | some err ↦ inl err
    | none ↦ inr (record {
      exporter_metadata =
          put "openfeature" (bool true)
            (put "provider" (string "go") (elim o.exporter_metadata [ none ↦ empty | some m ↦ m ]));
      evaluation_type = o.evaluation_type;
      remote = o.evaluation_type == evaluation_type_remote;
      data_collector =
          if o.data_collector_disabled
          then none
          else some (
              new_data_collector_manager o.data_collector_max_event_stored
                o.data_collector_collect_interval);
      collects = build_hooks o;
    })
  ]

  unfoldable pub context_kind : EvaluationContext F X → String
  unfolding get
  context_kind ctx = elim (get "anonymous" ctx.attributes) [
    | some (bool true) ↦ "anonymousUser"
    | _ ↦ "user"
  ]

  unfoldable pub new_feature_event :
      ℕ
      → EvaluationContext F X
      → String
      → Any F X
      → String
      → Bool
      → String
      → String
      → FeatureEvent F X
  unfolding context_kind
  new_feature_event now ctx flag_key value variation failed version source = record {
    context_kind = context_kind ctx;
    user_key = ctx.targeting_key;
    creation_date = now;
    key = flag_key;
    variation = variation;
    value = value;
    default = failed;
    version = version;
    source = source;
  }

  -- The attributes that the enrichment hook gives to an evaluation. Before also writes into the map
  -- under "gofeatureflag" that the caller has given. A nil map there, on which Before panics, is left
  -- out: an `object` is a map that can be written.
  unfoldable pub before : Fields F X → Fields F X → Fields F X
  unfolding get put
  before exporter_metadata attributes =
      let fresh = object (field "exporterMetadata" (object exporter_metadata) empty) in
      put "gofeatureflag"
        (elim (get "gofeatureflag" attributes) [
          | some (object typed) ↦ object (put "exporterMetadata" (object exporter_metadata) typed)
          | _ ↦ fresh
        ])
        attributes

  -- The provider after an event has been given to its collector, whose error is dropped; a provider
  -- without a collector has no hook that gives it one.
  unfoldable pub collect :
      {Err : Type 0} → (List (Event F X) → Option Err) → Event F X → Provider F X → Provider F X
  unfolding add_event
  collect collect_data event p = elim p.data_collector [
    | none ↦ p
    | some d ↦ record p { data_collector = some (add_event collect_data event d).0 }
  ]

module _ {E F X Err : Type 0} (sdk : Sdk E F X) (collect_data : List (Event F X) → Option Err)
    (now : ℕ) where
  -- what the hooks do after an evaluation without an error
  unfoldable pub after :
      EvaluationContext F X → String → Any F X → String → String → Provider F X → Provider F X
  unfolding new_feature_event get_source collect
  after ctx flag_key value variant reason p =
      if not p.collects
      then p
      else if p.evaluation_type == evaluation_type_remote && not (reason == sdk.cached_reason)
      then p
      else collect collect_data
          (feature (
            new_feature_event now ctx flag_key value variant false ""
              (get_source p.evaluation_type)))
          p

  -- what the hooks do after an error, with the default value
  unfoldable pub error : EvaluationContext F X → String → Any F X → Provider F X → Provider F X
  unfolding new_feature_event get_source collect
  error ctx flag_key default_value p =
      if not p.collects
      then p
      else collect collect_data
          (feature (
            new_feature_event now ctx flag_key default_value "SdkDefault" true ""
              (get_source p.evaluation_type)))
          p

  unfoldable pub track : EvaluationContext F X → String → Fields F X → Provider F X → Provider F X
  unfolding context_kind collect
  track ctx tracking_event_name details p =
      collect collect_data
        (tracking (record {
          context_kind = context_kind ctx;
          user_key = if ctx.targeting_key == "" then "undefined" else ctx.targeting_key;
          creation_date = now;
          key = tracking_event_name;
          evaluation_context = ctx.attributes;
          tracking_details = details;
        }))
        p
