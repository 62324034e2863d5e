-- ===== src/GoFeatureFlag/Provider/Collected.antt =====
-- Which evaluations the provider of GO Feature Flag collects.
use go_sdk_contrib.Common.{
  ℕ, ◌<◌, String, ◌≡◌, inr, ◌==◌, Bool, true, false, not, ◌&&◌, Option, none, some, List, [], ◌∷◌,
  ◌++◌, length, arith, if◌then◌else◌,
}
use go_sdk_contrib.OpenFeature.{Any, Sdk}
use go_sdk_contrib.GoFeatureFlag.Collector.{DataCollectorManager, add_event}
use go_sdk_contrib.GoFeatureFlag.Provider.{
  evaluation_type_remote, EvaluationContext, Event, feature, ProviderOptions, Provider, build_hooks,
  new_provider, new_feature_event, get_source, collect, after,
}

module _ {F X : Type 0} where
  -- the events that the collector of a provider holds
  abbrev pub held : Provider F X → List (Event F X)
  held p = elim p.data_collector [ none ↦ [] | some d ↦ d.events ]

  made-new_provider :
      (o : ProviderOptions F X) (p : Provider F X)
      → new_provider o ≡ inr p
      → (p.evaluation_type ≡ o.evaluation_type) × (p.collects ≡ build_hooks o)
  unfolding new_provider
  made-new_provider o p h = ground (arith, h)

module _ {E F X Err : Type 0} (sdk : Sdk E F X) (collect_data : List (Event F X) → Option Err)
    (now : ℕ) where
  -- whether an evaluation with this reason is collected
  abbrev pub is_collected : ProviderOptions F X → String → Bool
  is_collected o reason =
      not o.data_collector_disabled
      && (if o.evaluation_type == evaluation_type_remote
          then not o.disable_cache && reason == sdk.cached_reason
          else true)

  events-add_event :
      (event : Event F X) (d : DataCollectorManager (Event F X))
      → length d.events < d.max_event_stored
      → (add_event collect_data event d).0.events ≡ d.events ++ (event ∷ [])
  unfolding add_event
  events-add_event event d room = ground (arith, room)

  -- A provider collects an evaluation without an error, if its collector has room, exactly if the
  -- collector is not disabled and either the evaluation type is not the remote one, or it is, the cache
  -- is not disabled and the reason of the answer is that of the cache.
  pub after-collected :
      (o : ProviderOptions F X) (p : Provider F X) (d : DataCollectorManager (Event F X))
      (ctx : EvaluationContext F X) (flag_key variant reason : String) (value : Any F X)
      → new_provider o ≡ inr p
      → length d.events < d.max_event_stored
      → held (
          after sdk collect_data now ctx flag_key value variant reason
            (record p { data_collector = some d }))
        ≡ (if is_collected o reason
            then d.events
              ++ (feature (
                    new_feature_event now ctx flag_key value variant false ""
                      (get_source o.evaluation_type))
                  ∷ [])
            else d.events)
  unfolding after collect build_hooks
  after-collected o p d ctx flag_key variant reason value h room =
      let (same, hooked) = made-new_provider o p h in
      let event = feature (
        new_feature_event now ctx flag_key value variant false "" (get_source p.evaluation_type)) in
      ground (arith, same, hooked, events-add_event event d room)
