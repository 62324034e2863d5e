-- ===== src/Witnesses/Providers.antt =====
-- The creation and the start of a MultiProvider, and the collector and the cache of GO Feature Flag.
use go_sdk_contrib.Common.{
  ℕ, suc, String, ◌≡◌, refl, inl, inr, Bool, true, false, Option, none, some, List, [], ◌∷◌, ◌++◌,
  Assoc, lookup, insert, lookup-insert, eq_refl, arith, if◌then◌else◌,
}
use go_sdk_contrib.OpenFeature.{pos, negsuc, Fields, no_code, ResolutionDetail}
use go_sdk_contrib.MultiProvider.Provider.{
  Member, ProviderMap, Configuration, MultiProvider, new_multi_provider, configured, with_timeout,
  init, init_one,
}
use go_sdk_contrib.GoFeatureFlag.Collector.{
  System, Reach, created, added, idle, new_data_collector_manager, add_event,
}
use go_sdk_contrib.GoFeatureFlag.Collector.Runs.{IsBounded, Reach-conserves, Reach-IsBounded}
use go_sdk_contrib.GoFeatureFlag.Cache.{Cached, bool_detail, Lru, Cache}
use go_sdk_contrib.GoFeatureFlag.Cache.Laws.{LruLaws}
use go_sdk_contrib.Witnesses.Sdk.{Error, provider}

-- a provider that counts its starts, and fails at each if it is not healthy
abbrev member : Bool → Member Error ℕ ℕ ℕ
member healthy = record {
  provider = provider no_code true;
  init = some (λ w. (suc w, if healthy then none else some "no connection"));
  shutdown = none;
}

abbrev two_members : ProviderMap Error ℕ ℕ ℕ
two_members = ("a", some (member true)) ∷ ("b", some (member false)) ∷ []

abbrev multi_provider : MultiProvider Error ℕ ℕ ℕ ℕ
multi_provider = record {
  providers = two_members;
  metadata_name = "MultiProvider {a: small, b: small}";
  has_event_channel = false;
  status = none;
  strategy = go_sdk_contrib.MultiProvider.Provider.custom 0;
}

abbrev collected : List ℕ → Option String
collected events = none

abbrev system : System ℕ
system = record {
  manager = new_data_collector_manager (pos 1) (negsuc 0);
  goroutine = idle;
  earlier = 0;
  stopping = false;
}

abbrev one_added : System ℕ
one_added = record system { manager = (add_event collected 7 (system.manager)).0 }

one_added-Reach : Reach String (7 ∷ []) one_added
unfolding add_event new_data_collector_manager
one_added-Reach = added collected 7 (created (pos 1) (negsuc 0)) refl

Reach-conserves_example : one_added.manager.collected ++ one_added.manager.events ≡ 7 ∷ []
Reach-conserves_example = Reach-conserves one_added-Reach

Reach-IsBounded_example : IsBounded (one_added.manager)
Reach-IsBounded_example = Reach-IsBounded one_added-Reach

-- An LRU cache that evicts nothing and where no entry expires.
abbrev pub roomy : Lru (Assoc (Cached Error ℕ ℕ)) Error ℕ ℕ
roomy = record {
  build = λ size. [];
  get = λ k s. (s, elim (lookup k s) [ none ↦ inl "KeyNotFoundError" | some v ↦ inr v ]);
  set = λ k v s. (insert k v s, none);
  set_with_expire = λ k v t s. (insert k v s, none);
  purge = λ s. [];
  elapse = λ n s. s;
}

pub roomy-LruLaws : LruLaws roomy
roomy-LruLaws = record {
  get-set = λ k v s h n. ground (arith, lookup-insert k k v s, eq_refl k);
  get-set_with_expire = λ k v t s h n w. ground (arith, lookup-insert k k v s, eq_refl k);
}

abbrev pub context_text : Fields ℕ ℕ → String
context_text ctx = "map[]"

abbrev pub cache : Cache (Assoc (Cached Error ℕ ℕ))
cache = record { internal_cache = some []; ttl = pos 60; disabled = false }

abbrev pub to_bool : Cached Error ℕ ℕ → Option (ResolutionDetail Bool Error ℕ ℕ)
to_bool (bool_detail d) = some d
to_bool _ = none
