-- ===== src/GoFeatureFlag/Remote/Laws.antt =====
-- What the remote evaluator answers from its cache, and when it asks again.
use go_sdk_contrib.Common.{
  String, ◌≡◌, inl, inr, true, false, Option, none, some, arith, Option-cases,
}
use go_sdk_contrib.OpenFeature.{Fields, ResolutionDetail, Sdk}
use go_sdk_contrib.GoFeatureFlag.Api.{FlagConfigResponse, Refresh, changed}
use go_sdk_contrib.GoFeatureFlag.Cache.{
  Cached, Lru, Cache, is_enabled, build_cache_key, read, purge,
}
use go_sdk_contrib.GoFeatureFlag.Cache.Laws.{after}
use go_sdk_contrib.GoFeatureFlag.Remote.{Remote, init, poll, shutdown, evaluate}

-- gcache has nothing after a purge: Get returns an error.
pub record PurgeLaws {C E F X : Type 0} (lru : Lru C E F X) : Type 0 where
  pub get-purge : (k : String) (s : C) → (e : String) × ((lru.get k (lru.purge s)).1 ≡ inl e)

module _ {C E F X V : Type 0} (sdk : Sdk E F X) (lru : Lru C E F X)
    (context_text : Fields F X → String) (cast : Cached E F X → Option (ResolutionDetail V E F X))
    (inject : ResolutionDetail V E F X → Cached E F X) (expecting flag : String)
    (ctx : Fields F X) where
  -- After a change of the configuration has been noticed the first evaluation of every flag in every
  -- context is what the OFREP provider answers, whatever was cached before.
  evaluate-poll :
      {G N : Type 0} (laws : PurgeLaws lru) (resp : FlagConfigResponse G N)
      (answer : ResolutionDetail V E F X) (r : Remote C)
      → (evaluate sdk lru context_text
          (read lru context_text cast expecting)
          inject
          flag
          ctx
          answer
          (poll sdk lru context_text (changed resp) r)).1
        ≡ answer
  unfolding evaluate poll purge read
  evaluate-poll laws resp answer r = elim (Option-cases r.cache.internal_cache) [
    | inl e ↦ ground arith
    | inr (s, e) ↦
        let (err, gone) = laws.get-purge (build_cache_key lru context_text flag ctx) s in
        ground (arith, gone)
  ]

module _ {C E F X : Type 0} (sdk : Sdk E F X) (lru : Lru C E F X)
    (context_text : Fields F X → String) where
  -- An evaluator with an enabled cache that is started again after a shutdown cannot be shut down: the
  -- call does not return.
  pub init-restarted :
      {G N : Type 0} (first second : Refresh G N) (r after : Remote C)
      → is_enabled lru context_text r.cache ≡ true
      → r.shutdown_once ≡ false
      → shutdown sdk lru context_text (init sdk lru context_text first r) ≡ some after
      → shutdown sdk lru context_text (init sdk lru context_text second after) ≡ none
  unfolding shutdown init
  init-restarted first second r after enabled fresh h = ground (arith, enabled, fresh, h)
