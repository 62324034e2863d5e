-- ===== src/GoFeatureFlag/Remote.antt =====
-- providers/go-feature-flag/pkg/evaluator/remote.go: evaluation by OFREP with a cache that is purged
-- when the configuration changes. The OFREP provider is a `FeatureProvider`, the LRU cache that of
-- Cache.
pub mod Laws
use go_sdk_contrib.Common.{String, Bool, true, false, not, Option, none, some, if◌then◌else◌}
use go_sdk_contrib.OpenFeature.{ℤ, Any, Fields, ResolutionDetail, FeatureProvider, Sdk}
use go_sdk_contrib.GoFeatureFlag.Api.{FlagConfigResponse, Refresh, changed, not_modified, failed}
use go_sdk_contrib.GoFeatureFlag.Cache.{
  Cached, bool_detail, string_detail, float_detail, int_detail, interface_detail, Lru, Cache, Found,
  absent, found, failure, new_cache, is_enabled, get_bool, get_string, get_float, get_int,
  get_interface, set, purge,
}

abbrev pub cacheable_metadata_key : String
cacheable_metadata_key = "gofeatureflag_cacheable"

-- `polling` is whether the goroutine of startPolling runs, and `shutdown_once` whether Shutdown has
-- closed the channel of its first run.
pub record Remote (C : Type 0) : Type 0 where
  pub cache : Cache C
  pub etag : String
  pub polling : Bool
  pub shutdown_once : Bool

-- the detail with the reason of the cache
abbrev pub from_cache :
    {E F X V : Type 0} → Sdk E F X → ResolutionDetail V E F X → ResolutionDetail V E F X
from_cache sdk d = record d { detail = record (d.detail) { reason = sdk.cached_reason } }

module _ {C E F X : Type 0} (sdk : Sdk E F X) (lru : Lru C E F X)
    (context_text : Fields F X → String) where
  unfoldable pub new_remote_evaluator : ℤ → ℤ → Bool → Remote C
  unfolding new_cache
  new_remote_evaluator flag_cache_size flag_cache_ttl disable_cache = record {
    cache = new_cache lru context_text flag_cache_size flag_cache_ttl disable_cache;
    etag = "";
    polling = false;
    shutdown_once = false;
  }

  -- Init with an API that is there
  unfoldable pub init : {G N : Type 0} → Refresh G N → Remote C → Remote C
  unfolding is_enabled
  init refresh r =
      if is_enabled lru context_text r.cache
      then record r {
        etag = elim refresh [ changed resp ↦ resp.etag | _ ↦ r.etag ];
        polling = true;
      }
      else r

  -- what the goroutine does at a tick
  unfoldable pub poll : {G N : Type 0} → Refresh G N → Remote C → Remote C
  unfolding purge
  poll (changed resp) r = record r { cache = purge lru context_text r.cache; etag = resp.etag }
  poll not_modified r = r
  poll (failed err) r = r

  -- `none` is a call that waits for the goroutine forever, as the channel is closed only once.
  unfoldable pub shutdown : Remote C → Option (Remote C)
  shutdown r =
      if not r.shutdown_once
      then some (record r { polling = false; shutdown_once = true })
      else if r.polling
      then none
      else some r

  -- The body that the five methods share: `lookup` is the cache's getter, and `eval_resp` what the
  -- OFREP provider answers.
  unfoldable pub evaluate :
      {V : Type 0}
      → (String → Fields F X → Cache C → Cache C × Found (ResolutionDetail V E F X))
      → (ResolutionDetail V E F X → Cached E F X)
      → String
      → Fields F X
      → ResolutionDetail V E F X
      → Remote C
      → Remote C × ResolutionDetail V E F X
  unfolding set
  evaluate lookup inject flag flat_ctx eval_resp r =
      let (cache, value) = lookup flag flat_ctx r.cache in
      elim value [
        | found d ↦ (record r { cache = cache }, from_cache sdk d)
        | _ ↦ elim (sdk.get_bool eval_resp.detail.flag_metadata cacheable_metadata_key) [
          | some true ↦ (
            record r { cache = (set lru context_text flag flat_ctx (inject eval_resp) cache).0 },
            eval_resp,
          )
          | _ ↦ (record r { cache = cache }, eval_resp)
        ]
      ]

  module _ (ofrep_provider : FeatureProvider E F X) (flag : String) where
    unfoldable pub boolean_evaluation :
        Bool → Fields F X → Remote C → Remote C × ResolutionDetail Bool E F X
    unfolding evaluate get_bool
    boolean_evaluation default_value flat_ctx =
        evaluate (get_bool lru context_text) bool_detail flag flat_ctx
          (ofrep_provider.boolean_evaluation flag default_value flat_ctx)

    unfoldable pub string_evaluation :
        String → Fields F X → Remote C → Remote C × ResolutionDetail String E F X
    unfolding evaluate get_string
    string_evaluation default_value flat_ctx =
        evaluate (get_string lru context_text) string_detail flag flat_ctx
          (ofrep_provider.string_evaluation flag default_value flat_ctx)

    unfoldable pub float_evaluation :
        F → Fields F X → Remote C → Remote C × ResolutionDetail F E F X
    unfolding evaluate get_float
    float_evaluation default_value flat_ctx =
        evaluate (get_float lru context_text) float_detail flag flat_ctx
          (ofrep_provider.float_evaluation flag default_value flat_ctx)

    unfoldable pub int_evaluation : ℤ → Fields F X → Remote C → Remote C × ResolutionDetail ℤ E F X
    unfolding evaluate get_int
    int_evaluation default_value flat_ctx =
        evaluate (get_int lru context_text) int_detail flag flat_ctx
          (ofrep_provider.int_evaluation flag default_value flat_ctx)

    unfoldable pub object_evaluation :
        Any F X → Fields F X → Remote C → Remote C × ResolutionDetail (Any F X) E F X
    unfolding evaluate get_interface
    object_evaluation default_value flat_ctx =
        evaluate (get_interface lru context_text) interface_detail flag flat_ctx
          (ofrep_provider.object_evaluation flag default_value flat_ctx)
