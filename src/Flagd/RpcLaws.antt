-- ===== src/Flagd/RpcLaws.antt =====
-- How providers/flagd/pkg/service/rpc/service.go uses its cache and answers failures.
use go_sdk_contrib.Common.{
  String, ◌≡◌, ◌⊎◌, inl, inr, refl, eq_iff, eq_refl, Bool, true, false, none, some, ◌∙◌, Assoc,
  if◌then◌else◌, lookup, insert, lookup-insert, arith,
}
use go_sdk_contrib.OpenFeature.{ResolutionDetail, Sdk, SdkLaws, provider_not_ready}
use go_sdk_contrib.Flagd.Cache.{CacheOps, mem, in_memory, Service, cache_add, cache_get}
use go_sdk_contrib.Flagd.Rpc.{
  Detail, Kind, Reasons, Response, reason_cached, from_cache, answer, store, failed, resolve_flag,
}

module _ {L V E F X : Type 0} (sdk : Sdk E F X) (lru_ops : CacheOps L (Detail E F X))
    (reasons : Reasons) (msg : String) (kind : Kind V E F X)
    (inverse : (d : ResolutionDetail V E F X) → kind.cast (kind.inject d) ≡ some d) where
  -- a service whose enabled cache is in memory
  abbrev pub serving : Assoc (Detail E F X) → Service L (Detail E F X)
  serving values = record { cache_enabled = true; cache = some (mem values) }

  stored :
      (values : Assoc (Detail E F X)) (key : String) (detail : ResolutionDetail V E F X)
      → detail.detail.reason ≡ reasons.static
      → store sdk lru_ops reasons msg kind key detail (serving values)
        ≡ some (serving (insert key (kind.inject detail) values))
  unfolding store cache_add in_memory
  stored values key detail static = ground (arith, eq_iff detail.detail.reason reasons.static)

  hit :
      (values : Assoc (Detail E F X)) (key : String) (v : Detail E F X)
      (d : ResolutionDetail V E F X) (initialised : Bool) (resolved : E ⊎ Response V F X)
      (default : V)
      → lookup key values ≡ some v
      → kind.cast v ≡ some d
      → resolve_flag sdk lru_ops reasons msg kind initialised resolved key default (serving values)
        ≡ some (serving values, record d { detail = record (d.detail) { reason = reason_cached } })
  unfolding resolve_flag from_cache cache_get in_memory
  hit values key v d initialised resolved default found typed = ground arith

  answer-reason :
      (default : V) (resp : Response V F X)
      → (answer sdk lru_ops reasons msg default resp).detail.reason ≡ resp.reason
  unfolding answer
  answer-reason default resp = refl

  -- If an in-memory cache that is enabled has nothing for a flag, a static answer of the server
  -- is returned, and served from the cache at the next call, with the reason CACHED, whatever the
  -- default value, the context and the state of the server are then.
  pub static-cached :
      (values : Assoc (Detail E F X)) (key : String) (resp : Response V F X) (default default' : V)
      (initialised : Bool) (resolved : E ⊎ Response V F X)
      → lookup key values ≡ none
      → resp.reason ≡ reasons.static
      → let detail = answer sdk lru_ops reasons msg default resp in
        (s : Service L (Detail E F X)) × (resolve_flag sdk lru_ops reasons msg kind true
            (inr resp)
            key
            default
            (serving values)
          ≡ some (s, detail))
        × (resolve_flag sdk lru_ops reasons msg kind initialised resolved key default' s
            ≡ some
                (s, record detail { detail = record (detail.detail) { reason = reason_cached } }))
  unfolding resolve_flag from_cache cache_get in_memory
  static-cached values key resp default default' initialised resolved missing static =
      let detail = answer sdk lru_ops reasons msg default resp in
      let values' = insert key (kind.inject detail) values in
      let reason : detail.detail.reason ≡ reasons.static = answer-reason default resp ∙ static in
      let present : lookup key values' ≡ some (kind.inject detail) =
        ground (arith, lookup-insert key key (kind.inject detail) values, eq_refl key) in
      (
        serving values',
        ground (arith, stored values key detail reason),
        hit values' key (kind.inject detail) detail initialised resolved default' present
            (inverse detail),
      )

  -- If an in-memory cache has nothing for a flag, a call that fails returns the default value
  -- with its error, or with PROVIDER_NOT_READY before the client is set, and leaves the cache as
  -- it is.
  failure-default :
      (laws : SdkLaws sdk) (enabled initialised : Bool) (values : Assoc (Detail E F X))
      (key : String) (e : E) (default : V)
      → lookup key values ≡ none
      → let s : Service L (Detail E F X) = record {
        cache_enabled = enabled;
        cache = some (mem values);
      } in
        (d : ResolutionDetail V E F X) × (resolve_flag sdk lru_ops reasons msg kind initialised
            (inl e)
            key
            default
            s
          ≡ some (s, d))
        × (d.value ≡ default)
        × (sdk.error_code d.detail.resolution_error
            ≡ (if initialised then sdk.error_code e else provider_not_ready))
  unfolding resolve_flag failed from_cache cache_get in_memory
  failure-default laws true true values key e default missing =
      (failed sdk default e sdk.error_reason, ground arith, refl, refl)
  failure-default laws true false values key e default missing = (
    failed sdk default (sdk.new_provider_not_ready msg) "",
    ground arith,
    refl,
    laws.provider_not_ready_code msg,
  )
  failure-default laws false true values key e default missing = (_, refl, refl, refl)
  failure-default laws false false values key e default missing =
      (_, refl, refl, laws.provider_not_ready_code msg)
