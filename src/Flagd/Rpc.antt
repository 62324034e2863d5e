-- ===== src/Flagd/Rpc.antt =====
-- providers/flagd/pkg/service/rpc/service.go: evaluation of flags and the handler of configuration
-- changes. The connect client, structpb and the models of flagd's core are outside the repository.
use mathlib.Core.Option
use go_sdk_contrib.Common.{
  String, ◌⊎◌, inl, inr, ◌==◌, Bool, false, not, ◌&&◌, ◌||◌, Option, none, some, if◌then◌else◌,
}
use go_sdk_contrib.OpenFeature.{ℤ, Any, Fields, ResolutionDetail, Sdk}
use go_sdk_contrib.Flagd.Cache.{CacheOps, Service, cache_add, cache_get}

abbrev pub reason_cached : String
reason_cached = "CACHED"

abbrev pub connection_error : String
connection_error = "connection not made"

-- the values that the service puts into its cache
pub data Detail (E F X : Type 0) : Type 0 where
  bool_detail : ResolutionDetail Bool E F X → Detail E F X
  string_detail : ResolutionDetail String E F X → Detail E F X
  float_detail : ResolutionDetail F E F X → Detail E F X
  int_detail : ResolutionDetail ℤ E F X → Detail E F X
  interface_detail : ResolutionDetail (Any F X) E F X → Detail E F X

-- connect.Code, as far as handleError tells codes apart
pub data Code : Type 0 where
  unavailable not_found invalid_argument data_loss other_code : Code

-- An error of the client: the code of the *connect.Error that it wraps, if it wraps one, and its
-- text.
pub record ClientError : Type 0 where
  pub code : Code
  pub text : String

-- A response; AsMap of its metadata is never nil.
pub record Response (V F X : Type 0) : Type 0 where
  pub value : Option V
  pub reason : String
  pub variant : Option String
  pub metadata : Fields F X

-- the reasons of flagd's core
pub record Reasons : Type 0 where
  pub static : String
  pub default : String
  pub disabled : String

unfoldable pub deref_string : Option String → String
deref_string none = ""
deref_string (some s) = s

unfoldable pub is_default_or_disabled_fallback : Reasons → String → String → Bool
is_default_or_disabled_fallback reasons variant reason =
    if not (variant == "") then false else reason == reasons.default || reason == reasons.disabled

module _ {E F X : Type 0} (sdk : Sdk E F X) where
  unfoldable pub handle_error : ClientError → E
  handle_error err = elim err.code [
    | unavailable ↦ sdk.new_provider_not_ready connection_error
    | not_found ↦ sdk.new_flag_not_found err.text
    | invalid_argument ↦ sdk.new_type_mismatch err.text
    | data_loss ↦ sdk.new_parse_error err.text
    | other_code ↦ sdk.new_general err.text
  ]

  -- the detail of a failure
  unfoldable pub failed : {V : Type 0} → V → E → String → ResolutionDetail V E F X
  failed default_value e reason = record {
    value = default_value;
    detail = record { resolution_error = e; reason = reason; variant = ""; flag_metadata = none };
  }

  -- `new_struct` is structpb.NewStruct, with the text of its error, and `resolver` the client's
  -- method.
  unfoldable pub resolve :
      {S V : Type 0}
      → (Fields F X → String ⊎ S)
      → (String → S → ClientError ⊎ Response V F X)
      → String
      → Fields F X
      → E ⊎ Response V F X
  unfolding handle_error
  resolve new_struct resolver flag_key eval_ctx = elim (new_struct eval_ctx) [
    | inl err ↦ inl (sdk.new_parse_error err)
    | inr eval_ctx_f ↦ elim (resolver flag_key eval_ctx_f) [
      | inl err ↦ inl (handle_error err)
      | inr res ↦ inr res
    ]
  ]

-- A value of the cache with its type and the type assertion.
pub record Kind (V E F X : Type 0) : Type 0 where
  pub inject : ResolutionDetail V E F X → Detail E F X
  pub cast : Detail E F X → Option (ResolutionDetail V E F X)

module _ {L E F X : Type 0} (sdk : Sdk E F X) (lru_ops : CacheOps L (Detail E F X))
    (reasons : Reasons) (client_not_ready_msg : String) where
  -- The cached detail of the key, if the cache is enabled and has one of the right type; `none` is
  -- the panic of a call on a nil cache.
  unfoldable pub from_cache :
      {V : Type 0}
      → Kind V E F X
      → String
      → Service L (Detail E F X)
      → Option (Service L (Detail E F X) × Option (ResolutionDetail V E F X))
  unfolding cache_get
  from_cache kind key s =
      if s.cache_enabled
      then elim s.cache [
        | none ↦ none
        | some c ↦
            let (c', value) = cache_get lru_ops key c in
            some (record s { cache = some c' }, elim value [ none ↦ none | some v ↦ kind.cast v ])
      ]
      else some (s, none)

  -- the detail of a response
  unfoldable pub answer : {V : Type 0} → V → Response V F X → ResolutionDetail V E F X
  unfolding deref_string is_default_or_disabled_fallback
  answer default_value resp =
      let variant = deref_string resp.variant in
      record {
        value =
            if is_default_or_disabled_fallback reasons variant resp.reason
            then default_value
            else elim resp.value [ none ↦ default_value | some v ↦ v ];
        detail = record {
          resolution_error = sdk.no_error;
          reason = resp.reason;
          variant = variant;
          flag_metadata = some resp.metadata;
        };
      }

  -- A static detail is put into an enabled cache.
  unfoldable pub store :
      {V : Type 0}
      → Kind V E F X
      → String
      → ResolutionDetail V E F X
      → Service L (Detail E F X)
      → Option (Service L (Detail E F X))
  unfolding cache_add
  store kind key detail s =
      if s.cache_enabled && detail.detail.reason == reasons.static
      then elim s.cache [
        | none ↦ none
        | some c ↦ some (record s { cache = some (cache_add lru_ops key (kind.inject detail) c) })
      ]
      else some s

  -- The body that the five methods share; `resolved` is what `resolve` returns for the call, and
  -- `initialised` whether the client is set.
  unfoldable pub resolve_flag :
      {V : Type 0}
      → Kind V E F X
      → Bool
      → E ⊎ Response V F X
      → String
      → V
      → Service L (Detail E F X)
      → Option (Service L (Detail E F X) × ResolutionDetail V E F X)
  unfolding from_cache answer store failed
  resolve_flag kind initialised resolved key default_value s = elim (from_cache kind key s) [
    | none ↦ none
    | some (s', some hit) ↦
        some (s', record hit { detail = record (hit.detail) { reason = reason_cached } })
    | some (s', none) ↦
        if not initialised
        then some
            (s', failed sdk default_value (sdk.new_provider_not_ready client_not_ready_msg) "")
        else elim resolved [
          | inl e ↦ some (s', failed sdk default_value e sdk.error_reason)
          | inr resp ↦
              let detail = answer default_value resp in
              Option.map (λ s''. (s'', detail)) (store kind key detail s')
        ]
  ]

  -- the services' state and detail after a method
  abbrev pub Answered : Type 0 → Type 0
  Answered V = Option (Service L (Detail E F X) × ResolutionDetail V E F X)

  module _ (initialised : Bool) (key : String) (s : Service L (Detail E F X)) where
    unfoldable pub resolve_boolean : E ⊎ Response Bool F X → Bool → Answered Bool
    unfolding resolve_flag
    resolve_boolean resolved default_value =
        resolve_flag
          (record { inject = bool_detail; cast = elim [ bool_detail d ↦ some d | _ ↦ none ] })
          initialised resolved key default_value s

    unfoldable pub resolve_string : E ⊎ Response String F X → String → Answered String
    unfolding resolve_flag
    resolve_string resolved default_value =
        resolve_flag
          (record { inject = string_detail; cast = elim [ string_detail d ↦ some d | _ ↦ none ] })
          initialised resolved key default_value s

    unfoldable pub resolve_float : E ⊎ Response F F X → F → Answered F
    unfolding resolve_flag
    resolve_float resolved default_value =
        resolve_flag
          (record { inject = float_detail; cast = elim [ float_detail d ↦ some d | _ ↦ none ] })
          initialised resolved key default_value s

    unfoldable pub resolve_int : E ⊎ Response ℤ F X → ℤ → Answered ℤ
    unfolding resolve_flag
    resolve_int resolved default_value =
        resolve_flag
          (record { inject = int_detail; cast = elim [ int_detail d ↦ some d | _ ↦ none ] })
          initialised resolved key default_value s

    -- the value of the response is resp.Value.AsMap()
    unfoldable pub resolve_object : E ⊎ Response (Any F X) F X → Any F X → Answered (Any F X)
    unfolding resolve_flag
    resolve_object resolved default_value =
        resolve_flag
          (record {
            inject = interface_detail;
            cast = elim [ interface_detail d ↦ some d | _ ↦ none ];
          })
          initialised resolved key default_value s
