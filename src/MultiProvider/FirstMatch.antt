-- ===== src/MultiProvider/FirstMatch.antt =====
-- providers/multi-provider/pkg/strategies/first_match.go
pub mod Laws
use go_sdk_contrib.Common.{String, Bool, ◌&&◌, Option, none, some, List, [], ◌∷◌, if◌then◌else◌}
use go_sdk_contrib.OpenFeature.{
  ℤ, Any, string, Fields, empty, field, is_flag_not_found, FlagMetadata, ProviderResolutionDetail,
  ResolutionDetail, Sdk,
}
use go_sdk_contrib.MultiProvider.Strategies.{
  NamedProvider, ResultWrapper, strategy_first_match, metadata_successful_provider_name,
  metadata_strategy_used, wrap, merge_flag_tags, set_flag_metadata, build_default_result,
}

module _ {E F X : Type 0} (sdk : Sdk E F X) where
  -- an answer that makes the loop go on
  pub skips : ProviderResolutionDetail E F X → Bool
  skips d =
      sdk.has_error d.resolution_error && is_flag_not_found (sdk.error_code d.resolution_error)

  -- the metadata that marks the answer of the provider at which the loop stops
  pub marked : String → ProviderResolutionDetail E F X → FlagMetadata F X
  marked provider_name d =
      if sdk.has_error d.resolution_error
      then merge_flag_tags (
          d.flag_metadata
          ∷ some (
              field metadata_successful_provider_name (string "none")
                (field metadata_strategy_used (string strategy_first_match) empty))
          ∷ [])
      else set_flag_metadata strategy_first_match provider_name d.flag_metadata

  module _ {V : Type 0} where
    evaluate_first_match :
        List (NamedProvider E F X)
        → (NamedProvider E F X → ResultWrapper V E F X)
        → V
        → ResultWrapper V E F X
    evaluate_first_match [] e default_val =
        build_default_result sdk strategy_first_match default_val none
    evaluate_first_match (provider ∷ providers) e default_val =
        let r = e provider in
        let rest = evaluate_first_match providers e default_val in
        if skips r.detail then rest else record r {
          detail = record (r.detail) { flag_metadata = marked provider.name r.detail };
        }

    -- The body that the five methods share: `ask` is the provider's method of the same name.
    pub resolve :
        List (NamedProvider E F X)
        → (NamedProvider E F X → ResolutionDetail V E F X)
        → V
        → ResolutionDetail V E F X
    unfolding evaluate_first_match
    resolve providers ask default_value =
        let result = evaluate_first_match providers (λ p. wrap p (ask p)) default_value in
        record (result.result) { detail = result.detail }

  module _ (providers : List (NamedProvider E F X)) (flag : String) where
    unfoldable pub boolean_evaluation : Bool → Fields F X → ResolutionDetail Bool E F X
    unfolding resolve
    boolean_evaluation default_value ctx =
        resolve providers (λ p. p.provider.boolean_evaluation flag default_value ctx) default_value

    unfoldable pub string_evaluation : String → Fields F X → ResolutionDetail String E F X
    unfolding resolve
    string_evaluation default_value ctx =
        resolve providers (λ p. p.provider.string_evaluation flag default_value ctx) default_value

    unfoldable pub float_evaluation : F → Fields F X → ResolutionDetail F E F X
    unfolding resolve
    float_evaluation default_value ctx =
        resolve providers (λ p. p.provider.float_evaluation flag default_value ctx) default_value

    unfoldable pub int_evaluation : ℤ → Fields F X → ResolutionDetail ℤ E F X
    unfolding resolve
    int_evaluation default_value ctx =
        resolve providers (λ p. p.provider.int_evaluation flag default_value ctx) default_value

    unfoldable pub object_evaluation : Any F X → Fields F X → ResolutionDetail (Any F X) E F X
    unfolding resolve
    object_evaluation default_value ctx =
        resolve providers (λ p. p.provider.object_evaluation flag default_value ctx) default_value
