-- ===== src/MultiProvider/FirstSuccess.antt =====
-- providers/multi-provider/pkg/strategies/first_success.go. The goroutines of the providers and the
-- deadline are events; the loop receives them one at a time, in any order. A goroutine that the
-- deadline stops sends no event.
pub mod Counts
pub mod Reports
pub mod Laws
use go_sdk_contrib.Common.{
  ℕ, ◌+◌, String, Bool, true, false, ◌&&◌, Option, none, some, List, [], ◌∷◌, ◌++◌, eqb, ltb,
  length, if◌then◌else◌,
}
use go_sdk_contrib.OpenFeature.{
  ℤ, Any, string, Fields, empty, field, is_flag_not_found, FlagMetadata, ResolutionDetail, Sdk,
}
use go_sdk_contrib.MultiProvider.Strategies.{
  NamedProvider, ProviderError, AggregateError, ResultWrapper, strategy_first_success,
  metadata_successful_provider_name, metadata_strategy_used, wrap, merge_flag_tags,
  new_aggregate_error, aggregate_error_text, build_default_result,
}

-- What the loop's select receives: a result from finishChan, an error from errChan, a token from
-- notFoundChan, or the end of the context with the text of ctx.Err().
pub data Event (V E F X : Type 0) : Type 0 where
  finished : ResultWrapper V E F X → Event V E F X
  failed : ProviderError E → Event V E F X
  not_found : Event V E F X
  done : String → Event V E F X

-- the metadata of a success
abbrev pub success_metadata : {F X : Type 0} → String → FlagMetadata F X
success_metadata name = some (
    field metadata_strategy_used (string strategy_first_success)
      (field metadata_successful_provider_name (string name) empty))

module _ {E F X : Type 0} (sdk : Sdk E F X) where
  -- What the goroutine of provider `p` sends when its result has come.
  pub report : {V : Type 0} → NamedProvider E F X → ResultWrapper V E F X → Event V E F X
  report p r =
      if sdk.has_error r.detail.resolution_error
        && is_flag_not_found (sdk.error_code r.detail.resolution_error)
      then not_found
      else if sdk.has_error r.detail.resolution_error
      then failed (record { err = r.detail.resolution_error; provider_name = p.name })
      else finished r

  -- `range` is the order in which Go's range meets the entries of the error map.
  module _ (range : AggregateError E → AggregateError E) {V : Type 0} where
    -- the default result with the aggregated errors, and its metadata
    pub aggregated : V → List (ProviderError E) → ResultWrapper V E F X × FlagMetadata F X
    aggregated default_val errs =
        let r =
          build_default_result sdk strategy_first_success default_val
            (some (aggregate_error_text sdk range (new_aggregate_error errs))) in
        (r, r.detail.flag_metadata)

    pub defaulted : V → Option String → ResultWrapper V E F X × FlagMetadata F X
    defaulted default_val err =
        let r = build_default_result sdk strategy_first_success default_val err in
        (r, r.detail.flag_metadata)

    -- The loop over the events, with `n` providers; `none` if it still waits when they are over.
    pub collect :
        ℕ
        → V
        → List (ProviderError E)
        → ℕ
        → List (Event V E F X)
        → Option (ResultWrapper V E F X × FlagMetadata F X)
    collect n default_val errs not_found_count [] =
        if eqb (length errs) n then some (aggregated default_val errs) else none
    collect n default_val errs not_found_count (finished result ∷ events) =
        if eqb (length errs) n
        then some (aggregated default_val errs)
        else some (result, success_metadata result.name)
    collect n default_val errs not_found_count (failed err ∷ events) =
        let rest = collect n default_val (errs ++ err ∷ []) not_found_count events in
        if eqb (length errs) n then some (aggregated default_val errs) else rest
    collect n default_val errs not_found_count (not_found ∷ events) =
        let rest = collect n default_val errs (not_found_count + 1) events in
        if eqb (length errs) n
        then some (aggregated default_val errs)
        else if eqb (not_found_count + 1) n
        then some (defaulted default_val none)
        else rest
    collect n default_val errs not_found_count (done ctx_err ∷ events) =
        if eqb (length errs) n
        then some (aggregated default_val errs)
        else if ltb 0 (length errs)
        then some (aggregated default_val errs)
        else some (defaulted default_val (some ctx_err))

    -- The body that the five methods share, once the loop has ended.
    pub finish : ResultWrapper V E F X × FlagMetadata F X → ResolutionDetail V E F X
    finish (result, metadata) =
        let r = result.result in
        record r {
          detail = record (r.detail) {
            flag_metadata = merge_flag_tags (r.detail.flag_metadata ∷ metadata ∷ []);
          };
        }

    pub resolve :
        List (NamedProvider E F X) → V → List (Event V E F X) → Option (ResolutionDetail V E F X)
    unfolding finish
    resolve providers default_value events =
        elim (collect (length providers) default_value [] 0 events) [
          | none ↦ none
          | some ended ↦ some (finish ended)
        ]

  -- The event that a provider causes in each of the five methods.
  module _ (flag : String) (p : NamedProvider E F X) where
    unfoldable pub boolean_report : Bool → Fields F X → Event Bool E F X
    unfolding report
    boolean_report default_value ctx =
        report p (wrap p (p.provider.boolean_evaluation flag default_value ctx))

    unfoldable pub string_report : String → Fields F X → Event String E F X
    unfolding report
    string_report default_value ctx =
        report p (wrap p (p.provider.string_evaluation flag default_value ctx))

    unfoldable pub float_report : F → Fields F X → Event F E F X
    unfolding report
    float_report default_value ctx =
        report p (wrap p (p.provider.float_evaluation flag default_value ctx))

    unfoldable pub int_report : ℤ → Fields F X → Event ℤ E F X
    unfolding report
    int_report default_value ctx =
        report p (wrap p (p.provider.int_evaluation flag default_value ctx))

    unfoldable pub object_report : Any F X → Fields F X → Event (Any F X) E F X
    unfolding report
    object_report default_value ctx =
        report p (wrap p (p.provider.object_evaluation flag default_value ctx))
