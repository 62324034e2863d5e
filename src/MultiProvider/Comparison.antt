-- ===== src/MultiProvider/Comparison.antt =====
-- providers/multi-provider/pkg/strategies/comparison.go. As in first_success.go the answers of the
-- providers are events that the loop receives one at a time, in any order.
pub mod Loop
pub mod Reports
pub mod Metadata
pub mod Delivery
pub mod Laws
pub mod Disagreement
pub mod Methods
use mathlib.Core.Option
use go_sdk_contrib.Common.{
  ℕ, ◌+◌, String, ◌==◌, Bool, true, false, not, ◌&&◌, ◌||◌, Option, none, some, List, [], ◌∷◌, ◌++◌,
  map, eqb, length, concat, join, sort, if◌then◌else◌,
}
use go_sdk_contrib.OpenFeature.{
  ℤ, Any, bool, string, metadata, nil_metadata, Fields, empty, field, put, is_flag_not_found,
  FlagMetadata, FeatureProvider, ResolutionDetail, Sdk,
}
use go_sdk_contrib.MultiProvider.Strategies.{
  NamedProvider, ResultWrapper, strategy_comparison, metadata_successful_provider_name,
  metadata_strategy_used, metadata_fallback_used, reason_aggregated, reason_aggregated_fallback,
  err_aggregation_not_allowed_text, wrap, set_flag_metadata, build_default_result,
}

abbrev pub metadata_is_default : String
metadata_is_default = "multiprovider-is-default-result"

abbrev pub metadata_none_found : String
metadata_none_found = "multiprovider-flag-not-found-all-providers"

abbrev pub metadata_evaluation_error : String
metadata_evaluation_error = "multiprovider-comparison-first-error"

-- context.Canceled.Error()
abbrev pub context_canceled : String
context_canceled = "context canceled"

-- What the loop's select receives: a result from resultChan, a token from notFoundChan together
-- with what ctx.Err() is when the loop reads it, or the end of the context.
pub data Event (V E F X : Type 0) : Type 0 where
  received : ResultWrapper V E F X → Event V E F X
  not_found : Option String → Event V E F X
  done : String → Event V E F X

-- evaluateComparison returns, panics, or still waits when the events are over.
pub data Outcome (A : Type 0) : Type 0 where
  waits panics : Outcome A
  returns : A → Outcome A

abbrev pub Results : Type 0 → Type 0 → Type 0 → Type 0 → Type 0
Results V E F X = List (ResultWrapper V E F X) × FlagMetadata F X

-- a FlagMetadata as an interface value
abbrev to_any : {F X : Type 0} → FlagMetadata F X → Any F X
to_any none = nil_metadata
to_any (some m) = metadata m

-- metadata[r.name] = r.detail.FlagMetadata for every result
pub put_results : {V E F X : Type 0} → List (ResultWrapper V E F X) → Fields F X → Fields F X
put_results [] m = m
put_results (r ∷ rs) m = put_results rs (put r.name (to_any r.detail.flag_metadata) m)

-- The loop of a compFunc, with Go's `==` of the values: whether all equal the first.
pub all_equal : {V : Type 0} → (V → V → Bool) → V → List V → Bool
all_equal same current [] = true
all_equal same current (v ∷ values) = same current v && all_equal same current values

-- compFunc; `none` is the panic of values[0] on an empty slice
unfoldable pub comp_func : {V : Type 0} → (V → V → Bool) → List V → Option Bool
unfolding all_equal
comp_func same [] = none
comp_func same (current ∷ values) = some (all_equal same current values)

pub agreement_metadata : {V E F X : Type 0} → List (ResultWrapper V E F X) → FlagMetadata F X
unfolding put_results
agreement_metadata results = some (
    put (concat metadata_successful_provider_name "s")
      (string (join ", " (sort (map (λ r. r.name) results))))
      (put_results results (
        field metadata_strategy_used (string strategy_comparison) (
          field metadata_fallback_used (bool false)
            (field metadata_is_default (bool false) empty)))))

-- the metadata of a fallback's answer; writing to the nil map panics
pub fallback_metadata : {F X : Type 0} → FlagMetadata F X → Option (Fields F X)
fallback_metadata none = none
fallback_metadata (some m) = some (
    put metadata_strategy_used (string strategy_comparison) (
      put metadata_successful_provider_name (string "fallback")
        (put metadata_is_default (bool false) (put metadata_fallback_used (bool true) m))))

-- the metadata of a default result
abbrev pub marked_default : {F X : Type 0} → Fields F X → Fields F X
marked_default m = put metadata_is_default (bool true) (put metadata_fallback_used (bool false) m)

module _ {E F X : Type 0} (sdk : Sdk E F X) where
  -- What becomes of the result of a provider: a goroutine that returns an error makes the errgroup
  -- cancel the context.
  pub report : {V : Type 0} → ResultWrapper V E F X → Event V E F X
  report r =
      if is_flag_not_found (sdk.error_code r.detail.resolution_error)
      then not_found none
      else if sdk.has_error r.detail.resolution_error
      then done context_canceled
      else received r

  module _ {V : Type 0} (same : V → V → Bool) (default_val : V) where
    -- a default result; its metadata map is written to through `extra`
    pub defaulted : Option String → (Fields F X → Fields F X) → Results V E F X
    defaulted err extra =
        let result = build_default_result sdk strategy_comparison default_val err in
        (result ∷ [], Option.map extra result.detail.flag_metadata)

    -- continueComparison; `fallback` is what the fallback provider answers, if there is one
    pub compare_results :
        Option (ResolutionDetail V E F X)
        → List (ResultWrapper V E F X)
        → List V
        → Outcome (Results V E F X)
    compare_results fallback results values = elim (comp_func same values) [
      | none ↦ panics
      | some true ↦ returns (results, agreement_metadata results)
      | some false ↦ elim fallback [
        | none ↦ returns (defaulted (some "no fallback provider configured") marked_default)
        | some answer ↦ elim (fallback_metadata answer.detail.flag_metadata) [
          | none ↦ panics
          | some m ↦ returns (
            record {
              name = "fallback";
              result = answer;
              value = some answer.value;
              detail = answer.detail;
            }
                ∷ [],
            some m,
          )
        ]
      ]
    ]

    -- The loop over the events, with `n` providers.
    pub collect :
        Option (ResolutionDetail V E F X)
        → ℕ
        → List (ResultWrapper V E F X)
        → List V
        → ℕ
        → List (Event V E F X)
        → Outcome (Results V E F X)
    collect fallback n results values not_found_count [] = waits
    collect fallback n results values not_found_count (done ctx_err ∷ events) = returns (
        defaulted (some ctx_err)
          (λ m. put metadata_evaluation_error (string ctx_err) (marked_default m)))
    collect fallback n results values not_found_count (received r ∷ events) = elim r.value [
      | none ↦ panics
      | some v ↦
          let results' = results ++ r ∷ [] in
          let values' = values ++ v ∷ [] in
          let rest = collect fallback n results' values' not_found_count events in
          if eqb (length results' + not_found_count) n
          then compare_results fallback results' values'
          else rest
    ]
    collect fallback n results values not_found_count (not_found ctx_err ∷ events) =
        let rest = collect fallback n results values (not_found_count + 1) events in
        if eqb (not_found_count + 1) n
        then returns (defaulted ctx_err marked_default)
        else if eqb (length results + (not_found_count + 1)) n
        then compare_results fallback results values
        else rest

    -- the branch for a single provider, which does not look at the error
    pub evaluate_single : NamedProvider E F X → ResultWrapper V E F X → Results V E F X
    evaluate_single p result = (
      result ∷ [],
      Option.map (put metadata_fallback_used (bool false)) (
          set_flag_metadata strategy_comparison (if result.name == "" then p.name else result.name)
            (some empty)),
    )

    pub evaluate_comparison :
        List (NamedProvider E F X)
        → (NamedProvider E F X → ResultWrapper V E F X)
        → Option (ResolutionDetail V E F X)
        → List (Event V E F X)
        → Outcome (Results V E F X)
    evaluate_comparison [] e fallback events = collect fallback 0 [] [] 0 events
    evaluate_comparison (p ∷ []) e fallback events = returns (evaluate_single p (e p))
    evaluate_comparison (p ∷ q ∷ ps) e fallback events =
        collect fallback (length (p ∷ q ∷ ps)) [] [] 0 events

  unfoldable pub comparison_resolution_reason : FlagMetadata F X → String
  comparison_resolution_reason m = elim (sdk.get_bool m metadata_fallback_used) [
    | some true ↦ reason_aggregated_fallback
    | _ ↦ elim (sdk.get_bool m metadata_is_default) [
      | some true ↦ sdk.default_reason
      | _ ↦ reason_aggregated
    ]
  ]

  unfoldable pub comparison_resolution_error : FlagMetadata F X → E
  comparison_resolution_error m = elim (sdk.get_bool m metadata_is_default) [
    | some true ↦ elim (sdk.get_bool m metadata_none_found) [
      | some true ↦ sdk.new_flag_not_found "not found in any providers"
      | _ ↦
          let (eval_err, err) = sdk.get_string m metadata_evaluation_error in
          if not (eval_err == "") && err
          then sdk.new_general eval_err
          else sdk.new_general "comparison failure"
    ]
    | _ ↦ sdk.no_error
  ]

  -- The detail that a method builds from results[0] and the metadata.
  pub conclude : {V : Type 0} → Outcome (Results V E F X) → Outcome (ResolutionDetail V E F X)
  conclude waits = waits
  conclude panics = panics
  conclude (returns ([], m)) = panics
  conclude (returns (r ∷ rs, m)) = returns (record {
    value = r.result.value;
    detail = record {
      resolution_error = comparison_resolution_error m;
      reason = comparison_resolution_reason m;
      variant = r.detail.variant;
      flag_metadata = m;
    };
  })

  -- The body that four methods share: `ask` is the provider's method of the same name.
  pub resolve :
      {V : Type 0}
      → (V → V → Bool)
      → List (NamedProvider E F X)
      → Option (FeatureProvider E F X)
      → (NamedProvider E F X → ResolutionDetail V E F X)
      → V
      → List (Event V E F X)
      → Outcome (ResolutionDetail V E F X)
  unfolding conclude
  resolve same providers fallback ask default_value events = conclude (
      evaluate_comparison same default_value providers (λ p. wrap p (ask p))
        (Option.map (λ f. ask (record { name = "fallback"; provider = f })) fallback) events)

  -- ObjectEvaluation: objects are not compared.
  unfoldable pub object_evaluation : Any F X → ResolutionDetail (Any F X) E F X
  object_evaluation default_value = record {
    value = default_value;
    detail = record {
      resolution_error = sdk.new_general err_aggregation_not_allowed_text;
      reason = sdk.default_reason;
      variant = "";
      flag_metadata = some (
          field metadata_strategy_used (string strategy_comparison) (
            field metadata_successful_provider_name (string "none")
              (field metadata_fallback_used (bool false) empty)));
    };
  }
