-- ===== src/MultiProvider/Strategies.antt =====
-- providers/multi-provider/pkg/strategies/strategies.go and pkg/errors/aggregate-errors.go: what
-- the strategies share.
pub mod Answers
pub mod Metadata
use go_sdk_contrib.Common.{
  String, Option, none, some, List, [], ◌∷◌, map, Assoc, insert, concat, join, cut_prefix,
  first_line, trim_space,
}
use go_sdk_contrib.OpenFeature.{
  string, Fields, empty, field, put, put_all, ErrorCode, provider_not_ready, flag_not_found,
  parse_error, type_mismatch, targeting_key_missing, general, FlagMetadata,
  ProviderResolutionDetail, ResolutionDetail, FeatureProvider, Sdk,
}

abbrev pub metadata_successful_provider_name : String
metadata_successful_provider_name = "multiprovider-successful-provider-name"

abbrev pub metadata_strategy_used : String
metadata_strategy_used = "multiprovider-strategy-used"

abbrev pub metadata_fallback_used : String
metadata_fallback_used = "multiprovider-fallback-used"

abbrev pub strategy_first_match : String
strategy_first_match = "strategy-first-match"

abbrev pub strategy_first_success : String
strategy_first_success = "strategy-first-success"

abbrev pub strategy_comparison : String
strategy_comparison = "strategy-comparison"

abbrev pub reason_aggregated : String
reason_aggregated = "AGGREGATED"

abbrev pub reason_aggregated_fallback : String
reason_aggregated_fallback = "AGGREGATED_FALLBACK"

abbrev pub err_aggregation_not_allowed_text : String
err_aggregation_not_allowed_text = "object evaluation not allowed for non-comparable types"

pub record NamedProvider (E F X : Type 0) : Type 0 where
  pub name : String
  pub provider : FeatureProvider E F X

-- `value` is nil in a default result
pub record ResultWrapper (V E F X : Type 0) : Type 0 where
  pub name : String
  pub result : ResolutionDetail V E F X
  pub value : Option V
  pub detail : ProviderResolutionDetail E F X

pub record ProviderError (E : Type 0) : Type 0 where
  pub err : E
  pub provider_name : String

-- The result that an `evalFunc` of a strategy builds from a provider's answer.
abbrev pub wrap :
    {V E F X : Type 0} → NamedProvider E F X → ResolutionDetail V E F X → ResultWrapper V E F X
wrap p r = record { name = p.name; result = r; value = some r.value; detail = r.detail }

-- AggregateError: a map from provider names to errors
abbrev pub AggregateError : Type 0 → Type 0
AggregateError E = Assoc (ProviderError E)

add_errors : {E : Type 0} → AggregateError E → List (ProviderError E) → AggregateError E
add_errors m [] = m
add_errors m (e ∷ es) = add_errors (insert e.provider_name e m) es

-- NewAggregateError: one error for each provider name, the last one given
unfoldable pub new_aggregate_error : {E : Type 0} → List (ProviderError E) → AggregateError E
unfolding add_errors
new_aggregate_error errs = add_errors [] errs

codes : List ErrorCode
codes =
    provider_not_ready ∷ flag_not_found ∷ parse_error ∷ type_mismatch ∷ targeting_key_missing
    ∷ general ∷ []

-- mergeFlagTags with the loop over two maps or more; the nil map has no entries to copy
merge_all : {F X : Type 0} → Fields F X → List (FlagMetadata F X) → Fields F X
merge_all merged [] = merged
merge_all merged (none ∷ ts) = merge_all merged ts
merge_all merged (some t ∷ ts) = merge_all (put_all t merged) ts

unfoldable pub merge_flag_tags : {F X : Type 0} → List (FlagMetadata F X) → FlagMetadata F X
unfolding merge_all
merge_flag_tags [] = some empty
merge_flag_tags (t ∷ []) = t
merge_flag_tags (t ∷ u ∷ ts) = some (merge_all empty (t ∷ u ∷ ts))

-- the map to write to: a new one in place of nil
abbrev made : {F X : Type 0} → FlagMetadata F X → Fields F X
made none = empty
made (some m) = m

unfoldable pub set_flag_metadata :
    {F X : Type 0} → String → String → FlagMetadata F X → FlagMetadata F X
set_flag_metadata strategy_used success_provider_name metadata = some (
    put metadata_strategy_used (string strategy_used)
      (put metadata_successful_provider_name (string success_provider_name) (made metadata)))

module _ {E F X : Type 0} (sdk : Sdk E F X) where
  -- ProviderError.Error
  unfoldable pub provider_error_text : ProviderError E → String
  provider_error_text e =
      concat "Provider " (concat e.provider_name (concat ": " (sdk.error_text e.err)))

  -- AggregateError.Error; `range` is the order in which Go's range meets the entries of the map
  unfoldable pub aggregate_error_text :
      (AggregateError E → AggregateError E) → AggregateError E → String
  unfolding provider_error_text
  aggregate_error_text range ae = join ", " (map (λ e. provider_error_text e.1) (range ae))

  -- The regular expression of cleanErrorMessage at one position: a code, ": " and the rest of the
  -- line, which is returned.
  match_code : List ErrorCode → String → Option String
  match_code [] s = none
  match_code (c ∷ cs) s = elim (cut_prefix (concat (sdk.code_text c) ": ") s) [
    | none ↦ match_code cs s
    | some rest ↦ some (first_line rest)
  ]

  -- re.FindSubmatch: the first position at which it matches
  find_submatch : String → Option String
  unfolding match_code codes
  find_submatch String.[] = match_code codes String.[]
  find_submatch (String.◌∷◌ c s) = elim (match_code codes (String.◌∷◌ c s)) [
    | none ↦ find_submatch s
    | some rest ↦ some rest
  ]

  unfoldable pub clean_error_message : String → String
  unfolding find_submatch
  clean_error_message msg = elim (find_submatch msg) [
    | none ↦ msg
    | some submatch ↦ trim_space submatch
  ]

  -- buildDefaultResult; the error is given by its text, and `none` is nil
  default_detail : String → Option String → ProviderResolutionDetail E F X
  unfolding clean_error_message
  default_detail strategy err = record {
    resolution_error = elim err [
      | none ↦ sdk.new_flag_not_found "not found in any provider"
      | some text ↦ sdk.new_general (clean_error_message text)
    ];
    reason = elim err [ none ↦ sdk.default_reason | some text ↦ sdk.error_reason ];
    variant = "";
    flag_metadata = some (
        field metadata_successful_provider_name (string "none")
          (field metadata_strategy_used (string strategy) empty));
  }

  unfoldable pub build_default_result :
      {V : Type 0} → String → V → Option String → ResultWrapper V E F X
  unfolding default_detail
  build_default_result strategy default_value err =
      let details = default_detail strategy err in
      record {
        name = "";
        result = record { value = default_value; detail = details };
        value = none;
        detail = details;
      }
