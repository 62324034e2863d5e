-- ===== src/GoFeatureFlag/Polling/Evaluation.antt =====
-- providers/go-feature-flag/pkg/evaluator/inprocess.go: the evaluation of flags, which is GO Feature
-- Flag's module core. That is outside the repository: `Core` holds it with its error codes.
use go_sdk_contrib.Common.{String, ◌==◌, Bool, true, Option, none, some, lookup, if◌then◌else◌}
use go_sdk_contrib.OpenFeature.{
  ℤ, Any, string, Fields, empty, field, get, FlagMetadata, ResolutionDetail, Sdk,
}
use go_sdk_contrib.GoFeatureFlag.Polling.{InProcess}

-- What evaluation.Evaluate returns; `err` is the text of its error.
pub record VarResult (V F X : Type 0) : Type 0 where
  pub value : V
  pub is_failed : Bool
  pub error_code : String
  pub error_details : String
  pub reason : String
  pub variation_type : String
  pub metadata : FlagMetadata F X
  pub err : Option String

-- evaluation.Evaluate for each type, of a flag under its name with a targeting key, attributes, the
-- enrichment and a default value; and the error codes
pub record Core (A F X : Type 0) : Type 0 where
  pub evaluate_bool : A → String → String → Fields F X → Fields F X → Bool → VarResult Bool F X
  pub evaluate_string :
      A → String → String → Fields F X → Fields F X → String → VarResult String F X
  pub evaluate_float : A → String → String → Fields F X → Fields F X → F → VarResult F F X
  pub evaluate_int : A → String → String → Fields F X → Fields F X → ℤ → VarResult ℤ F X
  pub evaluate_object :
      A → String → String → Fields F X → Fields F X → Any F X → VarResult (Any F X) F X
  pub provider_not_ready_code : String
  pub flag_not_found_code : String
  pub parse_error_code : String
  pub type_mismatch_code : String
  pub targeting_key_missing_code : String
  pub invalid_context_code : String
  pub general_code : String

module _ {F X : Type 0} where
  -- toFFContext: the targeting key, and the other attributes
  unfoldable pub targeting_key : Fields F X → String
  unfolding get
  targeting_key flat_ctx = elim (get "targetingKey" flat_ctx) [ some (string s) ↦ s | _ ↦ "" ]

  unfoldable pub custom : Fields F X → Fields F X
  custom empty = empty
  custom (field k v m) = let rest = custom m in if k == "targetingKey" then rest else field k v rest

module _ {A E F X : Type 0} (sdk : Sdk E F X) (core : Core A F X) where
  unfoldable pub to_resolution_error : String → String → E
  to_resolution_error code msg =
      if code == core.provider_not_ready_code
      then sdk.new_provider_not_ready msg
      else if code == core.flag_not_found_code
      then sdk.new_flag_not_found msg
      else if code == core.parse_error_code
      then sdk.new_parse_error msg
      else if code == core.type_mismatch_code
      then sdk.new_type_mismatch msg
      else if code == core.targeting_key_missing_code
      then sdk.new_targeting_key_missing msg
      else if code == core.invalid_context_code
      then sdk.new_invalid_context msg
      else sdk.new_general msg

  -- the error of a result that has failed
  unfoldable pub result_error : {V : Type 0} → VarResult V F X → E
  unfolding to_resolution_error
  result_error result = elim result.err [
    | none ↦ to_resolution_error result.error_code result.error_details
    | some err ↦
        to_resolution_error
          (if result.error_code == "" then core.general_code else result.error_code) err
  ]

  unfoldable pub evaluate :
      {V : Type 0}
      → (A → String → String → Fields F X → Fields F X → V → VarResult V F X)
      → String
      → V
      → Fields F X
      → InProcess A F X
      → ResolutionDetail V E F X
  unfolding lookup targeting_key custom result_error
  evaluate core_evaluate flag_name default_value flat_ctx i =
      elim (lookup flag_name i.flag_config) [
        | none ↦ record {
          value = default_value;
          detail = record {
            resolution_error = sdk.new_flag_not_found flag_name;
            reason = "";
            variant = "";
            flag_metadata = none;
          };
        }
        | some flag ↦
            let result =
              core_evaluate flag flag_name (targeting_key flat_ctx) (custom flat_ctx)
                i.evaluation_context_enrichment default_value in
            if elim result.err [ none ↦ result.is_failed | some err ↦ true ]
            then record {
              value = default_value;
              detail = record {
                resolution_error = result_error result;
                reason = sdk.error_reason;
                variant = "";
                flag_metadata = none;
              };
            }
            else record {
              value = result.value;
              detail = record {
                resolution_error = sdk.no_error;
                reason = result.reason;
                variant = result.variation_type;
                flag_metadata = result.metadata;
              };
            }
      ]

  module _ (flag_name : String) where
    unfoldable pub boolean_evaluation :
        Bool → Fields F X → InProcess A F X → ResolutionDetail Bool E F X
    unfolding evaluate
    boolean_evaluation = evaluate core.evaluate_bool flag_name

    unfoldable pub string_evaluation :
        String → Fields F X → InProcess A F X → ResolutionDetail String E F X
    unfolding evaluate
    string_evaluation = evaluate core.evaluate_string flag_name

    unfoldable pub float_evaluation : F → Fields F X → InProcess A F X → ResolutionDetail F E F X
    unfolding evaluate
    float_evaluation = evaluate core.evaluate_float flag_name

    unfoldable pub int_evaluation : ℤ → Fields F X → InProcess A F X → ResolutionDetail ℤ E F X
    unfolding evaluate
    int_evaluation = evaluate core.evaluate_int flag_name

    unfoldable pub object_evaluation :
        Any F X → Fields F X → InProcess A F X → ResolutionDetail (Any F X) E F X
    unfolding evaluate
    object_evaluation = evaluate core.evaluate_object flag_name
