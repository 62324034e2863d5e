-- ===== src/Flagd/InProcess/Resolve.antt =====
-- providers/flagd/pkg/service/in_process/service.go: evaluation of flags. The evaluator and the
-- constants of flagd's core are parameters, and the context with its deadline is left out.
use go_sdk_contrib.Common.{String, ◌==◌, Bool, Option, none, some, concat, if◌then◌else◌}
use go_sdk_contrib.OpenFeature.{
  ℤ, Any, string, Fields, empty, field, put, put_all, FlagMetadata, ResolutionDetail, Sdk,
}

-- model.…ErrorCode and model.…Reason
pub record Model : Type 0 where
  pub flag_not_found_error_code : String
  pub type_mismatch_error_code : String
  pub parse_error_code : String
  pub disabled_reason : String
  pub fallback_reason : String

-- What a method of the evaluator returns; an error is its text.
pub record Evaluation (V F X : Type 0) : Type 0 where
  pub value : V
  pub variant : String
  pub reason : String
  pub metadata : FlagMetadata F X
  pub err : Option String

pub record Evaluator (F X : Type 0) : Type 0 where
  pub resolve_boolean_value : String → Fields F X → Evaluation Bool F X
  pub resolve_string_value : String → Fields F X → Evaluation String F X
  pub resolve_float_value : String → Fields F X → Evaluation F F X
  pub resolve_int_value : String → Fields F X → Evaluation ℤ F X
  pub resolve_object_value : String → Fields F X → Evaluation (Any F X) F X

module _ {F X : Type 0} where
  unfoldable pub create_service_metadata : String → String → Fields F X
  unfolding put
  create_service_metadata selector provider_id =
      let scope = if selector == "" then empty else field "scope" (string selector) empty in
      if provider_id == "" then scope else put "providerID" (string provider_id) scope

  -- `none` is the panic of a write to a nil map.
  unfoldable pub append_metadata : Fields F X → FlagMetadata F X → Option (FlagMetadata F X)
  unfolding put_all
  append_metadata empty m = some m
  append_metadata (field k v service) none = none
  append_metadata (field k v service) (some m) = some (some (put_all (field k v service) m))

module _ {E F X : Type 0} (sdk : Sdk E F X) (model : Model) where
  unfoldable pub map_error : String → String → E
  map_error flag_key err =
      if err == model.flag_not_found_error_code
      then sdk.new_flag_not_found (concat "flag: " (concat flag_key " not found"))
      else if err == model.type_mismatch_error_code
      then sdk.new_type_mismatch (concat "flag: " (concat flag_key " evaluated type not valid"))
      else if err == model.parse_error_code
      then sdk.new_parse_error (concat "flag: " (concat flag_key " parsing error"))
      else sdk.new_general (concat "flag: " (concat flag_key " unable to evaluate"))

  -- The detail of an evaluation, whose metadata have been extended.
  unfoldable pub detail_of :
      {V : Type 0} → String → V → Evaluation V F X → FlagMetadata F X → ResolutionDetail V E F X
  unfolding map_error
  detail_of key default_value e metadata = elim e.err [
    | some err ↦ record {
      value = default_value;
      detail = record {
        resolution_error = map_error key err;
        reason = e.reason;
        variant = e.variant;
        flag_metadata = metadata;
      };
    }
    | none ↦
        if e.reason == model.disabled_reason
        then record {
          value = default_value;
          detail = record {
            resolution_error = sdk.no_error;
            reason = model.disabled_reason;
            variant = "";
            flag_metadata = metadata;
          };
        }
        else if e.reason == model.fallback_reason
        then record {
          value = default_value;
          detail = record {
            resolution_error = sdk.no_error;
            reason = sdk.default_reason;
            variant = "";
            flag_metadata = metadata;
          };
        }
        else record {
          value = e.value;
          detail = record {
            resolution_error = sdk.no_error;
            reason = e.reason;
            variant = e.variant;
            flag_metadata = metadata;
          };
        }
  ]

  -- The body that the five methods share, with the service's metadata; `none` is a panic.
  unfoldable pub resolve_value :
      {V : Type 0} → Fields F X → String → V → Evaluation V F X → Option (ResolutionDetail V E F X)
  unfolding append_metadata detail_of
  resolve_value service key default_value e = elim (append_metadata service e.metadata) [
    | none ↦ none
    | some metadata ↦ some (detail_of key default_value e metadata)
  ]

  module _ (evaluator : Evaluator F X) (service : Fields F X) (key : String) where
    unfoldable pub resolve_boolean : Bool → Fields F X → Option (ResolutionDetail Bool E F X)
    unfolding resolve_value
    resolve_boolean default_value eval_ctx =
        resolve_value service key default_value (evaluator.resolve_boolean_value key eval_ctx)

    unfoldable pub resolve_string : String → Fields F X → Option (ResolutionDetail String E F X)
    unfolding resolve_value
    resolve_string default_value eval_ctx =
        resolve_value service key default_value (evaluator.resolve_string_value key eval_ctx)

    unfoldable pub resolve_float : F → Fields F X → Option (ResolutionDetail F E F X)
    unfolding resolve_value
    resolve_float default_value eval_ctx =
        resolve_value service key default_value (evaluator.resolve_float_value key eval_ctx)

    unfoldable pub resolve_int : ℤ → Fields F X → Option (ResolutionDetail ℤ E F X)
    unfolding resolve_value
    resolve_int default_value eval_ctx =
        resolve_value service key default_value (evaluator.resolve_int_value key eval_ctx)

    unfoldable pub resolve_object : Any F X → Fields F X → Option (ResolutionDetail (Any F X) E F X)
    unfolding resolve_value
    resolve_object default_value eval_ctx =
        resolve_value service key default_value (evaluator.resolve_object_value key eval_ctx)
