-- ===== src/Vendors/Optimizely.antt =====
-- providers/optimizely/provider.go. What the client decides for a user is a parameter.
pub mod Single
use go_sdk_contrib.Common.{
  ℕ, zero, suc, String, ◌==◌, Bool, true, false, not, Option, none, some, List, [], ◌∷◌, eqb, ltb,
  concat, if◌then◌else◌,
}
use go_sdk_contrib.OpenFeature.{
  ℤ, targeting_key_missing, Any, nil, object, Fields, empty, field, get, ProviderResolutionDetail,
  ResolutionDetail, Sdk,
}
use go_sdk_contrib.Vendors.Details.{
  targeting_key, as_bool, as_string, as_int, as_float64, with_reason, with_error,
}

abbrev pub err_no_variables : String
err_no_variables = "flag has no variables; use BooleanEvaluation"

abbrev pub err_multiple_variables : String
err_multiple_variables = "flag has multiple variables; use ObjectEvaluation"

pub record Decision (F X : Type 0) : Type 0 where
  pub enabled : Bool
  pub variables : Fields F X
  pub variation_key : String
  pub reasons : List String

pub record Client (F X : Type 0) : Type 0 where
  -- CreateUserContext and Decide
  pub decide : String → Fields F X → String → Decision F X
  -- GetDecideMessage of SDKNotReady and of FlagKeyInvalid
  pub sdk_not_ready_message : String
  pub flag_key_invalid_message : String → String
  -- the text of ErrTargetingKeyMissing
  pub targeting_key_missing_text : String
  -- fmt's %T
  pub type_text : Any F X → String

pub record EvaluationResult (E F X : Type 0) : Type 0 where
  pub enabled : Bool
  pub variables : Fields F X
  pub variant : String
  pub detail : ProviderResolutionDetail E F X
  pub has_error : Bool

module _ {F X : Type 0} where
  abbrev pub length : Fields F X → ℕ
  length empty = 0
  length (field k v m) = suc (length m)

  -- the context without the targeting key
  unfoldable pub attributes_of : Fields F X → Fields F X
  attributes_of empty = empty
  attributes_of (field k v m) =
      let rest = attributes_of m in if k == targeting_key then rest else field k v rest

  -- evalCtx[openfeature.TargetingKey].(string)
  unfoldable pub user_id_of : Fields F X → Option String
  unfolding get
  user_id_of eval_ctx = elim (get targeting_key eval_ctx) [ none ↦ none | some v ↦ as_string v ]

  unfoldable pub get_single_variable : Fields F X → Any F X
  get_single_variable empty = nil
  get_single_variable (field k v m) = v

  -- v.(any), which fails for a nil
  abbrev pub as_any : Any F X → Option (Any F X)
  as_any nil = none
  as_any v = some v

module _ {E F X : Type 0} (sdk : Sdk E F X) where
  abbrev pub error_result : ProviderResolutionDetail E F X → EvaluationResult E F X
  error_result detail = record {
    enabled = false;
    variables = empty;
    variant = "";
    detail = detail;
    has_error = true;
  }

  -- requireSingleVariable: the value, or the detail of its error
  unfoldable pub require_single_variable :
      {A : Type 0}
      → Client F X
      → (Any F X → Option A)
      → String
      → EvaluationResult E F X
      → Option A × ProviderResolutionDetail E F X
  unfolding get_single_variable
  require_single_variable client convert type_name result =
      if eqb (length result.variables) 0
      then (none, with_error sdk (sdk.new_general err_no_variables))
      else if ltb 1 (length result.variables)
      then (none, with_error sdk (sdk.new_general err_multiple_variables))
      else (let val = get_single_variable result.variables in
          elim (convert val) [
            | none ↦ (
              none,
              with_error sdk (
                  sdk.new_type_mismatch (
                    concat "variable is not "
                      (concat type_name (concat ", got " (client.type_text val))))),
            )
            | some typed_val ↦ (some typed_val, with_reason sdk "")
          ])

  unfoldable pub resolution_success : {A : Type 0} → A → String → ResolutionDetail A E F X
  resolution_success value variant = record {
    value = value;
    detail = record (with_reason sdk sdk.targeting_match_reason) { variant = variant };
  }

  module _ (client : Client F X) where
    -- the loop over the reasons of a decision
    unfoldable pub error_of : String → List String → Option (ProviderResolutionDetail E F X)
    error_of flag_key [] = none
    error_of flag_key (reason ∷ reasons) =
        let rest = error_of flag_key reasons in
        if reason == client.sdk_not_ready_message
        then some (with_error sdk (sdk.new_provider_not_ready reason))
        else if reason == client.flag_key_invalid_message flag_key
        then some (with_error sdk (sdk.new_flag_not_found reason))
        else rest

    -- getDecision, once the client has decided
    unfoldable pub result_of : String → Decision F X → EvaluationResult E F X
    unfolding error_of
    result_of flag_key decision = elim (error_of flag_key decision.reasons) [
      | some detail ↦ error_result detail
      | none ↦ record {
        enabled = decision.enabled;
        variables = decision.variables;
        variant = decision.variation_key;
        detail = with_reason sdk "";
        has_error = false;
      }
    ]

    unfoldable pub get_decision : String → Fields F X → EvaluationResult E F X
    unfolding user_id_of attributes_of result_of
    get_decision flag_key eval_ctx = elim (user_id_of eval_ctx) [
      | none ↦ error_result (record (with_reason sdk (sdk.code_text targeting_key_missing)) {
        resolution_error = sdk.new_targeting_key_missing client.targeting_key_missing_text;
      })
      | some user_id ↦ result_of flag_key (client.decide user_id (attributes_of eval_ctx) flag_key)
    ]

    -- the end of the methods: the value of the only variable
    unfoldable pub single :
        {A : Type 0}
        → (Any F X → Option A)
        → String
        → A
        → EvaluationResult E F X
        → ResolutionDetail A E F X
    unfolding require_single_variable resolution_success
    single convert type_name default_value result =
        let (val, err_detail) = require_single_variable client convert type_name result in
        elim val [
          | none ↦ record { value = default_value; detail = err_detail }
          | some v ↦ resolution_success v result.variant
        ]

    -- the start of the methods, with what each does with an enabled flag
    unfoldable pub enabled_or :
        {A : Type 0}
        → A
        → (EvaluationResult E F X → ResolutionDetail A E F X)
        → EvaluationResult E F X
        → ResolutionDetail A E F X
    enabled_or default_value evaluate result =
        if result.has_error
        then record { value = default_value; detail = result.detail }
        else if not result.enabled
        then record { value = default_value; detail = with_reason sdk sdk.disabled_reason }
        else evaluate result

    unfoldable pub boolean_evaluation : String → Bool → Fields F X → ResolutionDetail Bool E F X
    unfolding enabled_or single resolution_success
    boolean_evaluation flag_key default_value eval_ctx =
        enabled_or default_value
          (λ result.
            if eqb (length result.variables) 0
            then resolution_success result.enabled result.variant
            else single as_bool "bool" default_value result)
          (get_decision flag_key eval_ctx)

    unfoldable pub string_evaluation : String → String → Fields F X → ResolutionDetail String E F X
    unfolding enabled_or single
    string_evaluation flag_key default_value eval_ctx =
        enabled_or default_value (single as_string "string" default_value)
          (get_decision flag_key eval_ctx)

    unfoldable pub float_evaluation : String → F → Fields F X → ResolutionDetail F E F X
    unfolding enabled_or single
    float_evaluation flag_key default_value eval_ctx =
        enabled_or default_value (single as_float64 "float64" default_value)
          (get_decision flag_key eval_ctx)

    unfoldable pub int_evaluation : String → ℤ → Fields F X → ResolutionDetail ℤ E F X
    unfolding enabled_or single
    int_evaluation flag_key default_value eval_ctx =
        enabled_or default_value (single as_int "int" default_value)
          (get_decision flag_key eval_ctx)

    unfoldable pub object_evaluation :
        String → Any F X → Fields F X → ResolutionDetail (Any F X) E F X
    unfolding enabled_or single resolution_success
    object_evaluation flag_key default_value eval_ctx =
        enabled_or default_value
          (λ result.
            if ltb 1 (length result.variables)
            then resolution_success (object result.variables) result.variant
            else single as_any "<nil>" default_value result)
          (get_decision flag_key eval_ctx)

-- the provider's option, and whether Shutdown closes the client
pub record Provider : Type 0 where
  pub close_on_shutdown : Bool

abbrev pub ProviderOption : Type 0
ProviderOption = Provider → Provider

unfoldable pub with_close_on_shutdown : Bool → ProviderOption
with_close_on_shutdown close p = record p { close_on_shutdown = close }

unfoldable pub apply : List ProviderOption → Provider → Provider
apply [] p = p
apply (opt ∷ opts) p = apply opts (opt p)

unfoldable pub new_provider : List ProviderOption → Provider
unfolding apply
new_provider opts = apply opts (record { close_on_shutdown = false })

unfoldable pub shutdown : Provider → Bool
shutdown p = p.close_on_shutdown
