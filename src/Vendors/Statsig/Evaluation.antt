-- ===== src/Vendors/Statsig/Evaluation.antt =====
-- providers/statsig/pkg/provider.go: the provider's state and its evaluations.
use go_sdk_contrib.Common.{
  String, ◌⊎◌, inl, inr, Bool, true, false, Option, none, some, concat, if◌then◌else◌,
}
use go_sdk_contrib.OpenFeature.{
  ℤ, Any, nil, bool, string, int, int64, float32, float64, slice, object, metadata, nil_metadata,
  other, Items, Fields, empty, field, ResolutionDetail, Sdk, State, ready_state, not_ready_state,
  error_state,
}
use go_sdk_contrib.Vendors.Details.{failed, as_bool, as_float64}
use go_sdk_contrib.Vendors.Statsig.User.{
  User, FeatureConfigType, config, layer, unknown, Reflected, of_bool, of_int, of_float, of_string,
  of_slice, of_map, unsupported, Values, to_statsig_user, to_feature_config,
}

-- a dynamic config, or a layer: its getters with their default values, where a nil slice is none
pub record Store (F X : Type 0) : Type 0 where
  pub get_bool : String → Bool → Bool
  pub get_number : String → F → F
  pub get_string : String → String → String
  pub get_slice : String → Option (Items F X) → Any F X
  pub get_map : String → Fields F X → Fields F X
  pub group_name : String
  pub name : String
  pub rule_id : String
  pub log_exposure : Any F X

pub record Client (F X : Type 0) : Type 0 where
  -- the error of InitializeWithOptions, if there is one
  pub initialize_with_options : Option String
  pub get_gate : User F X → String → Bool
  pub get_config : User F X → String → Store F X
  pub get_layer : User F X → String → Store F X

abbrev pub provider_not_ready_text : String
provider_not_ready_text = "Provider not ready"

abbrev pub general_error_text : String
general_error_text = "general error"

-- The configuration is part of what `Client` does.
pub record Provider : Type 0 where
  pub status : State

unfoldable pub new_provider : Provider
new_provider = record { status = not_ready_state }

unfoldable pub shutdown : Provider → Provider
shutdown p = record p { status = not_ready_state }

abbrev pub is_not_ready : State → Bool
is_not_ready not_ready_state = true
is_not_ready _ = false

abbrev pub is_ready : State → Bool
is_ready ready_state = true
is_ready _ = false

module _ {E F X : Type 0} (sdk : Sdk E F X) (values : Values F X) where
  unfoldable pub reflect : Any F X → Reflected F X
  reflect nil = unsupported "invalid"
  reflect (bool b) = of_bool b
  reflect (string s) = of_string s
  reflect (int i) = of_int i
  reflect (int64 i) = of_int i
  reflect (float32 f) = of_float (values.widen f)
  reflect (float64 f) = of_float f
  reflect (slice items) = of_slice
  reflect (object m) = of_map
  reflect (metadata m) = of_map
  reflect nil_metadata = of_map
  reflect (other x) = values.reflected x

  -- the switch on the kind of the default value: an error or the value
  unfoldable pub value_of : Store F X → String → Any F X → String ⊎ Any F X
  unfolding reflect
  value_of store flag default_value = elim (reflect default_value) [
    | of_bool b ↦ inr (bool (store.get_bool flag b))
    | of_int i ↦ inr (float64 (store.get_number flag (values.float_of i)))
    | of_float f ↦ inr (float64 (store.get_number flag f))
    | of_string s ↦ inr (string (store.get_string flag s))
    | of_slice ↦
        inr (store.get_slice flag (elim default_value [ slice items ↦ some items | _ ↦ none ]))
    | of_map ↦ elim default_value [
      | object m ↦ inr (object (store.get_map flag m))
      | _ ↦ inl "default value is from unexpected type: map"
    ]
    | unsupported kind ↦ inl (concat "not implemented default value type: " kind)
  ]

  unfoldable pub config_metadata : Store F X → Fields F X
  config_metadata store =
      field "GroupName" (string store.group_name)
        (field "Name" (string store.name) (field "RuleID" (string store.rule_id) empty))

  unfoldable pub layer_metadata : Store F X → Fields F X
  layer_metadata store = field "GroupName" (string store.group_name) (
      field "LogExposure" store.log_exposure
        (field "Name" (string store.name) (field "RuleID" (string store.rule_id) empty)))

  -- the error of a provider that is not ready
  unfoldable pub status_error : State → Option E
  status_error status =
      if is_ready status
      then none
      else some (
          if is_not_ready status
          then sdk.new_provider_not_ready provider_not_ready_text
          else sdk.new_general general_error_text)

  -- the end of ObjectEvaluation
  unfoldable pub answered :
      Any F X → String ⊎ Any F X → Fields F X → ResolutionDetail (Any F X) E F X
  answered default_value result flag_metadata = elim result [
    | inl err ↦ failed sdk default_value (sdk.new_general err)
    | inr value ↦ record {
      value = value;
      detail = record {
        resolution_error = sdk.no_error;
        reason = "";
        variant = "";
        flag_metadata = some flag_metadata;
      };
    }
  ]

  -- the type assertion on the value of ObjectEvaluation
  unfoldable pub typed :
      {A : Type 0}
      → (Any F X → Option A)
      → A
      → ResolutionDetail (Any F X) E F X
      → ResolutionDetail A E F X
  typed convert default_value res = elim (convert res.value) [
    | some v ↦ record { value = v; detail = res.detail }
    | none ↦ failed sdk default_value (sdk.new_general "evaluated value is from incompatible type")
  ]

  abbrev pub as_number : Any F X → Option ℤ
  as_number (float64 f) = some (values.truncate f)
  as_number (int64 i) = some i
  as_number _ = none

  module _ (client : Client F X) where
    unfoldable pub init : Provider → Provider × Option String
    init p = elim client.initialize_with_options [
      | some err ↦ (record p { status = error_state }, some err)
      | none ↦ (record p { status = ready_state }, none)
    ]

    -- the switch on the type of the feature config
    unfoldable pub evaluated :
        FeatureConfigType → String → User F X → String → Any F X → ResolutionDetail (Any F X) E F X
    unfolding value_of config_metadata layer_metadata answered
    evaluated config name user flag default_value =
        let store = client.get_config user name in
        answered default_value (value_of store flag default_value) (config_metadata store)
    evaluated layer name user flag default_value =
        let store = client.get_layer user name in
        answered default_value (value_of store flag default_value) (layer_metadata store)
    evaluated (unknown kind) name user flag default_value =
        failed sdk default_value
          (sdk.new_general (concat "not implemented FeatureConfigType: " kind))

    unfoldable pub object_evaluation :
        Provider → String → Any F X → Fields F X → ResolutionDetail (Any F X) E F X
    unfolding status_error to_statsig_user to_feature_config evaluated
    object_evaluation p flag default_value eval_ctx = elim (status_error p.status) [
      | some e ↦ failed sdk default_value e
      | none ↦ elim (to_statsig_user sdk values eval_ctx) [
        | inl err ↦ failed sdk default_value (sdk.new_general err)
        | inr user ↦ elim (to_feature_config values eval_ctx) [
          | inl err ↦ failed sdk default_value (sdk.new_general err)
          | inr feature_config ↦
              evaluated feature_config.feature_config_type feature_config.name user flag
                default_value
        ]
      ]
    ]

    unfoldable pub boolean_evaluation :
        Provider → String → Bool → Fields F X → ResolutionDetail Bool E F X
    unfolding status_error to_statsig_user to_feature_config object_evaluation typed
    boolean_evaluation p flag default_value eval_ctx = elim (status_error p.status) [
      | some e ↦ failed sdk default_value e
      | none ↦ elim (to_statsig_user sdk values eval_ctx) [
        | inl err ↦ failed sdk default_value (sdk.new_invalid_context err)
        | inr user ↦ elim (to_feature_config values eval_ctx) [
          | inl err ↦ record {
            value = client.get_gate user flag;
            detail = record {
              resolution_error = sdk.no_error;
              reason = "";
              variant = "";
              flag_metadata = none;
            };
          }
          | inr feature_config ↦
              typed as_bool default_value (object_evaluation p flag (bool default_value) eval_ctx)
        ]
      ]
    ]

    unfoldable pub float_evaluation : Provider → String → F → Fields F X → ResolutionDetail F E F X
    unfolding object_evaluation typed
    float_evaluation p flag default_value eval_ctx =
        typed as_float64 default_value (object_evaluation p flag (float64 default_value) eval_ctx)

    unfoldable pub int_evaluation : Provider → String → ℤ → Fields F X → ResolutionDetail ℤ E F X
    unfolding object_evaluation typed
    int_evaluation p flag default_value eval_ctx =
        typed as_number default_value (object_evaluation p flag (int64 default_value) eval_ctx)

    unfoldable pub string_evaluation :
        Provider → String → String → Fields F X → ResolutionDetail String E F X
    unfolding object_evaluation
    string_evaluation p flag default_value eval_ctx =
        let res = object_evaluation p flag (string default_value) eval_ctx in
        record { value = values.sprint res.value; detail = res.detail }
