-- ===== src/Vendors/Unleash.antt =====
-- providers/unleash/pkg/provider.go. The SDK of Unleash, strconv and fmt are the fields of `Client`.
pub mod Status
use go_sdk_contrib.Common.{
  String, ◌==◌, ◌⊎◌, inl, inr, Bool, true, false, Option, none, some, Assoc, [], insert, concat,
  if◌then◌else◌,
}
use go_sdk_contrib.OpenFeature.{
  ℤ, Any, bool, string, int, int64, float32, float64, other, Fields, empty, field, ResolutionDetail,
  Sdk, State, ready_state, not_ready_state, error_state,
}
use go_sdk_contrib.Vendors.Details.{as_string, as_int64, as_float64, with_error, failed}

abbrev pub provider_not_ready_text : String
provider_not_ready_text = "Provider not ready"

abbrev pub general_error_text : String
general_error_text = "general error"

-- unleashContext.Context
pub record Context : Type 0 where
  pub app_name : String
  pub current_time : String
  pub environment : String
  pub remote_address : String
  pub session_id : String
  pub user_id : String
  pub properties : Option (Assoc String)

-- api.Variant
pub record Variant : Type 0 where
  pub name : String
  pub payload : String
  pub enabled : Bool

pub record Client (F X : Type 0) : Type 0 where
  -- the error of Initialize, if there is one
  pub initialize : Option String
  -- IsEnabled with its fallback, and GetVariant
  pub is_enabled : String → Bool → Context → Bool
  pub get_variant : String → Context → Variant
  -- the name of api.DISABLED_VARIANT
  pub disabled_variant : String
  -- strconv.ParseFloat(s, 64) and strconv.ParseInt(s, 10, 64)
  pub parse_float : String → Option F
  pub parse_int : String → Option ℤ
  -- fmt's %d, %.6f, %t and Sprint; an int8, int16 or int32 is an `other`
  pub int_text : ℤ → String
  pub small_int_text : X → Option String
  pub float_text : F → String
  pub bool_text : Bool → String
  pub sprint : Any F X → String

pub record Provider : Type 0 where
  pub status : State

unfoldable pub new_provider : Provider
new_provider = record { status = not_ready_state }

unfoldable pub shutdown : Provider → Provider
shutdown p = record p { status = not_ready_state }

abbrev pub empty_context : Context
empty_context = record {
  app_name = "";
  current_time = "";
  environment = "";
  remote_address = "";
  session_id = "";
  user_id = "";
  properties = none;
}

-- one round of the loop: the field, or a property
unfoldable pub add_attribute : String → String → Context × Assoc String → Context × Assoc String
unfolding insert
add_attribute key val (c, custom) =
    if key == "AppName"
    then (record c { app_name = val }, custom)
    else if key == "CurrentTime"
    then (record c { current_time = val }, custom)
    else if key == "Environment"
    then (record c { environment = val }, custom)
    else if key == "RemoteAddress"
    then (record c { remote_address = val }, custom)
    else if key == "SessionId"
    then (record c { session_id = val }, custom)
    else if key == "UserId"
    then (record c { user_id = val }, custom)
    else (c, insert key val custom)

module _ {E F X : Type 0} (sdk : Sdk E F X) (client : Client F X) where
  unfoldable pub init : Provider → Provider × Option String
  init p = elim client.initialize [
    | some err ↦ (record p { status = error_state }, some err)
    | none ↦ (record p { status = ready_state }, none)
  ]

  unfoldable pub to_str : Any F X → Option String
  to_str (string s) = some s
  to_str (int i) = some (client.int_text i)
  to_str (int64 i) = some (client.int_text i)
  to_str (float32 f) = some (client.float_text f)
  to_str (float64 f) = some (client.float_text f)
  to_str (bool b) = some (client.bool_text b)
  to_str (other x) = client.small_int_text x
  to_str _ = none

  -- the loop; the error is its text
  unfoldable pub add_attributes :
      Fields F X → Context × Assoc String → String ⊎ (Context × Assoc String)
  unfolding add_attribute
  add_attributes empty made = inr made
  add_attributes (field key orig_val m) made = elim (to_str orig_val) [
    | none ↦ inl (concat "key `" (concat key "` can not be converted to string"))
    | some val ↦ add_attributes m (add_attribute key val made)
  ]

  unfoldable pub to_unleash_context : Fields F X → String ⊎ Context
  unfolding add_attributes
  to_unleash_context empty = inr empty_context
  to_unleash_context (field key v m) = elim (add_attributes (field key v m) (empty_context, [])) [
    | inl err ↦ inl err
    | inr (c, custom) ↦ inr (record c { properties = some custom })
  ]

  -- the error of a provider that is not ready
  unfoldable pub status_error : State → Option E
  status_error ready_state = none
  status_error not_ready_state = some (sdk.new_provider_not_ready provider_not_ready_text)
  status_error _ = some (sdk.new_general general_error_text)

  -- details without an error and a reason
  abbrev pub found : {A : Type 0} → A → String → Bool → ResolutionDetail A E F X
  found value variant enabled = record {
    value = value;
    detail = record {
      resolution_error = sdk.no_error;
      reason = "";
      variant = variant;
      flag_metadata = some (field "enabled" (bool enabled) empty);
    };
  }

  unfoldable pub boolean_evaluation :
      Provider → String → Bool → Fields F X → ResolutionDetail Bool E F X
  boolean_evaluation p flag default_value eval_ctx = elim (status_error p.status) [
    | some e ↦ failed sdk default_value e
    | none ↦ elim (to_unleash_context eval_ctx) [
      | inl err ↦ failed sdk default_value (sdk.new_invalid_context err)
      | inr c ↦ let res = client.is_enabled flag default_value c in found res "" res
    ]
  ]

  unfoldable pub object_evaluation :
      Provider → String → Any F X → Fields F X → ResolutionDetail (Any F X) E F X
  object_evaluation p flag default_value eval_ctx = elim (status_error p.status) [
    | some e ↦ failed sdk default_value e
    | none ↦ elim (to_unleash_context eval_ctx) [
      | inl err ↦ failed sdk default_value (sdk.new_general err)
      | inr c ↦
          let variant = client.get_variant flag c in
          if variant.name == client.disabled_variant
          then found default_value "" variant.enabled
          else found (string variant.payload) variant.name variant.enabled
    ]
  ]

  -- the conversions of the value of ObjectEvaluation: as it is, or parsed from a text
  unfoldable pub converted :
      {A : Type 0}
      → (Any F X → Option A)
      → (String → Option A)
      → String
      → A
      → ResolutionDetail (Any F X) E F X
      → ResolutionDetail A E F X
  converted {A} convert parse mismatch default_value res = elim (convert res.value) [
    | some value ↦ record { value = value; detail = res.detail }
    | none ↦
        elim (elim (as_string res.value) as (λ s. Option A) [ none ↦ none | some s ↦ parse s ]) [
          | some value ↦ record { value = value; detail = res.detail }
          | none ↦ failed sdk default_value (sdk.new_type_mismatch mismatch)
        ]
  ]

  unfoldable pub float_evaluation : Provider → String → F → Fields F X → ResolutionDetail F E F X
  unfolding converted
  float_evaluation p flag default_value eval_ctx =
      converted as_float64 client.parse_float (concat "FloatEvaluation type error for " flag)
        default_value (object_evaluation p flag (float64 default_value) eval_ctx)

  unfoldable pub int_evaluation : Provider → String → ℤ → Fields F X → ResolutionDetail ℤ E F X
  unfolding converted
  int_evaluation p flag default_value eval_ctx =
      converted as_int64 client.parse_int (concat "IntEvaluation type error for " flag)
        default_value (object_evaluation p flag (int64 default_value) eval_ctx)

  unfoldable pub string_evaluation :
      Provider → String → String → Fields F X → ResolutionDetail String E F X
  string_evaluation p flag default_value eval_ctx =
      let res = object_evaluation p flag (string default_value) eval_ctx in
      record { value = client.sprint res.value; detail = res.detail }
