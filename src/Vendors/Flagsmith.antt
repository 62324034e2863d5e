-- ===== src/Vendors/Flagsmith.antt =====
-- providers/flagsmith/pkg/provider.go. The client of Flagsmith, strconv and encoding/json are the
-- fields of `Client`.
pub mod Enabled
use go_sdk_contrib.Common.{
  String, ◌==◌, ◌⊎◌, inl, inr, Bool, true, false, not, ◌||◌, Option, none, some, List, [], ◌∷◌,
  concat, if◌then◌else◌,
}
use go_sdk_contrib.OpenFeature.{
  ℤ, Any, nil, bool, string, int64, float64, Fields, empty, field, get, ResolutionDetail, Sdk,
}
use go_sdk_contrib.Vendors.Details.{
  targeting_key, as_bool, as_string, as_float64, with_reason, failed,
}

-- flagsmithClient.Flag
pub record Flag (F X : Type 0) : Type 0 where
  pub enabled : Bool
  pub value : Any F X

-- Each call gives an error, or the flags; and GetFlag an error, or the flag of a name.
abbrev pub Flags : Type 0 → Type 0 → Type 0
Flags F X = String → String ⊎ Flag F X

pub record Client (F X : Type 0) : Type 0 where
  pub get_identity_flags : String → Fields F X → String ⊎ Flags F X
  pub get_environment_flags : String ⊎ Flags F X
  -- strconv.ParseFloat(s, 64) and json.Unmarshal, `none` their errors
  pub parse_float : String → Option F
  pub unmarshal : String → Option (Any F X)
  -- int64(x)
  pub truncate : F → ℤ
  -- fmt's %v
  pub value_text : Any F X → String

pub record Provider : Type 0 where
  pub using_boolean_config_value : Bool

abbrev pub ProviderOption : Type 0
ProviderOption = Provider → Provider

unfoldable pub with_using_boolean_config_value : ProviderOption
with_using_boolean_config_value p = record p { using_boolean_config_value = true }

unfoldable pub apply : List ProviderOption → Provider → Provider
apply [] p = p
apply (opt ∷ opts) p = apply opts (opt p)

unfoldable pub new_provider : List ProviderOption → Provider
unfolding apply
new_provider opts = apply opts (record { using_boolean_config_value = false })

module _ {E F X : Type 0} (sdk : Sdk E F X) (client : Client F X) where
  -- the traits of an identity: the context without the targeting key
  unfoldable pub traits : Fields F X → Fields F X
  traits empty = empty
  traits (field k v m) = let rest = traits m in if k == targeting_key then rest else field k v rest

  -- the end of resolveFlag, with the flags that the client gave
  unfoldable pub resolved :
      String → Any F X → String → String ⊎ Flags F X → ResolutionDetail (Any F X) E F X
  resolved flag default_value reason flags = elim flags [
    | inl err ↦ failed sdk default_value (sdk.new_general err)
    | inr get_flag ↦ elim (get_flag flag) [
      | inl err ↦ failed sdk default_value (sdk.new_flag_not_found err)
      | inr flag_obj ↦
          if not flag_obj.enabled
          then record { value = default_value; detail = with_reason sdk sdk.disabled_reason }
          else record { value = flag_obj.value; detail = with_reason sdk reason }
    ]
  ]

  unfoldable pub resolve_flag : String → Any F X → Fields F X → ResolutionDetail (Any F X) E F X
  unfolding get traits resolved
  resolve_flag flag default_value eval_ctx = elim (get targeting_key eval_ctx) [
    | none ↦ resolved flag default_value sdk.static_reason client.get_environment_flags
    | some (string target_key) ↦
        resolved flag default_value sdk.targeting_match_reason
          (client.get_identity_flags target_key (traits eval_ctx))
    | some _ ↦
        failed sdk default_value
          (sdk.new_invalid_context "flagsmith: targeting key is not a string")
  ]

  unfoldable pub mismatch : String → Any F X → E
  mismatch kind v =
      sdk.new_type_mismatch
        (concat "flagsmith: Value " (concat (client.value_text v) (concat " is not a valid " kind)))

  unfoldable pub is_disabled : {A : Type 0} → ResolutionDetail A E F X → Bool
  is_disabled res = res.detail.reason == sdk.disabled_reason

  -- what the methods but BooleanEvaluation make of the detail of resolveFlag
  unfoldable pub typed :
      {A : Type 0}
      → (Any F X → Option A)
      → String
      → A
      → ResolutionDetail (Any F X) E F X
      → ResolutionDetail A E F X
  unfolding mismatch is_disabled
  typed convert kind default_value res =
      if sdk.has_error res.detail.resolution_error || is_disabled res
      then record { value = default_value; detail = res.detail }
      else elim (convert res.value) [
        | none ↦ failed sdk default_value (mismatch kind res.value)
        | some value ↦ record { value = value; detail = res.detail }
      ]

  unfoldable pub boolean_evaluation :
      Provider → String → Bool → Fields F X → ResolutionDetail Bool E F X
  unfolding is_disabled mismatch
  boolean_evaluation p flag default_value eval_ctx =
      let res = resolve_flag flag (bool default_value) eval_ctx in
      if sdk.has_error res.detail.resolution_error
      then record { value = default_value; detail = res.detail }
      else if p.using_boolean_config_value
      then record { value = not (is_disabled res); detail = with_reason sdk sdk.static_reason }
      else if is_disabled res
      then record { value = default_value; detail = res.detail }
      else elim (as_bool res.value) [
        | none ↦ failed sdk default_value (mismatch "boolean" res.value)
        | some value ↦ record { value = value; detail = res.detail }
      ]

  unfoldable pub string_evaluation : String → String → Fields F X → ResolutionDetail String E F X
  unfolding typed
  string_evaluation flag default_value eval_ctx =
      typed as_string "string" default_value (resolve_flag flag (string default_value) eval_ctx)

  -- Floats are stored as texts.
  abbrev pub as_float_text : Any F X → Option F
  as_float_text (string s) = client.parse_float s
  as_float_text _ = none

  unfoldable pub float_evaluation : String → F → Fields F X → ResolutionDetail F E F X
  unfolding typed
  float_evaluation flag default_value eval_ctx =
      typed as_float_text "float" default_value (resolve_flag flag (float64 default_value) eval_ctx)

  abbrev pub as_truncated : Any F X → Option ℤ
  as_truncated (float64 f) = some (client.truncate f)
  as_truncated _ = none

  unfoldable pub int_evaluation : String → ℤ → Fields F X → ResolutionDetail ℤ E F X
  unfolding typed
  int_evaluation flag default_value eval_ctx =
      typed as_truncated "int" default_value (resolve_flag flag (int64 default_value) eval_ctx)

  -- Objects are stored as texts. The default value is not a pointer, into which Unmarshal would
  -- write.
  abbrev pub as_json : Any F X → Option (Any F X)
  as_json (string s) = client.unmarshal s
  as_json _ = none

  unfoldable pub object_evaluation :
      String → Any F X → Fields F X → ResolutionDetail (Any F X) E F X
  unfolding typed
  object_evaluation flag default_value eval_ctx =
      typed as_json "object" default_value (resolve_flag flag default_value eval_ctx)
