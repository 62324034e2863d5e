-- ===== src/Vendors/Statsig/User.antt =====
-- providers/statsig/pkg/provider.go: ToStatsigUser, toStr and toFeatureConfig.
pub mod Custom
use go_sdk_contrib.Common.{
  ℕ, String, ◌==◌, ◌⊎◌, inl, inr, Bool, true, false, not, ◌||◌, ◌&&◌, Option, none, some, List, [],
  ◌∷◌, Assoc, concat, if◌then◌else◌,
}
use go_sdk_contrib.OpenFeature.{
  ℤ, Any, bool, string, int, int64, float32, float64, object, other, Fields, empty, field, get, put,
  put_all, Sdk,
}
use go_sdk_contrib.Vendors.Details.{targeting_key, as_object}

abbrev pub feature_config_key : String
feature_config_key = "feature_config"

-- FeatureConfigType; a conversion makes any other string one
pub data FeatureConfigType : Type 0 where
  config layer : FeatureConfigType
  unknown : String → FeatureConfigType

pub record FeatureConfig : Type 0 where
  pub feature_config_type : FeatureConfigType
  pub name : String

-- reflect.Value's Kind with the value, as far as ObjectEvaluation tells them apart; the text is
-- that of the kind
pub data Reflected (F X : Type 0) : Type 0 where
  of_bool : Bool → Reflected F X
  of_int : ℤ → Reflected F X
  of_float : F → Reflected F X
  of_string : String → Reflected F X
  -- a slice or an array that is not a []any, and a map that is not a map[string]any
  of_slice of_map : Reflected F X
  unsupported : String → Reflected F X

pub record Values (F X : Type 0) : Type 0 where
  -- fmt's %d, %.6f and %t, and fmt.Sprint
  pub int_text : ℤ → String
  pub float_text : F → String
  pub bool_text : Bool → String
  pub sprint : Any F X → String
  -- an int8, int16 or int32, in decimal
  pub small_int_text : X → Option String
  -- the assertions .(map[string]string) and .(FeatureConfig)
  pub as_string_map : X → Option (Assoc String)
  pub as_feature_config : X → Option FeatureConfig
  -- reflect.ValueOf
  pub reflected : X → Reflected F X
  -- float64(x) of a float32 and of an int64, and int64(x)
  pub widen : F → F
  pub float_of : ℤ → F
  pub truncate : F → ℤ

pub record User (F X : Type 0) : Type 0 where
  pub user_id : String
  pub email : String
  pub ip_address : String
  pub user_agent : String
  pub country : String
  pub locale : String
  pub app_version : String
  pub custom : Option (Fields F X)
  pub private_attributes : Option (Fields F X)
  pub statsig_environment : Option (Assoc String)
  pub custom_ids : Option (Assoc String)

abbrev pub no_user : {F X : Type 0} → User F X
no_user = record {
  user_id = "";
  email = "";
  ip_address = "";
  user_agent = "";
  country = "";
  locale = "";
  app_version = "";
  custom = none;
  private_attributes = none;
  statsig_environment = none;
  custom_ids = none;
}

-- the fields that hold a text, and the one that a key sets
pub data TextField : Type 0 where
  user_id_field email_field ip_address_field user_agent_field country_field : TextField
  locale_field app_version_field : TextField

-- the cases of the switch on the key
pub data KeyKind : Type 0 where
  text_key : TextField → KeyKind
  custom_key private_attributes_key statsig_environment_key custom_ids_key ignored_key : KeyKind
  attribute_key : KeyKind

unfoldable pub key_kind : String → KeyKind
key_kind key =
    if key == targeting_key || key == "UserID"
    then text_key user_id_field
    else if key == "Email"
    then text_key email_field
    else if key == "IpAddress"
    then text_key ip_address_field
    else if key == "UserAgent"
    then text_key user_agent_field
    else if key == "Country"
    then text_key country_field
    else if key == "Locale"
    then text_key locale_field
    else if key == "AppVersion"
    then text_key app_version_field
    else if key == "Custom"
    then custom_key
    else if key == "PrivateAttributes"
    then private_attributes_key
    else if key == "StatsigEnvironment"
    then statsig_environment_key
    else if key == "CustomIDs"
    then custom_ids_key
    else if key == feature_config_key
    then ignored_key
    else attribute_key

module _ {F X : Type 0} where
  unfoldable pub set_text : TextField → String → User F X → User F X
  set_text user_id_field val u = record u { user_id = val }
  set_text email_field val u = record u { email = val }
  set_text ip_address_field val u = record u { ip_address = val }
  set_text user_agent_field val u = record u { user_agent = val }
  set_text country_field val u = record u { country = val }
  set_text locale_field val u = record u { locale = val }
  set_text app_version_field val u = record u { app_version = val }

  unfoldable pub to_str : Values F X → Any F X → Option String
  to_str values (string s) = some s
  to_str values (int i) = some (values.int_text i)
  to_str values (int64 i) = some (values.int_text i)
  to_str values (float32 f) = some (values.float_text f)
  to_str values (float64 f) = some (values.float_text f)
  to_str values (bool b) = some (values.bool_text b)
  to_str values (other x) = values.small_int_text x
  to_str values _ = none

  abbrev pub as_strings : Values F X → Any F X → Option (Assoc String)
  as_strings values (other x) = values.as_string_map x
  as_strings values _ = none

  -- an assertion and what is done with its result, or the error of the key
  unfoldable pub assigned :
      {A : Type 0} → String → String → Option A → (A → User F X) → String ⊎ User F X
  assigned key kind val set = elim val [
    | none ↦ inl (concat "key `" (concat key (concat "` can not be converted to " kind)))
    | some v ↦ inr (set v)
  ]

  -- statsigUser.Custom[key] = origVal, in a map that is made if it is nil
  unfoldable pub put_custom : String → Any F X → User F X → User F X
  unfolding put
  put_custom key v u = record u {
    custom = some (put key v (elim u.custom [ none ↦ empty | some m ↦ m ]));
  }

  -- The bodies of the cases. With "Custom" the map of the caller becomes that of the user if the user
  -- has none; the writes of later rounds into it, which the caller sees, are left out.
  unfoldable pub add_case : Values F X → KeyKind → String → Any F X → User F X → String ⊎ User F X
  unfolding set_text to_str assigned put_custom put_all
  add_case values (text_key f) key orig_val u =
      assigned key "string" (to_str values orig_val) (λ val. set_text f val u)
  add_case values custom_key key orig_val u =
      assigned key "map" (as_object orig_val)
        (λ m. record u { custom = some (elim u.custom [ none ↦ m | some old ↦ put_all m old ]) })
  add_case values private_attributes_key key orig_val u =
      assigned key "map" (as_object orig_val) (λ m. record u { private_attributes = some m })
  add_case values statsig_environment_key key orig_val u =
      assigned key "map" (as_strings values orig_val)
        (λ m. record u { statsig_environment = some m })
  add_case values custom_ids_key key orig_val u =
      assigned key "map" (as_strings values orig_val) (λ m. record u { custom_ids = some m })
  add_case values ignored_key key orig_val u = inr u
  add_case values attribute_key key orig_val u = inr (put_custom key orig_val u)

  -- one round of the loop
  unfoldable pub add_attribute : Values F X → String → Any F X → User F X → String ⊎ User F X
  unfolding key_kind add_case
  add_attribute values key orig_val u = add_case values (key_kind key) key orig_val u

  unfoldable pub add_attributes : Values F X → Fields F X → User F X → String ⊎ User F X
  unfolding add_attribute
  add_attributes values empty u = inr u
  add_attributes values (field key v rest) u = elim (add_attribute values key v u) [
    | inl err ↦ inl err
    | inr u' ↦ add_attributes values rest u'
  ]

  abbrev pub has_ids : User F X → Bool
  has_ids u = elim u.custom_ids [ none ↦ false | some [] ↦ false | some (id ∷ ids) ↦ true ]

  -- what the end of ToStatsigUser asks; the error is its text
  unfoldable pub checked : {E : Type 0} → Sdk E F X → User F X → String ⊎ User F X
  checked sdk u =
      if u.user_id == "" && not (has_ids u)
      then inl (sdk.error_text (sdk.new_targeting_key_missing "UserID/targetingKey is missing"))
      else inr u

  unfoldable pub to_statsig_user :
      {E : Type 0} → Sdk E F X → Values F X → Fields F X → String ⊎ User F X
  unfolding add_attributes checked
  to_statsig_user sdk values empty = inr no_user
  to_statsig_user sdk values (field key v rest) =
      elim (add_attributes values (field key v rest) no_user) [
        | inl err ↦ inl err
        | inr u ↦ checked sdk u
      ]

  unfoldable pub to_feature_config : Values F X → Fields F X → String ⊎ FeatureConfig
  unfolding get
  to_feature_config values eval_ctx = elim (get feature_config_key eval_ctx) [
    | some (other x) ↦ elim (values.as_feature_config x) [
      | none ↦ inl "`feature_config` not found at evaluation context."
      | some feature_config ↦ inr feature_config
    ]
    | _ ↦ inl "`feature_config` not found at evaluation context."
  ]
