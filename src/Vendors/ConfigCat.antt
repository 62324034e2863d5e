-- ===== src/Vendors/ConfigCat.antt =====
-- providers/configcat/pkg/provider.go. The client of ConfigCat and encoding/json are the fields of
-- `Client`.
pub mod Answers
use go_sdk_contrib.Common.{
  String, ◌==◌, ◌⊎◌, inl, inr, Bool, true, false, not, ◌||◌, Option, none, some, concat,
  if◌then◌else◌,
}
use go_sdk_contrib.OpenFeature.{
  ℤ, Any, object, Fields, empty, field, get, put, ProviderResolutionDetail, ResolutionDetail, Sdk,
}
use go_sdk_contrib.Vendors.Details.{targeting_key, with_error, failed}

abbrev pub identifier_key : String
identifier_key = targeting_key

abbrev pub email_key : String
email_key = "email"

abbrev pub country_key : String
country_key = "country"

-- userAttributes; a context without attributes gives the nil user
abbrev pub User : Type 0 → Type 0 → Type 0
User F X = Option (Fields F X)

-- the errors that errors.As tells apart, with their texts
pub data SdkError : Type 0 where
  key_not_found setting_type_mismatch config_json_missing other_error : String → SdkError

-- sdk.EvaluationDetailsData
pub record DetailsData : Type 0 where
  pub error : Option SdkError
  pub is_default_value : Bool
  pub variation_id : String
  pub matched_targeting_rule : Bool
  pub matched_percentage_option : Bool

pub record Client (F X : Type 0) : Type 0 where
  pub get_bool_value_details : String → Bool → User F X → Bool × DetailsData
  pub get_string_value_details : String → String → User F X → String × DetailsData
  pub get_float_value_details : String → F → User F X → F × DetailsData
  pub get_int_value_details : String → ℤ → User F X → ℤ × DetailsData
  -- json.Unmarshal into a map: the text of its error, or the map
  pub unmarshal : String → String ⊎ Fields F X

-- the key of the user's attribute
unfoldable pub attribute_key : String → String
attribute_key key =
    if key == identifier_key
    then "Identifier"
    else if key == email_key
    then "Email"
    else if key == country_key
    then "Country"
    else key

module _ {F X : Type 0} where
  -- The loop of toUserData. If two keys have the same attribute then the one that is met last decides.
  unfoldable pub add_attributes : Fields F X → Fields F X → Fields F X
  unfolding put
  add_attributes empty attributes = attributes
  add_attributes (field key val m) attributes =
      add_attributes m (put (attribute_key key) val attributes)

  unfoldable pub to_user_data : Fields F X → User F X
  unfolding add_attributes
  to_user_data empty = none
  to_user_data (field key val m) = some (add_attributes (field key val m) empty)

  -- GetAttribute
  unfoldable pub get_attribute : String → Fields F X → Option (Any F X)
  unfolding get
  get_attribute key attributes = get key attributes

module _ {E F X : Type 0} (sdk : Sdk E F X) where
  unfoldable pub to_resolution_error : SdkError → E
  to_resolution_error (key_not_found err) = sdk.new_flag_not_found err
  to_resolution_error (setting_type_mismatch err) = sdk.new_type_mismatch err
  to_resolution_error (config_json_missing err) = sdk.new_parse_error err
  to_resolution_error (other_error err) = sdk.new_general err

  unfoldable pub to_resolution_detail : DetailsData → ProviderResolutionDetail E F X
  unfolding to_resolution_error
  to_resolution_detail details = elim details.error [
    | some err ↦ with_error sdk (to_resolution_error err)
    | none ↦ record {
      resolution_error = sdk.no_error;
      reason =
          if details.matched_targeting_rule || details.matched_percentage_option
          then sdk.targeting_match_reason
          else sdk.default_reason;
      variant = details.variation_id;
      flag_metadata = none;
    }
  ]

  -- what the typed methods make of an evaluation
  unfoldable pub detail_of : {A : Type 0} → A × DetailsData → ResolutionDetail A E F X
  unfolding to_resolution_detail
  detail_of evaluation = record { value = evaluation.0; detail = to_resolution_detail evaluation.1 }

  module _ (client : Client F X) where
    unfoldable pub boolean_evaluation : String → Bool → Fields F X → ResolutionDetail Bool E F X
    unfolding detail_of to_user_data
    boolean_evaluation flag d eval_ctx =
        detail_of (client.get_bool_value_details flag d (to_user_data eval_ctx))

    unfoldable pub string_evaluation : String → String → Fields F X → ResolutionDetail String E F X
    unfolding detail_of to_user_data
    string_evaluation flag d eval_ctx =
        detail_of (client.get_string_value_details flag d (to_user_data eval_ctx))

    unfoldable pub float_evaluation : String → F → Fields F X → ResolutionDetail F E F X
    unfolding detail_of to_user_data
    float_evaluation flag d eval_ctx =
        detail_of (client.get_float_value_details flag d (to_user_data eval_ctx))

    -- An int has 64 bits.
    unfoldable pub int_evaluation : String → ℤ → Fields F X → ResolutionDetail ℤ E F X
    unfolding detail_of to_user_data
    int_evaluation flag d eval_ctx =
        detail_of (client.get_int_value_details flag d (to_user_data eval_ctx))

    abbrev pub has_failed : DetailsData → Bool
    has_failed details = elim details.error [ none ↦ false | some err ↦ true ]

    unfoldable pub object_evaluation :
        String → Any F X → Fields F X → ResolutionDetail (Any F X) E F X
    unfolding to_resolution_detail to_user_data
    object_evaluation flag default_value eval_ctx =
        let (text, details) = client.get_string_value_details flag "" (to_user_data eval_ctx) in
        if details.is_default_value || has_failed details
        then record { value = default_value; detail = to_resolution_detail details }
        else elim (client.unmarshal text) [
          | inl err ↦
              failed sdk default_value
                (sdk.new_type_mismatch (concat "failed to unmarshal string flag as json: " err))
          | inr m ↦ record { value = object m; detail = to_resolution_detail details }
        ]
