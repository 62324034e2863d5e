-- ===== src/OpenFeature/Api.antt =====
-- The types of github.com/open-feature/go-sdk that the providers build and take apart, and the
-- functions of the SDK that they call. The SDK is not part of the repository: its functions are the
-- fields of `Sdk`, and what the code relies on of them, as the SDK documents it, is `SdkLaws`.
use go_sdk_contrib.Common.{String, List, ◌≡◌, Bool, true, false, Option, none, some, ◌≢◌, ◌↔◌}
use go_sdk_contrib.OpenFeature.Values.{ℤ, Any, bool, string, Fields, get}

-- of.ErrorCode; `no_code` is the code of the zero ResolutionError.
pub data ErrorCode : Type 0 where
  provider_not_ready flag_not_found parse_error type_mismatch targeting_key_missing : ErrorCode
  invalid_context general no_code : ErrorCode

pub ErrorCode-discrete : Discrete ErrorCode
ErrorCode-discrete = hlevel

abbrev pub is_flag_not_found : ErrorCode → Bool
is_flag_not_found flag_not_found = true
is_flag_not_found _ = false

-- of.FlagMetadata, a map that may be nil
abbrev pub FlagMetadata : Type 0 → Type 0 → Type 0
FlagMetadata F X = Option (Fields F X)

-- metadata[k]: a nil map has no entries
abbrev pub entry : {F X : Type 0} → String → FlagMetadata F X → Option (Any F X)
entry k none = none
entry k (some m) = get k m

-- of.ProviderResolutionDetail; `E` is of.ResolutionError, and a reason is a string
pub record ProviderResolutionDetail (E F X : Type 0) : Type 0 where
  pub resolution_error : E
  pub reason : String
  pub variant : String
  pub flag_metadata : FlagMetadata F X

-- of.BoolResolutionDetail and the others of its kind
pub record ResolutionDetail (V E F X : Type 0) : Type 0 where
  pub value : V
  pub detail : ProviderResolutionDetail E F X

-- of.FeatureProvider, as far as one evaluation sees it: what each call returns
pub record FeatureProvider (E F X : Type 0) : Type 0 where
  pub name : String
  pub boolean_evaluation : String → Bool → Fields F X → ResolutionDetail Bool E F X
  pub string_evaluation : String → String → Fields F X → ResolutionDetail String E F X
  pub float_evaluation : String → F → Fields F X → ResolutionDetail F E F X
  pub int_evaluation : String → ℤ → Fields F X → ResolutionDetail ℤ E F X
  pub object_evaluation : String → Any F X → Fields F X → ResolutionDetail (Any F X) E F X

-- of.State and of.EventType
pub data State : Type 0 where
  not_ready_state ready_state error_state stale_state fatal_state : State

pub data EventType : Type 0 where
  provider_ready provider_config_change provider_stale provider_error : EventType

-- of.Event, with the provider's name and the metadata left out
pub record FlagEvent : Type 0 where
  pub event_type : EventType
  pub message : String
  pub flag_changes : List String

pub record Sdk (E F X : Type 0) : Type 0 where
  -- of.ResolutionError{} and the constructors of.New…ResolutionError
  pub no_error : E
  pub new_provider_not_ready : String → E
  pub new_flag_not_found : String → E
  pub new_parse_error : String → E
  pub new_type_mismatch : String → E
  pub new_targeting_key_missing : String → E
  pub new_invalid_context : String → E
  pub new_general : String → E
  -- detail.Error() != nil, detail.ResolutionDetail().ErrorCode and err.Error()
  pub has_error : E → Bool
  pub error_code : E → ErrorCode
  pub error_text : E → String
  -- string(code)
  pub code_text : ErrorCode → String
  -- the of.Reason constants
  pub error_reason : String
  pub default_reason : String
  pub disabled_reason : String
  pub cached_reason : String
  pub static_reason : String
  pub targeting_match_reason : String
  -- FlagMetadata.GetBool, `none` its error, and GetString, with whether it returns an error
  pub get_bool : FlagMetadata F X → String → Option Bool
  pub get_string : FlagMetadata F X → String → String × Bool

pub record SdkLaws {E F X : Type 0} (sdk : Sdk E F X) : Type 0 where
  -- Error() is nil exactly for the empty code
  pub no_code_iff : (e : E) → (sdk.has_error e ≡ false) ↔ (sdk.error_code e ≡ no_code)
  pub no_error_none : sdk.has_error sdk.no_error ≡ false
  pub provider_not_ready_error : (m : String) → sdk.has_error (sdk.new_provider_not_ready m) ≡ true
  pub flag_not_found_error : (m : String) → sdk.has_error (sdk.new_flag_not_found m) ≡ true
  pub parse_error_error : (m : String) → sdk.has_error (sdk.new_parse_error m) ≡ true
  pub type_mismatch_error : (m : String) → sdk.has_error (sdk.new_type_mismatch m) ≡ true
  pub targeting_key_missing_error :
      (m : String) → sdk.has_error (sdk.new_targeting_key_missing m) ≡ true
  pub invalid_context_error : (m : String) → sdk.has_error (sdk.new_invalid_context m) ≡ true
  pub general_error : (m : String) → sdk.has_error (sdk.new_general m) ≡ true
  pub provider_not_ready_code :
      (m : String) → sdk.error_code (sdk.new_provider_not_ready m) ≡ provider_not_ready
  pub flag_not_found_code :
      (m : String) → sdk.error_code (sdk.new_flag_not_found m) ≡ flag_not_found
  pub parse_error_code : (m : String) → sdk.error_code (sdk.new_parse_error m) ≡ parse_error
  pub type_mismatch_code : (m : String) → sdk.error_code (sdk.new_type_mismatch m) ≡ type_mismatch
  pub targeting_key_missing_code :
      (m : String) → sdk.error_code (sdk.new_targeting_key_missing m) ≡ targeting_key_missing
  pub invalid_context_code :
      (m : String) → sdk.error_code (sdk.new_invalid_context m) ≡ invalid_context
  pub general_code : (m : String) → sdk.error_code (sdk.new_general m) ≡ general
  -- a getter returns the value under the key if it has the type asked for, else an error
  pub get_bool_nil : (k : String) → sdk.get_bool none k ≡ none
  pub get_bool_found :
      (m : Fields F X) (k : String) (b : Bool)
      → get k m ≡ some (bool b)
      → sdk.get_bool (some m) k ≡ some b
  pub get_bool_missing :
      (m : Fields F X) (k : String) → get k m ≡ none → sdk.get_bool (some m) k ≡ none
  pub get_bool_mismatch :
      (m : Fields F X) (k : String) (v : Any F X)
      → get k m ≡ some v
      → ((b : Bool) → v ≢ bool b)
      → sdk.get_bool (some m) k ≡ none
  pub get_string_missing :
      (m : Fields F X) (k : String) → get k m ≡ none → sdk.get_string (some m) k ≡ ("", true)
  pub get_string_found :
      (m : Fields F X) (k s : String)
      → get k m ≡ some (string s)
      → sdk.get_string (some m) k ≡ (s, false)
