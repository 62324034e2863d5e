-- ===== src/Witnesses/Sdk.antt =====
-- An SDK as the witnesses need one: an error is its code and message. It has the laws that the
-- theorems ask for.
use go_sdk_contrib.Common.{
  ℕ, String, ◌≡◌, ◌≢◌, ◌↔◌, refl, Bool, true, false, Option, none, some, arith,
}
use go_sdk_contrib.OpenFeature.{
  Any, nil, bool, string, int, int64, float32, float64, slice, object, metadata, nil_metadata,
  other, empty, entry, ErrorCode, provider_not_ready, flag_not_found, parse_error, type_mismatch,
  targeting_key_missing, invalid_context, general, no_code, ResolutionDetail, FeatureProvider, Sdk,
  SdkLaws,
}
use go_sdk_contrib.MultiProvider.Strategies.{NamedProvider}

abbrev pub is_coded : ErrorCode → Bool
is_coded no_code = false
is_coded _ = true

abbrev pub text_of : ErrorCode → String
text_of provider_not_ready = "PROVIDER_NOT_READY"
text_of flag_not_found = "FLAG_NOT_FOUND"
text_of parse_error = "PARSE_ERROR"
text_of type_mismatch = "TYPE_MISMATCH"
text_of targeting_key_missing = "TARGETING_KEY_MISSING"
text_of invalid_context = "INVALID_CONTEXT"
text_of general = "GENERAL"
text_of no_code = ""

abbrev pub Error : Type 0
Error = ErrorCode × String

abbrev pub bool_of : Option (Any ℕ ℕ) → Option Bool
bool_of (some (bool b)) = some b
bool_of _ = none

abbrev pub string_of : Option (Any ℕ ℕ) → String × Bool
string_of (some (string s)) = (s, false)
string_of _ = ("", true)

abbrev pub small_sdk : Sdk Error ℕ ℕ
small_sdk = record {
  no_error = (no_code, "");
  new_provider_not_ready = λ m. (provider_not_ready, m);
  new_flag_not_found = λ m. (flag_not_found, m);
  new_parse_error = λ m. (parse_error, m);
  new_type_mismatch = λ m. (type_mismatch, m);
  new_targeting_key_missing = λ m. (targeting_key_missing, m);
  new_invalid_context = λ m. (invalid_context, m);
  new_general = λ m. (general, m);
  has_error = λ e. is_coded e.0;
  error_code = λ e. e.0;
  error_text = λ e. e.1;
  code_text = text_of;
  error_reason = "ERROR";
  default_reason = "DEFAULT";
  disabled_reason = "DISABLED";
  cached_reason = "CACHED";
  static_reason = "STATIC";
  targeting_match_reason = "TARGETING_MATCH";
  get_bool = λ m k. bool_of (entry k m);
  get_string = λ m k. string_of (entry k m);
}

is_coded-no_code : (c : ErrorCode) → (is_coded c ≡ false) ↔ (c ≡ no_code)
is_coded-no_code c = (λ h. ground arith, λ h. ground arith)

bool_of-mismatch : (v : Any ℕ ℕ) → ((b : Bool) → v ≢ bool b) → bool_of (some v) ≡ none
bool_of-mismatch (bool b) h = absurd (h b refl)
bool_of-mismatch nil h = refl
bool_of-mismatch (string s) h = refl
bool_of-mismatch (int i) h = refl
bool_of-mismatch (int64 i) h = refl
bool_of-mismatch (float32 f) h = refl
bool_of-mismatch (float64 f) h = refl
bool_of-mismatch (slice l) h = refl
bool_of-mismatch (object m) h = refl
bool_of-mismatch (metadata m) h = refl
bool_of-mismatch nil_metadata h = refl
bool_of-mismatch (other x) h = refl

pub small_laws : SdkLaws small_sdk
small_laws = record {
  no_code_iff = λ e. is_coded-no_code e.0;
  no_error_none = refl;
  provider_not_ready_error = λ m. refl;
  flag_not_found_error = λ m. refl;
  parse_error_error = λ m. refl;
  type_mismatch_error = λ m. refl;
  targeting_key_missing_error = λ m. refl;
  invalid_context_error = λ m. refl;
  general_error = λ m. refl;
  provider_not_ready_code = λ m. refl;
  flag_not_found_code = λ m. refl;
  parse_error_code = λ m. refl;
  type_mismatch_code = λ m. refl;
  targeting_key_missing_code = λ m. refl;
  invalid_context_code = λ m. refl;
  general_code = λ m. refl;
  get_bool_nil = λ k. refl;
  get_bool_found = λ m k b h. rw h refl;
  get_bool_missing = λ m k h. rw h refl;
  get_bool_mismatch = λ m k v h n. rw h (bool_of-mismatch v n);
  get_string_missing = λ m k h. rw h refl;
  get_string_found = λ m k s h. rw h refl;
}

-- an answer without metadata
abbrev pub answer : ErrorCode → Bool → ResolutionDetail Bool Error ℕ ℕ
answer code value = record {
  value = value;
  detail = record {
    resolution_error = (code, "");
    reason = "STATIC";
    variant = "on";
    flag_metadata = some empty;
  };
}

-- A provider that answers every flag with the same code, and with this Boolean.
abbrev pub provider : ErrorCode → Bool → FeatureProvider Error ℕ ℕ
provider code value = record {
  name = "small";
  boolean_evaluation = λ flag default ctx. answer code value;
  string_evaluation =
      λ flag default ctx. record { value = default; detail = (answer code value).detail };
  float_evaluation =
      λ flag default ctx. record { value = default; detail = (answer code value).detail };
  int_evaluation =
      λ flag default ctx. record { value = default; detail = (answer code value).detail };
  object_evaluation =
      λ flag default ctx. record { value = default; detail = (answer code value).detail };
}

abbrev pub named : String → ErrorCode → Bool → NamedProvider Error ℕ ℕ
named name code value = record { name = name; provider = provider code value }

-- BooleanEvaluation of a provider, for one flag
abbrev pub ask : NamedProvider Error ℕ ℕ → ResolutionDetail Bool Error ℕ ℕ
ask p = p.provider.boolean_evaluation "flag" false empty
