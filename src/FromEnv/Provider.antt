-- ===== src/FromEnv/Provider.antt =====
-- providers/from-env/pkg/{env,provider}.go. The environment and the decoder of JSON are parameters:
-- `getenv` is os.Getenv and `unmarshal` json.Unmarshal, with the text of its error.
use go_sdk_contrib.Common.{
  String, ◌==◌, Bool, ◌⊎◌, inl, inr, Option, none, some, concat, if◌then◌else◌,
}
use go_sdk_contrib.OpenFeature.{ℤ, Any, bool, string, int64, float64, Fields, ResolutionDetail, Sdk}
use go_sdk_contrib.FromEnv.Eval.{StoredFlag, evaluate}

pub record Host (F X : Type 0) : Type 0 where
  pub getenv : String → String
  pub unmarshal : String → String ⊎ StoredFlag F X
  pub float_eq : F → F → Bool
  pub reflect_equal : Any F X → Any F X → Bool
  -- int64(v)
  pub truncate : F → ℤ

abbrev pub as_bool : {F X : Type 0} → Any F X → Option Bool
as_bool (bool b) = some b
as_bool _ = none

abbrev pub as_string : {F X : Type 0} → Any F X → Option String
as_string (string s) = some s
as_string _ = none

abbrev pub as_float : {F X : Type 0} → Any F X → Option F
as_float (float64 f) = some f
as_float _ = none

-- `mapper` is the FlagToEnvMapper, if there is one.
module _ {E F X : Type 0} (sdk : Sdk E F X) (host : Host F X)
    (mapper : Option (String → String)) where
  -- the name of the environment variable
  unfoldable pub mapped_key : String → String
  mapped_key key = elim mapper [ none ↦ key | some map_key ↦ map_key key ]

  unfoldable pub fetch_stored_flag : String → E ⊎ StoredFlag F X
  unfolding mapped_key
  fetch_stored_flag key =
      let val = host.getenv (mapped_key key) in
      if val == ""
      then inl (
          sdk.new_flag_not_found
            (concat "key " (concat (mapped_key key) " not found in environment variables")))
      else elim (host.unmarshal val) [ inl err ↦ inl (sdk.new_parse_error err) | inr v ↦ inr v ]

  -- the detail of an error
  unfoldable pub failed : {V : Type 0} → V → E → ResolutionDetail V E F X
  failed default_value e = record {
    value = default_value;
    detail = record {
      resolution_error = e;
      reason = sdk.error_reason;
      variant = "";
      flag_metadata = none;
    };
  }

  unfoldable pub resolve_flag : String → Any F X → Fields F X → ResolutionDetail (Any F X) E F X
  unfolding fetch_stored_flag failed
  resolve_flag flag_key default_value eval_ctx = elim (fetch_stored_flag flag_key) [
    | inl e ↦ failed default_value e
    | inr res ↦ elim (evaluate host.float_eq host.reflect_equal sdk eval_ctx res) [
      | inl e ↦ failed default_value e
      | inr found ↦ record {
        value = found.value;
        detail = record {
          resolution_error = sdk.no_error;
          reason = found.reason;
          variant = found.variant;
          flag_metadata = none;
        };
      }
    ]
  ]

  -- The type assertion that the methods share, on the detail of resolveFlag.
  unfoldable pub typed :
      {V : Type 0}
      → (Any F X → Option V)
      → V
      → ResolutionDetail (Any F X) E F X
      → ResolutionDetail V E F X
  unfolding failed
  typed cast default_value res = elim (cast res.value) [
    | none ↦ failed default_value (sdk.new_type_mismatch "")
    | some v ↦ record { value = v; detail = res.detail }
  ]

  module _ (flag_key : String) (eval_ctx : Fields F X) where
    unfoldable pub boolean_evaluation : Bool → ResolutionDetail Bool E F X
    unfolding typed resolve_flag
    boolean_evaluation default_value =
        typed as_bool default_value (resolve_flag flag_key (bool default_value) eval_ctx)

    unfoldable pub string_evaluation : String → ResolutionDetail String E F X
    unfolding typed resolve_flag
    string_evaluation default_value =
        typed as_string default_value (resolve_flag flag_key (string default_value) eval_ctx)

    unfoldable pub int_evaluation : ℤ → ResolutionDetail ℤ E F X
    unfolding typed resolve_flag
    int_evaluation default_value =
        typed (λ v. elim (as_float v) [ none ↦ none | some f ↦ some (host.truncate f) ])
          default_value (resolve_flag flag_key (int64 default_value) eval_ctx)

    unfoldable pub float_evaluation : F → ResolutionDetail F E F X
    unfolding typed resolve_flag
    float_evaluation default_value =
        typed as_float default_value (resolve_flag flag_key (float64 default_value) eval_ctx)

    unfoldable pub object_evaluation : Any F X → ResolutionDetail (Any F X) E F X
    unfolding resolve_flag
    object_evaluation default_value = resolve_flag flag_key default_value eval_ctx
