-- ===== src/Ofrep/Flags.antt =====
-- providers/ofrep/internal/evaluate/flags.go. `resolver` is what resolveSingle returns for the key
-- and the context of the call; `Format` holds fmt's %v and the conversions of floats.
use go_sdk_contrib.Common.{
  String, ◌⊎◌, inl, inr, ◌==◌, Bool, Option, none, some, concat, if◌then◌else◌,
}
use go_sdk_contrib.OpenFeature.{
  ℤ, Any, bool, string, int, int64, float32, float64, ResolutionDetail, Sdk,
}
use go_sdk_contrib.Ofrep.Resolver.{SuccessDto}

pub record Format (F X : Type 0) : Type 0 where
  -- %v
  pub value_text : Any F X → String
  -- float64(x) of a float32, int64(x) and float64(i)
  pub widen : F → F
  pub truncate : F → ℤ
  pub of_int : ℤ → F
  -- Go's ==
  pub float_eq : F → F → Bool

abbrev pub as_bool : {F X : Type 0} → Any F X → Option Bool
as_bool (bool b) = some b
as_bool _ = none

abbrev pub as_string : {F X : Type 0} → Any F X → Option String
as_string (string s) = some s
as_string _ = none

module _ {F X : Type 0} (format : Format F X) where
  abbrev pub as_float : Any F X → Option F
  as_float (float32 f) = some (format.widen f)
  as_float (float64 f) = some f
  as_float _ = none

  abbrev pub as_int : Any F X → Option ℤ
  as_int (int i) = some i
  as_int (int64 i) = some i
  as_int (float64 f) =
      let value = format.truncate f in
      if format.float_eq (format.of_int value) f then some value else none
  as_int _ = none

module _ {E F X : Type 0} (sdk : Sdk E F X) where
  module _ {V : Type 0} (resolver : E ⊎ SuccessDto F X) (default_value : V) where
    failed : E → ResolutionDetail V E F X
    failed e = record {
      value = default_value;
      detail = record {
        resolution_error = e;
        reason = sdk.error_reason;
        variant = "";
        flag_metadata = none;
      };
    }

    -- The body that the methods share: `convert` is the method's type switch and `mismatch` the
    -- text of its error.
    unfoldable pub resolve : (Any F X → Option V) → (Any F X → String) → ResolutionDetail V E F X
    unfolding failed
    resolve convert mismatch = elim resolver [
      | inl resolution_error ↦ failed resolution_error
      | inr success ↦
          if success.reason == sdk.disabled_reason
          then record {
            value = default_value;
            detail = record {
              resolution_error = sdk.no_error;
              reason = sdk.disabled_reason;
              variant = success.variant;
              flag_metadata = success.metadata;
            };
          }
          else elim (convert success.value) [
            | none ↦ failed (sdk.new_type_mismatch (mismatch success.value))
            | some v ↦ record {
              value = v;
              detail = record {
                resolution_error = sdk.no_error;
                reason = success.reason;
                variant = success.variant;
                flag_metadata = success.metadata;
              };
            }
          ]
    ]

  module _ (format : Format F X) (resolver : E ⊎ SuccessDto F X) where
    unfoldable pub not_of_type : String → Any F X → String
    not_of_type kind v = concat "resolved value " (concat (format.value_text v) kind)

    unfoldable pub resolve_boolean : Bool → ResolutionDetail Bool E F X
    unfolding resolve not_of_type
    resolve_boolean default_value =
        resolve resolver default_value as_bool (not_of_type " is not of boolean type")

    unfoldable pub resolve_string : String → ResolutionDetail String E F X
    unfolding resolve not_of_type
    resolve_string default_value =
        resolve resolver default_value as_string (not_of_type " is not of string type")

    unfoldable pub resolve_float : F → ResolutionDetail F E F X
    unfolding resolve not_of_type
    resolve_float default_value =
        resolve resolver default_value (as_float format) (not_of_type " is not of float type")

    unfoldable pub resolve_int : ℤ → ResolutionDetail ℤ E F X
    unfolding resolve not_of_type
    resolve_int default_value =
        resolve resolver default_value (as_int format) (not_of_type " is not of integer type")

    unfoldable pub resolve_object : Any F X → ResolutionDetail (Any F X) E F X
    unfolding resolve not_of_type
    resolve_object default_value = resolve resolver default_value some (not_of_type "")
