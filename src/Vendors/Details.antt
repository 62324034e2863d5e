-- ===== src/Vendors/Details.antt =====
-- What the providers over vendor SDKs share: the resolution details that they build, and the type
-- assertions on an `any`.
use go_sdk_contrib.Common.{String, ◌≡◌, Bool, Option, none, some}
use go_sdk_contrib.OpenFeature.{
  ℤ, Any, bool, string, int, int64, float64, object, Fields, empty, field, get,
  ProviderResolutionDetail, ResolutionDetail, Sdk,
}

-- of.TargetingKey
abbrev pub targeting_key : String
targeting_key = "targetingKey"

-- The type assertions v.(bool), v.(string), v.(int), v.(int64), v.(float64)
module _ {F X : Type 0} where
  abbrev pub as_bool : Any F X → Option Bool
  as_bool (bool b) = some b
  as_bool _ = none

  abbrev pub as_string : Any F X → Option String
  as_string (string s) = some s
  as_string _ = none

  abbrev pub as_int : Any F X → Option ℤ
  as_int (int i) = some i
  as_int _ = none

  abbrev pub as_int64 : Any F X → Option ℤ
  as_int64 (int64 i) = some i
  as_int64 _ = none

  abbrev pub as_float64 : Any F X → Option F
  as_float64 (float64 f) = some f
  as_float64 _ = none

  -- v.(map[string]any)
  abbrev pub as_object : Any F X → Option (Fields F X)
  as_object (object m) = some m
  as_object _ = none

  -- The keys of a Go map are distinct.
  abbrev pub IsMap : Fields F X → Type 0
  IsMap empty = Unit {0}
  IsMap (field k v m) = (get k m ≡ none) × IsMap m

-- details without a variant and metadata
module _ {E F X : Type 0} (sdk : Sdk E F X) where
  abbrev pub with_reason : String → ProviderResolutionDetail E F X
  with_reason reason = record {
    resolution_error = sdk.no_error;
    reason = reason;
    variant = "";
    flag_metadata = none;
  }

  abbrev pub with_error : E → ProviderResolutionDetail E F X
  with_error e = record {
    resolution_error = e;
    reason = sdk.error_reason;
    variant = "";
    flag_metadata = none;
  }

  abbrev pub failed : {V : Type 0} → V → E → ResolutionDetail V E F X
  failed default_value e = record { value = default_value; detail = with_error e }
