-- ===== src/Ofrep/Values.antt =====
-- The values that the five methods of flags.go return.
use go_sdk_contrib.Common.{
  String, ◌≡◌, ◌≢◌, ◌↔◌, ◌⊎◌, inr, eq_iff, concat, ap, true, false, Option, arith,
}
use go_sdk_contrib.OpenFeature.{Any, Fields, ℤ, float64, Sdk, SdkLaws}
use go_sdk_contrib.Ofrep.Resolver.{Resolution, SuccessDto, Host, resolve_single}
use go_sdk_contrib.Ofrep.Flags.{Format, not_of_type, resolve, resolve_int, as_int}
use go_sdk_contrib.Ofrep.StatusCodes.{status_code, handle-not_ok}

module _ {E F X : Type 0} (sdk : Sdk E F X) (laws : SdkLaws sdk) where
  -- A method that reports an error returns the default value with the error reason.
  resolve-has_error :
      {V : Type 0} (resolver : E ⊎ SuccessDto F X) (default : V) (convert : Any F X → Option V)
      (mismatch : Any F X → String)
      → let r = resolve sdk resolver default convert mismatch in
        sdk.has_error r.detail.resolution_error ≡ true
        → (r.value ≡ default) × (r.detail.reason ≡ sdk.error_reason)
  unfolding resolve
  resolve-has_error resolver default convert mismatch h =
      (ground (arith, laws.no_error_none), ground (arith, laws.no_error_none))

  -- If the request can be written and the server responds with a status other than 200, each
  -- method returns the default value with the error reason and the code of the status.
  pub resolve-not_ok :
      {B V : Type 0} (host : Host B F X) (key : String) (ctx : Fields F X) (b : B)
      (rsp : Resolution B) (default : V) (convert : Any F X → Option V)
      (mismatch : Any F X → String)
      → host.marshal_request ctx ≡ inr b
      → host.single key b ≡ inr rsp
      → rsp.status ≢ 200
      → let r = resolve sdk (resolve_single sdk host key ctx) default convert mismatch in
        (r.value ≡ default)
        × (r.detail.reason ≡ sdk.error_reason)
        × (sdk.error_code r.detail.resolution_error ≡ status_code sdk laws host rsp)
  unfolding resolve resolve_single
  resolve-not_ok host key ctx b rsp default convert mismatch mb mr bad =
      let (e, handled, code) = handle-not_ok sdk laws host key rsp bad in
      (ground (arith, handled), ground (arith, handled), ground (arith, handled, code))

  -- A float64 of a flag that is not disabled is resolved as an integer without an error exactly
  -- when the integer that it truncates to converts back to it.
  resolve_int-float :
      (format : Format F X) (s : SuccessDto F X) (f : F) (default : ℤ)
      → s.value ≡ float64 f
      → s.reason ≢ sdk.disabled_reason
      → let r = resolve_int sdk format (inr s) default in
        (sdk.has_error r.detail.resolution_error ≡ false)
        ↔ (format.float_eq (format.of_int (format.truncate f)) f ≡ true)
  unfolding resolve_int resolve not_of_type
  resolve_int-float format s f default fv enabled =
      let converted = ap (as_int format) fv in
      let no_mismatch =
        laws.type_mismatch_error (
          concat "resolved value "
            (concat (format.value_text s.value) " is not of integer type")) in
      ground
        (arith, eq_iff s.reason sdk.disabled_reason, laws.no_error_none, converted, no_mismatch)
