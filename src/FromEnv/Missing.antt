-- ===== src/FromEnv/Missing.antt =====
-- What the methods of providers/from-env/pkg/provider.go return for a flag that is not set.
use go_sdk_contrib.Common.{String, ◌≡◌, refl, eq_iff, concat, Bool, inl, Option, arith}
use go_sdk_contrib.OpenFeature.{
  ℤ, Any, bool, string, int64, float64, Fields, flag_not_found, type_mismatch, Sdk, SdkLaws,
}
use go_sdk_contrib.FromEnv.Provider.{
  Host, mapped_key, fetch_stored_flag, failed, resolve_flag, typed, boolean_evaluation,
  string_evaluation, float_evaluation, int_evaluation,
}

module _ {E F X : Type 0} (sdk : Sdk E F X) (laws : SdkLaws sdk) (host : Host F X)
    (mapper : Option (String → String)) (key : String) (ctx : Fields F X) where
  fetch-missing :
      host.getenv (mapped_key sdk host mapper key) ≡ ""
      → (e : E) × (fetch_stored_flag sdk host mapper key ≡ inl e)
        × (sdk.error_code e ≡ flag_not_found)
  unfolding fetch_stored_flag
  fetch-missing unset =
      let text =
        concat "key "
          (concat (mapped_key sdk host mapper key) " not found in environment variables") in
      (
        sdk.new_flag_not_found text,
        ground (arith, eq_iff (host.getenv (mapped_key sdk host mapper key)) ""),
        laws.flag_not_found_code text,
      )

  resolve_flag-missing :
      (default : Any F X) (e : E)
      → fetch_stored_flag sdk host mapper key ≡ inl e
      → resolve_flag sdk host mapper key default ctx ≡ failed sdk host mapper default e
  unfolding resolve_flag
  resolve_flag-missing default e missing = ground arith

  -- If the environment variable of the flag is not set or empty, the Boolean, string and float methods return
  -- the default value with the code FLAG_NOT_FOUND, but the integer method returns it with the code
  -- TYPE_MISMATCH.
  evaluation-missing :
      (b : Bool) (s : String) (f : F) (i : ℤ)
      → host.getenv (mapped_key sdk host mapper key) ≡ ""
      → let boolean = boolean_evaluation sdk host mapper key ctx b in
        let text = string_evaluation sdk host mapper key ctx s in
        let float = float_evaluation sdk host mapper key ctx f in
        let int = int_evaluation sdk host mapper key ctx i in
        ((boolean.value ≡ b) × (sdk.error_code boolean.detail.resolution_error ≡ flag_not_found))
        × ((text.value ≡ s) × (sdk.error_code text.detail.resolution_error ≡ flag_not_found))
        × ((float.value ≡ f) × (sdk.error_code float.detail.resolution_error ≡ flag_not_found))
        × ((int.value ≡ i) × (sdk.error_code int.detail.resolution_error ≡ type_mismatch))
  unfolding boolean_evaluation string_evaluation float_evaluation int_evaluation typed failed
  evaluation-missing b s f i unset =
      let (e, missing, code) = fetch-missing unset in
      rw
        (
          resolve_flag-missing (bool b) e missing,
          resolve_flag-missing (string s) e missing,
          resolve_flag-missing (float64 f) e missing,
          resolve_flag-missing (int64 i) e missing,
        )
        ((refl, code), (refl, code), (refl, code), (refl, laws.type_mismatch_code ""))
