-- ===== src/Ofrep/StatusCodes.antt =====
-- The error codes that resolver.go answers with.
use go_sdk_contrib.Common.{
  String, ◌≡◌, ◌≢◌, ◌⊎◌, inl, inr, ◌==◌, eqb, if◌then◌else◌, arith, Sum-cases, Bool-cases,
}
use go_sdk_contrib.OpenFeature.{
  ErrorCode, parse_error, targeting_key_missing, invalid_context, flag_not_found, general, Fields,
  Sdk, SdkLaws,
}
use go_sdk_contrib.Ofrep.Resolver.{
  Resolution, EvaluationSuccess, EvaluationError, SuccessDto, Host, parse_error400, parse_error500,
  handle, failure, rate_limited, resolve_single, to_success_dto,
}

module _ {B E F X : Type 0} (sdk : Sdk E F X) (laws : SdkLaws sdk) (host : Host B F X) where
  -- the code that an error body names
  abbrev named : String ⊎ EvaluationError → ErrorCode
  named (inl err) = general
  named (inr e) =
      if e.error_code == sdk.code_text parse_error
      then parse_error
      else if e.error_code == sdk.code_text targeting_key_missing
      then targeting_key_missing
      else if e.error_code == sdk.code_text invalid_context
      then invalid_context
      else general

  -- the code of a response that is not 200
  abbrev pub status_code : Resolution B → ErrorCode
  status_code rsp =
      if eqb rsp.status 404
      then flag_not_found
      else if eqb rsp.status 400
      then named (host.unmarshal_error rsp.data_bytes)
      else general

  parse_error400-code :
      (b : B) → sdk.error_code (parse_error400 sdk host b) ≡ named (host.unmarshal_error b)
  unfolding parse_error400
  parse_error400-code b = grind (
    arith, laws.general_code, laws.parse_error_code, laws.targeting_key_missing_code,
    laws.invalid_context_code,
  )

  parse_error500-code : (b : B) → sdk.error_code (parse_error500 sdk host b) ≡ general
  unfolding parse_error500
  parse_error500-code b = grind (arith, laws.general_code)

  failure-code :
      (key : String) (rsp : Resolution B)
      → rsp.status ≢ 200
      → sdk.error_code (failure sdk host key rsp) ≡ status_code rsp
  unfolding failure rate_limited
  failure-code key rsp h = grind (
    arith,
    laws.general_code,
    laws.flag_not_found_code,
    parse_error400-code rsp.data_bytes,
    parse_error500-code rsp.data_bytes,
  )

  -- A response with a status other than 200 is an error: FLAG_NOT_FOUND for 404, the code that the
  -- body names for 400, and GENERAL otherwise.
  pub handle-not_ok :
      (key : String) (rsp : Resolution B)
      → rsp.status ≢ 200
      → (e : E) × (handle sdk host key rsp ≡ inl e) × (sdk.error_code e ≡ status_code rsp)
  unfolding handle
  handle-not_ok key rsp h = (failure sdk host key rsp, ground arith, failure-code key rsp h)

  -- A flag is resolved only from a response of status 200 whose body can be read and whose metadata,
  -- if any, are an object; its value, reason and variant are the body's.
  resolve_single-inr :
      (key : String) (ctx : Fields F X) (dto : SuccessDto F X)
      → resolve_single sdk host key ctx ≡ inr dto
      → (b : B) × (rsp : Resolution B) × (s : EvaluationSuccess F X) × (host.marshal_request ctx
          ≡ inr b)
        × (host.single key b ≡ inr rsp)
        × (rsp.status ≡ 200)
        × (host.unmarshal_success rsp.data_bytes ≡ inr s)
        × (to_success_dto sdk s ≡ inr dto)
  unfolding resolve_single handle
  resolve_single-inr key ctx dto h = elim (Sum-cases (host.marshal_request ctx)) [
    | inl (err, mb) ↦ absurd (ground arith)
    | inr (b, mb) ↦ elim (Sum-cases (host.single key b)) [
      | inl (err, mr) ↦ absurd (ground arith)
      | inr (rsp, mr) ↦
          let handled : handle sdk host key rsp ≡ inr dto = ground arith in
          elim (Bool-cases (eqb rsp.status 200)) [
            | inr not_ok ↦ absurd (ground arith)
            | inl ok ↦ elim (Sum-cases (host.unmarshal_success rsp.data_bytes)) [
              | inl (err, ms) ↦ absurd (ground arith)
              | inr (s, ms) ↦ (b, rsp, s, mb, mr, ground arith, ms, ground arith)
            ]
          ]
    ]
  ]
