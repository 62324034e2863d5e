-- ===== src/Ofrep/Resolver.antt =====
-- providers/ofrep/internal/evaluate/resolver.go. The HTTP client, encoding/json, strconv and the
-- parser of HTTP dates are the fields of `Host`; bodies are of a type `B`.
use go_sdk_contrib.Common.{
  ℕ, ◌-◌, ◌*◌, ◌%◌, ◌^◌, String, ◌⊎◌, inl, inr, ◌==◌, Option, none, some, eqb, concat,
  if◌then◌else◌, ◌||◌,
}
use go_sdk_contrib.OpenFeature.{
  ℤ, pos, negsuc, Any, nil, object, Fields, FlagMetadata, parse_error, targeting_key_missing,
  invalid_context, general, Sdk,
}

-- outbound.Resolution; the headers are read by Get alone
pub record Resolution (B : Type 0) : Type 0 where
  pub status : ℕ
  pub data_bytes : B
  pub header : String → String

pub record EvaluationSuccess (F X : Type 0) : Type 0 where
  pub value : Any F X
  pub reason : String
  pub variant : String
  pub metadata : Any F X

pub record EvaluationError : Type 0 where
  pub error_code : String
  pub error_details : String

pub record SuccessDto (F X : Type 0) : Type 0 where
  pub value : Any F X
  pub reason : String
  pub variant : String
  pub metadata : FlagMetadata F X

-- What is outside the repository; `inl` is an error, by its text, and durations are 64-bit words in
-- two's complement.
pub record Host (B F X : Type 0) : Type 0 where
  pub marshal_request : Fields F X → String ⊎ B
  pub single : String → B → String ⊎ Resolution B
  pub unmarshal_success : B → String ⊎ EvaluationSuccess F X
  pub unmarshal_error : B → String ⊎ EvaluationError
  -- the errorDetails of an errorResponse
  pub unmarshal_response : B → String ⊎ String
  pub atoi : String → Option ℤ
  -- time.Until of a date that http.ParseTime accepts
  pub until : String → Option ℕ
  -- %f of Seconds()
  pub seconds_text : ℕ → String

-- an int64 in two's complement
abbrev pub word : ℤ → ℕ
word (pos n) = n % 2 ^ 64
word (negsuc n) = 2 ^ 64 - 1 - n % 2 ^ 64

-- time.Second in nanoseconds
abbrev pub second : ℕ
second = 1000000000

unfoldable pub parse429 : {B F X : Type 0} → Host B F X → Resolution B → ℕ
parse429 host rsp =
    let retry_header = rsp.header "Retry-After" in
    if retry_header == "" then 0 else elim (host.atoi retry_header) [
      | some i ↦ (word i * second) % 2 ^ 64
      | none ↦ elim (host.until retry_header) [ none ↦ 0 | some d ↦ d ]
    ]

-- toSuccessDto: the metadata must be absent or an object
unfoldable pub to_success_dto :
    {E F X : Type 0} → Sdk E F X → EvaluationSuccess F X → E ⊎ SuccessDto F X
to_success_dto {F = F} {X = X} sdk e = elim e.metadata [
  | nil ↦ inr (dto none)
  | object m ↦ inr (dto (some m))
  | _ ↦ inl (sdk.new_parse_error "metadata must be a map of string keys and arbitrary values")
]
  where
    dto : FlagMetadata F X → SuccessDto F X
    dto m = record { value = e.value; reason = e.reason; variant = e.variant; metadata = m }

module _ {B E F X : Type 0} (sdk : Sdk E F X) (host : Host B F X) where
  unfoldable pub parse_error400 : B → E
  parse_error400 data_bytes = elim (host.unmarshal_error data_bytes) [
    | inl err ↦ sdk.new_general (concat "error parsing error payload: " err)
    | inr eval_error ↦
        if eval_error.error_code == sdk.code_text parse_error
        then sdk.new_parse_error eval_error.error_details
        else if eval_error.error_code == sdk.code_text targeting_key_missing
        then sdk.new_targeting_key_missing eval_error.error_details
        else if eval_error.error_code == sdk.code_text invalid_context
        then sdk.new_invalid_context eval_error.error_details
        else if eval_error.error_code == sdk.code_text general
        then sdk.new_general eval_error.error_details
        else sdk.new_general eval_error.error_details
  ]

  unfoldable pub parse_error500 : B → E
  parse_error500 data_bytes = elim (host.unmarshal_response data_bytes) [
    | inl err ↦ sdk.new_general (concat "error parsing error payload: " err)
    | inr error_details ↦ sdk.new_general error_details
  ]

  unfoldable pub rate_limited : ℕ → E
  rate_limited after =
      if eqb after 0
      then sdk.new_general "rate limit exceeded"
      else sdk.new_general (
          concat "rate limit exceeded, try again after "
            (concat (host.seconds_text after) " seconds"))

  -- the cases of the switch on the status other than 200
  unfoldable pub failure : String → Resolution B → E
  unfolding parse429 rate_limited parse_error400 parse_error500
  failure key rsp =
      if eqb rsp.status 400
      then parse_error400 rsp.data_bytes
      else if eqb rsp.status 401 || eqb rsp.status 403
      then sdk.new_general "authentication/authorization error"
      else if eqb rsp.status 404
      then sdk.new_flag_not_found (concat "flag for key '" (concat key "' does not exist"))
      else if eqb rsp.status 429
      then rate_limited (parse429 host rsp)
      else if eqb rsp.status 500
      then parse_error500 rsp.data_bytes
      else sdk.new_general "invalid response"

  -- the switch on the status
  unfoldable pub handle : String → Resolution B → E ⊎ SuccessDto F X
  unfolding failure to_success_dto
  handle key rsp =
      if eqb rsp.status 200
      then elim (host.unmarshal_success rsp.data_bytes) [
        | inl err ↦ inl (sdk.new_parse_error (concat "error parsing the response: " err))
        | inr success ↦ to_success_dto sdk success
      ]
      else inl (failure key rsp)

  unfoldable pub resolve_single : String → Fields F X → E ⊎ SuccessDto F X
  unfolding handle
  resolve_single key eval_ctx = elim (host.marshal_request eval_ctx) [
    | inl err ↦ inl (sdk.new_general (concat "context marshelling error: " err))
    | inr b ↦ elim (host.single key b) [
      | inl err ↦ inl (sdk.new_general (concat "ofrep request error: " err))
      | inr rsp ↦ handle key rsp
    ]
  ]
