-- ===== src/Vendors/Flipt/Provider.antt =====
-- providers/flipt/pkg/provider/provider.go. The state of the service is `S`; strconv and protojson
-- are the fields of `Decoder`.
use go_sdk_contrib.Common.{
  String, ◌==◌, ◌⊎◌, inl, inr, Bool, true, false, ◌||◌, Option, none, some, List, [], ◌∷◌, concat,
  if◌then◌else◌,
}
use go_sdk_contrib.OpenFeature.{ℤ, Any, object, Fields, ResolutionDetail, Sdk}
use go_sdk_contrib.Vendors.Details.{with_reason}
use go_sdk_contrib.Vendors.Flipt.Transport.{
  Outcome, panicked, returned, ServiceError, resolution, plain, BooleanEvaluationResponse,
  VariantEvaluationResponse, flag_disabled_reason, default_reason, EvaluationReason, TokenProvider,
  Service, ServiceOption, with_address, with_certificate_path, with_client_token_provider,
  with_client_authentication_provider, new, Net, boolean, variant,
}

-- The HTTP client and the dial options are left out.
pub record Config : Type 0 where
  pub address : String
  pub certificate_path : String
  pub token_provider : Option TokenProvider
  pub client_auth_provider : Option TokenProvider
  pub environment : String
  pub namespace : String

-- Service, the interface
pub record FliptService (S E F X : Type 0) : Type 0 where
  pub svc_variant :
      S
      → String
      → String
      → String
      → Option (Fields F X)
      → S × Outcome (ServiceError E ⊎ VariantEvaluationResponse)
  pub svc_boolean :
      S
      → String
      → String
      → String
      → Option (Fields F X)
      → S × Outcome (ServiceError E ⊎ BooleanEvaluationResponse)

-- The service is that of WithService, or one over Transport.
pub record Provider (S : Type 0) : Type 0 where
  pub svc : S
  pub config : Config

-- Option, but for WithService
abbrev pub ConfigOption : Type 0
ConfigOption = Config → Config

unfoldable pub with_config : Config → ConfigOption
with_config config c = config

unfoldable pub with_provider_address : String → ConfigOption
with_provider_address address c = record c { address = address }

unfoldable pub with_provider_certificate_path : String → ConfigOption
with_provider_certificate_path path c = record c { certificate_path = path }

unfoldable pub with_token_provider : TokenProvider → ConfigOption
with_token_provider token_provider c = record c { token_provider = some token_provider }

unfoldable pub with_authentication_provider : TokenProvider → ConfigOption
with_authentication_provider provider c = record c { client_auth_provider = some provider }

unfoldable pub for_namespace : String → ConfigOption
for_namespace namespace c = record c { namespace = namespace }

unfoldable pub for_environment : String → ConfigOption
for_environment environment c = record c { environment = environment }

unfoldable pub configured : List ConfigOption → Config → Config
configured [] c = c
configured (opt ∷ opts) c = configured opts (opt c)

abbrev pub default_config : Config
default_config = record {
  address = "http://localhost:8080";
  certificate_path = "";
  token_provider = none;
  client_auth_provider = none;
  environment = "default";
  namespace = "default";
}

-- the options that NewProvider gives to the service
unfoldable pub service_options : Config → List ServiceOption
service_options c =
    with_address c.address ∷ with_certificate_path c.certificate_path ∷ elim c.token_provider [
      | none ↦ elim c.client_auth_provider [
        | none ↦ []
        | some p ↦ with_client_authentication_provider p ∷ []
      ]
      | some t ↦ with_client_token_provider t ∷ elim c.client_auth_provider [
        | none ↦ []
        | some p ↦ with_client_authentication_provider p ∷ []
      ]
    ]

-- NewProvider without WithService
unfoldable pub new_provider : List ConfigOption → Provider Service
unfolding configured service_options new
new_provider opts =
    let config = configured opts default_config in
    record { svc = new (service_options config); config = config }

pub record Decoder (F X : Type 0) : Type 0 where
  -- strconv.ParseFloat(s, 64) and strconv.ParseInt(s, 10, 64), `none` their errors
  pub parse_float : String → Option F
  pub parse_int : String → Option ℤ
  -- protojson.Unmarshal into a Struct, and its AsMap
  pub unmarshal : String → Option (Fields F X)
  -- fmt's %q
  pub quote : String → String

-- the value and the error, if there is one
abbrev pub Transform : Type 0 → Type 0
Transform A = VariantEvaluationResponse → A → A × Option String

unfoldable pub transform_to_string : Transform String
transform_to_string resp default_value = (resp.variant_key, none)

module _ {F X : Type 0} (decoder : Decoder F X) where
  unfoldable pub transform_to_float64 : Transform F
  transform_to_float64 resp default_value = elim (decoder.parse_float resp.variant_key) [
    | none ↦ (default_value, some "value is not a float")
    | some fv ↦ (fv, none)
  ]

  unfoldable pub transform_to_int64 : Transform ℤ
  transform_to_int64 resp default_value = elim (decoder.parse_int resp.variant_key) [
    | none ↦ (default_value, some "value is not an integer")
    | some iv ↦ (iv, none)
  ]

  unfoldable pub transform_to_object : Transform (Any F X)
  transform_to_object resp default_value =
      if resp.variant_attachment == ""
      then (default_value, none)
      else elim (decoder.unmarshal resp.variant_attachment) [
        | none ↦ (
          default_value,
          some (concat "value is not an object: " (decoder.quote resp.variant_attachment)),
        )
        | some out ↦ (object out, none)
      ]

abbrev pub is_disabled : EvaluationReason → Bool
is_disabled flag_disabled_reason = true
is_disabled _ = false

abbrev pub is_default : EvaluationReason → Bool
is_default default_reason = true
is_default _ = false

module _ {E F X : Type 0} (sdk : Sdk E F X) where
  -- errors.As(err, &rerr)
  unfoldable pub as_resolution_error : ServiceError E → E
  as_resolution_error (resolution rerr) = rerr
  as_resolution_error (plain text) = sdk.new_general text

  -- evaluateVariantFlag, once the service has answered
  unfoldable pub evaluated :
      {A : Type 0}
      → Transform A
      → A
      → ServiceError E ⊎ VariantEvaluationResponse
      → ResolutionDetail A E F X
  unfolding as_resolution_error
  evaluated transform default_value answer = elim answer [
    | inl err ↦ record {
      value = default_value;
      detail = record (with_reason sdk sdk.default_reason) {
        resolution_error = as_resolution_error err;
      };
    }
    | inr resp ↦
        if is_disabled resp.reason
        then record { value = default_value; detail = with_reason sdk sdk.disabled_reason }
        else (let (value, err) =
              if resp.matched || is_default resp.reason
              then transform resp default_value
              else (default_value, none) in
            elim err [
              | some text ↦ record {
                value = value;
                detail = record (with_reason sdk sdk.error_reason) {
                  resolution_error = sdk.new_type_mismatch text;
                };
              }
              | none ↦ record {
                value = value;
                detail =
                    with_reason sdk
                      (if resp.matched then sdk.targeting_match_reason else sdk.default_reason);
              }
            ])
  ]

  -- BooleanEvaluation, once the service has answered
  unfoldable pub answered :
      Bool → ServiceError E ⊎ BooleanEvaluationResponse → ResolutionDetail Bool E F X
  unfolding as_resolution_error
  answered default_value answer = elim answer [
    | inl err ↦ record {
      value = default_value;
      detail = record (with_reason sdk sdk.default_reason) {
        resolution_error = as_resolution_error err;
      };
    }
    | inr resp ↦ record {
      value = resp.enabled;
      detail = with_reason sdk sdk.targeting_match_reason;
    }
  ]

  module _ {S : Type 0} (service : FliptService S E F X) where
    unfoldable pub evaluate_variant_flag :
        {A : Type 0}
        → Provider S
        → String
        → A
        → Option (Fields F X)
        → Transform A
        → Provider S × Outcome (ResolutionDetail A E F X)
    unfolding evaluated
    evaluate_variant_flag p flag default_value eval_ctx transform =
        let (svc, outcome) =
          service.svc_variant p.svc p.config.environment p.config.namespace flag eval_ctx in
        elim outcome [
          | panicked ↦ (record p { svc = svc }, panicked)
          | returned answer ↦
              (record p { svc = svc }, returned (evaluated transform default_value answer))
        ]

    unfoldable pub boolean_evaluation :
        Provider S
        → String
        → Bool
        → Option (Fields F X)
        → Provider S × Outcome (ResolutionDetail Bool E F X)
    unfolding answered
    boolean_evaluation p flag default_value eval_ctx =
        let (svc, outcome) =
          service.svc_boolean p.svc p.config.environment p.config.namespace flag eval_ctx in
        elim outcome [
          | panicked ↦ (record p { svc = svc }, panicked)
          | returned answer ↦ (record p { svc = svc }, returned (answered default_value answer))
        ]

    unfoldable pub string_evaluation :
        Provider S
        → String
        → String
        → Option (Fields F X)
        → Provider S × Outcome (ResolutionDetail String E F X)
    unfolding evaluate_variant_flag transform_to_string
    string_evaluation p flag default_value eval_ctx =
        evaluate_variant_flag p flag default_value eval_ctx transform_to_string

    module _ (decoder : Decoder F X) where
      unfoldable pub float_evaluation :
          Provider S
          → String
          → F
          → Option (Fields F X)
          → Provider S × Outcome (ResolutionDetail F E F X)
      unfolding evaluate_variant_flag transform_to_float64
      float_evaluation p flag default_value eval_ctx =
          evaluate_variant_flag p flag default_value eval_ctx (transform_to_float64 decoder)

      unfoldable pub int_evaluation :
          Provider S
          → String
          → ℤ
          → Option (Fields F X)
          → Provider S × Outcome (ResolutionDetail ℤ E F X)
      unfolding evaluate_variant_flag transform_to_int64
      int_evaluation p flag default_value eval_ctx =
          evaluate_variant_flag p flag default_value eval_ctx (transform_to_int64 decoder)

      unfoldable pub object_evaluation :
          Provider S
          → String
          → Any F X
          → Option (Fields F X)
          → Provider S × Outcome (ResolutionDetail (Any F X) E F X)
      unfolding evaluate_variant_flag transform_to_object
      object_evaluation p flag default_value eval_ctx =
          evaluate_variant_flag p flag default_value eval_ctx (transform_to_object decoder)

  -- the service over Transport
  abbrev pub transport_service : Net F X → FliptService Service E F X
  transport_service net = record { svc_variant = variant sdk net; svc_boolean = boolean sdk net }
