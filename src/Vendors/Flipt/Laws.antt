-- ===== src/Vendors/Flipt/Laws.antt =====
-- The evaluations of Flipt's provider over its transport: providers/flipt/pkg.
use go_sdk_contrib.Common.{
  String, ◌≡◌, ◌≢◌, refl, ◌⊎◌, inl, inr, Bool, false, Option, none, some, arith, eq_iff, concat,
  if◌then◌else◌,
}
use go_sdk_contrib.OpenFeature.{
  Fields, ErrorCode, flag_not_found, invalid_context, provider_not_ready, general, no_code,
  ResolutionDetail, Sdk, SdkLaws,
}
use go_sdk_contrib.Vendors.Details.{targeting_key}
use go_sdk_contrib.Vendors.Flipt.Transport.{
  panicked, returned, ServiceError, resolution, not_found, invalid_argument, unavailable,
  other_code, CallError, Code, http_client, EvaluationRequest, request_id,
  BooleanEvaluationResponse, Service, Net, make_client, instance_of, convert_map_interface, text_at,
  grpc_to_open_feature_error, call, boolean, variant,
}
use go_sdk_contrib.Vendors.Flipt.Provider.{
  Provider, Transform, answered, as_resolution_error, boolean_evaluation, evaluate_variant_flag,
  transport_service,
}

module _ {E F X : Type 0} (sdk : Sdk E F X) where
  module _ (net : Net F X) where
    -- The service has the client over HTTP, or will make it at its first call.
    abbrev pub IsHttp : Service → Type 0
    IsHttp s =
        (s.client ≡ some http_client)
        ⊎ (s.client ≡ none)
          × (s.once ≡ false)
          × ((net.parse_url s.address ≡ inr "http") ⊎ (net.parse_url s.address ≡ inr "https"))

    -- The service has no client, and its address cannot be parsed.
    abbrev pub IsBroken : Service → Type 0
    IsBroken s = (s.client ≡ none) × ((err : String) × (net.parse_url s.address ≡ inl err))

    -- the targeting key of a context as the request sends it
    abbrev pub entity_of : Fields F X → String
    entity_of m = text_at sdk net targeting_key (convert_map_interface sdk net m)

    abbrev pub request : Provider Service → String → Fields F X → EvaluationRequest
    request p flag m = record {
      environment_key = p.config.environment;
      namespace_key = p.config.namespace;
      flag_key = flag;
      entity_id = entity_of m;
      request_id = text_at sdk net request_id (convert_map_interface sdk net m);
      context = convert_map_interface sdk net m;
    }

    instance_of-IsHttp :
        (s : Service)
        → IsHttp s
        → ((instance_of sdk net s).1 ≡ returned (some http_client, none))
          × ((instance_of sdk net s).0.client ≡ some http_client)
    unfolding instance_of make_client
    instance_of-IsHttp s (inl h) = ground (arith, h)
    instance_of-IsHttp s (inr (h, o, inl u)) = ground (arith, h, o, u)
    instance_of-IsHttp s (inr (h, o, inr u)) = ground (arith, h, o, u)

    instance_of-IsBroken :
        (s : Service)
        → IsBroken s
        → ((instance_of sdk net s).1 ≡ (if s.once then returned (none, none) else panicked))
          × IsBroken (instance_of sdk net s).0
    unfolding instance_of make_client
    instance_of-IsBroken s (h, (err, u)) =
        (ground (arith, h, u), (ground (arith, h, u), (err, ground (arith, h, u))))

    -- the code of the error that the evaluation gives
    abbrev pub code_of : CallError ⊎ BooleanEvaluationResponse → ErrorCode
    code_of (inr resp) = no_code
    code_of (inl err) = elim err.status [
      | some (not_found, message) ↦ flag_not_found
      | some (invalid_argument, message) ↦ invalid_context
      | some (unavailable, message) ↦ provider_not_ready
      | _ ↦ general
    ]

    -- If the service has no client and its address cannot be parsed, a Boolean evaluation, and one of
    -- a variant flag by whatever transform, panics when its context has a targeting key, and the
    -- service still has no client and an address that cannot be parsed.
    pub boolean_evaluation-panics :
        {A : Type 0} (f : Transform A) (a : A) (p : Provider Service) (flag : String)
        (default_value : Bool) (m : Fields F X)
        → IsBroken p.svc
        → entity_of m ≢ ""
        → ((boolean_evaluation sdk (transport_service sdk net) p flag default_value (some m)).1
            ≡ panicked)
          × IsBroken
              (boolean_evaluation sdk
                (transport_service sdk net)
                p
                flag
                default_value
                (some m)).0.svc
          × ((evaluate_variant_flag sdk (transport_service sdk net) p flag a (some m) f).1
              ≡ panicked)
          × IsBroken
              (evaluate_variant_flag sdk (transport_service sdk net) p flag a (some m) f).0.svc
    unfolding boolean_evaluation evaluate_variant_flag boolean variant call
    boolean_evaluation-panics f a p flag default_value m broken keyed =
        let (came, (none_made, (err, u))) = instance_of-IsBroken p.svc broken in
        let same = eq_iff (entity_of m) "" in
        (
          ground (arith, came, keyed, same),
          (ground (arith, none_made, keyed, same), (err, ground (arith, u, keyed, same))),
          ground (arith, came, keyed, same),
          (ground (arith, none_made, keyed, same), (err, ground (arith, u, keyed, same))),
        )

    grpc_to_open_feature_error-code :
        SdkLaws sdk
        → (err : CallError) (status : Option (Code × String)) → err.status ≡ status
        → sdk.error_code (grpc_to_open_feature_error sdk net err) ≡ code_of (inl err)
    unfolding grpc_to_open_feature_error
    grpc_to_open_feature_error-code laws err none h =
        rw h (laws.general_code (concat "internal error: " err.text))
    grpc_to_open_feature_error-code laws err (some (not_found, m)) h =
        rw h (laws.flag_not_found_code m)
    grpc_to_open_feature_error-code laws err (some (invalid_argument, m)) h =
        rw h (laws.invalid_context_code m)
    grpc_to_open_feature_error-code laws err (some (unavailable, m)) h =
        rw h (laws.provider_not_ready_code m)
    grpc_to_open_feature_error-code laws err (some (other_code, m)) h = rw h (laws.general_code m)

    -- what Boolean makes of the answer of the client
    abbrev pub translated : {A : Type 0} → CallError ⊎ A → ServiceError E ⊎ A
    translated (inl err) = inl (resolution (grpc_to_open_feature_error sdk net err))
    translated (inr resp) = inr resp

    answered-code :
        SdkLaws sdk
        → (default_value : Bool) (answer : CallError ⊎ BooleanEvaluationResponse)
        → (sdk.error_code (answered sdk default_value (translated answer)).detail.resolution_error
            ≡ code_of answer)
          × ((answered sdk default_value (translated answer)).value
              ≡ elim answer [ inl err ↦ default_value | inr resp ↦ resp.enabled ])
    unfolding answered as_resolution_error
    answered-code laws default_value (inl err) =
        (grpc_to_open_feature_error-code laws err err.status refl, refl)
    answered-code laws default_value (inr resp) =
        ((laws.no_code_iff sdk.no_error).0 laws.no_error_none, refl)

    call-IsHttp :
        (s : Service) (p : Provider Service) (flag : String) (m : Fields F X)
        (answer : CallError ⊎ BooleanEvaluationResponse)
        → IsHttp p.svc
        → entity_of m ≢ ""
        → net.client_boolean http_client (request p flag m) ≡ returned answer
        → ((boolean sdk net p.svc p.config.environment p.config.namespace flag (some m)).1
            ≡ returned (translated answer))
          × ((boolean sdk net p.svc p.config.environment p.config.namespace flag (some m)).0.client
              ≡ some http_client)
    unfolding boolean call
    call-IsHttp s p flag m answer h keyed asked =
        let (made, kept) = instance_of-IsHttp p.svc h in
        elim answer [
          | inl err ↦ ground (arith, made, kept, keyed, asked, eq_iff (entity_of m) "")
          | inr resp ↦ ground (arith, made, kept, keyed, asked, eq_iff (entity_of m) "")
        ]

    -- If the service has a client over HTTP or its address is one of HTTP and no client has been made,
    -- and the context has a targeting key, then a Boolean evaluation gives what the client answers
    -- to the request with the provider's environment and namespace: the flag's state, or the default
    -- value with the error code of the gRPC status, and the service then has its client over HTTP.
    pub boolean_evaluation-answer :
        SdkLaws sdk
        → (p : Provider Service) (flag : String) (default_value : Bool) (m : Fields F X)
          (answer : CallError ⊎ BooleanEvaluationResponse)
        → IsHttp p.svc
        → entity_of m ≢ ""
        → net.client_boolean http_client (request p flag m) ≡ returned answer
        → (r : ResolutionDetail Bool E F X) × ((boolean_evaluation sdk
              (transport_service sdk net)
              p
              flag
              default_value
              (some m)).1
            ≡ returned r)
          × (sdk.error_code r.detail.resolution_error ≡ code_of answer)
          × (r.value ≡ elim answer [ inl err ↦ default_value | inr resp ↦ resp.enabled ])
          × ((boolean_evaluation sdk
                (transport_service sdk net)
                p
                flag
                default_value
                (some m)).0.svc.client
              ≡ some http_client)
    unfolding boolean_evaluation
    boolean_evaluation-answer laws p flag default_value m answer h keyed asked =
        let (came, kept) = call-IsHttp p.svc p flag m answer h keyed asked in
        (
          answered sdk default_value (translated answer),
          ground (arith, came),
          (answered-code laws default_value answer).0,
          (answered-code laws default_value answer).1,
          ground (arith, came, kept),
        )
