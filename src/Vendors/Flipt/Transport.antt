-- ===== src/Vendors/Flipt/Transport.antt =====
-- providers/flipt/pkg/service/transport/service.go. The clients of Flipt, gRPC and net/url are the
-- fields of `Net`; the HTTP client, the interceptors and the dial options, which are passed on to
-- them, are left out.
use go_sdk_contrib.Common.{
  String, ◌==◌, ◌⊎◌, inl, inr, Bool, true, false, ◌||◌, Option, none, some, List, [], ◌∷◌, Assoc,
  lookup, insert, concat, cut_prefix, if◌then◌else◌,
}
use go_sdk_contrib.OpenFeature.{Any, Fields, empty, field, Sdk}
use go_sdk_contrib.Vendors.Details.{targeting_key}

abbrev pub request_id : String
request_id = "requestID"

abbrev pub default_addr : String
default_addr = "http://localhost:8080"

-- What a call comes to: a panic, or what it returns.
pub data Outcome (A : Type 0) : Type 0 where
  panicked : Outcome A
  returned : A → Outcome A

-- an error that is an of.ResolutionError, and any other with its text
pub data ServiceError (E : Type 0) : Type 0 where
  resolution : E → ServiceError E
  plain : String → ServiceError E

-- codes.Code, as far as it is told apart
pub data Code : Type 0 where
  not_found invalid_argument unavailable other_code : Code

-- an error of the client: the code and the message of its status, if it has one
pub record CallError : Type 0 where
  pub status : Option (Code × String)
  pub text : String

-- The client over HTTP, and the one over a gRPC connection, which is nil if it could not be made.
pub data Client : Type 0 where
  http_client : Client
  grpc_client : Bool → Client

pub record EvaluationRequest : Type 0 where
  pub environment_key : String
  pub namespace_key : String
  pub flag_key : String
  pub entity_id : String
  pub request_id : String
  pub context : Assoc String

pub record BooleanEvaluationResponse : Type 0 where
  pub enabled : Bool

pub data EvaluationReason : Type 0 where
  unknown_reason flag_disabled_reason match_reason default_reason : EvaluationReason

pub record VariantEvaluationResponse : Type 0 where
  pub matched : Bool
  pub reason : EvaluationReason
  pub variant_key : String
  pub variant_attachment : String

-- sdk.ClientTokenProvider and sdk.ClientAuthenticationProvider: what a call returns, an error or the
-- text
abbrev pub TokenProvider : Type 0
TokenProvider = String ⊎ String

-- `once` is whether once.Do has run.
pub record Service : Type 0 where
  pub client : Option Client
  pub address : String
  pub certificate_path : String
  pub once : Bool
  pub client_auth_provider : Option TokenProvider

-- transport.Option
abbrev pub ServiceOption : Type 0
ServiceOption = Service → Service

unfoldable pub with_address : String → ServiceOption
with_address address s = record s { address = address }

unfoldable pub with_certificate_path : String → ServiceOption
with_certificate_path path s = record s { certificate_path = path }

unfoldable pub with_client_token_provider : TokenProvider → ServiceOption
with_client_token_provider token_provider s = record s {
  client_auth_provider = some (elim token_provider [
    | inl err ↦ inl err
    | inr client_token ↦ inr (concat "Bearer " client_token)
  ]);
}

unfoldable pub with_client_authentication_provider : TokenProvider → ServiceOption
with_client_authentication_provider provider s = record s { client_auth_provider = some provider }

unfoldable pub apply : List ServiceOption → Service → Service
apply [] s = s
apply (opt ∷ opts) s = apply opts (opt s)

unfoldable pub new : List ServiceOption → Service
unfolding apply
new opts = apply opts (record {
  client = none;
  address = default_addr;
  certificate_path = "";
  once = false;
  client_auth_provider = none;
})

pub record Net (F X : Type 0) : Type 0 where
  -- url.Parse: an error, or the scheme
  pub parse_url : String → String ⊎ String
  -- whether the certificates of a file can be loaded: os.ReadFile and AppendCertsFromPEM
  pub read_file : String → String ⊎ String
  pub append_certs_from_pem : String → Bool
  -- grpc.NewClient with or without TLS: its error, if there is one
  pub new_grpc_client : Bool → String → Option String
  -- the client's Boolean and Variant
  pub client_boolean : Client → EvaluationRequest → Outcome (CallError ⊎ BooleanEvaluationResponse)
  pub client_variant : Client → EvaluationRequest → Outcome (CallError ⊎ VariantEvaluationResponse)
  -- fmt's %v
  pub value_text : Any F X → String

module _ {E F X : Type 0} (sdk : Sdk E F X) (net : Net F X) where
  -- its error, if there is one
  unfoldable pub load_tls_credentials : String → Option String
  load_tls_credentials server_cert_path = elim (net.read_file server_cert_path) [
    | inl err ↦ some (concat "failed to load certificate: " err)
    | inr pem ↦
        if net.append_certs_from_pem pem then none else some "failed to add server CA's certificate"
  ]

  -- whether the connection uses TLS: without the certificates it is insecure
  unfoldable pub is_secure : String → Bool
  unfolding load_tls_credentials
  is_secure certificate_path =
      if certificate_path == ""
      then false
      else elim (load_tls_credentials certificate_path) [ none ↦ true | some err ↦ false ]

  -- the error, if there is one
  unfoldable pub connect : Service → Option String
  unfolding is_secure cut_prefix
  connect s =
      let address : String = elim (cut_prefix "unix://" s.address) [
        | some path ↦ concat "passthrough:///" s.address
        | none ↦ s.address
      ] in
      elim (net.new_grpc_client (is_secure s.certificate_path) address) [
        | some err ↦ some (concat "dialing " err)
        | none ↦ none
      ]

  -- What once.Do runs. If the address cannot be parsed, u is nil and u.Scheme a panic.
  unfoldable pub make_client : Service → Service × Outcome (Option String)
  unfolding connect
  make_client s = elim (net.parse_url s.address) [
    | inl uerr ↦ (s, panicked)
    | inr scheme ↦
        if scheme == "https" || scheme == "http"
        then (record s { client = some http_client }, returned none)
        else elim (connect s) [
          | some cerr ↦ (
            record s { client = some (grpc_client false) },
            returned (some (concat "connecting " cerr)),
          )
          | none ↦ (record s { client = some (grpc_client true) }, returned none)
        ]
  ]

  -- The client, which may be nil, with an error. once.Do counts as run after a panic too.
  unfoldable pub instance_of : Service → Service × Outcome (Option Client × Option String)
  unfolding make_client
  instance_of s = elim s.client [
    | some c ↦ (s, returned (some c, none))
    | none ↦
        if s.once
        then (s, returned (none, none))
        else (let (s', made) = make_client (record s { once = true }) in
            elim made [
              | panicked ↦ (s', panicked)
              | returned err ↦ (s', returned (s'.client, err))
            ])
  ]

  unfoldable pub convert_map_interface : Fields F X → Assoc String
  unfolding insert
  convert_map_interface empty = []
  convert_map_interface (field k v m) = insert k (net.value_text v) (convert_map_interface m)

  -- ec[k]: a key that is missing gives ""
  unfoldable pub text_at : String → Assoc String → String
  unfolding lookup
  text_at k ec = elim (lookup k ec) [ none ↦ "" | some text ↦ text ]

  unfoldable pub grpc_to_open_feature_error : CallError → E
  grpc_to_open_feature_error err = elim err.status [
    | none ↦ sdk.new_general (concat "internal error: " err.text)
    | some (not_found, message) ↦ sdk.new_flag_not_found message
    | some (invalid_argument, message) ↦ sdk.new_invalid_context message
    | some (unavailable, message) ↦ sdk.new_provider_not_ready message
    | some (other_code, message) ↦ sdk.new_general message
  ]

  -- the body of Boolean and Variant: `send` is the client's method, which panics if the client is nil
  unfoldable pub call :
      {A : Type 0}
      → (Client → EvaluationRequest → Outcome (CallError ⊎ A))
      → Service
      → String
      → String
      → String
      → Option (Fields F X)
      → Service × Outcome (ServiceError E ⊎ A)
  unfolding instance_of convert_map_interface text_at grpc_to_open_feature_error
  call send s environment_key namespace_key flag_key eval_ctx = elim eval_ctx [
    | none ↦ (s, returned (inl (resolution (sdk.new_invalid_context "evalCtx is nil"))))
    | some m ↦
        let ec = convert_map_interface m in
        let entity = text_at targeting_key ec in
        if entity == ""
        then (
          s,
          returned (inl (resolution (sdk.new_targeting_key_missing "targetingKey is missing"))),
        )
        else (let (s', outcome) = instance_of s in
            elim outcome [
              | panicked ↦ (s', panicked)
              | returned (conn, some err) ↦ (s', returned (inl (plain err)))
              | returned (none, none) ↦ (s', panicked)
              | returned (some client, none) ↦
                  let req : EvaluationRequest = record {
                    environment_key = environment_key;
                    namespace_key = namespace_key;
                    flag_key = flag_key;
                    entity_id = entity;
                    request_id = text_at request_id ec;
                    context = ec;
                  } in
                  elim (send client req) [
                    | panicked ↦ (s', panicked)
                    | returned (inl err) ↦
                        (s', returned (inl (resolution (grpc_to_open_feature_error err))))
                    | returned (inr resp) ↦ (s', returned (inr resp))
                  ]
            ])
  ]

  unfoldable pub boolean :
      Service
      → String
      → String
      → String
      → Option (Fields F X)
      → Service × Outcome (ServiceError E ⊎ BooleanEvaluationResponse)
  unfolding call
  boolean = call net.client_boolean

  unfoldable pub variant :
      Service
      → String
      → String
      → String
      → Option (Fields F X)
      → Service × Outcome (ServiceError E ⊎ VariantEvaluationResponse)
  unfolding call
  variant = call net.client_variant
