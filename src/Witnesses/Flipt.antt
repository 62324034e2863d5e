-- ===== src/Witnesses/Flipt.antt =====
-- Flipt's provider.
use go_sdk_contrib.Common.{
  ℕ, ◌≡◌, ◌≢◌, refl, inl, inr, ◌==◌, Bool, true, false, some, none, [], ◌∷◌, if◌then◌else◌,
}
use go_sdk_contrib.OpenFeature.{flag_not_found, string, Fields, empty, field, ResolutionDetail}
use go_sdk_contrib.Vendors.Flipt.Transport.{
  returned, panicked, http_client, not_found, CallError, Net, Service, convert_map_interface,
  text_at, with_address, with_certificate_path,
}
use go_sdk_contrib.Vendors.Flipt.Provider.{
  Provider, boolean_evaluation, evaluate_variant_flag, transform_to_string, transport_service,
  with_provider_address, new_provider,
}
use go_sdk_contrib.Vendors.Flipt.Laws.{
  IsHttp, IsBroken, boolean_evaluation-answer, boolean_evaluation-panics,
}
use go_sdk_contrib.Witnesses.Sdk.{Error, small_sdk, small_laws}

abbrev missing : CallError
missing = record { status = some (not_found, "flag not found"); text = "flag not found" }

-- the addresses of HTTP can be parsed, and no flag is there
abbrev net : Net ℕ ℕ
net = record {
  parse_url = λ address.
      if address == "http://localhost:8080"
      then inr "http"
      else inl "first path segment in URL cannot contain colon";
  read_file = λ path. inl "no such file";
  append_certs_from_pem = λ pem. false;
  new_grpc_client = λ secure address. none;
  client_boolean = λ client request. returned (inl missing);
  client_variant = λ client request. returned (inl missing);
  value_text = λ v. elim v [ string s ↦ s | _ ↦ "?" ];
}

abbrev eval_ctx : Fields ℕ ℕ
eval_ctx = field "targetingKey" (string "user-1") empty

abbrev provider : Provider Service
provider = new_provider []

provider-IsHttp : IsHttp small_sdk net provider.svc
unfolding new_provider with_certificate_path with_address
provider-IsHttp = inr (refl, refl, inl refl)

keyed : text_at small_sdk net "targetingKey" (convert_map_interface small_sdk net eval_ctx) ≢ ""
unfolding text_at convert_map_interface
keyed = λ e. cc

boolean_evaluation-answer_example :
    (r : ResolutionDetail Bool Error ℕ ℕ) × ((boolean_evaluation small_sdk
        (transport_service small_sdk net)
        provider
        "flag"
        true
        (some eval_ctx)).1
      ≡ returned r)
    × (r.detail.resolution_error.0 ≡ flag_not_found)
    × (r.value ≡ true)
    × ((boolean_evaluation small_sdk
          (transport_service small_sdk net)
          provider
          "flag"
          true
          (some eval_ctx)).0.svc.client
        ≡ some http_client)
boolean_evaluation-answer_example =
    boolean_evaluation-answer small_sdk net small_laws provider "flag" true eval_ctx (inl missing)
      provider-IsHttp keyed refl

abbrev unparsed : Provider Service
unparsed = new_provider (with_provider_address "127.0.0.1:9000" ∷ [])

unparsed-IsBroken : IsBroken small_sdk net unparsed.svc
unfolding new_provider with_provider_address with_address with_certificate_path
unparsed-IsBroken = (refl, ("first path segment in URL cannot contain colon", refl))

boolean_evaluation-panics_example :
    ((boolean_evaluation small_sdk
        (transport_service small_sdk net)
        unparsed
        "flag"
        true
        (some eval_ctx)).1
      ≡ panicked)
    × IsBroken small_sdk net
        (boolean_evaluation small_sdk
          (transport_service small_sdk net)
          unparsed
          "flag"
          true
          (some eval_ctx)).0.svc
    × ((evaluate_variant_flag small_sdk
          (transport_service small_sdk net)
          unparsed
          "flag"
          "red"
          (some eval_ctx)
          transform_to_string).1
        ≡ panicked)
    × IsBroken small_sdk net
        (evaluate_variant_flag small_sdk
          (transport_service small_sdk net)
          unparsed
          "flag"
          "red"
          (some eval_ctx)
          transform_to_string).0.svc
boolean_evaluation-panics_example =
    boolean_evaluation-panics small_sdk net transform_to_string "red" unparsed "flag" true eval_ctx
      unparsed-IsBroken keyed
