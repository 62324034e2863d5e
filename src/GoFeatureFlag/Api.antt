-- ===== src/GoFeatureFlag/Api.antt =====
-- providers/go-feature-flag/pkg/api/{api,models}.go: the requests to the relay proxy. Parsing the
-- endpoint and the JSON of bodies, and sending a request, are outside the repository: the result of
-- sending is a `Reply`.
use go_sdk_contrib.Common.{ℕ, String, eqb, Option, none, some, concat, if◌then◌else◌}

-- FlagConfigResponse, as far as the evaluators use it: `G` is the map of flags and `N` the map of
-- attributes that enrich a context.
pub record FlagConfigResponse (G N : Type 0) : Type 0 where
  pub flags : G
  pub evaluation_context_enrichment : N
  pub etag : String

-- What the client returns for a request: an error by its text, or a response whose body is none if
-- it cannot be read.
pub data Reply : Type 0 where
  transport_error : String → Reply
  replied : ℕ → String → String → Option String → Reply

-- What GetConfiguration returns; ErrNotModified is not_modified.
pub data Refresh (G N : Type 0) : Type 0 where
  changed : FlagConfigResponse G N → Refresh G N
  not_modified : Refresh G N
  failed : String → Refresh G N

module _ {G N : Type 0} (unmarshal : String → Option (G × N)) where
  unfoldable pub parse_configuration_success_response : String → Option String → Refresh G N
  parse_configuration_success_response etag raw_body = elim raw_body [
    | none ↦ failed "GetConfiguration: read response body"
    | some body ↦ elim (unmarshal body) [
      | none ↦ failed "GetConfiguration: unmarshal response"
      | some (flags, enrichment) ↦
          changed
            (record { flags = flags; evaluation_context_enrichment = enrichment; etag = etag })
    ]
  ]

  -- GetConfiguration, given what the request meets: a status with its text, an ETag and a body. The
  -- texts of errors that are wrapped are left out.
  unfoldable pub get_configuration : Reply → Refresh G N
  unfolding parse_configuration_success_response
  get_configuration (transport_error err) =
      failed (concat "GetConfiguration: HTTP request failed: " err)
  get_configuration (replied code status etag body) =
      if eqb code 200
      then parse_configuration_success_response etag body
      else if eqb code 304
      then not_modified
      else elim body [
        | none ↦ failed (
            concat "GetConfiguration: request failed with status "
              (concat status ", and could not read body"))
        | some text ↦ failed (
            concat "GetConfiguration: request failed with status "
              (concat status (concat ": " text)))
      ]
