-- ===== src/Vendors/LaunchDarkly.antt =====
-- providers/launchdarkly/pkg/provider.go. A builder of a context of LaunchDarkly is the record of
-- the calls that are made on it, and `Client` is what the SDK makes of a built context. Logging and
-- the cancellation of the request are but inputs.
pub mod Mapping
use go_sdk_contrib.Common.{
  String, ◌==◌, ◌⊎◌, inl, inr, Bool, true, false, not, ◌||◌, Option, none, some, List, [], ◌∷◌,
  ◌++◌, concat, if◌then◌else◌,
}
use go_sdk_contrib.OpenFeature.{
  ℤ, Any, bool, string, other, Fields, empty, field, get, ProviderResolutionDetail,
  ResolutionDetail, Sdk,
}
use go_sdk_contrib.Vendors.Details.{targeting_key, with_error, as_string, as_bool, as_object}

abbrev pub err_key_missing : String
err_key_missing = "key and targetingKey attributes are missing, at least 1 required"

-- ldcontext.Kind
abbrev pub default_kind : String
default_kind = "user"

abbrev pub multi_kind : String
multi_kind = "multi"

-- options; the logger is left out
pub record Options : Type 0 where
  pub kind_attr : String
  pub close_on_shutdown : Bool

abbrev pub ProviderOption : Type 0
ProviderOption = Options → Options

unfoldable pub with_kind_attr : String → ProviderOption
with_kind_attr name o = record o { kind_attr = name }

unfoldable pub with_close_on_shutdown : Bool → ProviderOption
with_close_on_shutdown close o = record o { close_on_shutdown = close }

unfoldable pub apply : List ProviderOption → Options → Options
apply [] o = o
apply (opt ∷ opts) o = apply opts (opt o)

unfoldable pub new_provider : List ProviderOption → Options
unfolding apply
new_provider opts = apply opts (record { kind_attr = "kind"; close_on_shutdown = false })

-- NewBuilder(key).Kind(kind), with the calls of Anonymous, Private and SetValue in order
pub record Builder (F X : Type 0) : Type 0 where
  pub key : String
  pub kind : String
  pub anonymous : Option Bool
  pub private : Option (List String)
  pub attributes : Fields F X

-- what Build is called on: one builder, or the contexts that were added to a multi-builder
pub data Context (F X : Type 0) : Type 0 where
  single : Builder F X → Context F X
  multi : List (Builder F X) → Context F X

-- ldreason.EvalReasonKind and ldreason.EvalErrorKind
pub data EvalReasonKind : Type 0 where
  reason_off reason_fallthrough reason_target_match reason_rule_match : EvalReasonKind
  reason_prerequisite_failed reason_error : EvalReasonKind

pub data EvalErrorKind : Type 0 where
  client_not_ready flag_not_found malformed_flag user_not_specified wrong_type : EvalErrorKind
  other_error : EvalErrorKind

pub record EvaluationDetail : Type 0 where
  pub reason_kind : EvalReasonKind
  pub error_kind : Option EvalErrorKind
  -- the reason's String, and that of the variation index if it is defined
  pub reason_text : String
  pub variation_index : Option String

-- LDClient: each method gives a value and a detail; its error is only logged.
pub record Client (V F X : Type 0) : Type 0 where
  pub bool_variation_detail : String → Context F X → Bool → Bool × EvaluationDetail
  pub int_variation_detail : String → Context F X → ℤ → ℤ × EvaluationDetail
  pub float64_variation_detail : String → Context F X → F → F × EvaluationDetail
  pub string_variation_detail : String → Context F X → String → String × EvaluationDetail
  pub json_variation_detail : String → Context F X → V → V × EvaluationDetail
  -- ldvalue.CopyArbitraryValue and AsArbitraryValue
  pub copy_arbitrary_value : Any F X → V
  pub as_arbitrary_value : V → Any F X
  -- the assertion .([]string)
  pub as_string_list : X → Option (List String)
  -- strings.Trim(s, " ")
  pub trim : String → String
  -- the text of a reason kind
  pub kind_text : EvalReasonKind → String

module _ {E V F X : Type 0} (sdk : Sdk E F X) (client : Client V F X) (p : Options) where
  unfoldable pub is_skipped : String → Bool
  is_skipped k =
      k == targeting_key
      || k == p.kind_attr
      || k == "key"
      || k == "privateAttributes"
      || k == "anonymous"

  -- the loop of mapContext: the attributes that are set
  unfoldable pub attributes_of : Fields F X → Fields F X
  attributes_of empty = empty
  attributes_of (field k v m) =
      let rest = attributes_of m in if is_skipped k then rest else field k v rest

  abbrev pub asserted : {A : Type 0} → (Any F X → Option A) → String → Fields F X → Option A
  unfolding get
  asserted convert k m = elim (get k m) [ none ↦ none | some v ↦ convert v ]

  abbrev pub as_strings : Any F X → Option (List String)
  as_strings (other x) = client.as_string_list x
  as_strings _ = none

  -- the key of the context, if there is one
  unfoldable pub context_key : Fields F X → Option String
  unfolding get
  context_key eval_ctx = elim (asserted as_string targeting_key eval_ctx) [
    | some key ↦ some key
    | none ↦ elim (asserted as_string "key" eval_ctx) [
      | none ↦ none
      | some ld_key ↦ if client.trim ld_key == "" then none else some ld_key
    ]
  ]

  -- The error is errKeyMissing.
  unfoldable pub map_context : String → Fields F X → String ⊎ Builder F X
  unfolding context_key attributes_of get
  map_context kind eval_ctx = elim (context_key eval_ctx) [
    | none ↦ inl err_key_missing
    | some key ↦ inr (record {
      key = key;
      kind = kind;
      anonymous = asserted as_bool "anonymous" eval_ctx;
      private = asserted as_strings "privateAttributes" eval_ctx;
      attributes = attributes_of eval_ctx;
    })
  ]

  -- the loop of toMultiLDContext
  unfoldable pub to_multi_ld_context : Fields F X → String ⊎ List (Builder F X)
  unfolding map_context
  to_multi_ld_context empty = inr []
  to_multi_ld_context (field k v m) =
      let rest = to_multi_ld_context m in
      if k == p.kind_attr then rest else elim (as_object v) [
        | none ↦ rest
        | some inner_ctx ↦ elim (map_context k inner_ctx) [
          | inl err ↦ inl err
          | inr ctx ↦ elim rest [ inl err ↦ inl err | inr ctxs ↦ inr (ctx ∷ ctxs) ]
        ]
      ]

  unfoldable pub context_kind : Fields F X → String
  unfolding get
  context_kind eval_ctx = elim (asserted as_string p.kind_attr eval_ctx) [
    | none ↦ default_kind
    | some k ↦ if client.trim k == "" then default_kind else k
  ]

  unfoldable pub to_ld_context : Fields F X → String ⊎ Context F X
  unfolding context_kind to_multi_ld_context map_context
  to_ld_context eval_ctx =
      if context_kind eval_ctx == multi_kind
      then elim (to_multi_ld_context eval_ctx) [ inl err ↦ inl err | inr ctxs ↦ inr (multi ctxs) ]
      else elim (map_context (context_kind eval_ctx) eval_ctx) [
        | inl err ↦ inl err
        | inr ctx ↦ inr (single ctx)
      ]

  unfoldable pub to_reason : EvalReasonKind → String
  to_reason reason_off = sdk.disabled_reason
  to_reason reason_target_match = sdk.targeting_match_reason
  to_reason reason_error = sdk.error_reason
  to_reason reason_kind = client.kind_text reason_kind

  unfoldable pub to_resolution_error : EvalErrorKind → String → E
  to_resolution_error client_not_ready reason = sdk.new_provider_not_ready reason
  to_resolution_error flag_not_found reason = sdk.new_flag_not_found reason
  to_resolution_error malformed_flag reason = sdk.new_parse_error reason
  to_resolution_error user_not_specified reason = sdk.new_targeting_key_missing reason
  to_resolution_error wrong_type reason = sdk.new_type_mismatch reason
  to_resolution_error other_error reason = sdk.new_general reason

  unfoldable pub to_provider_resolution_detail : EvaluationDetail → ProviderResolutionDetail E F X
  unfolding to_reason to_resolution_error
  to_provider_resolution_detail detail = record {
    resolution_error = elim detail.error_kind [
      | none ↦ sdk.no_error
      | some error_kind ↦
          to_resolution_error error_kind (concat "LaunchDarkly returned " detail.reason_text)
    ];
    reason = to_reason detail.reason_kind;
    variant = elim detail.variation_index [ none ↦ "" | some index ↦ index ];
    flag_metadata = none;
  }

  -- `cancelled` is the error of the context of the request, if it has one. The only error of
  -- toLDContext is errKeyMissing.
  unfoldable pub transform_context :
      Option String → Fields F X → ProviderResolutionDetail E F X ⊎ Context F X
  unfolding to_ld_context
  transform_context cancelled eval_ctx = elim (to_ld_context eval_ctx) [
    | inl err_msg ↦ inl (with_error sdk (sdk.new_targeting_key_missing err_msg))
    | inr ld_ctx ↦ elim cancelled [
      | some err ↦ inl (with_error sdk (sdk.new_general err))
      | none ↦ inr ld_ctx
    ]
  ]

  -- what the five methods share: `ask` is the client's method at the flag's key
  unfoldable pub evaluate :
      {A B : Type 0}
      → (Context F X → B × EvaluationDetail)
      → (B → A)
      → A
      → Option String
      → Fields F X
      → ResolutionDetail A E F X
  unfolding transform_context to_provider_resolution_detail
  evaluate ask convert default_value cancelled eval_ctx =
      elim (transform_context cancelled eval_ctx) [
        | inl err_detail ↦ record { value = default_value; detail = err_detail }
        | inr ld_ctx ↦
            let (value, detail) = ask ld_ctx in
            record { value = convert value; detail = to_provider_resolution_detail detail }
      ]

  unfoldable pub boolean_evaluation :
      Option String → String → Bool → Fields F X → ResolutionDetail Bool E F X
  unfolding evaluate
  boolean_evaluation cancelled flag_key d eval_ctx =
      evaluate (λ c. client.bool_variation_detail flag_key c d) (λ v. v) d cancelled eval_ctx

  unfoldable pub string_evaluation :
      Option String → String → String → Fields F X → ResolutionDetail String E F X
  unfolding evaluate
  string_evaluation cancelled flag_key d eval_ctx =
      evaluate (λ c. client.string_variation_detail flag_key c d) (λ v. v) d cancelled eval_ctx

  unfoldable pub float_evaluation :
      Option String → String → F → Fields F X → ResolutionDetail F E F X
  unfolding evaluate
  float_evaluation cancelled flag_key d eval_ctx =
      evaluate (λ c. client.float64_variation_detail flag_key c d) (λ v. v) d cancelled eval_ctx

  -- An int has 64 bits.
  unfoldable pub int_evaluation : Option String → String → ℤ → Fields F X → ResolutionDetail ℤ E F X
  unfolding evaluate
  int_evaluation cancelled flag_key d eval_ctx =
      evaluate (λ c. client.int_variation_detail flag_key c d) (λ v. v) d cancelled eval_ctx

  unfoldable pub object_evaluation :
      Option String → String → Any F X → Fields F X → ResolutionDetail (Any F X) E F X
  unfolding evaluate
  object_evaluation cancelled flag_key d eval_ctx =
      evaluate (λ c. client.json_variation_detail flag_key c (client.copy_arbitrary_value d))
        client.as_arbitrary_value d cancelled eval_ctx

-- whether the client is closed
unfoldable pub shutdown : Options → Bool
shutdown p = p.close_on_shutdown
