-- ===== src/Vendors/Unleash/Status.antt =====
-- The state of Unleash's provider and the context that it sends: providers/unleash/pkg/provider.go.
use go_sdk_contrib.Common.{
  String, ◌==◌, ◌≡◌, ◌≢◌, refl, inl, inr, Bool, ◌||◌, Option, none, some, Assoc, [], lookup,
  lookup-insert, Option-cases, Sum-cases, arith, eq_iff, if◌then◌else◌,
}
use go_sdk_contrib.OpenFeature.{
  ℤ, ErrorCode, provider_not_ready, general, State, ready_state, not_ready_state, error_state,
  stale_state, fatal_state, Fields, empty, field, get, Sdk, SdkLaws,
}
use go_sdk_contrib.Vendors.Details.{IsMap}
use go_sdk_contrib.Vendors.Unleash.{
  Context, empty_context, Client, Provider, add_attribute, to_str, add_attributes,
  to_unleash_context, status_error, converted, boolean_evaluation, object_evaluation,
  float_evaluation, int_evaluation,
}

-- the keys that are fields of the context
unfoldable pub is_field : String → Bool
is_field key =
    key == "AppName"
    || key == "CurrentTime"
    || key == "Environment"
    || key == "RemoteAddress"
    || key == "SessionId"
    || key == "UserId"

add_attribute-property :
    (j k val : String) (c : Context) (custom : Assoc String)
    → lookup k (add_attribute j val (c, custom)).1
      ≡ (if is_field j then lookup k custom else if j == k then some val else lookup k custom)
unfolding add_attribute is_field
add_attribute-property j k val c custom = ground (arith, lookup-insert j k val custom)

module _ {E F X : Type 0} (sdk : Sdk E F X) (client : Client F X) where
  -- the property of a key once the loop has met a context
  abbrev after : String → Fields F X → Assoc String → Option String
  after k m custom =
      if is_field k
      then lookup k custom
      else elim (get k m) [ none ↦ lookup k custom | some v ↦ to_str sdk client v ]

  add_attributes-property :
      (k : String) (m : Fields F X) (made made' : Context × Assoc String)
      → IsMap m
      → add_attributes sdk client m made ≡ inr made'
      → lookup k made'.1 ≡ after k m made.1
  unfolding add_attributes get
  add_attributes-property k empty made made' distinct h = ground (arith, h)
  add_attributes-property k (field j v m) (c, custom) made' distinct h =
      elim (Option-cases (to_str sdk client v)) [
        | inl e ↦ absurd (ground (arith, h, e))
        | inr (val, e) ↦ ground (
          arith,
          h,
          e,
          distinct,
          eq_iff j k,
          add_attribute-property j k val c custom,
          add_attributes-property k m (add_attribute j val (c, custom)) made' distinct.1
              (ground (arith, h, e)),
        )
      ]

  -- the properties of a context
  abbrev pub property : String → Context → Option String
  property k c = elim c.properties [ none ↦ none | some custom ↦ lookup k custom ]

  -- If a context is made one of Unleash, then under every key that is not one of its fields the
  -- properties hold the text of what the context holds, and nothing under the others.
  to_unleash_context-property :
      (k : String) (eval_ctx : Fields F X) (c : Context)
      → IsMap eval_ctx
      → to_unleash_context sdk client eval_ctx ≡ inr c
      → property k c ≡ (
          if is_field k
          then none
          else elim (get k eval_ctx) [ none ↦ none | some v ↦ to_str sdk client v ])
  unfolding to_unleash_context lookup get
  to_unleash_context-property k empty c distinct h = ground (arith, h)
  to_unleash_context-property k (field j v m) c distinct h =
      elim (Sum-cases (add_attributes sdk client (field j v m) (empty_context, []))) [
        | inl (err, e) ↦ absurd (ground (arith, h, e))
        | inr ((made, custom), e) ↦ ground (
          arith,
          h,
          e,
          add_attributes-property k (field j v m) (empty_context, []) (made, custom) distinct e,
        )
      ]

  -- the code of the error of a provider in a state
  abbrev pub code_of : State → ErrorCode
  code_of not_ready_state = provider_not_ready
  code_of _ = general

  status_error-code :
      SdkLaws sdk
      → (status : State) → status ≢ ready_state
      → (e : E) × (status_error sdk client status ≡ some e) × (sdk.error_code e ≡ code_of status)
  unfolding status_error
  status_error-code laws not_ready_state h =
      (sdk.new_provider_not_ready "Provider not ready", refl, laws.provider_not_ready_code _)
  status_error-code laws ready_state h = absurd (h refl)
  status_error-code laws error_state h =
      (sdk.new_general "general error", refl, laws.general_code _)
  status_error-code laws stale_state h =
      (sdk.new_general "general error", refl, laws.general_code _)
  status_error-code laws fatal_state h =
      (sdk.new_general "general error", refl, laws.general_code _)

  -- A provider that is not ready gives the default value of each type with the error
  -- PROVIDER_NOT_READY, if it was not initialised or was shut down, and GENERAL in the other states.
  evaluation-not_ready :
      SdkLaws sdk
      → (p : Provider) (flag : String) (b : Bool) (f : F) (i : ℤ) (eval_ctx : Fields F X)
      → p.status ≢ ready_state
      → (((boolean_evaluation sdk client p flag b eval_ctx).value ≡ b)
          × ((float_evaluation sdk client p flag f eval_ctx).value ≡ f)
          × ((int_evaluation sdk client p flag i eval_ctx).value ≡ i))
        × (sdk.error_code (boolean_evaluation sdk client p flag b eval_ctx).detail.resolution_error
            ≡ code_of p.status)
        × (sdk.error_code (float_evaluation sdk client p flag f eval_ctx).detail.resolution_error
            ≡ code_of p.status)
        × (sdk.error_code (int_evaluation sdk client p flag i eval_ctx).detail.resolution_error
            ≡ code_of p.status)
  unfolding boolean_evaluation float_evaluation int_evaluation object_evaluation converted
  evaluation-not_ready laws p flag b f i eval_ctx h =
      let (e, found, code) = status_error-code laws p.status h in ground (arith, found, code)
