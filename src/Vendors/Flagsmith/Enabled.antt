-- ===== src/Vendors/Flagsmith/Enabled.antt =====
-- What the state of a flag means to Flagsmith's provider: providers/flagsmith/pkg/provider.go.
use go_sdk_contrib.Common.{
  String, ◌≡◌, ◌≢◌, ◌⊎◌, inl, inr, Bool, true, false, Option, none, some, arith, eq_iff,
  if◌then◌else◌, Option-cases,
}
use go_sdk_contrib.OpenFeature.{ℤ, Any, bool, string, int64, float64, Fields, get, Sdk, SdkLaws}
use go_sdk_contrib.Vendors.Details.{as_string, targeting_key, with_reason}
use go_sdk_contrib.Vendors.Flagsmith.{
  Flag, Flags, Client, Provider, traits, resolved, resolve_flag, is_disabled, typed,
  boolean_evaluation, string_evaluation, float_evaluation, int_evaluation, object_evaluation,
  as_float_text, as_truncated, as_json,
}

module _ {E F X : Type 0} (sdk : Sdk E F X) (laws : SdkLaws sdk) (client : Client F X) where
  -- The client gives this flag for a context: that of the identity, if there is a targeting key, or
  -- that of the environment.
  abbrev pub Found : String → Fields F X → Flag F X → Type 0
  Found flag eval_ctx f =
      (flags : Flags F X) × (((get targeting_key eval_ctx ≡ none)
          × (client.get_environment_flags ≡ inr flags))
        ⊎ ((target : String) × (get targeting_key eval_ctx ≡ some (string target))
            × (client.get_identity_flags target (traits sdk client eval_ctx) ≡ inr flags)))
      × (flags flag ≡ inr f)

  -- the reason of an evaluation of an enabled flag
  abbrev pub reason_of : Fields F X → String
  reason_of eval_ctx = elim (get targeting_key eval_ctx) [
    | none ↦ sdk.static_reason
    | some v ↦ sdk.targeting_match_reason
  ]

  resolve_flag-found :
      (flag : String) (default_value : Any F X) (eval_ctx : Fields F X) (f : Flag F X)
      → Found flag eval_ctx f
      → resolve_flag sdk client flag default_value eval_ctx ≡ (
          if f.enabled
          then record { value = f.value; detail = with_reason sdk (reason_of eval_ctx) }
          else record { value = default_value; detail = with_reason sdk sdk.disabled_reason })
  unfolding resolve_flag resolved
  resolve_flag-found flag default_value eval_ctx f (flags, inl (k, e), found) =
      ground (arith, k, e, found)
  resolve_flag-found flag default_value eval_ctx f (flags, inr (target, k, e), found) =
      ground (arith, k, e, found)

  reason_of-differs :
      (eval_ctx : Fields F X)
      → sdk.static_reason ≢ sdk.disabled_reason
      → sdk.targeting_match_reason ≢ sdk.disabled_reason
      → reason_of eval_ctx ≢ sdk.disabled_reason
  reason_of-differs eval_ctx h k = elim (Option-cases (get targeting_key eval_ctx)) [
    | inl e ↦ ground (arith, e, h)
    | inr (v, e) ↦ ground (arith, e, k)
  ]

  -- the other methods on a flag that is not enabled
  typed-disabled :
      {A : Type 0} (convert : Any F X → Option A) (kind : String) (default_value : A)
      (flag : String) (v : Any F X) (eval_ctx : Fields F X) (f : Flag F X)
      → f.enabled ≡ false
      → Found flag eval_ctx f
      → typed sdk client convert kind default_value (resolve_flag sdk client flag v eval_ctx)
        ≡ record { value = default_value; detail = with_reason sdk sdk.disabled_reason }
  unfolding typed is_disabled
  typed-disabled convert kind default_value flag v eval_ctx f off found = ground (
    arith,
    resolve_flag-found flag v eval_ctx f found,
    off,
    laws.no_error_none,
    eq_iff sdk.disabled_reason sdk.disabled_reason,
  )

  -- If the provider takes the state of a flag for its boolean value, and the client gives a flag, then
  -- its boolean evaluation is whether the flag is enabled, with no error, whatever value the flag and
  -- the default have.
  pub boolean_evaluation-enabled :
      (p : Provider) (flag : String) (default_value : Bool) (eval_ctx : Fields F X) (f : Flag F X)
      → p.using_boolean_config_value ≡ true
      → sdk.static_reason ≢ sdk.disabled_reason
      → sdk.targeting_match_reason ≢ sdk.disabled_reason
      → Found flag eval_ctx f
      → boolean_evaluation sdk client p flag default_value eval_ctx
        ≡ record { value = f.enabled; detail = with_reason sdk sdk.static_reason }
  unfolding boolean_evaluation is_disabled
  boolean_evaluation-enabled p flag default_value eval_ctx f using static_differs match_differs
        found =
      let same = resolve_flag-found flag (bool default_value) eval_ctx f found in
      ground (
        arith,
        same,
        using,
        laws.no_error_none,
        reason_of-differs eval_ctx static_differs match_differs,
        eq_iff (reason_of eval_ctx) sdk.disabled_reason,
        eq_iff sdk.disabled_reason sdk.disabled_reason,
      )

  -- If the client gives a flag that is not enabled, then each evaluation but a boolean one gives the
  -- default value with the reason DISABLED and no error.
  evaluation-disabled :
      (flag s : String) (x : F) (i : ℤ) (v : Any F X) (eval_ctx : Fields F X) (f : Flag F X)
      → f.enabled ≡ false
      → Found flag eval_ctx f
      → (string_evaluation sdk client flag s eval_ctx
          ≡ record { value = s; detail = with_reason sdk sdk.disabled_reason })
        × (float_evaluation sdk client flag x eval_ctx
            ≡ record { value = x; detail = with_reason sdk sdk.disabled_reason })
        × (int_evaluation sdk client flag i eval_ctx
            ≡ record { value = i; detail = with_reason sdk sdk.disabled_reason })
        × (object_evaluation sdk client flag v eval_ctx
            ≡ record { value = v; detail = with_reason sdk sdk.disabled_reason })
  unfolding string_evaluation float_evaluation int_evaluation object_evaluation
  evaluation-disabled flag s x i v eval_ctx f off found = (
    typed-disabled as_string "string" s flag (string s) eval_ctx f off found,
    typed-disabled (as_float_text sdk client) "float" x flag (float64 x) eval_ctx f off found,
    typed-disabled (as_truncated sdk client) "int" i flag (int64 i) eval_ctx f off found,
    typed-disabled (as_json sdk client) "object" v flag v eval_ctx f off found,
  )
