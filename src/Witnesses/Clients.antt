-- ===== src/Witnesses/Clients.antt =====
-- The providers of Optimizely, Flagsmith, Unleash and ConfigCat.
use go_sdk_contrib.Common.{ℕ, ◌≡◌, ◌↔◌, refl, inl, inr, true, false, some, none, [], ◌∷◌}
use go_sdk_contrib.OpenFeature.{pos, int, string, Fields, empty, field, get}
use go_sdk_contrib.Vendors.Details.{as_string, as_float64, as_int, with_reason}
use go_sdk_contrib.Vendors.Optimizely.{
  Decision, Client as OptimizelyClient, user_id_of, string_evaluation, float_evaluation,
  int_evaluation,
}
use go_sdk_contrib.Vendors.Optimizely.Single.{Answers, has_reason, evaluation-Answers}
use go_sdk_contrib.Vendors.Flagsmith.{Client as FlagsmithClient, Flag, Provider, boolean_evaluation}
use go_sdk_contrib.Vendors.Flagsmith.Enabled.{boolean_evaluation-enabled}
use go_sdk_contrib.Vendors.Unleash.{
  Context, Client as UnleashClient, empty_context, to_unleash_context, to_str,
}
use go_sdk_contrib.Vendors.ConfigCat.{to_user_data}
use go_sdk_contrib.Vendors.ConfigCat.Answers.{attribute_of, to_user_data-attribute}
use go_sdk_contrib.Witnesses.Sdk.{small_sdk, small_laws}

abbrev decision : Decision ℕ ℕ
decision = record {
  enabled = true;
  variables = field "limit" (int (pos 3)) empty;
  variation_key = "on";
  reasons = [];
}

abbrev optimizely : OptimizelyClient ℕ ℕ
optimizely = record {
  decide = λ user_id attributes flag_key. decision;
  sdk_not_ready_message = "not ready";
  flag_key_invalid_message = λ key. "no flag";
  targeting_key_missing_text = "targeting key is required";
  type_text = λ v. "int";
}

abbrev eval_ctx : Fields ℕ ℕ
eval_ctx = field "targetingKey" (string "user-1") empty

evaluation-Answers_example :
    Answers small_sdk small_laws optimizely as_string "none" decision
      (string_evaluation small_sdk optimizely "flag" "none" eval_ctx)
    × Answers small_sdk small_laws optimizely as_float64 0 decision
        (float_evaluation small_sdk optimizely "flag" 0 eval_ctx)
    × Answers small_sdk small_laws optimizely as_int
        (pos 0)
        decision
        (int_evaluation small_sdk optimizely "flag" (pos 0) eval_ctx)
unfolding user_id_of has_reason
evaluation-Answers_example =
    evaluation-Answers small_sdk small_laws optimizely "flag" "user-1" "none" 0 (pos 0) eval_ctx
      refl refl refl

abbrev flag : Flag ℕ ℕ
flag = record { enabled = true; value = string "not a boolean" }

abbrev flagsmith : FlagsmithClient ℕ ℕ
flagsmith = record {
  get_identity_flags = λ target traits. inr (λ name. inr flag);
  get_environment_flags = inl "unreachable";
  parse_float = λ s. none;
  unmarshal = λ s. none;
  truncate = λ f. pos f;
  value_text = λ v. "?";
}

abbrev by_state : Provider
by_state = record { using_boolean_config_value = true }

boolean_evaluation-enabled_example :
    boolean_evaluation small_sdk flagsmith by_state "flag" false eval_ctx
    ≡ record { value = true; detail = with_reason small_sdk "STATIC" }
unfolding get
boolean_evaluation-enabled_example =
    boolean_evaluation-enabled small_sdk small_laws flagsmith by_state "flag" false eval_ctx flag
      refl (λ e. cc) (λ e. cc) ((λ name. inr flag), inr ("user-1", refl, refl), refl)

abbrev unleash : UnleashClient ℕ ℕ
unleash = record {
  initialize = none;
  is_enabled = λ flag fallback c. fallback;
  get_variant = λ flag c. record { name = "disabled"; payload = ""; enabled = false };
  disabled_variant = "disabled";
  parse_float = λ s. none;
  parse_int = λ s. none;
  int_text = λ i. "3";
  small_int_text = λ x. none;
  float_text = λ f. "0.000000";
  bool_text = λ b. "true";
  sprint = λ v. "?";
}

abbrev unleash_ctx : Fields ℕ ℕ
unleash_ctx = field "UserId" (string "u") (field "age" (int (pos 3)) empty)

abbrev made : Context
made = record empty_context { user_id = "u"; properties = some (("age", "3") ∷ []) }

unleash_ctx-made : to_unleash_context small_sdk unleash unleash_ctx ≡ inr made
unfolding to_unleash_context to_str
unleash_ctx-made = refl

to_user_data-attribute_example :
    (attribute_of (to_user_data eval_ctx) "Identifier" ≡ some (string "user-1"))
    × (attribute_of (to_user_data eval_ctx) "Email" ≡ get "email" eval_ctx)
    × (attribute_of (to_user_data eval_ctx) "Country" ≡ get "country" eval_ctx)
    × (attribute_of (to_user_data eval_ctx) "plan" ≡ get "plan" eval_ctx)
    × ((to_user_data eval_ctx ≡ none) ↔ (eval_ctx ≡ empty))
unfolding get
to_user_data-attribute_example =
    to_user_data-attribute "plan" eval_ctx (refl, tt) ((λ e. cc), ((λ e. cc), ((λ e. cc), tt)))
      (λ e. cc) (λ e. cc) (λ e. cc) (λ e. cc) (λ e. cc) (λ e. cc)
