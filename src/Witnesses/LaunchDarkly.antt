-- ===== src/Witnesses/LaunchDarkly.antt =====
-- LaunchDarkly's provider.
use go_sdk_contrib.Common.{ℕ, ◌≡◌, refl, inr, true, false, some, none, [], ◌∷◌}
use go_sdk_contrib.OpenFeature.{string, object, Fields, empty, field, get, targeting_key_missing}
use go_sdk_contrib.Vendors.LaunchDarkly.{
  Options, Builder, Client, flag_not_found, reason_error, EvaluationDetail, is_skipped, map_context,
  to_multi_ld_context, to_ld_context, evaluate,
}
use go_sdk_contrib.Vendors.LaunchDarkly.Mapping.{find_kind, find-to_multi_ld_context, evaluate-code}
use go_sdk_contrib.Witnesses.Sdk.{small_sdk, small_laws}

abbrev not_there : EvaluationDetail
not_there = record {
  reason_kind = reason_error;
  error_kind = some flag_not_found;
  reason_text = "ERROR(FLAG_NOT_FOUND)";
  variation_index = none;
}

abbrev client : Client ℕ ℕ ℕ
client = record {
  bool_variation_detail = λ key c d. (d, not_there);
  int_variation_detail = λ key c d. (d, not_there);
  float64_variation_detail = λ key c d. (d, not_there);
  string_variation_detail = λ key c d. (d, not_there);
  json_variation_detail = λ key c d. (d, not_there);
  copy_arbitrary_value = λ v. 0;
  as_arbitrary_value = λ v. string "?";
  as_string_list = λ x. none;
  trim = λ text. text;
  kind_text = λ kind. "OTHER";
}

abbrev options : Options
options = record { kind_attr = "kind"; close_on_shutdown = false }

-- a context of two kinds, one of which is not a map
abbrev eval_ctx : Fields ℕ ℕ
eval_ctx = field "kind" (string "multi") (
    field "user" (object (field "key" (string "u") (field "plan" (string "free") empty)))
      (field "note" (string "n") empty))

abbrev user : Builder ℕ ℕ
user = record {
  key = "u";
  kind = "user";
  anonymous = none;
  private = none;
  attributes = field "plan" (string "free") empty;
}

eval_ctx-mapped : to_multi_ld_context small_sdk client options eval_ctx ≡ inr (user ∷ [])
unfolding to_multi_ld_context is_skipped
eval_ctx-mapped = refl

find-to_multi_ld_context_example : find_kind "user" (user ∷ []) ≡ some user
unfolding get map_context is_skipped
find-to_multi_ld_context_example =
    find-to_multi_ld_context small_sdk client options "user" eval_ctx (user ∷ [])
      (refl, (refl, (refl, tt))) eval_ctx-mapped

-- no key, and a request that is cancelled
evaluate-code_example :
    ((evaluate small_sdk client options
        (λ c. client.bool_variation_detail "flag" c true)
        (λ v. v)
        true
        (some "context canceled")
        empty).detail.resolution_error.0
      ≡ targeting_key_missing)
    × ((evaluate small_sdk client options
          (λ c. client.bool_variation_detail "flag" c true)
          (λ v. v)
          true
          (some "context canceled")
          empty).value
        ≡ true)
unfolding to_ld_context
evaluate-code_example =
    evaluate-code small_sdk client options small_laws
      (λ c. client.bool_variation_detail "flag" c true) (λ v. v) true (some "context canceled")
      empty
