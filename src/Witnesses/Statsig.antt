-- ===== src/Witnesses/Statsig.antt =====
-- Statsig's provider.
use go_sdk_contrib.Common.{ℕ, ◌≡◌, refl, ◌⊎◌, inr, true, some, none, ◌≢◌}
use go_sdk_contrib.OpenFeature.{pos, string, Fields, empty, field, get}
use go_sdk_contrib.Vendors.Statsig.User.{
  User, no_user, Values, unsupported, has_ids, to_statsig_user,
}
use go_sdk_contrib.Vendors.Statsig.User.Custom.{attribute, is_special, to_statsig_user-custom}
use go_sdk_contrib.Witnesses.Sdk.{small_sdk}

abbrev values : Values ℕ ℕ
values = record {
  int_text = λ i. "1";
  float_text = λ f. "1.000000";
  bool_text = λ b. "true";
  sprint = λ v. "?";
  small_int_text = λ x. none;
  as_string_map = λ x. none;
  as_feature_config = λ x. none;
  reflected = λ x. unsupported "struct";
  widen = λ f. f;
  float_of = λ i. 0;
  truncate = λ f. pos f;
}

abbrev eval_ctx : Fields ℕ ℕ
eval_ctx = field "UserID" (string "u") (field "plan" (string "free") empty)

abbrev user : User ℕ ℕ
user = record no_user { user_id = "u"; custom = some (field "plan" (string "free") empty) }

user-made : to_statsig_user small_sdk values eval_ctx ≡ inr user
unfolding to_statsig_user
user-made = refl

to_statsig_user-custom_example :
    (attribute "plan" user ≡ some (string "free"))
    × ((eval_ctx ≡ empty) ⊎ (user.user_id ≢ "") ⊎ (has_ids user ≡ true))
unfolding is_special get
to_statsig_user-custom_example =
    to_statsig_user-custom small_sdk values "plan" eval_ctx user (refl, (refl, tt)) refl user-made
