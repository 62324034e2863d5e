-- ===== src/Vendors/Statsig/Failures.antt =====
-- What the evaluations of Statsig's provider make of a failure: providers/statsig/pkg/provider.go.
use go_sdk_contrib.Common.{String, ◌≡◌, refl, ◌⊎◌, inl, inr, true, Option-cases, Sum-cases, arith}
use go_sdk_contrib.OpenFeature.{ℤ, Any, int64, float64, Fields, Sdk, SdkLaws}
use go_sdk_contrib.Vendors.Statsig.User.{
  Values, User, FeatureConfigType, config, layer, unknown, to_statsig_user, to_feature_config,
}
use go_sdk_contrib.Vendors.Statsig.Evaluation.{
  Client, Provider, status_error, answered, typed, evaluated, object_evaluation, float_evaluation,
  int_evaluation,
}

module _ {E F X : Type 0} (sdk : Sdk E F X) (laws : SdkLaws sdk) (values : Values F X)
    (client : Client F X) where
  answered-failed :
      (default_value : Any F X) (result : String ⊎ Any F X) (m : Fields F X)
      → sdk.has_error (answered sdk values default_value result m).detail.resolution_error ≡ true
      → (answered sdk values default_value result m).value ≡ default_value
  unfolding answered
  answered-failed default_value (inl err) m h = refl
  answered-failed default_value (inr value) m h = ground (arith, h, laws.no_error_none)

  evaluated-failed :
      (kind : FeatureConfigType) (name : String) (user : User F X) (flag : String)
      (default_value : Any F X)
      → sdk.has_error
          (evaluated sdk values client kind name user flag default_value).detail.resolution_error
        ≡ true
      → (evaluated sdk values client kind name user flag default_value).value ≡ default_value
  unfolding evaluated
  evaluated-failed config name user flag default_value h = answered-failed default_value _ _ h
  evaluated-failed layer name user flag default_value h = answered-failed default_value _ _ h
  evaluated-failed (unknown kind) name user flag default_value h = refl

  -- an evaluation of an object that has failed gives the default value
  object_evaluation-failed :
      (p : Provider) (flag : String) (default_value : Any F X) (eval_ctx : Fields F X)
      → sdk.has_error
          (object_evaluation sdk values client p flag default_value
            eval_ctx).detail.resolution_error
        ≡ true
      → (object_evaluation sdk values client p flag default_value eval_ctx).value ≡ default_value
  unfolding object_evaluation
  object_evaluation-failed p flag default_value eval_ctx h =
      elim (Option-cases (status_error sdk values p.status)) [
        | inr (e, s) ↦ ground (arith, s)
        | inl s ↦ elim (Sum-cases (to_statsig_user sdk values eval_ctx)) [
          | inl (err, u) ↦ ground (arith, s, u)
          | inr (user, u) ↦ elim (Sum-cases (to_feature_config values eval_ctx)) [
            | inl (err, c) ↦ ground (arith, s, u, c)
            | inr (fc, c) ↦ ground (
              arith,
              h,
              s,
              u,
              c,
              evaluated-failed fc.feature_config_type fc.name user flag default_value,
            )
          ]
        ]
      ]

  -- If the evaluation of an object with the default value has failed, then so does the evaluation
  -- as a float and as an integer: each gives its default value with the same details.
  typed_evaluation-failed :
      (p : Provider) (flag : String) (f : F) (i : ℤ) (eval_ctx : Fields F X)
      → sdk.has_error
          (object_evaluation sdk values client p flag (float64 f) eval_ctx).detail.resolution_error
        ≡ true
      → sdk.has_error
          (object_evaluation sdk values client p flag (int64 i) eval_ctx).detail.resolution_error
        ≡ true
      → (float_evaluation sdk values client p flag f eval_ctx ≡ record {
        value = f;
        detail = (object_evaluation sdk values client p flag (float64 f) eval_ctx).detail;
      })
        × (int_evaluation sdk values client p flag i eval_ctx ≡ record {
          value = i;
          detail = (object_evaluation sdk values client p flag (int64 i) eval_ctx).detail;
        })
  unfolding float_evaluation int_evaluation typed
  typed_evaluation-failed p flag f i eval_ctx h k = (
    ground (arith, object_evaluation-failed p flag (float64 f) eval_ctx h),
    ground (arith, object_evaluation-failed p flag (int64 i) eval_ctx k),
  )
