-- ===== src/MultiProvider/Comparison/Methods.antt =====
-- BooleanEvaluation, StringEvaluation, FloatEvaluation and IntEvaluation of comparison.go, which
-- compare values with Go's `==`.
use go_sdk_contrib.Common.{String, ◌==◌, Bool, true, false, Option, List, eqb}
use go_sdk_contrib.OpenFeature.{ℤ, pos, negsuc, Fields, FeatureProvider, ResolutionDetail, Sdk}
use go_sdk_contrib.MultiProvider.Strategies.{NamedProvider}
use go_sdk_contrib.MultiProvider.Comparison.{Event, Outcome, resolve}

abbrev pub same_bool : Bool → Bool → Bool
same_bool true b = b
same_bool false true = false
same_bool false false = true

abbrev pub same_int : ℤ → ℤ → Bool
same_int (pos m) (pos n) = eqb m n
same_int (negsuc m) (negsuc n) = eqb m n
same_int _ _ = false

module _ {E F X : Type 0} (sdk : Sdk E F X) (providers : List (NamedProvider E F X))
    (fallback_provider : Option (FeatureProvider E F X)) (flag : String)
    (eval_ctx : Fields F X) where
  unfoldable pub boolean_evaluation :
      Bool → List (Event Bool E F X) → Outcome (ResolutionDetail Bool E F X)
  unfolding resolve
  boolean_evaluation default_value events =
      resolve sdk same_bool providers fallback_provider
        (λ p. p.provider.boolean_evaluation flag default_value eval_ctx) default_value events

  unfoldable pub string_evaluation :
      String → List (Event String E F X) → Outcome (ResolutionDetail String E F X)
  unfolding resolve
  string_evaluation default_value events =
      resolve sdk (λ a b. a == b) providers fallback_provider
        (λ p. p.provider.string_evaluation flag default_value eval_ctx) default_value events

  -- `float_eq` is Go's `==` of float64 values
  unfoldable pub float_evaluation :
      (F → F → Bool) → F → List (Event F E F X) → Outcome (ResolutionDetail F E F X)
  unfolding resolve
  float_evaluation float_eq default_value events =
      resolve sdk float_eq providers fallback_provider
        (λ p. p.provider.float_evaluation flag default_value eval_ctx) default_value events

  unfoldable pub int_evaluation : ℤ → List (Event ℤ E F X) → Outcome (ResolutionDetail ℤ E F X)
  unfolding resolve
  int_evaluation default_value events =
      resolve sdk same_int providers fallback_provider
        (λ p. p.provider.int_evaluation flag default_value eval_ctx) default_value events
