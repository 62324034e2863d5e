-- ===== src/MultiProvider/Comparison/Disagreement.antt =====
-- What the comparison strategy of comparison.go returns if the values of the providers differ.
use mathlib.Core.List.{Mem}
use go_sdk_contrib.Common.{
  ◌<◌, ◌≡◌, refl, ap, Bool, true, false, Option, none, some, List, [], length,
}
use go_sdk_contrib.OpenFeature.{FeatureProvider, Fields, ResolutionDetail, Sdk, SdkLaws}
use go_sdk_contrib.MultiProvider.Strategies.{
  NamedProvider, build_default_result, reason_aggregated_fallback,
}
use go_sdk_contrib.MultiProvider.Strategies.Answers.{Succeeds}
use go_sdk_contrib.MultiProvider.Comparison.{
  Event, panics, comp_func, defaulted, conclude, resolve, fallback_metadata,
}
use go_sdk_contrib.MultiProvider.Comparison.Loop.{results, values}
use go_sdk_contrib.MultiProvider.Comparison.Reports.{comp_func-disagree}
use go_sdk_contrib.MultiProvider.Comparison.Metadata.{fallback_read, default_read}
use go_sdk_contrib.MultiProvider.Comparison.Laws.{compared}
use go_sdk_contrib.MultiProvider.Comparison.Delivery.{
  Answers, concluded, answered, Delivered, gathered, NoFailure, compare_results-default,
  compare_results-fallback, compare_results-panics,
}

module _ {V E F X : Type 0} (sdk : Sdk E F X) (laws : SdkLaws sdk) (same : V → V → Bool)
    (ask : NamedProvider E F X → ResolutionDetail V E F X) (default : V)
    (fallback : Option (FeatureProvider E F X)) where
  module _ (providers : List (NamedProvider E F X)) (several : 1 < length providers)
      (events : List (Event V E F X)) (delivered : Delivered sdk ask providers events) where
    -- `q` and `r` have the flag, with values that differ.
    module _ {q r : NamedProvider E F X} (symm : (a b : V) → same a b ≡ true → same b a ≡ true)
        (trans : (a b c : V) → same a b ≡ true → same b c ≡ true → same a c ≡ true)
        (no_failure : NoFailure sdk ask providers) (mq : Mem q providers)
        (sq : Succeeds sdk (ask q).detail) (mr : Mem r providers) (sr : Succeeds sdk (ask r).detail)
        (reflexive : same (ask q).value (ask q).value ≡ true)
        (differ : same (ask q).value (ask r).value ≡ false) where
      disagreed : comp_func same (values events) ≡ some false
      disagreed =
          comp_func-disagree same symm trans (values events) (ask q).value (ask r).value
            (gathered sdk ask providers events laws delivered mq sq)
            (gathered sdk ask providers events laws delivered mr sr) reflexive differ

      -- If several providers all answer, none fails, and the values of two that have the flag
      -- differ by an equality that is symmetric and transitive, and that the first of them is
      -- equal to itself by, then with no fallback provider the default value is returned with a
      -- general error and the default reason.
      resolve-no_fallback :
          fallback ≡ none
          → Answers
              (resolve sdk same providers fallback ask default events)
              default
              (sdk.new_general "comparison failure")
              sdk.default_reason
      unfolding defaulted build_default_result
      resolve-no_fallback none_set =
          rw
            (
              compared sdk laws same ask default fallback providers several events delivered
                  no_failure mq sq,
              ap (answered sdk ask) none_set,
              compare_results-default sdk same default (results events) (values events) disagreed,
            )
            (concluded sdk _ [] _
              (default_read sdk laws same default (some "no fallback provider configured")))

      -- If several providers all answer, none fails, and the values of two that have the flag
      -- differ by an equality that is symmetric and transitive, and that the first of them is
      -- equal to itself by, then with a fallback provider whose answer has metadata the value of
      -- this answer is returned with no error, even if it has one, and the reason of a fallback.
      pub resolve-fallback :
          (f : FeatureProvider E F X) (m : Fields F X)
          → fallback ≡ some f
          → let answer = ask (record { name = "fallback"; provider = f }) in
            answer.detail.flag_metadata ≡ some m
            → Answers
                (resolve sdk same providers fallback ask default events)
                answer.value
                sdk.no_error
                reason_aggregated_fallback
      unfolding fallback_metadata
      resolve-fallback f m set has =
          rw
            (
              compared sdk laws same ask default fallback providers several events delivered
                  no_failure mq sq,
              ap (answered sdk ask) set,
              compare_results-fallback sdk same default (results events) (values events)
                  (ask (record { name = "fallback"; provider = f })) _ disagreed
                  (ap fallback_metadata has),
            )
            (concluded sdk _ [] _ (fallback_read sdk laws m))

      -- If several providers all answer, none fails, and the values of two that have the flag
      -- differ by an equality that is symmetric and transitive, and that the first of them is
      -- equal to itself by, then with a fallback provider whose answer has no metadata the method
      -- panics.
      resolve-fallback_panics :
          (f : FeatureProvider E F X)
          → fallback ≡ some f
          → (ask (record { name = "fallback"; provider = f })).detail.flag_metadata ≡ none
          → resolve sdk same providers fallback ask default events ≡ panics
      unfolding conclude
      resolve-fallback_panics f set has =
          rw
            (
              compared sdk laws same ask default fallback providers several events delivered
                  no_failure mq sq,
              ap (answered sdk ask) set,
              compare_results-panics sdk same default (results events) (values events)
                  (ask (record { name = "fallback"; provider = f })) disagreed has,
            )
            refl
