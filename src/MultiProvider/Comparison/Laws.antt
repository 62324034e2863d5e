-- ===== src/MultiProvider/Comparison/Laws.antt =====
-- What the comparison strategy of comparison.go returns, in whatever order the answers arrive.
use mathlib.Core.Logic.{∥∥₁_elim, ∥∥₁_map}
use mathlib.Core.List.{Mem, not-mem-nil}
use mathlib.Core.Path.{subst}
use go_sdk_contrib.Common.{
  ◌<◌, ◌≡◌, ◌⊎◌, ap, Bool, true, Option, none, some, List, [], ◌∷◌, arith, length, every_event,
  no_event, some_event, total, All, inl, inr,
}
use go_sdk_contrib.OpenFeature.{FeatureProvider, ResolutionDetail, Sdk, SdkLaws}
use go_sdk_contrib.MultiProvider.Strategies.{
  NamedProvider, wrap, build_default_result, reason_aggregated,
}
use go_sdk_contrib.MultiProvider.Strategies.Answers.{Succeeds, IsNotFound, Fails}
use go_sdk_contrib.MultiProvider.Comparison.{
  Event, context_canceled, report, comp_func, compare_results, evaluate_comparison, defaulted,
  conclude, resolve, evaluate_single,
}
use go_sdk_contrib.MultiProvider.Comparison.Loop.{
  find, miss, cancel, results, values, kinds, collect-cancelled, collect_complete,
  collect-all_missing,
}
use go_sdk_contrib.MultiProvider.Comparison.Reports.{
  report-Succeeds, report-IsNotFound, report-Fails, comp_func-agree,
}
use go_sdk_contrib.MultiProvider.Comparison.Metadata.{
  agreement_read, single_read, default_read, cancelled_read,
}
use go_sdk_contrib.MultiProvider.Comparison.Delivery.{
  Answers, concluded, answered, resolve-collected, Delivered, no_odd, n_events, gathered, NoFailure,
  received_from, gathered_from, results-head, compare_results-agree,
}

module _ {V E F X : Type 0} (sdk : Sdk E F X) (laws : SdkLaws sdk) (same : V → V → Bool)
    (ask : NamedProvider E F X → ResolutionDetail V E F X) (default : V)
    (fallback : Option (FeatureProvider E F X)) where
  -- With a single provider its value is returned with no error and the aggregated reason, even if
  -- the provider failed.
  resolve-single :
      (p : NamedProvider E F X) (events : List (Event V E F X))
      → Answers
          (resolve sdk same (p ∷ []) fallback ask default events)
          (ask p).value
          sdk.no_error
          reason_aggregated
  unfolding resolve evaluate_comparison evaluate_single
  resolve-single p events = concluded sdk (wrap p (ask p)) [] _ (single_read sdk laws _ _)

  module _ (providers : List (NamedProvider E F X)) (several : 1 < length providers)
      (events : List (Event V E F X)) (delivered : Delivered sdk ask providers events) where
    -- If several providers all answer and one of them fails with a code other than
    -- FLAG_NOT_FOUND, the default value is returned with a general error and the default reason,
    -- whatever the order of the answers.
    pub resolve-failure :
        {p : NamedProvider E F X}
        → Mem p providers
        → Fails sdk (ask p).detail
        → Answers
            (resolve sdk same providers fallback ask default events)
            default
            (sdk.new_general "comparison failure")
            sdk.default_reason
    unfolding defaulted build_default_result
    resolve-failure {p} m f =
        let one : 0 < total cancel events = omega (
          arith,
          some_event (λ p. report sdk (wrap p (ask p))) providers events cancel delivered m,
          ap cancel (report-Fails sdk laws (wrap p (ask p)) f),
        ) in
        rw
          (resolve-collected sdk ask same default fallback providers events several (
            collect-cancelled sdk same default (answered sdk ask fallback) (length providers) [] []
              0 events (no_odd sdk ask providers events delivered) one
              (omega (arith, kinds events, n_events sdk ask providers events delivered))))
          (concluded sdk _ [] _ (cancelled_read sdk laws same default context_canceled))

    -- If several providers all answer FLAG_NOT_FOUND, the default value is returned with a
    -- general error, not with FLAG_NOT_FOUND, and the default reason.
    resolve-none_found :
        All (λ p. IsNotFound sdk (ask p).detail) providers
        → Answers
            (resolve sdk same providers fallback ask default events)
            default
            (sdk.new_general "comparison failure")
            sdk.default_reason
    unfolding defaulted build_default_result
    resolve-none_found a =
        let all : total miss events ≡ length providers =
          every_event (λ p. report sdk (wrap p (ask p))) providers events miss _
            (λ p h. ap miss (report-IsNotFound sdk laws (wrap p (ask p)) h)) delivered a in
        rw
          (resolve-collected sdk ask same default fallback providers events several (
            collect-all_missing sdk same default (answered sdk ask fallback) (length providers) 0
              events (no_odd sdk ask providers events delivered)
              (omega (arith, all, n_events sdk ask providers events delivered))
              (omega (arith, n_events sdk ask providers events delivered))
              (ground (arith, n_events sdk ask providers events delivered))))
          (concluded sdk _ [] _ (default_read sdk laws same default none))

    no_cancel : NoFailure sdk ask providers → total cancel events ≡ 0
    no_cancel a =
        no_event (λ p. report sdk (wrap p (ask p))) providers events cancel _
          (λ p h. uncancelled p h) delivered a
      where
        uncancelled :
            (p : NamedProvider E F X)
            → Succeeds sdk (ask p).detail ⊎ IsNotFound sdk (ask p).detail
            → cancel (report sdk (wrap p (ask p))) ≡ 0
        uncancelled p (inl s) = ap cancel (report-Succeeds sdk laws (wrap p (ask p)) s)
        uncancelled p (inr n) = ap cancel (report-IsNotFound sdk laws (wrap p (ask p)) n)

    one_found :
        {p : NamedProvider E F X}
        → Mem p providers
        → Succeeds sdk (ask p).detail
        → 0 < total find events
    one_found {p} m s = omega (
      arith,
      some_event (λ p. report sdk (wrap p (ask p))) providers events find delivered m,
      ap find (report-Succeeds sdk laws (wrap p (ask p)) s),
    )

    -- Then the loop compares the values of the providers that have the flag.
    pub compared :
        {p : NamedProvider E F X}
        → NoFailure sdk ask providers
        → Mem p providers
        → Succeeds sdk (ask p).detail
        → resolve sdk same providers fallback ask default events
          ≡ conclude sdk (
              compare_results sdk same default
                (answered sdk ask fallback)
                (results events)
                (values events))
    compared a m s = resolve-collected sdk ask same default fallback providers events several (
        collect_complete sdk same default (answered sdk ask fallback) (length providers) [] [] 0
          events (no_odd sdk ask providers events delivered) (no_cancel a)
          (omega (arith, n_events sdk ask providers events delivered))
          (ground (arith, n_events sdk ask providers events delivered))
          (omega (arith, kinds events, one_found m s, n_events sdk ask providers events delivered)))

    -- If several providers all answer, none fails, one has the flag, and the values of those that
    -- have it are equal pairwise, then the value of one of them is returned, with no error and
    -- the aggregated reason, whatever the order of the answers.
    pub resolve-agreement :
        {p : NamedProvider E F X}
        → NoFailure sdk ask providers
        → Mem p providers
        → Succeeds sdk (ask p).detail
        → ((q r : NamedProvider E F X)
            → Mem q providers
            → Mem r providers
            → Succeeds sdk (ask q).detail
            → Succeeds sdk (ask r).detail
            → same (ask q).value (ask r).value ≡ true)
        → ∥ (
            (q : NamedProvider E F X) × Mem q providers
            × Succeeds sdk (ask q).detail
            × Answers
                (resolve sdk same providers fallback ask default events)
                (ask q).value
                sdk.no_error
                reason_aggregated) ∥₁
    resolve-agreement {p} a m s agree =
        let comp : comp_func same (values events) ≡ some true =
          comp_func-agree same (values events)
            (λ e. not-mem-nil (
              subst (λ vs. Mem (ask p).value vs) e
                (gathered sdk ask providers events laws delivered m s)))
            (λ v w mv mw.
              ∥∥₁_elim (gathered_from sdk ask providers events laws delivered mv) (hlevel)
                λ (q, mq, sq, eq).
                  ∥∥₁_elim (gathered_from sdk ask providers events laws delivered mw) (hlevel)
                    λ (r, mr, sr, er). rw (← eq, ← er) (agree q r mq mr sq sr)) in
        let (r, rs, er, mr) = results-head events (one_found m s) in
        ∥∥₁_map (received_from sdk ask providers events laws delivered mr)
          λ (q, mq, sq, same_result). (
            q,
            mq,
            sq,
            rw
                (
                  compared a m s,
                  compare_results-agree sdk same default (results events) (values events)
                      (answered sdk ask fallback) comp,
                  er,
                  ← same_result,
                )
                (concluded sdk (wrap q (ask q)) rs _
                  (agreement_read sdk laws (wrap q (ask q) ∷ rs))),
          )
