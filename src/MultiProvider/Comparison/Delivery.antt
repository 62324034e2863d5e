-- ===== src/MultiProvider/Comparison/Delivery.antt =====
-- The state of the loop of comparison.go once every provider has answered.
use mathlib.Core.Logic.{∥∥₁_elim, ∥∥₁_map}
use mathlib.Core.Option
use mathlib.Core.List.{Mem, mem-map_of_mem, exists_of_mem-map, mem-cons, mem-cons_self}
use mathlib.Core.Logic.Or
use mathlib.Core.List.Perm
use go_sdk_contrib.Common.{
  String, ◌<◌, ◌≡◌, refl, ap, Bool, true, false, Option, none, some, List, [], ◌∷◌, arith, length,
  length-Arrived, Arrived, never_event, total, All, ◌⊎◌,
}
use go_sdk_contrib.OpenFeature.{
  FeatureProvider, Fields, FlagMetadata, ResolutionDetail, ProviderResolutionDetail, Sdk, SdkLaws,
}
use go_sdk_contrib.MultiProvider.Strategies.{NamedProvider, ResultWrapper, wrap}
use go_sdk_contrib.MultiProvider.Strategies.Answers.{Succeeds, IsNotFound}
use go_sdk_contrib.MultiProvider.Comparison.{
  Event, received, not_found, done, Outcome, panics, returns, report, comp_func, compare_results,
  collect, evaluate_comparison, defaulted, marked_default, agreement_metadata, Results,
  comparison_resolution_error, comparison_resolution_reason, conclude, resolve, fallback_metadata,
}
use go_sdk_contrib.MultiProvider.Comparison.Loop.{find, odd, results, values}
use go_sdk_contrib.MultiProvider.Comparison.Reports.{
  report-Succeeds, report-received, report-odd, mem-values, values-mem,
}

-- The outcome is an answer with this value, error and reason.
abbrev pub Answers :
    {V E F X : Type 0} → Outcome (ResolutionDetail V E F X) → V → E → String → Type 0
Answers o v e reason =
    (d : ProviderResolutionDetail _ _ _) × (o ≡ returns (record { value = v; detail = d }))
    × (d.resolution_error ≡ e)
    × (d.reason ≡ reason)

-- No provider fails.
abbrev pub NoFailure :
    {V E F X : Type 0}
    → Sdk E F X
    → (NamedProvider E F X → ResolutionDetail V E F X)
    → List (NamedProvider E F X)
    → Type 0
NoFailure sdk ask providers =
    All (λ p. Succeeds sdk (ask p).detail ⊎ IsNotFound sdk (ask p).detail) providers

module _ {V E F X : Type 0} (sdk : Sdk E F X) where
  pub concluded :
      (r : ResultWrapper V E F X) (rs : List (ResultWrapper V E F X)) (m : FlagMetadata F X) {e : E}
      {reason : String}
      → (comparison_resolution_error sdk m ≡ e) × (comparison_resolution_reason sdk m ≡ reason)
      → Answers (conclude sdk (returns (r ∷ rs, m))) r.result.value e reason
  unfolding conclude
  concluded r rs m h = (
    record {
      resolution_error = comparison_resolution_error sdk m;
      reason = comparison_resolution_reason sdk m;
      variant = r.detail.variant;
      flag_metadata = m;
    },
    refl,
    h.0,
    h.1,
  )

module _ {V E F X : Type 0} (sdk : Sdk E F X)
    (ask : NamedProvider E F X → ResolutionDetail V E F X) where
  -- what the fallback provider answers
  abbrev pub answered : Option (FeatureProvider E F X) → Option (ResolutionDetail V E F X)
  answered fallback = Option.map (λ f. ask (record { name = "fallback"; provider = f })) fallback

  -- With several providers the method concludes from what the loop makes of the events.
  pub resolve-collected :
      (same : V → V → Bool) (default : V) (fallback : Option (FeatureProvider E F X))
      (providers : List (NamedProvider E F X)) (events : List (Event V E F X))
      {o : Outcome (Results V E F X)}
      → 1 < length providers
      → collect sdk same default (answered fallback) (length providers) [] [] 0 events ≡ o
      → resolve sdk same providers fallback ask default events ≡ conclude sdk o
  unfolding resolve evaluate_comparison
  resolve-collected same default fallback [] events h e = absurd (omega arith)
  resolve-collected same default fallback (p ∷ []) events h e = absurd (omega arith)
  resolve-collected same default fallback (p ∷ q ∷ ps) events h e = ap (conclude sdk) e

  module _ (providers : List (NamedProvider E F X)) (events : List (Event V E F X)) where
    -- every provider has answered, in some order, and the caller has not cancelled
    abbrev pub Delivered : Type 0
    Delivered = Arrived (λ p. report sdk (wrap p (ask p))) providers events

    pub no_odd : Delivered → total odd events ≡ 0
    no_odd d =
        never_event (λ p. report sdk (wrap p (ask p))) providers events odd
          (λ p. report-odd sdk p (ask p)) d

    pub n_events : Delivered → length events ≡ length providers
    n_events d = length-Arrived (λ p. report sdk (wrap p (ask p))) providers events d

    module _ (laws : SdkLaws sdk) where
      -- A provider's value is among those gathered.
      pub gathered :
          {p : NamedProvider E F X}
          → Delivered
          → Mem p providers
          → Succeeds sdk (ask p).detail
          → Mem (ask p).value (values events)
      gathered {p} d m s =
          let sent = (Perm.mem_iff d).1 (mem-map_of_mem (λ p. report sdk (wrap p (ask p))) m) in
          mem-values (wrap p (ask p)) (ask p).value events refl
            (rw (report-Succeeds sdk laws (wrap p (ask p)) s) at sent)

      -- A result that was received is a provider's.
      pub received_from :
          {r : ResultWrapper V E F X}
          → Delivered
          → Mem (received r) events
          → ∥ (
              (q : NamedProvider E F X) × Mem q providers
              × Succeeds sdk (ask q).detail
              × (wrap q (ask q) ≡ r)) ∥₁
      received_from {r} d m = ∥∥₁_map (exists_of_mem-map ((Perm.mem_iff d).0 m)) λ (q, mq, e).
          let (s, same) = report-received sdk laws (wrap q (ask q)) e in (q, mq, s, same)

      -- A value that was gathered is a provider's.
      pub gathered_from :
          {v : V}
          → Delivered
          → Mem v (values events)
          → ∥ (
              (q : NamedProvider E F X) × Mem q providers
              × Succeeds sdk (ask q).detail
              × ((ask q).value ≡ v)) ∥₁
      gathered_from {v} d m = ∥∥₁_elim (values-mem v events m) squash₁ λ (r, mr, e).
          ∥∥₁_map (received_from d mr)
            λ (q, mq, s, same). (q, mq, s, cc (ap (λ (r : ResultWrapper V E F X). r.value) same))

-- the first of the results received
pub results-head :
    {V E F X : Type 0} (evs : List (Event V E F X))
    → 0 < total find evs
    → (r : ResultWrapper V E F X) × (rs : List (ResultWrapper V E F X)) × (results evs ≡ r ∷ rs)
      × Mem (received r) evs
results-head [] h = absurd (omega arith)
results-head (received r ∷ evs) h = (r, results evs, refl, mem-cons_self)
results-head (not_found t ∷ evs) h =
    let (r, rs, e, m) = results-head evs (omega arith) in (r, rs, e, mem-cons.1 (Or.inr m))
results-head (done t ∷ evs) h =
    let (r, rs, e, m) = results-head evs (omega arith) in (r, rs, e, mem-cons.1 (Or.inr m))

module _ {V E F X : Type 0} (sdk : Sdk E F X) (same : V → V → Bool) (default : V)
    (rs : List (ResultWrapper V E F X)) (vs : List V) where
  pub compare_results-agree :
      (fallback : Option (ResolutionDetail V E F X))
      → comp_func same vs ≡ some true
      → compare_results sdk same default fallback rs vs ≡ returns (rs, agreement_metadata rs)
  unfolding compare_results
  compare_results-agree fallback h = rw (h, compare_results)

  pub compare_results-default :
      comp_func same vs ≡ some false
      → compare_results sdk same default none rs vs
        ≡ returns
            (defaulted sdk same default (some "no fallback provider configured") marked_default)
  unfolding compare_results
  compare_results-default h = rw (h, compare_results)

  pub compare_results-fallback :
      (answer : ResolutionDetail V E F X) (m : Fields F X)
      → comp_func same vs ≡ some false
      → fallback_metadata answer.detail.flag_metadata ≡ some m
      → compare_results sdk same default (some answer) rs vs
        ≡ returns (
          record {
            name = "fallback";
            result = answer;
            value = some answer.value;
            detail = answer.detail;
          }
              ∷ [],
          some m,
        )
  unfolding compare_results
  compare_results-fallback answer m h e = rw (h, compare_results) (rw (e, compare_results))

  pub compare_results-panics :
      (answer : ResolutionDetail V E F X)
      → comp_func same vs ≡ some false
      → answer.detail.flag_metadata ≡ none
      → compare_results sdk same default (some answer) rs vs ≡ panics
  unfolding compare_results fallback_metadata
  compare_results-panics answer h e = rw (h, compare_results) (rw (e, compare_results))
