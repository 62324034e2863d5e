-- ===== src/MultiProvider/FirstSuccess/Counts.antt =====
-- How many events of each kind a schedule of the loop in first_success.go holds, and what the loop
-- makes of them.
use go_sdk_contrib.Common.{
  ℕ, ◌+◌, ◌<◌, ◌≡◌, Option, none, some, List, [], ◌∷◌, ◌++◌, length, total, total-le-length,
  length-append, ◌≤◌, ◌≢◌, String, arith,
}
use mathlib.Core.List.{append-nil, append_assoc}
use go_sdk_contrib.OpenFeature.{FlagMetadata, Sdk}
use go_sdk_contrib.MultiProvider.Strategies.{ProviderError, AggregateError, ResultWrapper}
use go_sdk_contrib.MultiProvider.FirstSuccess.{
  Event, finished, failed, not_found, done, success_metadata, aggregated, defaulted, collect,
}

module _ {V E F X : Type 0} where
  abbrev pub win : Event V E F X → ℕ
  win (finished r) = 1
  win _ = 0

  abbrev pub failure : Event V E F X → ℕ
  failure (failed e) = 1
  failure _ = 0

  abbrev pub miss : Event V E F X → ℕ
  miss not_found = 1
  miss _ = 0

  abbrev pub cancel : Event V E F X → ℕ
  cancel (done t) = 1
  cancel _ = 0

  failure_le_one : (e : Event V E F X) → failure e ≤ 1
  failure_le_one (failed e) = omega arith
  failure_le_one _ = omega arith

  miss_le_one : (e : Event V E F X) → miss e ≤ 1
  miss_le_one not_found = omega arith
  miss_le_one _ = omega arith

  pub failures_bounded : (evs : List (Event V E F X)) → total failure evs ≤ length evs
  failures_bounded evs = total-le-length failure failure_le_one evs

  pub misses_bounded : (evs : List (Event V E F X)) → total miss evs ≤ length evs
  misses_bounded evs = total-le-length miss miss_le_one evs

  -- the errors received, in their order
  abbrev pub errors : List (Event V E F X) → List (ProviderError E)
  errors [] = []
  errors (failed e ∷ evs) = e ∷ errors evs
  errors (_ ∷ evs) = errors evs

  abbrev pub first_win : List (Event V E F X) → Option (ResultWrapper V E F X)
  first_win [] = none
  first_win (finished r ∷ evs) = some r
  first_win (_ ∷ evs) = first_win evs

  -- what the loop returns for a success
  abbrev pub won :
      Option (ResultWrapper V E F X) → Option (ResultWrapper V E F X × FlagMetadata F X)
  won none = none
  won (some r) = some (r, success_metadata r.name)

module _ {E F X : Type 0} (sdk : Sdk E F X) (range : AggregateError E → AggregateError E) where
  module _ {V : Type 0} (n : ℕ) (default : V) where
    -- Short of n failures and n misses, and with no deadline, the loop returns the first success,
    -- and waits if there is none.
    pub collect-first_win :
        (errs : List (ProviderError E)) (nf : ℕ) (evs : List (Event V E F X))
        → total cancel evs ≡ 0
        → length errs + total failure evs < n
        → nf + total miss evs < n
        → collect sdk range n default errs nf evs ≡ won (first_win evs)
    unfolding collect
    collect-first_win errs nf [] c f m = ground arith
    collect-first_win errs nf (finished r ∷ evs) c f m = ground arith
    collect-first_win errs nf (failed e ∷ evs) c f m =
        ground (arith, length-append errs (e ∷ []), collect-first_win (errs ++ e ∷ []) nf evs)
    collect-first_win errs nf (not_found ∷ evs) c f m =
        ground (arith, collect-first_win errs (nf + 1) evs)
    collect-first_win errs nf (done t ∷ evs) c f m = absurd (omega arith)

    -- A loop that receives nothing but failures, n in all with those of `errs`, aggregates them.
    pub collect-all_failed :
        (errs : List (ProviderError E)) (nf : ℕ) (evs : List (Event V E F X))
        → total failure evs ≡ length evs
        → length errs + length evs ≡ n
        → collect sdk range n default errs nf evs
          ≡ some (aggregated sdk range default (errs ++ errors evs))
    unfolding collect
    collect-all_failed errs nf [] f l = ground (arith, append-nil errs)
    collect-all_failed errs nf (failed e ∷ evs) f l = ground (
      arith,
      append_assoc errs (e ∷ []) (errors evs),
      collect-all_failed (errs ++ e ∷ []) nf evs (omega arith)
          (omega (arith, length-append errs (e ∷ []))),
    )
    collect-all_failed errs nf (not_found ∷ evs) f l = absurd (omega (arith, failures_bounded evs))
    collect-all_failed errs nf (finished r ∷ evs) f l = absurd (omega (arith, failures_bounded evs))
    collect-all_failed errs nf (done t ∷ evs) f l = absurd (omega (arith, failures_bounded evs))

    -- A loop that receives nothing but misses, n in all, returns the default of a missing flag.
    pub collect-all_missing :
        (nf : ℕ) (evs : List (Event V E F X))
        → total miss evs ≡ length evs
        → nf + length evs ≡ n
        → nf < n
        → collect sdk range n default [] nf evs ≡ some (defaulted sdk range default none)
    unfolding collect
    collect-all_missing nf [] m l h = absurd (omega arith)
    collect-all_missing nf (not_found ∷ []) m l h = ground arith
    collect-all_missing nf (not_found ∷ ev ∷ evs) m l h =
        ground
          (arith, collect-all_missing (nf + 1) (ev ∷ evs) (omega arith) (omega arith) (omega arith))
    collect-all_missing nf (finished r ∷ evs) m l h = absurd (omega (arith, misses_bounded evs))
    collect-all_missing nf (failed e ∷ evs) m l h = absurd (omega (arith, misses_bounded evs))
    collect-all_missing nf (done t ∷ evs) m l h = absurd (omega (arith, misses_bounded evs))

    -- At the deadline the loop ends, whatever it has received before.
    pub collect-ends :
        (errs : List (ProviderError E)) (nf : ℕ) (evs rest : List (Event V E F X)) (t : String)
        → collect sdk range n default errs nf (evs ++ done t ∷ rest) ≢ none
    unfolding collect
    collect-ends errs nf [] rest t = ground arith
    collect-ends errs nf (finished r ∷ evs) rest t = ground arith
    collect-ends errs nf (failed e ∷ evs) rest t =
        ground (arith, collect-ends (errs ++ e ∷ []) nf evs rest t)
    collect-ends errs nf (not_found ∷ evs) rest t =
        ground (arith, collect-ends errs (nf + 1) evs rest t)
    collect-ends errs nf (done u ∷ evs) rest t = ground arith
