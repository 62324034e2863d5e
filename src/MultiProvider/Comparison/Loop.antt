-- ===== src/MultiProvider/Comparison/Loop.antt =====
-- What the loop of comparison.go makes of a whole schedule of events.
use mathlib.Core.List.{append-nil, append_assoc}
use go_sdk_contrib.Common.{
  ℕ, ◌+◌, ◌≤◌, ◌<◌, ◌≡◌, ◌≢◌, refl, Bool, Option, none, some, List, [], ◌∷◌, ◌++◌, arith, length,
  total, total-le-length, length-append, eq_iff, ◌==◌, Option-cases, inl, inr, if◌then◌else◌,
}
use go_sdk_contrib.OpenFeature.{ResolutionDetail, Sdk, string, put}
use go_sdk_contrib.MultiProvider.Strategies.{ResultWrapper}
use go_sdk_contrib.MultiProvider.Comparison.{
  Event, received, not_found, done, returns, context_canceled, metadata_evaluation_error, defaulted,
  marked_default, compare_results, collect,
}

module _ {V E F X : Type 0} where
  abbrev pub find : Event V E F X → ℕ
  find (received r) = 1
  find _ = 0

  abbrev pub miss : Event V E F X → ℕ
  miss (not_found e) = 1
  miss _ = 0

  abbrev pub cancel : Event V E F X → ℕ
  cancel (done t) = 1
  cancel _ = 0

  -- 0 for an event that a goroutine can cause while the caller's context is not cancelled
  abbrev pub odd : Event V E F X → ℕ
  odd (received r) = elim r.value [ none ↦ 1 | some v ↦ 0 ]
  odd (not_found none) = 0
  odd (not_found (some t)) = 1
  odd (done t) = if t == context_canceled then 0 else 1

  -- the results and the values received, in their order
  abbrev pub results : List (Event V E F X) → List (ResultWrapper V E F X)
  results [] = []
  results (received r ∷ evs) = r ∷ results evs
  results (_ ∷ evs) = results evs

  abbrev pub values : List (Event V E F X) → List V
  values [] = []
  values (received r ∷ evs) = elim r.value [ none ↦ values evs | some v ↦ v ∷ values evs ]
  values (_ ∷ evs) = values evs

  find_le_one : (e : Event V E F X) → find e ≤ 1
  find_le_one (received r) = omega arith
  find_le_one _ = omega arith

  miss_le_one : (e : Event V E F X) → miss e ≤ 1
  miss_le_one (not_found e) = omega arith
  miss_le_one _ = omega arith

  pub misses_bounded : (evs : List (Event V E F X)) → total miss evs ≤ length evs
  misses_bounded evs = total-le-length miss miss_le_one evs

  pub kinds :
      (evs : List (Event V E F X)) → total find evs + total miss evs + total cancel evs ≡ length evs
  kinds [] = refl
  kinds (received r ∷ evs) = omega (arith, kinds evs)
  kinds (not_found t ∷ evs) = omega (arith, kinds evs)
  kinds (done t ∷ evs) = omega (arith, kinds evs)

module _ {E F X : Type 0} (sdk : Sdk E F X) where
  module _ {V : Type 0} (same : V → V → Bool) (default : V)
      (fallback : Option (ResolutionDetail V E F X)) (n : ℕ) where
    -- A cancellation ends the loop while results or misses are outstanding.
    pub collect-cancelled :
        (rs : List (ResultWrapper V E F X)) (vs : List V) (nf : ℕ) (evs : List (Event V E F X))
        → total odd evs ≡ 0
        → 0 < total cancel evs
        → length rs + nf + total find evs + total miss evs < n
        → collect sdk same default fallback n rs vs nf evs
          ≡ returns (
              defaulted sdk same default
                (some context_canceled)
                (λ m. put metadata_evaluation_error (string context_canceled) (marked_default m)))
    unfolding collect
    collect-cancelled rs vs nf [] o c l = absurd (omega arith)
    collect-cancelled rs vs nf (done t ∷ evs) o c l = ground (arith, eq_iff t context_canceled)
    collect-cancelled rs vs nf (not_found none ∷ evs) o c l =
        ground (arith, collect-cancelled rs vs (nf + 1) evs)
    collect-cancelled rs vs nf (not_found (some t) ∷ evs) o c l = absurd (omega arith)
    collect-cancelled rs vs nf (received r ∷ evs) o c l = elim (Option-cases r.value) [
      | inl e ↦ absurd (ground arith)
      | inr (v, e) ↦
          ground (
            arith,
            length-append rs (r ∷ []),
            collect-cancelled (rs ++ r ∷ []) (vs ++ v ∷ []) nf evs,
          )
    ]

    -- Without one, the loop compares all results once the last event has come, unless all miss.
    pub collect_complete :
        (rs : List (ResultWrapper V E F X)) (vs : List V) (nf : ℕ) (evs : List (Event V E F X))
        → total odd evs ≡ 0
        → total cancel evs ≡ 0
        → length rs + nf + length evs ≡ n
        → evs ≢ []
        → nf + total miss evs < n
        → collect sdk same default fallback n rs vs nf evs
          ≡ compare_results sdk same default fallback (rs ++ results evs) (vs ++ values evs)
    unfolding collect
    collect_complete rs vs nf [] o c l e m = absurd (e refl)
    collect_complete rs vs nf (done t ∷ evs) o c l e m = absurd (omega arith)
    collect_complete rs vs nf (not_found (some t) ∷ evs) o c l e m = absurd (omega arith)
    collect_complete rs vs nf (not_found none ∷ []) o c l e m =
        ground (arith, append-nil rs, append-nil vs)
    collect_complete rs vs nf (not_found none ∷ ev ∷ evs) o c l e m =
        ground (arith, collect_complete rs vs (nf + 1) (ev ∷ evs))
    collect_complete rs vs nf (received r ∷ []) o c l e m = elim (Option-cases r.value) [
      | inl g ↦ absurd (ground arith)
      | inr (v, g) ↦ ground (arith, length-append rs (r ∷ []))
    ]
    collect_complete rs vs nf (received r ∷ ev ∷ evs) o c l e m = elim (Option-cases r.value) [
      | inl g ↦ absurd (ground arith)
      | inr (v, g) ↦ ground (
        arith,
        length-append rs (r ∷ []),
        append_assoc rs (r ∷ []) (results (ev ∷ evs)),
        append_assoc vs (v ∷ []) (values (ev ∷ evs)),
        collect_complete (rs ++ r ∷ []) (vs ++ v ∷ []) nf (ev ∷ evs),
      )
    ]

    pub collect-all_missing :
        (nf : ℕ) (evs : List (Event V E F X))
        → total odd evs ≡ 0
        → total miss evs ≡ length evs
        → nf + length evs ≡ n
        → evs ≢ []
        → collect sdk same default fallback n [] [] nf evs
          ≡ returns (defaulted sdk same default none (marked_default))
    unfolding collect
    collect-all_missing nf [] o m l e = absurd (e refl)
    collect-all_missing nf (not_found none ∷ []) o m l e = ground arith
    collect-all_missing nf (not_found none ∷ ev ∷ evs) o m l e =
        ground (arith, collect-all_missing (nf + 1) (ev ∷ evs))
    collect-all_missing nf (not_found (some t) ∷ evs) o m l e = absurd (omega arith)
    collect-all_missing nf (received r ∷ evs) o m l e = absurd (omega (arith, misses_bounded evs))
    collect-all_missing nf (done t ∷ evs) o m l e = absurd (omega (arith, misses_bounded evs))
