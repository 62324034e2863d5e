-- ===== src/Witnesses/Strategies.antt =====
-- The first-match and first-success strategies on two providers.
use mathlib.Core.List.{Mem, mem-cons, mem-cons_self}
use mathlib.Core.List.Perm
use mathlib.Core.Logic.Or
use go_sdk_contrib.Common.{ℕ, ◌≡◌, refl, Bool, true, false, some, [], ◌∷◌}
use go_sdk_contrib.OpenFeature.{string, entry, flag_not_found, general, no_code}
use go_sdk_contrib.MultiProvider.Strategies.{
  NamedProvider, wrap, AggregateError, metadata_successful_provider_name,
}
use go_sdk_contrib.MultiProvider.Strategies.Answers.{Succeeds}
use go_sdk_contrib.MultiProvider.FirstMatch
use go_sdk_contrib.MultiProvider.FirstMatch.Laws.{resolve-first_answer}
use go_sdk_contrib.MultiProvider.FirstSuccess
use go_sdk_contrib.MultiProvider.FirstSuccess.Laws.{credited, resolve-success}
use go_sdk_contrib.Witnesses.Sdk.{Error, small_sdk, named, ask}

abbrev missing : NamedProvider Error ℕ ℕ
missing = named "missing" flag_not_found false

abbrev broken : NamedProvider Error ℕ ℕ
broken = named "broken" general false

abbrev working : NamedProvider Error ℕ ℕ
working = named "working" no_code true

resolve-first_answer_example :
    let r = FirstMatch.resolve small_sdk (missing ∷ broken ∷ working ∷ []) ask true in
    (r.value ≡ false)
    × (r.detail.resolution_error ≡ (general, ""))
    × (r.detail.reason ≡ "STATIC")
    × (r.detail.variant ≡ "on")
    × (entry metadata_successful_provider_name r.detail.flag_metadata ≡ some (string "none"))
resolve-first_answer_example =
    resolve-first_answer small_sdk ask true (missing ∷ []) (working ∷ []) broken
      metadata_successful_provider_name ((refl, refl), tt) (λ h. cc (h.1))

abbrev unsorted : AggregateError Error → AggregateError Error
unsorted m = m

abbrev sent : NamedProvider Error ℕ ℕ → FirstSuccess.Event Bool Error ℕ ℕ
sent p = FirstSuccess.report small_sdk p (wrap p (ask p))

resolve-success_example : ∥ (
    (q : NamedProvider Error ℕ ℕ) × Mem q (broken ∷ working ∷ [])
    × Succeeds small_sdk (ask q).detail
    × (FirstSuccess.resolve small_sdk unsorted
          (broken ∷ working ∷ [])
          false
          (sent working ∷ sent broken ∷ [])
        ≡ some (
            credited small_sdk unsorted
              (broken ∷ working ∷ [])
              ask
              false
              (sent working ∷ sent broken ∷ [])
              q))) ∥₁
resolve-success_example =
    resolve-success small_sdk unsorted (broken ∷ working ∷ []) ask false
      (sent working ∷ sent broken ∷ []) (Perm.swap (sent broken) (sent working) [])
      (mem-cons.1 (Or.inr mem-cons_self)) refl
