-- ===== src/Witnesses/Comparisons.antt =====
-- The comparison strategy on two providers.
use mathlib.Core.List.{Mem, mem-cons, mem-cons_self, not-mem-nil}
use mathlib.Core.List.Perm
use mathlib.Core.Logic.Or
use go_sdk_contrib.Common.{
  ℕ, ◌≡◌, refl, sym, ◌∙◌, Bool, true, false, inl, inr, none, some, [], ◌∷◌, arith, ap,
}
use go_sdk_contrib.OpenFeature.{empty, flag_not_found, general, no_code}
use go_sdk_contrib.MultiProvider.Strategies.{
  NamedProvider, wrap, reason_aggregated, reason_aggregated_fallback,
}
use go_sdk_contrib.MultiProvider.Strategies.Answers.{Succeeds}
use go_sdk_contrib.MultiProvider.Comparison.{Event, report, resolve}
use go_sdk_contrib.MultiProvider.Comparison.Delivery.{Answers}
use go_sdk_contrib.MultiProvider.Comparison.Methods.{same_bool}
use go_sdk_contrib.MultiProvider.Comparison.Laws.{resolve-failure, resolve-agreement}
use go_sdk_contrib.MultiProvider.Comparison.Disagreement.{resolve-fallback}
use go_sdk_contrib.Witnesses.Sdk.{Error, small_sdk, small_laws, named, provider, ask}

abbrev yes : NamedProvider Error ℕ ℕ
yes = named "yes" no_code true

abbrev no : NamedProvider Error ℕ ℕ
no = named "no" no_code false

abbrev missing : NamedProvider Error ℕ ℕ
missing = named "missing" flag_not_found false

abbrev broken : NamedProvider Error ℕ ℕ
broken = named "broken" general false

abbrev sent : NamedProvider Error ℕ ℕ → Event Bool Error ℕ ℕ
sent p = report small_sdk (wrap p (ask p))

resolve-failure_example :
    Answers
      (resolve small_sdk same_bool (yes ∷ broken ∷ []) none ask true (sent broken ∷ sent yes ∷ []))
      true
      (general, "comparison failure")
      "DEFAULT"
resolve-failure_example =
    resolve-failure small_sdk small_laws same_bool ask true none (yes ∷ broken ∷ []) (omega arith)
      (sent broken ∷ sent yes ∷ []) (Perm.swap (sent yes) (sent broken) [])
      (mem-cons.1 (Or.inr mem-cons_self)) (refl, λ e. cc)

-- every provider of this list answers true, or has no flag
all_true :
    (q : NamedProvider Error ℕ ℕ)
    → Mem q (yes ∷ missing ∷ [])
    → Succeeds small_sdk (ask q).detail
    → (ask q).value ≡ true
all_true q m s =
    Or.elim (hlevel) (mem-cons.0 m) (λ e. ap (λ (p : NamedProvider Error ℕ ℕ). (ask p).value) e)
      (λ m'.
        Or.elim (hlevel) (mem-cons.0 m')
          (λ e. absurd (
            unfound (
              sym (
                ap
                  (λ (p : NamedProvider Error ℕ ℕ).
                    small_sdk.has_error (ask p).detail.resolution_error)
                  e)
              ∙ s)))
          (λ none_left. absurd (not-mem-nil none_left)))
  where
    unfound : true ≡ false → ⊥
    unfound h = cc

agree :
    (q r : NamedProvider Error ℕ ℕ)
    → Mem q (yes ∷ missing ∷ [])
    → Mem r (yes ∷ missing ∷ [])
    → Succeeds small_sdk (ask q).detail
    → Succeeds small_sdk (ask r).detail
    → same_bool (ask q).value (ask r).value ≡ true
agree q r mq mr sq sr = rw (all_true q mq sq, all_true r mr sr) refl

same_bool_symm : (a b : Bool) → same_bool a b ≡ true → same_bool b a ≡ true
same_bool_symm true b h = rw h refl
same_bool_symm false true h = h
same_bool_symm false false h = refl

same_bool_trans :
    (a b c : Bool) → same_bool a b ≡ true → same_bool b c ≡ true → same_bool a c ≡ true
same_bool_trans true b c h g = rw h at g
same_bool_trans false true c h g = absurd (ground arith)
same_bool_trans false false c h g = g

resolve-agreement_example : ∥ (
    (q : NamedProvider Error ℕ ℕ) × Mem q (yes ∷ missing ∷ [])
    × Succeeds small_sdk (ask q).detail
    × Answers
        (resolve small_sdk same_bool
          (yes ∷ missing ∷ [])
          none
          ask
          false
          (sent missing ∷ sent yes ∷ []))
        (ask q).value
        (no_code, "")
        reason_aggregated) ∥₁
resolve-agreement_example =
    resolve-agreement small_sdk small_laws same_bool ask false none (yes ∷ missing ∷ [])
      (omega arith) (sent missing ∷ sent yes ∷ []) (Perm.swap (sent yes) (sent missing) [])
      (inl refl, (inr (refl, refl), tt)) mem-cons_self refl agree

resolve-fallback_example :
    Answers
      (resolve small_sdk same_bool
        (yes ∷ no ∷ [])
        (some (provider general true))
        ask
        false
        (sent yes ∷ sent no ∷ []))
      true
      (no_code, "")
      reason_aggregated_fallback
resolve-fallback_example =
    resolve-fallback small_sdk small_laws same_bool ask false (some (provider general true))
      (yes ∷ no ∷ []) (omega arith) (sent yes ∷ sent no ∷ []) (Perm.refl (sent yes ∷ sent no ∷ []))
      same_bool_symm same_bool_trans (inl refl, (inl refl, tt)) mem-cons_self refl
      (mem-cons.1 (Or.inr mem-cons_self)) refl refl refl (provider general true) empty refl refl
