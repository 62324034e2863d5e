-- ===== src/MultiProvider/Provider/Creation.antt =====
-- When NewMultiProvider of providers.go returns a provider.
use go_sdk_contrib.Common.{
  String, ◌≡◌, ◌≢◌, ◌↔◌, ◌⊎◌, refl, inl, inr, eq_iff, Option, none, some, List, [], ◌∷◌, All, arith,
  Sum-cases,
}
use go_sdk_contrib.MultiProvider.Strategies.{
  NamedProvider, strategy_first_match, strategy_first_success,
}
use go_sdk_contrib.MultiProvider.Provider.{
  Member, ProviderMap, Strategy, Configuration, MultiProvider, strategy_comparison, strategy_custom,
  validate, choose_strategy, configured, as_named_provider_slice, new_multi_provider,
}

-- a name and a provider that NewMultiProvider accepts
abbrev IsUsable : {E F X W : Type 0} → String × Option (Member E F X W) → Type 0
IsUsable (name, p) = (name ≢ "") × (p ≢ none)

validate-none : {E F X W : Type 0} (m : ProviderMap E F X W) → (validate m ≡ none) ↔ All IsUsable m
unfolding validate
validate-none [] = (λ h. tt, λ h. refl)
validate-none ((name, none) ∷ m) = (λ h. ground (arith, eq_iff name ""), λ h. absurd (h.0.1 refl))
validate-none ((name, some p) ∷ m) = (
  λ h. (
    (ground (arith, eq_iff name ""), λ e. cc),
    (validate-none m).0 (ground (arith, eq_iff name "")),
  ),
  λ h. ground (arith, eq_iff name "", (validate-none m).1 h.1, h.0.0),
)

-- the strategy is one of those of the package, or a custom one that is set
abbrev IsKnown : {E F X S : Type 0} → Configuration E F X S → String → Type 0
IsKnown config strategy =
    ((strategy ≡ strategy_first_match) ⊎ (strategy ≡ strategy_first_success))
    ⊎ (strategy ≡ strategy_comparison)
    ⊎ ((strategy ≡ strategy_custom) × (config.custom_strategy ≢ none))

choose_strategy-IsKnown :
    {E F X S : Type 0} (providers : List (NamedProvider E F X)) (config : Configuration E F X S)
    (strategy : String)
    → ((s : Strategy E F X S) × (choose_strategy providers config strategy ≡ inr s))
      ↔ IsKnown config strategy
unfolding choose_strategy
choose_strategy-IsKnown providers config strategy = (
  λ (s, e). ground (
    arith,
    eq_iff strategy strategy_first_match,
    eq_iff strategy strategy_first_success,
    eq_iff strategy strategy_comparison,
    eq_iff strategy strategy_custom,
  ),
  λ known. elim (Sum-cases (choose_strategy providers config strategy)) [
    | inr x ↦ x
    | inl (err, e) ↦ absurd (
        ground (
          arith,
          eq_iff strategy strategy_first_match,
          eq_iff strategy strategy_first_success,
          eq_iff strategy strategy_comparison,
          eq_iff strategy strategy_custom,
        ))
  ],
)

-- NewMultiProvider succeeds exactly if there is a provider, each has a name that is not empty and is
-- not nil, and the strategy is known, or custom and set by an option.
new_multi_provider-succeeds :
    {E F X W S : Type 0} (m : ProviderMap E F X W) (strategy : String)
    (options : List (Configuration E F X S → Configuration E F X S))
    → ((mp : MultiProvider E F X W S) × (new_multi_provider m strategy options ≡ inr mp))
      ↔ (m ≢ []) × All IsUsable m × IsKnown (configured options) strategy
unfolding new_multi_provider
new_multi_provider-succeeds [] strategy options = (λ (mp, e). cc, λ h. absurd (h.0 refl))
new_multi_provider-succeeds (p ∷ ps) strategy options =
    let named = as_named_provider_slice (p ∷ ps) in
    let valid = validate-none (p ∷ ps) in
    let known = choose_strategy-IsKnown named (configured options) strategy in
    (
      λ (mp, e).
          let validated : validate (p ∷ ps) ≡ none = ground arith in
          elim (Sum-cases (choose_strategy named (configured options) strategy)) [
            | inr (s, chosen) ↦ (λ h. cc, valid.0 validated, known.0 (s, chosen))
            | inl (err, failed) ↦ absurd (ground arith)
          ],
      λ h.
          let (s, chosen) = known.1 h.2 in
          let validated : validate (p ∷ ps) ≡ none = valid.1 h.1 in
          elim (Sum-cases (new_multi_provider (p ∷ ps) strategy options)) [
            | inr x ↦ x
            | inl (err, e) ↦ absurd (ground arith)
          ],
    )
