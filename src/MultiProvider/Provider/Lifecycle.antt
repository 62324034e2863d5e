-- ===== src/MultiProvider/Provider/Lifecycle.antt =====
-- Init, Status and Shutdown of providers.go.
use go_sdk_contrib.Common.{
  String, ◌≡◌, ◌↔◌, refl, inl, inr, Option, none, some, [], ◌∷◌, All, arith, Option-cases,
}
use go_sdk_contrib.OpenFeature.{ready_state, error_state}
use go_sdk_contrib.MultiProvider.Strategies.{ProviderError}
use go_sdk_contrib.MultiProvider.Provider.{
  Member, ProviderMap, MultiProvider, init_one, init_all, init,
}

-- the error of a provider's Init when it is run in a state
abbrev pub init_error :
    {E F X W : Type 0} → String × Option (Member E F X W) → W → Option (ProviderError String)
init_error (name, p) w = (init_one name p w).1

init_all-fails :
    {E F X W : Type 0} (ended : ProviderMap E F X W) (v w : W)
    → All (λ p. (u : W) → init_error p u ≡ init_error p w) ended
    → ((init_all ended v).1 ≡ none) ↔ All (λ p. init_error p w ≡ none) ended
unfolding init_all
init_all-fails [] v w h = (λ e. tt, λ e. refl)
init_all-fails ((name, p) ∷ m) v w h =
    let rest = init_all-fails m (init_one name p v).0 w h.1 in
    let same = h.0 v in
    (
      λ e. (ground (arith, same), rest.0 (ground (arith, same))),
      λ (f, fs). ground (arith, same, rest.1 fs),
    )

-- If whether the Init of each provider fails does not depend on the others, Init returns an error
-- exactly if the Init of some provider fails, in whatever order they end; the status is READY
-- after Init if it returns nil, and ERROR if it returns an error.
init-status :
    {E F X W S : Type 0} (ended : ProviderMap E F X W) (mp : MultiProvider E F X W S) (w : W)
    → All (λ p. (v : W) → init_error p v ≡ init_error p w) ended
    → ((init ended mp w).2 ≡ none ↔ All (λ p. init_error p w ≡ none) ended)
      × ((init ended mp w).1.status
          ≡ elim (init ended mp w).2 [ none ↦ some ready_state | some _ ↦ some error_state ])
unfolding init
init-status ended mp w h = elim (Option-cases (init_all ended w).1) [
  | inl e ↦ (ground (arith, init_all-fails ended w w h), ground arith)
  | inr (err, e) ↦ (ground (arith, init_all-fails ended w w h), ground arith)
]
