-- ===== src/MultiProvider/Provider.antt =====
-- providers/multi-provider/pkg/{providers,options}.go: a MultiProvider from its creation to its
-- shutdown.
pub mod Creation
pub mod Lifecycle
use mathlib.Core.Option
use go_sdk_contrib.Common.{
  ℕ, zero, suc, ◌*◌, String, ◌⊎◌, inl, inr, ◌==◌, Bool, true, false, Option, none, some, List, [],
  ◌∷◌, map, Assoc, lookup, concat, sort, length, if◌then◌else◌,
}
use go_sdk_contrib.OpenFeature.{ℤ, pos, negsuc, State, ready_state, error_state, FeatureProvider}
use go_sdk_contrib.MultiProvider.Strategies.{
  NamedProvider, ProviderError, strategy_first_match, strategy_first_success,
}

abbrev pub strategy_comparison : String
strategy_comparison = "comparison"

abbrev pub strategy_custom : String
strategy_custom = "strategy-custom"

-- A provider of the map: its evaluations, the name of its metadata, and its Init and Shutdown if it
-- is a StateHandler. `W` is what the providers keep.
pub record Member (E F X W : Type 0) : Type 0 where
  pub provider : FeatureProvider E F X
  pub init : Option (W → W × Option String)
  pub shutdown : Option (W → W)

-- A ProviderMap in the order in which a `range` meets its keys; `none` is a nil provider.
abbrev pub ProviderMap : Type 0 → Type 0 → Type 0 → Type 0 → Type 0
ProviderMap E F X W = Assoc (Option (Member E F X W))

-- the strategies, with the parameters that NewMultiProvider gives them; `S` is a custom strategy
pub data Strategy (E F X S : Type 0) : Type 0 where
  first_match : List (NamedProvider E F X) → Strategy E F X S
  first_success : List (NamedProvider E F X) → ℤ → Strategy E F X S
  comparison : List (NamedProvider E F X) → Option (FeatureProvider E F X) → Strategy E F X S
  custom : S → Strategy E F X S

pub record Configuration (E F X S : Type 0) : Type 0 where
  pub use_fallback : Bool
  pub fallback_provider : Option (FeatureProvider E F X)
  pub custom_strategy : Option S
  pub publish_events : Bool
  pub timeout : ℤ

pub record MultiProvider (E F X W S : Type 0) : Type 0 where
  pub providers : ProviderMap E F X W
  pub metadata_name : String
  pub has_event_channel : Bool
  -- the zero value is no state
  pub status : Option State
  pub strategy : Strategy E F X S

module _ {E F X S : Type 0} where
  unfoldable pub with_timeout : ℤ → Configuration E F X S → Configuration E F X S
  with_timeout d conf = record conf { timeout = d }

  unfoldable pub with_fallback_provider :
      FeatureProvider E F X → Configuration E F X S → Configuration E F X S
  with_fallback_provider p conf = record conf { fallback_provider = some p; use_fallback = true }

  unfoldable pub with_custom_strategy : S → Configuration E F X S → Configuration E F X S
  with_custom_strategy s conf = record conf { custom_strategy = some s }

  unfoldable pub with_event_publishing : Configuration E F X S → Configuration E F X S
  with_event_publishing conf = record conf { publish_events = true }

  unfoldable pub without_event_publishing : Configuration E F X S → Configuration E F X S
  without_event_publishing conf = record conf { publish_events = false }

module _ {E F X W : Type 0} where
  -- AsNamedProviderSlice; NewMultiProvider has refused nil providers before
  pub as_named_provider_slice : ProviderMap E F X W → List (NamedProvider E F X)
  as_named_provider_slice [] = []
  as_named_provider_slice ((name, none) ∷ m) = as_named_provider_slice m
  as_named_provider_slice ((name, some p) ∷ m) =
      record { name = name; provider = p.provider } ∷ as_named_provider_slice m

  unfoldable pub size : ProviderMap E F X W → ℕ
  unfolding as_named_provider_slice
  size m = length (as_named_provider_slice m)

  -- the loop of buildMetadata over the sorted names
  pub describe : ProviderMap E F X W → String → String → List String → String
  unfolding lookup
  describe m meta_name separator [] = meta_name
  describe m meta_name separator (name ∷ names) =
      let provider_name : String = elim (lookup name m) [
        | some (some p) ↦ p.provider.name
        | _ ↦ ""
      ] in
      describe m (concat meta_name (concat separator (concat name (concat ": " provider_name))))
        (if separator == "" then ", " else separator) names

  unfoldable pub build_metadata : ProviderMap E F X W → String
  unfolding describe
  build_metadata m = concat (describe m "MultiProvider {" "" (sort (map (λ e. e.0) m))) "}"

  -- the validation loop; `some` is its error
  pub validate : ProviderMap E F X W → Option String
  validate [] = none
  validate ((name, provider) ∷ m) =
      if name == "" then some "provider name cannot be the empty string" else elim provider [
        | none ↦ some (concat "provider " (concat name " cannot be nil"))
        | some p ↦ validate m
      ]

pub apply_options : {C : Type 0} → List (C → C) → C → C
apply_options [] config = config
apply_options (opt ∷ options) config = apply_options options (opt config)

pub default_timeout : ℤ → ℤ
default_timeout (pos zero) = pos (5 * 1000000000)
default_timeout d = d

module _ {E F X S : Type 0} where
  -- the switch on the strategy; `%s` of a nil strategy is %!s(<nil>)
  unfoldable pub choose_strategy :
      List (NamedProvider E F X) → Configuration E F X S → String → String ⊎ Strategy E F X S
  choose_strategy providers config evaluation_strategy =
      if evaluation_strategy == strategy_first_match
      then inr (first_match providers)
      else if evaluation_strategy == strategy_first_success
      then inr (first_success providers config.timeout)
      else if evaluation_strategy == strategy_comparison
      then inr (comparison providers config.fallback_provider)
      else if evaluation_strategy == strategy_custom
      then elim config.custom_strategy [
        | some s ↦ inr (custom s)
        | none ↦ inl "A custom strategy must be set via an option if StrategyCustom is set"
      ]
      else inl "%!s(<nil>) is an unknown evalutation strategy"

  unfoldable pub configured :
      List (Configuration E F X S → Configuration E F X S) → Configuration E F X S
  unfolding apply_options default_timeout
  configured options =
      let config = apply_options options (record {
        use_fallback = false;
        fallback_provider = none;
        custom_strategy = none;
        publish_events = false;
        timeout = pos 0;
      }) in
      record config { timeout = default_timeout config.timeout }

  unfoldable pub new_multi_provider :
      {W : Type 0}
      → ProviderMap E F X W
      → String
      → List (Configuration E F X S → Configuration E F X S)
      → String ⊎ MultiProvider E F X W S
  unfolding validate build_metadata configured choose_strategy as_named_provider_slice
  new_multi_provider [] evaluation_strategy options = inl "providerMap cannot be nil or empty"
  new_multi_provider (e ∷ es) evaluation_strategy options = elim (validate (e ∷ es)) [
    | some err ↦ inl err
    | none ↦
        let config = configured options in
        elim (choose_strategy (as_named_provider_slice (e ∷ es)) config evaluation_strategy) [
          | inl err ↦ inl err
          | inr strategy ↦ inr (record {
            providers = e ∷ es;
            metadata_name = build_metadata (e ∷ es);
            has_event_channel = config.publish_events;
            status = none;
            strategy = strategy;
          })
        ]
  ]

-- A provider's Init in its goroutine: a provider that is no StateHandler has nothing to do.
unfoldable pub init_one :
    {E F X W : Type 0} → String → Option (Member E F X W) → W → W × Option (ProviderError String)
init_one name none w = (w, none)
init_one name (some p) w = elim p.init [
  | none ↦ (w, none)
  | some start ↦
      let (w', err) = start w in
      (w', Option.map (λ err. record { err = err; provider_name = name }) err)
]

-- The goroutines of Init in the order in which they end; eg.Wait returns the first error.
pub init_all : {E F X W : Type 0} → ProviderMap E F X W → W → W × Option (ProviderError String)
unfolding init_one
init_all [] w = (w, none)
init_all ((name, p) ∷ m) w =
    let (w', err) = init_one name p w in
    let (w'', later) = init_all m w' in (w'', elim err [ some e ↦ some e | none ↦ later ])

-- Init, if the goroutines end in the order of `ended`
unfoldable pub init :
    {E F X W S : Type 0}
    → ProviderMap E F X W
    → MultiProvider E F X W S
    → W
    → W × MultiProvider E F X W S × Option (ProviderError String)
unfolding init_all
init ended mp w =
    let (w', err) = init_all ended w in
    elim err [
      | some e ↦ (w', record mp { status = some error_state }, some e)
      | none ↦ (w', record mp { status = some ready_state }, none)
    ]

-- Shutdown, if the goroutines end in the order of the map given
unfoldable pub shutdown : {E F X W : Type 0} → ProviderMap E F X W → W → W
shutdown [] w = w
shutdown ((name, none) ∷ m) w = shutdown m w
shutdown ((name, some p) ∷ m) w = shutdown m (elim p.shutdown [ none ↦ w | some stop ↦ stop w ])
