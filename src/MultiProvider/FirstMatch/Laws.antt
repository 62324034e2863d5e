-- ===== src/MultiProvider/FirstMatch/Laws.antt =====
-- Which provider's answer the first-match strategy of first_match.go returns.
use go_sdk_contrib.Common.{
  String, ◌≡◌, refl, true, false, none, some, List, [], ◌∷◌, ◌++◌, arith, ◌==◌, All, Bool-cases,
  inl, inr, eq_iff, if◌then◌else◌,
}
use go_sdk_contrib.OpenFeature.{
  string, get, entry, ProviderResolutionDetail, ResolutionDetail, Sdk, SdkLaws,
}
use go_sdk_contrib.MultiProvider.Strategies.{
  NamedProvider, strategy_first_match, metadata_successful_provider_name, metadata_strategy_used,
  build_default_result,
}
use go_sdk_contrib.MultiProvider.Strategies.Metadata.{
  entry-merge_flag_tags, entry-set_flag_metadata,
}
use go_sdk_contrib.MultiProvider.Strategies.Answers.{IsNotFound}
use go_sdk_contrib.MultiProvider.FirstMatch.{skips, marked, resolve}

module _ {E F X : Type 0} (sdk : Sdk E F X) where
  skips-IsNotFound : (d : ProviderResolutionDetail E F X) → IsNotFound sdk d → skips sdk d ≡ true
  unfolding skips
  skips-IsNotFound d h = ground arith

  skips-not_IsNotFound :
      (d : ProviderResolutionDetail E F X) → ¬ IsNotFound sdk d → skips sdk d ≡ false
  unfolding skips
  skips-not_IsNotFound d h = elim (Bool-cases (skips sdk d)) [
    | inl e ↦ absurd (h (ground arith, ground arith))
    | inr e ↦ e
  ]

  -- the text that stands under the provider-name key
  abbrev pub credited : String → ProviderResolutionDetail E F X → String
  credited name d = if sdk.has_error d.resolution_error then "none" else name

  entry-marked :
      (name : String) (d : ProviderResolutionDetail E F X) (k : String)
      → entry k (marked sdk name d) ≡ (
          if metadata_strategy_used == k
          then some (string strategy_first_match)
          else if metadata_successful_provider_name == k
          then some (string (credited name d))
          else entry k d.flag_metadata)
  unfolding marked get
  entry-marked name d k = elim (Bool-cases (sdk.has_error d.resolution_error)) [
    | inl e ↦ rw e (
        rw entry-merge_flag_tags (
          ground (
            arith,
            eq_iff metadata_strategy_used k,
            eq_iff metadata_successful_provider_name k,
            eq_iff metadata_strategy_used metadata_successful_provider_name,
          )))
    | inr e ↦ rw e (rw entry-set_flag_metadata refl)
  ]

  module _ {V : Type 0} (ask : NamedProvider E F X → ResolutionDetail V E F X) (default : V) where
    resolve-skip :
        (pre rest : List (NamedProvider E F X))
        → All (λ p. IsNotFound sdk (ask p).detail) pre
        → resolve sdk (pre ++ rest) ask default ≡ resolve sdk rest ask default
    unfolding resolve
    resolve-skip [] rest h = refl
    resolve-skip (p ∷ pre) rest h =
        rw (skips-IsNotFound (ask p).detail h.0) (resolve-skip pre rest h.1)

    resolve-head :
        (p : NamedProvider E F X) (post : List (NamedProvider E F X))
        → ¬ IsNotFound sdk (ask p).detail
        → resolve sdk (p ∷ post) ask default ≡ record {
          value = (ask p).value;
          detail = record ((ask p).detail) { flag_metadata = marked sdk p.name (ask p).detail };
        }
    unfolding resolve
    resolve-head p post n = rw (skips-not_IsNotFound (ask p).detail n)

    resolve-exhausted :
        (ps : List (NamedProvider E F X))
        → All (λ p. IsNotFound sdk (ask p).detail) ps
        → resolve sdk ps ask default
          ≡ (build_default_result sdk strategy_first_match default none).result
    unfolding resolve build_default_result
    resolve-exhausted [] h = refl
    resolve-exhausted (p ∷ ps) h =
        rw (skips-IsNotFound (ask p).detail h.0) (resolve-exhausted ps h.1)

    -- The first provider that does not answer FLAG_NOT_FOUND decides: its value, error, reason and
    -- variant are returned, whether it failed or not, and of its metadata all but two keys, which
    -- name the strategy and the provider ("none" if it failed).
    pub resolve-first_answer :
        (pre post : List (NamedProvider E F X)) (p : NamedProvider E F X) (k : String)
        → All (λ q. IsNotFound sdk (ask q).detail) pre
        → ¬ IsNotFound sdk (ask p).detail
        → let r = resolve sdk (pre ++ p ∷ post) ask default in
          (r.value ≡ (ask p).value)
          × (r.detail.resolution_error ≡ (ask p).detail.resolution_error)
          × (r.detail.reason ≡ (ask p).detail.reason)
          × (r.detail.variant ≡ (ask p).detail.variant)
          × (entry k r.detail.flag_metadata ≡ (
              if metadata_strategy_used == k
              then some (string strategy_first_match)
              else if metadata_successful_provider_name == k
              then some (string (credited p.name (ask p).detail))
              else entry k (ask p).detail.flag_metadata))
    resolve-first_answer pre post p k h n =
        rw (resolve-skip pre (p ∷ post) h, resolve-head p post n)
          (refl, refl, refl, refl, entry-marked p.name (ask p).detail k)

    -- If every provider answers FLAG_NOT_FOUND, the default value is returned with that code, the
    -- default reason, no variant, and metadata that name the strategy and no provider.
    resolve-every_skipped :
        SdkLaws sdk
        → (providers : List (NamedProvider E F X))
        → All (λ q. IsNotFound sdk (ask q).detail) providers
        → let r = resolve sdk providers ask default in
          (r.value ≡ default)
          × IsNotFound sdk r.detail
          × (r.detail.reason ≡ sdk.default_reason)
          × (r.detail.variant ≡ "")
          × (entry metadata_strategy_used r.detail.flag_metadata
              ≡ some (string strategy_first_match))
          × (entry metadata_successful_provider_name r.detail.flag_metadata ≡ some (string "none"))
    unfolding build_default_result get
    resolve-every_skipped laws ps h =
        rw (resolve-exhausted ps h)
          (refl, (laws.flag_not_found_error _, laws.flag_not_found_code _), refl, refl, refl, refl)
