-- ===== src/MultiProvider/Comparison/Metadata.antt =====
-- What comparisonResolutionReason and comparisonResolutionError of comparison.go read from the
-- metadata that each way out of the loop leaves.
use mathlib.Core.Option
use mathlib.Core.Option.{some-injective}
use go_sdk_contrib.Common.{
  String, ◌≡◌, ◌≢◌, refl, ◌⊎◌, inl, inr, Bool, true, false, Option, none, some, List, [], ◌∷◌,
  arith, ◌==◌, eq_iff, ap, Bool-cases,
}
use go_sdk_contrib.OpenFeature.{
  Any, bool, string, Fields, empty, get, put, get-put, FlagMetadata, Sdk, SdkLaws,
}
use go_sdk_contrib.MultiProvider.Strategies.{
  ResultWrapper, set_flag_metadata, build_default_result, metadata_fallback_used, reason_aggregated,
  reason_aggregated_fallback,
}
use go_sdk_contrib.MultiProvider.Comparison.{
  metadata_is_default, metadata_none_found, metadata_evaluation_error, to_any, put_results,
  agreement_metadata, fallback_metadata, marked_default, defaulted, comparison_resolution_reason,
  comparison_resolution_error,
}

module _ {F X : Type 0} where
  -- no entry, `false`, or the metadata of a provider that bears the name of the key
  IsFalsy : Option (Any F X) → Type 0
  IsFalsy o =
      (o ≡ none) ⊎ (o ≡ some (bool false)) ⊎ ((t : FlagMetadata F X) × (o ≡ some (to_any t)))

  to_any-ne-bool : (t : FlagMetadata F X) (b : Bool) → to_any t ≢ bool b
  to_any-ne-bool none b e = cc
  to_any-ne-bool (some m) b e = cc

  put-IsFalsy :
      (k j : String) (t : FlagMetadata F X) (m : Fields F X)
      → IsFalsy (get k m)
      → IsFalsy (get k (put j (to_any t) m))
  unfolding IsFalsy
  put-IsFalsy k j t m h = elim (Bool-cases (j == k)) [
    | inl e ↦ inr (inr (t, rw (get-put j k (to_any t) m, e)))
    | inr e ↦ rw (get-put j k (to_any t) m, e) h
  ]

  put_results-IsFalsy :
      {V E : Type 0} (k : String) (rs : List (ResultWrapper V E F X)) (m : Fields F X)
      → IsFalsy (get k m)
      → IsFalsy (get k (put_results rs m))
  unfolding put_results
  put_results-IsFalsy k [] m h = h
  put_results-IsFalsy k (r ∷ rs) m h =
      put_results-IsFalsy k rs (put r.name (to_any r.detail.flag_metadata) m)
        (put-IsFalsy k r.name r.detail.flag_metadata m h)

module _ {E F X : Type 0} (sdk : Sdk E F X) (laws : SdkLaws sdk) where
  falsy-ne-true :
      (m : Fields F X) (k : String)
      → IsFalsy (get k m)
      → (sdk.get_bool (some m) k ≡ none) ⊎ (sdk.get_bool (some m) k ≡ some false)
  unfolding IsFalsy
  falsy-ne-true m k (inl e) = inl (laws.get_bool_missing m k e)
  falsy-ne-true m k (inr (inl e)) = inr (laws.get_bool_found m k false e)
  falsy-ne-true m k (inr (inr (t, e))) =
      inl (laws.get_bool_mismatch m k (to_any t) e (to_any-ne-bool t))

  read_quiet :
      (m : Fields F X)
      → IsFalsy (get metadata_fallback_used m)
      → IsFalsy (get metadata_is_default m)
      → (comparison_resolution_error sdk (some m) ≡ sdk.no_error)
        × (comparison_resolution_reason sdk (some m) ≡ reason_aggregated)
  unfolding comparison_resolution_error comparison_resolution_reason
  read_quiet m f d = (
    ground (arith, falsy-ne-true m metadata_is_default d),
    ground (arith, falsy-ne-true m metadata_is_default d, falsy-ne-true m metadata_fallback_used f),
  )

  -- The metadata of an agreement speak of no error, no fallback and no default.
  pub agreement_read :
      {V : Type 0} (rs : List (ResultWrapper V E F X))
      → (comparison_resolution_error sdk (agreement_metadata rs) ≡ sdk.no_error)
        × (comparison_resolution_reason sdk (agreement_metadata rs) ≡ reason_aggregated)
  unfolding agreement_metadata get IsFalsy
  agreement_read rs =
      read_quiet _ (rw get-put (put_results-IsFalsy metadata_fallback_used rs _ (inr (inl refl))))
        (rw get-put (put_results-IsFalsy metadata_is_default rs _ (inr (inl refl))))

  -- So do those of a single provider's result.
  pub single_read :
      (strategy name : String)
      → let m =
          Option.map
            (put metadata_fallback_used (bool false))
            (set_flag_metadata strategy name (some empty)) in
        (comparison_resolution_error sdk m ≡ sdk.no_error)
        × (comparison_resolution_reason sdk m ≡ reason_aggregated)
  unfolding set_flag_metadata put get IsFalsy
  single_read strategy name = read_quiet _ (inr (inl refl)) (inl refl)

  read_fallback :
      (m : Fields F X)
      → get metadata_fallback_used m ≡ some (bool true)
      → get metadata_is_default m ≡ some (bool false)
      → (comparison_resolution_error sdk (some m) ≡ sdk.no_error)
        × (comparison_resolution_reason sdk (some m) ≡ reason_aggregated_fallback)
  unfolding comparison_resolution_error comparison_resolution_reason
  read_fallback m f d = (
    ground (arith, laws.get_bool_found m metadata_is_default false d),
    ground (arith, laws.get_bool_found m metadata_fallback_used true f),
  )

  -- Those of a fallback's answer speak of no error and of the fallback.
  pub fallback_read :
      (t : Fields F X)
      → (comparison_resolution_error sdk (fallback_metadata (some t)) ≡ sdk.no_error)
        × (comparison_resolution_reason sdk (fallback_metadata (some t))
            ≡ reason_aggregated_fallback)
  unfolding fallback_metadata
  fallback_read t = read_fallback _ (simp get-put) (simp get-put)

  read_default :
      (m : Fields F X)
      → get metadata_fallback_used m ≡ some (bool false)
      → get metadata_is_default m ≡ some (bool true)
      → get metadata_none_found m ≡ none
      → (sdk.get_string (some m) metadata_evaluation_error).1 ≡ false
        ⊎ ((sdk.get_string (some m) metadata_evaluation_error).0 ≡ "")
      → (comparison_resolution_error sdk (some m) ≡ sdk.new_general "comparison failure")
        × (comparison_resolution_reason sdk (some m) ≡ sdk.default_reason)
  unfolding comparison_resolution_error comparison_resolution_reason
  read_default m f d n s = (
    ground (
      arith,
      laws.get_bool_found m metadata_is_default true d,
      laws.get_bool_missing m metadata_none_found n,
      eq_iff (sdk.get_string (some m) metadata_evaluation_error).0 "",
    ),
    ground (
      arith,
      laws.get_bool_found m metadata_is_default true d,
      laws.get_bool_found m metadata_fallback_used false f,
    ),
  )

  -- Those of a default result speak of a general error, whatever led to it.
  pub default_read :
      {V : Type 0} (same : V → V → Bool) (default : V) (err : Option String)
      → (comparison_resolution_error sdk (defaulted sdk same default err marked_default).1
          ≡ sdk.new_general "comparison failure")
        × (comparison_resolution_reason sdk (defaulted sdk same default err marked_default).1
            ≡ sdk.default_reason)
  unfolding defaulted build_default_result get put
  default_read same default err =
      read_default _ refl refl refl (inr (ap (λ p. p.0) (laws.get_string_missing _ _ refl)))

  pub cancelled_read :
      {V : Type 0} (same : V → V → Bool) (default : V) (text : String)
      → let m =
          (defaulted sdk same default
            (some text)
            (λ m. put metadata_evaluation_error (string text) (marked_default m))).1 in
        (comparison_resolution_error sdk m ≡ sdk.new_general "comparison failure")
        × (comparison_resolution_reason sdk m ≡ sdk.default_reason)
  unfolding defaulted build_default_result get put
  cancelled_read same default text =
      read_default _ refl refl refl (inl (ap (λ p. p.1) (laws.get_string_found _ _ text refl)))
