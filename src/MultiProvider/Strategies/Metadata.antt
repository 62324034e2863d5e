-- ===== src/MultiProvider/Strategies/Metadata.antt =====
-- What a reader finds under a key of the metadata that the strategies write.
use go_sdk_contrib.Common.{
  String, ◌≡◌, refl, Option, none, some, [], ◌∷◌, arith, ◌==◌, if◌then◌else◌,
}
use go_sdk_contrib.OpenFeature.{
  string, empty, get, put_all, get-put, get-put_all, FlagMetadata, entry,
}
use go_sdk_contrib.MultiProvider.Strategies.{
  metadata_successful_provider_name, metadata_strategy_used, merge_flag_tags, set_flag_metadata,
}

-- the later of two values under one key
abbrev pub latest : {V : Type 0} → Option V → Option V → Option V
latest none earlier = earlier
latest (some v) earlier = some v

module _ {F X : Type 0} (k : String) where
  -- Of two maps that are merged the second wins.
  pub entry-merge_flag_tags :
      (t u : FlagMetadata F X)
      → entry k (merge_flag_tags (t ∷ u ∷ [])) ≡ latest (entry k u) (entry k t)
  unfolding merge_flag_tags get
  entry-merge_flag_tags none none = refl
  entry-merge_flag_tags none (some u) = ground (arith, get-put_all {F = F} {X = X} k u empty)
  entry-merge_flag_tags (some t) none = ground (arith, get-put_all {F = F} {X = X} k t empty)
  entry-merge_flag_tags (some t) (some u) = ground (
    arith,
    get-put_all {F = F} {X = X} k t empty,
    get-put_all {F = F} {X = X} k u (put_all t empty),
  )

  pub entry-set_flag_metadata :
      (strategy name : String) (t : FlagMetadata F X)
      → entry k (set_flag_metadata strategy name t) ≡ (
          if metadata_strategy_used == k
          then some (string strategy)
          else if metadata_successful_provider_name == k
          then some (string name)
          else entry k t)
  unfolding set_flag_metadata get
  entry-set_flag_metadata strategy name none = simp get-put
  entry-set_flag_metadata strategy name (some t) = simp get-put
