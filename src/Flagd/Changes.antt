-- ===== src/Flagd/Changes.antt =====
-- handleConfigurationChangeEvent of providers/flagd/pkg/service/rpc/service.go.
use go_sdk_contrib.Common.{
  String, ◌≡◌, refl, inl, inr, true, Option, none, some, List, [], ◌∷◌, ◌++◌, lookup, erase,
  lookup-erase, arith, if◌then◌else◌, Option-cases,
}
use go_sdk_contrib.OpenFeature.{object, Fields, empty, field, get}
use go_sdk_contrib.Flagd.Cache.{
  CacheOps, Backend, mem, in_memory, Service, cache_purge, cache_remove,
}

module _ {F X : Type 0} where
  -- the keys of a map, and a slice of as many empty strings
  unfoldable pub keys : Fields F X → List String
  keys empty = []
  keys (field k v m) = k ∷ keys m

  unfoldable pub blanks : Fields F X → List String
  blanks empty = []
  blanks (field k v m) = "" ∷ blanks m

  -- the flags of the event's data, if they are a map
  unfoldable pub changed_flags : Option (Fields F X) → Option (Fields F X)
  changed_flags none = none
  changed_flags (some m) = elim (get "flags" m) [ some (object flags) ↦ some flags | _ ↦ none ]

-- the value that an in-memory cache has for a key
abbrev pub kept : {L V : Type 0} → String → Backend L V → Option V
kept key (mem values) = lookup key values
kept key _ = none

module _ {L V F X : Type 0} (lru_ops : CacheOps L V) where
  pub remove_all : Fields F X → Backend L V → Backend L V
  remove_all empty c = c
  remove_all (field k v m) c = remove_all m (cache_remove lru_ops k c)

  -- With the FlagChanges of the event that is sent, if one is; `none` is the panic of a call on a
  -- nil cache.
  unfoldable pub handle_configuration_change_event :
      Option (Fields F X) → Service L V → Option (Service L V × Option (List String))
  unfolding changed_flags remove_all cache_purge keys blanks
  handle_configuration_change_event data_map s =
      if s.cache_enabled
      then elim s.cache [
        | none ↦ none
        | some c ↦ elim (changed_flags data_map) [
          | none ↦ some (record s { cache = some (cache_purge lru_ops c) }, none)
          | some flags ↦
              some
                (record s { cache = some (remove_all flags c) }, some (blanks flags ++ keys flags))
        ]
      ]
      else some (s, none)

  remove_all-kept :
      (j : String) (flags : Fields F X) (values : _)
      → kept j (remove_all flags (mem values))
        ≡ elim (get j flags) [ none ↦ lookup j values | some _ ↦ none ]
  unfolding remove_all cache_remove in_memory get
  remove_all-kept j empty values = refl
  remove_all-kept j (field k v m) values =
      ground (arith, remove_all-kept j m (erase k values), lookup-erase k j values)

  -- The change of a configuration removes exactly the flags that it names from an in-memory cache
  -- that is enabled, and is announced, also if they are none; the announcement has an empty string
  -- for each flag before their keys. If it has no map of flags, all are removed and nothing is
  -- announced.
  pub changes-removed :
      (data_map : Option (Fields F X)) (s : Service L V) (values : _) (j : String)
      → s.cache_enabled ≡ true
      → s.cache ≡ some (mem values)
      → (s' : Service L V) × (c' : Backend L V) × (sent : Option (List String))
        × (handle_configuration_change_event data_map s ≡ some (s', sent))
        × (s'.cache_enabled ≡ true)
        × (s'.cache ≡ some c')
        × (kept j c' ≡ elim (changed_flags data_map) [
          | none ↦ none
          | some flags ↦ elim (get j flags) [ none ↦ lookup j values | some _ ↦ none ]
        ])
        × (sent ≡ elim (changed_flags data_map) [
          | none ↦ none
          | some flags ↦ some (blanks flags ++ keys flags)
        ])
  unfolding handle_configuration_change_event cache_purge in_memory lookup
  changes-removed data_map s values j on set = elim (Option-cases (changed_flags data_map)) [
    | inl e ↦ (
      record s { cache = some (mem []) },
      mem [],
      none,
      ground arith,
      on,
      refl,
      ground arith,
      ground arith,
    )
    | inr (flags, e) ↦ (
      record s { cache = some (remove_all flags (mem values)) },
      remove_all flags (mem values),
      some (blanks flags ++ keys flags),
      ground arith,
      on,
      refl,
      ground (arith, remove_all-kept j flags values),
      ground arith,
    )
  ]
