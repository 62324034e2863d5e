-- ===== src/Flagd/Cache.antt =====
-- providers/flagd/internal/cache/{cache,in_memory}.go. Of the LRU cache of hashicorp/golang-lru
-- only the operations are known: they are a `CacheOps`, like those of InMemory.
use go_sdk_contrib.Common.{
  String, ◌==◌, Bool, true, false, Option, none, some, [], Assoc, lookup, insert, erase,
  if◌then◌else◌,
}
use go_sdk_contrib.OpenFeature.{ℤ}

-- the Cache interface, with keys that are strings and values of type `V`, on states `C`
pub record CacheOps (C V : Type 0) : Type 0 where
  pub add : String → V → C → C × Bool
  pub purge : C → C
  pub get : String → C → C × Option V
  pub remove : String → C → C × Bool

-- InMemory: each method holds the lock throughout
abbrev pub InMemory : Type 0 → Type 0
InMemory V = Assoc V

unfoldable pub in_memory : {V : Type 0} → CacheOps (InMemory V) V
in_memory = record {
  add = λ flag_key value values. (insert flag_key value values, false);
  purge = λ values. [];
  get = λ flag_key values. (values, lookup flag_key values);
  remove = λ flag_key values.
      (erase flag_key values, elim (lookup flag_key values) [ none ↦ false | some v ↦ true ]);
}

-- A cache of one of the two kinds, with its state.
pub data Backend (L V : Type 0) : Type 0 where
  lru : L → Backend L V
  mem : InMemory V → Backend L V

module _ {L V : Type 0} (lru_ops : CacheOps L V) where
  unfoldable pub cache_add : String → V → Backend L V → Backend L V
  unfolding in_memory
  cache_add key value (lru s) = lru (lru_ops.add key value s).0
  cache_add key value (mem s) = mem (in_memory.add key value s).0

  unfoldable pub cache_purge : Backend L V → Backend L V
  unfolding in_memory
  cache_purge (lru s) = lru (lru_ops.purge s)
  cache_purge (mem s) = mem ((in_memory {V = V}).purge s)

  unfoldable pub cache_get : String → Backend L V → Backend L V × Option V
  unfolding in_memory
  cache_get key (lru s) = (lru (lru_ops.get key s).0, (lru_ops.get key s).1)
  cache_get key (mem s) = (mem (in_memory.get key s).0, (in_memory.get key s).1)

  unfoldable pub cache_remove : String → Backend L V → Backend L V
  unfolding in_memory
  cache_remove key (lru s) = lru (lru_ops.remove key s).0
  cache_remove key (mem s) = mem ((in_memory {V = V}).remove key s).0

-- Service; `cache` is none for a nil interface
pub record Service (L V : Type 0) : Type 0 where
  pub cache_enabled : Bool
  pub cache : Option (Backend L V)

-- NewCacheService: `new_lru` is lru.New, `none` its error
unfoldable pub new_cache_service : {L V : Type 0} → (ℤ → Option L) → String → ℤ → Service L V
new_cache_service new_lru cache_type max_cache_size =
    if cache_type == "lru"
    then elim (new_lru max_cache_size) [
      | none ↦ record { cache_enabled = false; cache = none }
      | some s ↦ record { cache_enabled = true; cache = some (lru s) }
    ]
    else if cache_type == "mem"
    then record { cache_enabled = true; cache = some (mem []) }
    else record { cache_enabled = false; cache = none }

-- Disable; `none` is the panic of a call on a nil cache
unfoldable pub disable : {L V : Type 0} → CacheOps L V → Service L V → Option (Service L V)
unfolding cache_purge
disable lru_ops s =
    if s.cache_enabled
    then elim s.cache [
      | none ↦ none
      | some c ↦ some (record { cache_enabled = false; cache = some (cache_purge lru_ops c) })
    ]
    else some s
