-- ===== src/Flagd/InMemory.antt =====
-- The in-memory cache of providers/flagd/internal/cache/in_memory.go is a map.
use go_sdk_contrib.Common.{
  String, ◌≡◌, ◌↔◌, refl, sym, ◌==◌, false, Option, none, some, lookup, lookup-insert, lookup-erase,
  arith, if◌then◌else◌,
}
use go_sdk_contrib.Flagd.Cache.{InMemory, in_memory}

module _ {V : Type 0} where
  -- what Get returns
  abbrev found : String → InMemory V → Option V
  found key values = (in_memory.get key values).1

  -- Get returns the value that was last added for its key, and none after Remove of the key or
  -- Purge; the other keys are not affected. Remove reports whether the key was there.
  in_memory-map :
      (key j : String) (value : V) (values : InMemory V)
      → (found j (in_memory.add key value values).0
          ≡ (if key == j then some value else found j values))
        × (found j (in_memory.remove key values).0 ≡ (if key == j then none else found j values))
        × (found j ((in_memory {V = V}).purge values) ≡ none)
        × (((in_memory.remove key values).1 ≡ false) ↔ (found key values ≡ none))
  unfolding in_memory lookup
  in_memory-map key j value values = (
    sym (lookup-insert key j value values),
    lookup-erase key j values,
    refl,
    (λ h. ground arith, λ h. ground arith),
  )
