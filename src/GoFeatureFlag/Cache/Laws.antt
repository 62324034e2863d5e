-- ===== src/GoFeatureFlag/Cache/Laws.antt =====
-- What the cache of cache.go stores and returns.
use mathlib.Core.Option
use go_sdk_contrib.Common.{
  ℕ, ltb, zero, suc, String, ◌≡◌, ◌↔◌, refl, inl, inr, Bool, true, false, Option, none, some, arith,
  Bool-cases, Option-cases,
}
use go_sdk_contrib.OpenFeature.{ℤ, pos, negsuc, Fields}
use go_sdk_contrib.GoFeatureFlag.Cache.{
  Cached, Lru, Cache, absent, found, is_nonnegative, new_cache, is_enabled, build_cache_key, read,
  set,
}

-- whether a time is within the lifetime of an entry; a negative one is none
abbrev pub is_within : ℕ → ℤ → Bool
is_within later (pos t) = ltb later t
is_within later (negsuc t) = true

-- a cache after some time, in nanoseconds
abbrev pub after : {C E F X : Type 0} → Lru C E F X → ℕ → Cache C → Cache C
after lru later c = record c { internal_cache = Option.map (lru.elapse later) c.internal_cache }

-- gcache returns a value that was set until its lifetime, if it has one, is over.
pub record LruLaws {C E F X : Type 0} (lru : Lru C E F X) : Type 0 where
  pub get-set :
      (k : String) (v : Cached E F X) (s : C)
      → (lru.set k v s).1 ≡ none
      → (later : ℕ) → (lru.get k (lru.elapse later (lru.set k v s).0)).1 ≡ inr v
  pub get-set_with_expire :
      (k : String) (v : Cached E F X) (t : ℤ) (s : C)
      → (lru.set_with_expire k v t s).1 ≡ none
      → (later : ℕ) → is_within later t ≡ true
      → (lru.get k (lru.elapse later (lru.set_with_expire k v t s).0)).1 ≡ inr v

module _ {C E F X : Type 0} (lru : Lru C E F X) (context_text : Fields F X → String) where
  -- A new cache is enabled exactly if it is not disabled and its size is not negative.
  new_cache-enabled :
      (size ttl : ℤ) (disabled : Bool)
      → (is_enabled lru context_text (new_cache lru context_text size ttl disabled) ≡ true)
        ↔ (disabled ≡ false) × (is_nonnegative size ≡ true)
  unfolding new_cache is_enabled
  new_cache-enabled (pos zero) ttl disabled = (λ h. (ground arith, refl), λ h. ground arith)
  new_cache-enabled (pos (suc n)) ttl disabled = (λ h. (ground arith, refl), λ h. ground arith)
  new_cache-enabled (negsuc n) ttl disabled = (λ h. (ground arith, ground arith), λ h. ground arith)

  -- A cache that is not enabled keeps nothing: Set leaves it as it is, without an error, and a
  -- getter answers nil.
  disabled-keeps_nothing :
      {A : Type 0} (cast : Cached E F X → Option A) (expecting flag : String) (ctx : Fields F X)
      (v : Cached E F X) (c : Cache C)
      → is_enabled lru context_text c ≡ false
      → (set lru context_text flag ctx v c ≡ (c, none))
        × (read lru context_text cast expecting flag ctx c ≡ (c, absent))
  unfolding set read is_enabled
  disabled-keeps_nothing cast expecting flag ctx v c h = (ground arith, ground arith)

  -- Within the lifetime of the entries after an enabled cache has accepted a value without an error,
  -- a getter for the same flag and context finds its detail if the value has the type of the getter.
  pub read-set :
      {A : Type 0} (laws : LruLaws lru) (cast : Cached E F X → Option A) (expecting flag : String)
      (ctx : Fields F X) (v : Cached E F X) (d : A) (c : Cache C) (later : ℕ)
      → is_enabled lru context_text c ≡ true
      → is_within later c.ttl ≡ true
      → (set lru context_text flag ctx v c).1 ≡ none
      → cast v ≡ some d
      → (read lru context_text cast expecting flag ctx
          (after lru later (set lru context_text flag ctx v c).0)).1
        ≡ found d
  unfolding set read is_enabled
  read-set laws cast expecting flag ctx v d c later enabled within ok h =
      elim (Option-cases c.internal_cache) [
        | inl e ↦ absurd (ground arith)
        | inr (internal, e) ↦
            let key = build_cache_key lru context_text flag ctx in
            elim (Bool-cases (is_nonnegative c.ttl)) [
              | inl t ↦ ground (
                arith,
                laws.get-set_with_expire key v c.ttl internal (ground (arith, ok, enabled, e, t))
                    later within,
              )
              | inr t ↦
                  ground
                    (arith, laws.get-set key v internal (ground (arith, ok, enabled, e, t)) later)
            ]
      ]
