-- ===== src/GoFeatureFlag/Cache.antt =====
-- providers/go-feature-flag/pkg/manager/cache.go. The LRU cache of github.com/bluele/gcache is
-- outside the repository: `Lru` holds its operations on its states `C`. Durations are numbers of
-- nanoseconds.
pub mod Laws
use mathlib.Core.Option
use go_sdk_contrib.Common.{
  ℕ, zero, suc, ◌*◌, String, ◌⊎◌, inl, inr, Bool, true, false, not, ◌&&◌, ◌||◌, Option, none, some,
  concat, if◌then◌else◌,
}
use go_sdk_contrib.OpenFeature.{ℤ, pos, negsuc, Any, Fields, ResolutionDetail}

abbrev pub default_cache_size : ℤ
default_cache_size = pos 10000

abbrev pub default_cache_ttl : ℤ
default_cache_ttl = pos (60 * 1000000000)

-- The dynamic types of the values in the cache.
pub data Cached (E F X : Type 0) : Type 0 where
  bool_detail : ResolutionDetail Bool E F X → Cached E F X
  string_detail : ResolutionDetail String E F X → Cached E F X
  float_detail : ResolutionDetail F E F X → Cached E F X
  int_detail : ResolutionDetail ℤ E F X → Cached E F X
  interface_detail : ResolutionDetail (Any F X) E F X → Cached E F X
  other_value : X → Cached E F X

-- Get returns an error, by its text, or a value; the setters return an error or nil. Each may
-- reorder and evict entries. A state holds the time of gcache's clock too, which `elapse` moves on;
-- an entry with a lifetime is not returned once that is over.
pub record Lru (C E F X : Type 0) : Type 0 where
  pub build : ℤ → C
  pub get : String → C → C × (String ⊎ Cached E F X)
  pub set : String → Cached E F X → C → C × Option String
  pub set_with_expire : String → Cached E F X → ℤ → C → C × Option String
  pub purge : C → C
  pub elapse : ℕ → C → C

pub record Cache (C : Type 0) : Type 0 where
  pub internal_cache : Option C
  pub ttl : ℤ
  pub disabled : Bool

-- What a getter returns: (nil, nil), a detail, or an error
pub data Found (A : Type 0) : Type 0 where
  absent : Found A
  found : A → Found A
  failure : String → Found A

abbrev pub is_zero : ℤ → Bool
is_zero (pos zero) = true
is_zero _ = false

abbrev pub is_positive : ℤ → Bool
is_positive (pos (suc n)) = true
is_positive _ = false

abbrev pub is_nonnegative : ℤ → Bool
is_nonnegative (pos n) = true
is_nonnegative (negsuc n) = false

-- `context_text` is fmt's %+v of the context
module _ {C E F X : Type 0} (lru : Lru C E F X) (context_text : Fields F X → String) where
  unfoldable pub new_cache : ℤ → ℤ → Bool → Cache C
  new_cache cache_size ttl disabled =
      let size = if is_zero cache_size then default_cache_size else cache_size in
      record {
        internal_cache = if is_positive size && not disabled then some (lru.build size) else none;
        ttl = if is_zero ttl then default_cache_ttl else ttl;
        disabled = disabled;
      }

  unfoldable pub is_enabled : Cache C → Bool
  is_enabled c = not c.disabled && elim c.internal_cache [ none ↦ false | some _ ↦ true ]

  unfoldable pub build_cache_key : String → Fields F X → String
  build_cache_key flag eval_ctx = concat flag (concat "-" (context_text eval_ctx))

  -- The body that the five getters share: `cast` is the type assertion.
  unfoldable pub read :
      {A : Type 0}
      → (Cached E F X → Option A)
      → String
      → String
      → Fields F X
      → Cache C
      → Cache C × Found A
  unfolding build_cache_key
  read cast expecting flag eval_ctx c = if c.disabled then (c, absent) else elim c.internal_cache [
    | none ↦ (c, absent)
    | some internal ↦
        let (internal', cache_value) = lru.get (build_cache_key flag eval_ctx) internal in
        (record c { internal_cache = some internal' }, typed cast expecting cache_value)
  ]
    where
      typed : {A : Type 0} → (Cached E F X → Option A) → String → String ⊎ Cached E F X → Found A
      typed cast expecting (inl err) = failure err
      typed cast expecting (inr v) = elim (cast v) [
        | some detail ↦ found detail
        | none ↦ failure (concat "unexpected type in cache (expecting " (concat expecting ")"))
      ]

  unfoldable pub get_bool :
      String → Fields F X → Cache C → Cache C × Found (ResolutionDetail Bool E F X)
  unfolding read
  get_bool = read (elim [ bool_detail d ↦ some d | _ ↦ none ]) "bool"

  unfoldable pub get_string :
      String → Fields F X → Cache C → Cache C × Found (ResolutionDetail String E F X)
  unfolding read
  get_string = read (elim [ string_detail d ↦ some d | _ ↦ none ]) "string"

  unfoldable pub get_float :
      String → Fields F X → Cache C → Cache C × Found (ResolutionDetail F E F X)
  unfolding read
  get_float = read (elim [ float_detail d ↦ some d | _ ↦ none ]) "float"

  unfoldable pub get_int :
      String → Fields F X → Cache C → Cache C × Found (ResolutionDetail ℤ E F X)
  unfolding read
  get_int = read (elim [ int_detail d ↦ some d | _ ↦ none ]) "int"

  unfoldable pub get_interface :
      String → Fields F X → Cache C → Cache C × Found (ResolutionDetail (Any F X) E F X)
  unfolding read
  get_interface = read (elim [ interface_detail d ↦ some d | _ ↦ none ]) "interface"

  unfoldable pub set : String → Fields F X → Cached E F X → Cache C → Cache C × Option String
  unfolding build_cache_key
  set flag eval_ctx value c = if c.disabled then (c, none) else elim c.internal_cache [
    | none ↦ (c, none)
    | some internal ↦
        let key = build_cache_key flag eval_ctx in
        let (internal', err) =
          if is_nonnegative c.ttl
          then lru.set_with_expire key value c.ttl internal
          else lru.set key value internal in
        (record c { internal_cache = some internal' }, err)
  ]

  unfoldable pub purge : Cache C → Cache C
  purge c = record c { internal_cache = Option.map lru.purge c.internal_cache }
