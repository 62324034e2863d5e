-- ===== src/OpenFeature/Values.antt =====
-- Go's `any` as the providers meet it, with the dynamic types that they test for. A float is a
-- parameter `F`, and `X` stands for the values of all other types.
use go_sdk_contrib.Common.{
  ℕ, String, ◌≡◌, refl, Bool, Option, none, some, arith, ◌==◌, eq_iff, if◌then◌else◌,
}

-- int and int64 values; `negsuc n` is -(n + 1).
pub data ℤ : Type 0 where
  pos : ℕ → ℤ
  negsuc : ℕ → ℤ

mutual
  pub data Any (F X : Type 0) : Type 0 where
    nil : Any F X
    bool : Bool → Any F X
    string : String → Any F X
    int : ℤ → Any F X
    int64 : ℤ → Any F X
    float32 : F → Any F X
    float64 : F → Any F X
    slice : Items F X → Any F X
    object : Fields F X → Any F X
    -- a value of type `of.FlagMetadata`, which may be the nil map
    metadata : Fields F X → Any F X
    nil_metadata : Any F X
    other : X → Any F X

  -- []any
  pub data Items (F X : Type 0) : Type 0 where
    end : Items F X
    item : Any F X → Items F X → Items F X

  -- map[string]any, in the order in which a `range` meets the keys
  pub data Fields (F X : Type 0) : Type 0 where
    empty : Fields F X
    field : String → Any F X → Fields F X → Fields F X

module _ {F X : Type 0} where
  unfoldable pub get : String → Fields F X → Option (Any F X)
  get k empty = none
  get k (field j v m) = if j == k then some v else get k m

  unfoldable pub put : String → Any F X → Fields F X → Fields F X
  put k v empty = field k v empty
  put k v (field j w m) = if j == k then field k v m else field j w (put k v m)

  pub get-put :
      (k j : String) (v : Any F X) (m : Fields F X)
      → get j (put k v m) ≡ (if k == j then some v else get j m)
  unfolding get put
  get-put k j v empty = refl
  get-put k j v (field i w m) = ground (arith, eq_iff k j, eq_iff i k, eq_iff i j, get-put k j v m)

  -- for key, value := range t { merged[key] = value }: the keys of a Go map are distinct, so the
  -- order in which they are met does not matter
  unfoldable pub put_all : Fields F X → Fields F X → Fields F X
  put_all empty m = m
  put_all (field k v t) m = put k v (put_all t m)

  -- A merged map has the later map's value under each of its keys, and the earlier map's elsewhere.
  pub get-put_all :
      (j : String) (t m : Fields F X)
      → get j (put_all t m) ≡ elim (get j t) [ none ↦ get j m | some v ↦ some v ]
  unfolding get put_all
  get-put_all j empty m = refl
  get-put_all j (field k v t) m = ground (arith, get-put k j v (put_all t m), get-put_all j t m)
