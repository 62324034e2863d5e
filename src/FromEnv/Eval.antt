-- ===== src/FromEnv/Eval.antt =====
-- providers/from-env/pkg/eval.go. `float_eq` is Go's == of float64 values and `reflect_equal` the
-- comparison by the reflect package of values of other types.
use go_sdk_contrib.Common.{
  ℕ, suc, String, ◌==◌, eqb, Bool, true, false, not, ◌&&◌, ◌||◌, ◌⊎◌, inl, inr, Option, none, some,
  List, [], ◌∷◌, if◌then◌else◌,
}
use go_sdk_contrib.OpenFeature.{
  Any, nil, bool, string, float64, slice, object, Items, end, item, Fields, empty, field, get, Sdk,
}

pub record Criteria (F X : Type 0) : Type 0 where
  pub key : String
  pub value : Any F X

pub record Variant (F X : Type 0) : Type 0 where
  pub criteria : List (Criteria F X)
  pub targeting_key : String
  pub value : Any F X
  pub name : String

pub record StoredFlag (F X : Type 0) : Type 0 where
  pub default_variant : String
  pub variants : List (Variant F X)

-- what evaluate returns without an error
pub record Evaluated (F X : Type 0) : Type 0 where
  pub variant : String
  pub reason : String
  pub value : Any F X

unfoldable pub field_count : {F X : Type 0} → Fields F X → ℕ
field_count empty = 0
field_count (field k v m) = suc (field_count m)

abbrev pub bool_equal : Bool → Bool → Bool
bool_equal true b = b
bool_equal false b = not b

module _ {F X : Type 0} (float_eq : F → F → Bool) (reflect_equal : Any F X → Any F X → Bool) where
  unfoldable mutual
    unfolding get field_count

    pub values_equal : Any F X → Any F X → Bool
    values_equal nil right = elim right [ nil ↦ true | _ ↦ false ]
    values_equal (string l) right = elim right [ string r ↦ l == r | _ ↦ false ]
    values_equal (float64 l) right = elim right [ float64 r ↦ float_eq l r | _ ↦ false ]
    values_equal (bool l) right = elim right [ bool r ↦ bool_equal l r | _ ↦ false ]
    values_equal (slice l) right = elim right [ slice r ↦ items_equal l r | _ ↦ false ]
    values_equal (object l) right = elim right [
      | object r ↦ eqb (field_count l) (field_count r) && fields_equal l r
      | _ ↦ false
    ]
    values_equal left right = reflect_equal left right

    -- slices.EqualFunc
    pub items_equal : Items F X → Items F X → Bool
    items_equal end end = true
    items_equal end (item w r) = false
    items_equal (item v l) end = false
    items_equal (item v l) (item w r) = values_equal v w && items_equal l r

    -- the loop of maps.EqualFunc
    pub fields_equal : Fields F X → Fields F X → Bool
    fields_equal empty r = true
    fields_equal (field k v l) r = elim (get k r) [
      | none ↦ false
      | some w ↦ values_equal v w && fields_equal l r
    ]

  -- the loop over the criteria of a variant
  unfoldable pub meets : Fields F X → List (Criteria F X) → Bool
  unfolding values_equal get
  meets eval_ctx [] = true
  meets eval_ctx (c ∷ cs) = elim (get c.key eval_ctx) [
    | none ↦ false
    | some val ↦ values_equal val c.value && meets eval_ctx cs
  ]

  -- whether a targetingKey of the context is a string, and this one
  unfoldable pub targeted : String → Option (Any F X) → Bool
  targeted targeting_key (some (string key)) = targeting_key == key
  targeted targeting_key _ = false

  -- whether the loop over the variants returns this one
  unfoldable pub applies : Fields F X → Variant F X → Bool
  unfolding meets targeted get
  applies eval_ctx v =
      (v.targeting_key == "" || targeted v.targeting_key (get "targetingKey" eval_ctx))
      && meets eval_ctx v.criteria

  module _ {E : Type 0} (sdk : Sdk E F X) (eval_ctx : Fields F X) (default_name : String) where
    -- the loop over the variants, with the default variant that was met last
    unfoldable pub evaluate_from : Option (Variant F X) → List (Variant F X) → E ⊎ Evaluated F X
    unfolding applies
    evaluate_from default_variant [] = elim default_variant [
      | none ↦ inl (sdk.new_parse_error "")
      | some v ↦ inr (record { variant = v.name; reason = sdk.default_reason; value = v.value })
    ]
    evaluate_from default_variant (v ∷ variants) =
        let rest =
          evaluate_from (if v.name == default_name then some v else default_variant) variants in
        if applies eval_ctx v
        then inr (record { variant = v.name; reason = sdk.targeting_match_reason; value = v.value })
        else rest

  unfoldable pub evaluate :
      {E : Type 0} → Sdk E F X → Fields F X → StoredFlag F X → E ⊎ Evaluated F X
  unfolding evaluate_from
  evaluate sdk eval_ctx f = evaluate_from sdk eval_ctx f.default_variant none f.variants
