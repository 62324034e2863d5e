-- ===== src/FromEnv/Variants.antt =====
-- Which variant of a stored flag eval.go returns.
use go_sdk_contrib.Common.{
  String, ◌≡◌, ◌≢◌, refl, inr, ◌==◌, eq_iff, Bool, true, false, Option, none, some, List, [], ◌∷◌,
  ap, sym, ◌++◌, All, arith, ◌⊎◌, inl, ◌↔◌, Option-cases, Bool-cases, if◌then◌else◌,
}
use go_sdk_contrib.OpenFeature.{Any, string, Fields, get, Sdk}
use go_sdk_contrib.FromEnv.Eval.{
  Criteria, Variant, values_equal, meets, targeted, applies, evaluate_from, evaluate,
}

module _ {E F X : Type 0} (float_eq : F → F → Bool) (reflect_equal : Any F X → Any F X → Bool)
    (sdk : Sdk E F X) (eval_ctx : Fields F X) (name : String) where
  evaluate_from-first :
      (o : Option (Variant F X)) (pre post : List (Variant F X)) (v : Variant F X)
      → All (λ w. applies float_eq reflect_equal eval_ctx w ≡ false) pre
      → applies float_eq reflect_equal eval_ctx v ≡ true
      → evaluate_from float_eq reflect_equal sdk eval_ctx name o (pre ++ v ∷ post)
        ≡ inr (record { variant = v.name; reason = sdk.targeting_match_reason; value = v.value })
  unfolding evaluate_from
  evaluate_from-first o [] post v a h = ground arith
  evaluate_from-first o (w ∷ pre) post v a h =
      let rest = evaluate_from-first (if w.name == name then some w else o) pre post v a.1 h in
      ground (arith, a.0)

  -- whether the context has, under the key of each of the criteria, a value that equals theirs
  abbrev pub HasAll : List (Criteria F X) → Type 0
  HasAll cs =
      All
        (λ c.
          (val : Any F X) × (get c.key eval_ctx ≡ some val)
          × (values_equal float_eq reflect_equal val c.value ≡ true))
        cs

  -- whether a variant has no targeting key or that of the context, and the context has its criteria
  abbrev pub IsMet : Variant F X → Type 0
  IsMet v =
      ((v.targeting_key ≡ "") ⊎ (get "targetingKey" eval_ctx ≡ some (string v.targeting_key)))
      × HasAll v.criteria

  meets-HasAll :
      (cs : List (Criteria F X)) → (meets float_eq reflect_equal eval_ctx cs ≡ true) ↔ HasAll cs
  unfolding meets
  meets-HasAll [] = (λ h. tt, λ h. refl)
  meets-HasAll (c ∷ cs) = (
    (λ h. elim (Option-cases (get c.key eval_ctx)) [
      | inl e ↦ absurd (ground (arith, e, h))
      | inr (val, e) ↦ ((val, e, ground (arith, e, h)), (meets-HasAll cs).0 (ground (arith, e, h)))
    ]),
    (λ h. let ((val, e, same), rest) = h in ground (arith, e, same, (meets-HasAll cs).1 rest)),
  )

  targeted-string :
      (key : String) (o : Option (Any F X))
      → (targeted float_eq reflect_equal key o ≡ true) ↔ (o ≡ some (string key))
  unfolding targeted
  targeted-string key none = (λ h. cc, λ h. cc)
  targeted-string key (some (string k)) = (
    (λ h. ap (λ t. some (string t)) (sym ((eq_iff key k).0 h))),
    (λ h. (eq_iff key k).1 (ground (arith, h))),
  )
  targeted-string key (some _) = (λ h. cc, λ h. cc)

  applies-IsMet : (v : Variant F X) → (applies float_eq reflect_equal eval_ctx v ≡ true) ↔ IsMet v
  unfolding applies
  applies-IsMet v = (
    (λ h. (
      elim (Bool-cases (v.targeting_key == "")) [
        | inl e ↦ inl ((eq_iff v.targeting_key "").0 e)
        | inr e ↦ inr (
            (targeted-string v.targeting_key (get "targetingKey" eval_ctx)).0
              (ground (arith, e, h)))
      ],
      (meets-HasAll v.criteria).0 (ground (arith, h)),
    )),
    (λ h. elim h.0 [
      | inl e ↦ ground (arith, e, eq_iff v.targeting_key "", (meets-HasAll v.criteria).1 h.1)
      | inr e ↦ ground (
        arith,
        (targeted-string v.targeting_key (get "targetingKey" eval_ctx)).1 e,
        (meets-HasAll v.criteria).1 h.1,
      )
    ]),
  )

  -- The first variant that has no targeting key or that of the context, and for whose criteria the
  -- context has equal values under their keys, is returned with the reason TARGETING_MATCH, whatever
  -- the default variant.
  pub evaluate-first :
      (pre post : List (Variant F X)) (v : Variant F X)
      → All (λ w. ¬ IsMet w) pre
      → IsMet v
      → evaluate float_eq reflect_equal sdk eval_ctx
          (record { default_variant = name; variants = pre ++ v ∷ post })
        ≡ inr (record { variant = v.name; reason = sdk.targeting_match_reason; value = v.value })
  unfolding evaluate
  evaluate-first pre post v a h =
      evaluate_from-first none pre post v (none_met pre a) ((applies-IsMet v).1 h)
    where
      none_met :
          (ws : List (Variant F X))
          → All (λ w. ¬ IsMet w) ws
          → All (λ w. applies float_eq reflect_equal eval_ctx w ≡ false) ws
      none_met [] a = tt
      none_met (w ∷ ws) a = (
        elim (Bool-cases (applies float_eq reflect_equal eval_ctx w)) [
          | inl t ↦ absurd (a.0 ((applies-IsMet w).0 t))
          | inr f ↦ f
        ],
        none_met ws a.1,
      )

  evaluate_from-kept :
      (v : Variant F X) (post : List (Variant F X))
      → All (λ w. (applies float_eq reflect_equal eval_ctx w ≡ false) × (w.name ≢ name)) post
      → evaluate_from float_eq reflect_equal sdk eval_ctx name (some v) post
        ≡ inr (record { variant = v.name; reason = sdk.default_reason; value = v.value })
  unfolding evaluate_from
  evaluate_from-kept v [] a = refl
  evaluate_from-kept v (w ∷ post) a =
      ground (arith, a.0, eq_iff w.name name, evaluate_from-kept v post a.1)

  evaluate_from-default :
      (o : Option (Variant F X)) (pre post : List (Variant F X)) (v : Variant F X)
      → All (λ w. applies float_eq reflect_equal eval_ctx w ≡ false) pre
      → applies float_eq reflect_equal eval_ctx v ≡ false
      → v.name ≡ name
      → All (λ w. (applies float_eq reflect_equal eval_ctx w ≡ false) × (w.name ≢ name)) post
      → evaluate_from float_eq reflect_equal sdk eval_ctx name o (pre ++ v ∷ post)
        ≡ inr (record { variant = v.name; reason = sdk.default_reason; value = v.value })
  unfolding evaluate_from
  evaluate_from-default o [] post v a h n b =
      ground (arith, eq_iff v.name name, evaluate_from-kept v post b)
  evaluate_from-default o (w ∷ pre) post v a h n b =
      let rest =
        evaluate_from-default (if w.name == name then some w else o) pre post v a.1 h n b in
      ground (arith, a.0)

  -- If the context meets no variant, the last variant with the default name is returned with the
  -- reason DEFAULT.
  evaluate-default :
      (pre post : List (Variant F X)) (v : Variant F X)
      → All (λ w. applies float_eq reflect_equal eval_ctx w ≡ false) pre
      → applies float_eq reflect_equal eval_ctx v ≡ false
      → v.name ≡ name
      → All (λ w. (applies float_eq reflect_equal eval_ctx w ≡ false) × (w.name ≢ name)) post
      → evaluate float_eq reflect_equal sdk eval_ctx
          (record { default_variant = name; variants = pre ++ v ∷ post })
        ≡ inr (record { variant = v.name; reason = sdk.default_reason; value = v.value })
  unfolding evaluate
  evaluate-default pre post v a h n b = evaluate_from-default none pre post v a h n b
