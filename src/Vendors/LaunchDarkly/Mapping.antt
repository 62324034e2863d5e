-- ===== src/Vendors/LaunchDarkly/Mapping.antt =====
-- How the contexts of OpenFeature become those of LaunchDarkly, and the errors of an evaluation:
-- providers/launchdarkly/pkg/provider.go.
use go_sdk_contrib.Common.{
  String, ◌==◌, ◌≡◌, refl, inl, inr, Option, none, some, List, [], ◌∷◌, Bool-cases, Option-cases,
  Sum-cases, arith, eq_iff, if◌then◌else◌,
}
use go_sdk_contrib.OpenFeature.{
  ErrorCode, provider_not_ready, flag_not_found as flag_not_found_code, parse_error, type_mismatch,
  targeting_key_missing, general, no_code, Fields, empty, field, get, Sdk, SdkLaws,
}
use go_sdk_contrib.Vendors.Details.{as_object, IsMap}
use go_sdk_contrib.Vendors.LaunchDarkly.{
  Options, Builder, Context, Client, client_not_ready, flag_not_found, malformed_flag,
  user_not_specified, wrong_type, other_error, EvalErrorKind, EvaluationDetail, is_skipped,
  attributes_of, context_key, map_context, to_multi_ld_context, to_resolution_error,
  to_provider_resolution_detail, to_ld_context, transform_context, evaluate,
}

module _ {F X : Type 0} where
  -- the first context of a kind
  pub find_kind : String → List (Builder F X) → Option (Builder F X)
  find_kind k [] = none
  find_kind k (b ∷ bs) = if b.kind == k then some b else find_kind k bs

module _ {E V F X : Type 0} (sdk : Sdk E F X) (client : Client V F X) (p : Options) where
  attributes_of-get :
      (k : String) (m : Fields F X)
      → get k (attributes_of sdk client p m) ≡ (if is_skipped sdk client p k then none else get k m)
  unfolding attributes_of get
  attributes_of-get k empty = ground arith
  attributes_of-get k (field j v m) = ground (arith, attributes_of-get k m, eq_iff j k)

  map_context-built :
      (kind : String) (m : Fields F X) (b : Builder F X)
      → map_context sdk client p kind m ≡ inr b
      → (b.kind ≡ kind) × (b.attributes ≡ attributes_of sdk client p m)
  unfolding map_context
  map_context-built kind m b h = ground (arith, h)

  -- the context that an attribute becomes in a context of several kinds
  abbrev pub context_of : String → Fields F X → Option (Builder F X)
  context_of k m = if k == p.kind_attr then none else elim (get k m) [
    | none ↦ none
    | some v ↦ elim (as_object v) [
      | none ↦ none
      | some inner ↦ elim (map_context sdk client p k inner) [ inl err ↦ none | inr b ↦ some b ]
    ]
  ]

  -- If a context is mapped to one of several kinds, then the context of a kind in it, if there is one,
  -- is that of the attribute of this name: the attribute is not the one that names the kind, it is a
  -- map, and the context is what that map alone is mapped to.
  pub find-to_multi_ld_context :
      (k : String) (m : Fields F X) (ctxs : List (Builder F X))
      → IsMap m
      → to_multi_ld_context sdk client p m ≡ inr ctxs
      → find_kind k ctxs ≡ context_of k m
  unfolding to_multi_ld_context find_kind get
  find-to_multi_ld_context k empty ctxs distinct h = ground (arith, h)
  find-to_multi_ld_context k (field j v m) ctxs distinct h = elim (Bool-cases (j == p.kind_attr)) [
    | inl skipped ↦ ground (
      arith,
      h,
      skipped,
      eq_iff j p.kind_attr,
      eq_iff k p.kind_attr,
      eq_iff j k,
      find-to_multi_ld_context k m ctxs distinct.1,
    )
    | inr kept ↦ elim (Option-cases (as_object v)) [
      | inl other ↦ ground (
        arith,
        h,
        kept,
        other,
        distinct.0,
        eq_iff j k,
        find-to_multi_ld_context k m ctxs distinct.1,
      )
      | inr (inner, o) ↦ elim (Sum-cases (map_context sdk client p j inner)) [
        | inl (err, e) ↦ absurd (ground (arith, h, kept, o, e))
        | inr (b, e) ↦ elim (Sum-cases (to_multi_ld_context sdk client p m)) [
          | inl (err, r) ↦ absurd (ground (arith, h, kept, o, e, r))
          | inr (bs, r) ↦ ground (
            arith,
            h,
            kept,
            o,
            e,
            r,
            eq_iff j p.kind_attr,
            eq_iff k p.kind_attr,
            eq_iff j k,
            distinct.0,
            map_context-built j inner b e,
            find-to_multi_ld_context k m bs distinct.1 r,
          )
        ]
      ]
    ]
  ]

  -- If a context is mapped to a single one, then that has the kind and the key that the context
  -- gives, and its attributes hold what the context holds under every key that is not skipped.
  map_context-attributes :
      (kind k : String) (m : Fields F X) (b : Builder F X)
      → map_context sdk client p kind m ≡ inr b
      → (b.kind ≡ kind)
        × (context_key sdk client p m ≡ some b.key)
        × (get k b.attributes ≡ (if is_skipped sdk client p k then none else get k m))
  unfolding map_context
  map_context-attributes kind k m b h =
      ground (arith, h, map_context-built kind m b h, attributes_of-get k m)

  -- the code of the error of an evaluation
  abbrev pub code_of : Option EvalErrorKind → ErrorCode
  code_of none = no_code
  code_of (some client_not_ready) = provider_not_ready
  code_of (some flag_not_found) = flag_not_found_code
  code_of (some malformed_flag) = parse_error
  code_of (some user_not_specified) = targeting_key_missing
  code_of (some wrong_type) = type_mismatch
  code_of (some other_error) = general

  to_provider_resolution_detail-code :
      SdkLaws sdk
      → (detail : EvaluationDetail) (kind : Option EvalErrorKind) → detail.error_kind ≡ kind
      → sdk.error_code (to_provider_resolution_detail sdk client p detail).resolution_error
        ≡ code_of kind
  unfolding to_provider_resolution_detail to_resolution_error
  to_provider_resolution_detail-code laws detail none h =
      rw h ((laws.no_code_iff sdk.no_error).0 laws.no_error_none)
  to_provider_resolution_detail-code laws detail (some client_not_ready) h =
      rw h (laws.provider_not_ready_code _)
  to_provider_resolution_detail-code laws detail (some flag_not_found) h =
      rw h (laws.flag_not_found_code _)
  to_provider_resolution_detail-code laws detail (some malformed_flag) h =
      rw h (laws.parse_error_code _)
  to_provider_resolution_detail-code laws detail (some user_not_specified) h =
      rw h (laws.targeting_key_missing_code _)
  to_provider_resolution_detail-code laws detail (some wrong_type) h =
      rw h (laws.type_mismatch_code _)
  to_provider_resolution_detail-code laws detail (some other_error) h = rw h (laws.general_code _)

  -- The code of an evaluation's error, with its value: if the context cannot be mapped it is
  -- TARGETING_KEY_MISSING, with the default value, also for a request that is cancelled; otherwise
  -- GENERAL with the default value if it is cancelled; otherwise that of the error kind that the
  -- client gives, with the client's value.
  pub evaluate-code :
      {A B : Type 0}
      → SdkLaws sdk
      → (ask : Context F X → B × EvaluationDetail) (convert : B → A) (default_value : A)
        (cancelled : Option String) (eval_ctx : Fields F X)
      → (sdk.error_code
            (evaluate sdk client p ask convert default_value cancelled
              eval_ctx).detail.resolution_error
          ≡ elim (to_ld_context sdk client p eval_ctx) [
            | inl err ↦ targeting_key_missing
            | inr c ↦ elim cancelled [ some err ↦ general | none ↦ code_of (ask c).1.error_kind ]
          ])
        × ((evaluate sdk client p ask convert default_value cancelled eval_ctx).value
            ≡ elim (to_ld_context sdk client p eval_ctx) [
              | inl err ↦ default_value
              | inr c ↦ elim cancelled [ some err ↦ default_value | none ↦ convert (ask c).0 ]
            ])
  unfolding evaluate transform_context
  evaluate-code laws ask convert default_value cancelled eval_ctx =
      elim (Sum-cases (to_ld_context sdk client p eval_ctx)) [
        | inl (err, e) ↦ ground (arith, e, laws.targeting_key_missing_code err)
        | inr (c, e) ↦ elim (Option-cases cancelled) [
          | inr (text, t) ↦ ground (arith, e, t, laws.general_code text)
          | inl t ↦ ground (
            arith,
            e,
            t,
            to_provider_resolution_detail-code laws (ask c).1 (ask c).1.error_kind refl,
          )
        ]
      ]
