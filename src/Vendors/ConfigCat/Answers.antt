-- ===== src/Vendors/ConfigCat/Answers.antt =====
-- The user that ConfigCat's provider sends and the answers that it gives:
-- providers/configcat/pkg/provider.go.
use go_sdk_contrib.Common.{
  String, ◌==◌, ◌≡◌, ◌≢◌, ◌↔◌, ◌∙◌, refl, sym, ap, inl, inr, ◌||◌, Option, none, some, concat,
  Bool-cases, Sum-cases, arith, eq_iff, if◌then◌else◌,
}
use go_sdk_contrib.OpenFeature.{
  ErrorCode, flag_not_found, type_mismatch, parse_error, general, no_code, Any, object, Fields,
  empty, field, get, put, get-put, Sdk, SdkLaws,
}
use go_sdk_contrib.Vendors.Details.{IsMap}
use go_sdk_contrib.Vendors.ConfigCat.{
  SdkError, key_not_found, setting_type_mismatch, config_json_missing, other_error, DetailsData,
  Client, attribute_key, add_attributes, to_user_data, get_attribute, to_resolution_error,
  to_resolution_detail, has_failed, object_evaluation,
}

some_or-none : {A : Type 0} (o : Option A) → elim o [ none ↦ none | some v ↦ some v ] ≡ o
some_or-none none = refl
some_or-none (some v) = refl

abbrev NotNamed : String → Type 0
NotNamed k = (k ≢ "Identifier") × (k ≢ "Email") × (k ≢ "Country")

attribute_key-other :
    (k : String) → k ≢ "targetingKey" → k ≢ "email" → k ≢ "country" → attribute_key k ≡ k
unfolding attribute_key
attribute_key-other k a b c =
    ground (arith, eq_iff k "targetingKey", eq_iff k "email", eq_iff k "country", a, b, c)

-- the key of an attribute
abbrev back : String → String
back a =
    if a == "Identifier"
    then "targetingKey"
    else if a == "Email"
    then "email"
    else if a == "Country"
    then "country"
    else a

back-other : (k : String) → NotNamed k → back k ≡ k
back-other k h = ground (arith, h, eq_iff k "Identifier", eq_iff k "Email", eq_iff k "Country")

back-attribute_key : (k : String) → NotNamed k → back (attribute_key k) ≡ k
unfolding attribute_key
back-attribute_key k h = elim (Bool-cases (k == "targetingKey")) [
  | inl e ↦ rw ((eq_iff k "targetingKey").0 e) refl
  | inr a ↦ elim (Bool-cases (k == "email")) [
    | inl e ↦ rw ((eq_iff k "email").0 e) refl
    | inr b ↦ elim (Bool-cases (k == "country")) [
      | inl e ↦ rw ((eq_iff k "country").0 e) refl
      | inr c ↦
          ap back (
            attribute_key-other k (λ e. ground (arith, a, eq_iff k "targetingKey", e))
              (λ e. ground (arith, b, eq_iff k "email", e))
              (λ e. ground (arith, c, eq_iff k "country", e)))
          ∙ back-other k h
    ]
  ]
]

attribute_key-injective :
    (j k : String) → attribute_key j ≡ attribute_key k → NotNamed j → NotNamed k → j ≡ k
attribute_key-injective j k e h g =
    sym (back-attribute_key j h) ∙ ap back e ∙ back-attribute_key k g

to_user_data-none : {F X : Type 0} (m : Fields F X) → (to_user_data m ≡ none) ↔ (m ≡ empty)
unfolding to_user_data
to_user_data-none empty = (λ h. refl, λ h. refl)
to_user_data-none (field j v m) = (λ h. cc, λ h. cc)

module _ {F X : Type 0} where
  -- No other key of the context has the same attribute.
  abbrev pub IsAlone : String → Fields F X → Type 0
  IsAlone k empty = Unit {0}
  IsAlone k (field j v m) = (attribute_key j ≡ attribute_key k → j ≡ k) × IsAlone k m

  add_attributes-attribute :
      (k : String) (m attributes : Fields F X)
      → IsMap m
      → IsAlone k m
      → get (attribute_key k) (add_attributes m attributes)
        ≡ elim (get k m) [ none ↦ get (attribute_key k) attributes | some v ↦ some v ]
  unfolding add_attributes get
  add_attributes-attribute k empty attributes distinct alone = refl
  add_attributes-attribute k (field j v m) attributes distinct alone = elim (Bool-cases (j == k)) [
    | inl same ↦ ground (
      arith,
      same,
      distinct.0,
      eq_iff j k,
      eq_iff (attribute_key j) (attribute_key k),
      get-put (attribute_key j) (attribute_key k) v attributes,
      add_attributes-attribute k m (put (attribute_key j) v attributes) distinct.1 alone.1,
    )
    | inr differ ↦ ground (
      arith,
      differ,
      alone.0,
      eq_iff j k,
      eq_iff (attribute_key j) (attribute_key k),
      get-put (attribute_key j) (attribute_key k) v attributes,
      add_attributes-attribute k m (put (attribute_key j) v attributes) distinct.1 alone.1,
    )
  ]

  -- what a user has under the name of an attribute
  abbrev pub attribute_of : Option (Fields F X) → String → Option (Any F X)
  attribute_of user name = elim user [ none ↦ none | some u ↦ get_attribute name u ]

  attribute_of-key :
      (k : String) (eval_ctx : Fields F X)
      → IsMap eval_ctx
      → IsAlone k eval_ctx
      → attribute_of (to_user_data eval_ctx) (attribute_key k) ≡ get k eval_ctx
  unfolding to_user_data get_attribute get
  attribute_of-key k empty distinct alone = refl
  attribute_of-key k (field j v m) distinct alone =
      add_attributes-attribute k (field j v m) empty distinct alone
      ∙ some_or-none (get k (field j v m))

  -- A context that has none of the keys Identifier, Email and Country themselves.
  abbrev pub IsPlain : Fields F X → Type 0
  IsPlain empty = Unit {0}
  IsPlain (field j v m) = (j ≢ "Identifier") × ((j ≢ "Email") × ((j ≢ "Country") × IsPlain m))

  IsPlain-IsAlone :
      (k : String) (m : Fields F X)
      → IsPlain m
      → k ≢ "Identifier"
      → k ≢ "Email"
      → k ≢ "Country"
      → IsAlone k m
  unfolding attribute_key
  IsPlain-IsAlone k empty h a b c = tt
  IsPlain-IsAlone k (field j v m) h a b c = (
    (λ e. attribute_key-injective j k e (h.0, h.1.0, h.1.1.0) (a, b, c)),
    IsPlain-IsAlone k m h.1.1.1 a b c,
  )

  -- The user that is made of a context which has none of the keys Identifier, Email and Country has
  -- under these what the context has under targetingKey, email and country, and under any other key
  -- but these six what the context has under it. There is no user exactly if the context is empty.
  pub to_user_data-attribute :
      (k : String) (eval_ctx : Fields F X)
      → IsMap eval_ctx
      → IsPlain eval_ctx
      → k ≢ "targetingKey"
      → k ≢ "email"
      → k ≢ "country"
      → k ≢ "Identifier"
      → k ≢ "Email"
      → k ≢ "Country"
      → (attribute_of (to_user_data eval_ctx) "Identifier" ≡ get "targetingKey" eval_ctx)
        × (attribute_of (to_user_data eval_ctx) "Email" ≡ get "email" eval_ctx)
        × (attribute_of (to_user_data eval_ctx) "Country" ≡ get "country" eval_ctx)
        × (attribute_of (to_user_data eval_ctx) k ≡ get k eval_ctx)
        × ((to_user_data eval_ctx ≡ none) ↔ (eval_ctx ≡ empty))
  unfolding attribute_key
  to_user_data-attribute k m distinct plain n1 n2 n3 a b c =
      let alone = λ (j : String). IsPlain-IsAlone j m plain in
      (
        attribute_of-key "targetingKey" m distinct
            (alone "targetingKey" (λ e. cc) (λ e. cc) (λ e. cc)),
        attribute_of-key "email" m distinct (alone "email" (λ e. cc) (λ e. cc) (λ e. cc)),
        attribute_of-key "country" m distinct (alone "country" (λ e. cc) (λ e. cc) (λ e. cc)),
        ap (attribute_of (to_user_data m)) (sym (attribute_key-other k n1 n2 n3))
            ∙ attribute_of-key k m distinct (alone k a b c),
        to_user_data-none m,
      )

module _ {E F X : Type 0} (sdk : Sdk E F X) (client : Client F X) where
  -- the code of the error of the client
  abbrev pub code_of : Option SdkError → ErrorCode
  code_of none = no_code
  code_of (some (key_not_found err)) = flag_not_found
  code_of (some (setting_type_mismatch err)) = type_mismatch
  code_of (some (config_json_missing err)) = parse_error
  code_of (some (other_error err)) = general

  to_resolution_detail-code :
      SdkLaws sdk
      → (details : DetailsData) (error : Option SdkError) → details.error ≡ error
      → sdk.error_code (to_resolution_detail sdk details).resolution_error ≡ code_of error
  unfolding to_resolution_detail to_resolution_error
  to_resolution_detail-code laws details none h =
      rw h ((laws.no_code_iff sdk.no_error).0 laws.no_error_none)
  to_resolution_detail-code laws details (some (key_not_found err)) h =
      rw h (laws.flag_not_found_code err)
  to_resolution_detail-code laws details (some (setting_type_mismatch err)) h =
      rw h (laws.type_mismatch_code err)
  to_resolution_detail-code laws details (some (config_json_missing err)) h =
      rw h (laws.parse_error_code err)
  to_resolution_detail-code laws details (some (other_error err)) h = rw h (laws.general_code err)

  -- The evaluation of an object gives the map that the flag's text is decoded to, with no error, if
  -- the client has found the flag without an error and the text can be decoded. Otherwise it gives the
  -- default value: with TYPE_MISMATCH if the text cannot be decoded, and else with the code of the
  -- client's error, if there is one.
  object_evaluation-answer :
      SdkLaws sdk
      → (flag text : String) (default_value : Any F X) (eval_ctx : Fields F X)
        (details : DetailsData)
      → client.get_string_value_details flag "" (to_user_data eval_ctx) ≡ (text, details)
      → ((object_evaluation sdk client flag default_value eval_ctx).value ≡ (
          if details.is_default_value || has_failed sdk client details
          then default_value
          else elim (client.unmarshal text) [ inl err ↦ default_value | inr m ↦ object m ]))
        × (sdk.error_code
              (object_evaluation sdk client flag default_value eval_ctx).detail.resolution_error
            ≡ (if details.is_default_value || has_failed sdk client details
                then code_of details.error
                else elim (client.unmarshal text) [ inl err ↦ type_mismatch | inr m ↦ no_code ]))
  unfolding object_evaluation
  object_evaluation-answer laws flag text default_value eval_ctx details asked =
      let code = to_resolution_detail-code laws details details.error refl in
      elim (Sum-cases (client.unmarshal text)) [
        | inl (err, e) ↦ ground (
          arith,
          asked,
          e,
          code,
          laws.type_mismatch_code (concat "failed to unmarshal string flag as json: " err),
        )
        | inr (m, e) ↦ ground (arith, asked, e, code)
      ]
