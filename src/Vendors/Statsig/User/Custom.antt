-- ===== src/Vendors/Statsig/User/Custom.antt =====
-- What the user of Statsig holds of a context: ToStatsigUser of providers/statsig/pkg/provider.go.
use go_sdk_contrib.Common.{
  String, ◌==◌, ◌≡◌, ◌≢◌, refl, ◌⊎◌, inl, inr, Bool, true, false, ◌||◌, Option, none, some, not,
  Bool-cases, ◌∙◌, arith, eq_iff, if◌then◌else◌, Option-cases, Sum-cases,
}
use go_sdk_contrib.OpenFeature.{Any, Fields, empty, field, get, get-put, Sdk}
use go_sdk_contrib.Vendors.Details.{IsMap, as_object}
use go_sdk_contrib.Vendors.Statsig.User.{
  Values, User, no_user, KeyKind, text_key, custom_key, private_attributes_key,
  statsig_environment_key, custom_ids_key, ignored_key, attribute_key, key_kind, add_case,
  TextField, user_id_field, email_field, ip_address_field, user_agent_field, country_field,
  locale_field, app_version_field, set_text, assigned, to_str, put_custom, has_ids, checked,
  add_attribute, add_attributes, to_statsig_user, as_strings,
}

-- the keys that have a meaning of their own, but for "Custom"
unfoldable pub is_special : String → Bool
is_special key =
    key == "targetingKey"
    || key == "UserID"
    || key == "Email"
    || key == "IpAddress"
    || key == "UserAgent"
    || key == "Country"
    || key == "Locale"
    || key == "AppVersion"
    || key == "PrivateAttributes"
    || key == "StatsigEnvironment"
    || key == "CustomIDs"
    || key == "feature_config"

abbrev is_attribute : KeyKind → Bool
is_attribute attribute_key = true
is_attribute _ = false

-- the switch over the results of its tests, in their order
abbrev kind_of_tests :
    Bool
    → Bool
    → Bool
    → Bool
    → Bool
    → Bool
    → Bool
    → Bool
    → Bool
    → Bool
    → Bool
    → Bool
    → Bool
    → KeyKind
kind_of_tests a b c d e f g h i j k l m =
    if a || b
    then text_key user_id_field
    else if c
    then text_key email_field
    else if d
    then text_key ip_address_field
    else if e
    then text_key user_agent_field
    else if f
    then text_key country_field
    else if g
    then text_key locale_field
    else if h
    then text_key app_version_field
    else if i
    then custom_key
    else if j
    then private_attributes_key
    else if k
    then statsig_environment_key
    else if l
    then custom_ids_key
    else if m
    then ignored_key
    else attribute_key

kind_of_tests-special :
    (a b c d e f g h i j k l m : Bool)
    → i ≡ false
    → (is_attribute (kind_of_tests a b c d e f g h i j k l m)
        ≡ not (a || b || c || d || e || f || g || h || j || k || l || m))
      × (kind_of_tests a b c d e f g h i j k l m ≢ custom_key)
kind_of_tests-special true b c d e f g h i j k l m no_custom = (refl, λ e. cc)
kind_of_tests-special false true c d e f g h i j k l m no_custom = (refl, λ e. cc)
kind_of_tests-special false false true d e f g h i j k l m no_custom = (refl, λ e. cc)
kind_of_tests-special false false false true e f g h i j k l m no_custom = (refl, λ e. cc)
kind_of_tests-special false false false false true f g h i j k l m no_custom = (refl, λ e. cc)
kind_of_tests-special false false false false false true g h i j k l m no_custom = (refl, λ e. cc)
kind_of_tests-special false false false false false false true h i j k l m no_custom =
    (refl, λ e. cc)
kind_of_tests-special false false false false false false false true i j k l m no_custom =
    (refl, λ e. cc)
kind_of_tests-special false false false false false false false false true j k l m no_custom =
    absurd (cc)
kind_of_tests-special false false false false false false false false false true k l m no_custom =
    (refl, λ e. cc)
kind_of_tests-special false false false false false false false false false false true l m
      no_custom =
    (refl, λ e. cc)
kind_of_tests-special false false false false false false false false false false false true m
      no_custom =
    (refl, λ e. cc)
kind_of_tests-special false false false false false false false false false false false false true
      no_custom =
    (refl, λ e. cc)
kind_of_tests-special false false false false false false false false false false false false false
      no_custom =
    (refl, λ e. cc)

key_kind-special :
    (key : String)
    → key ≢ "Custom"
    → (is_attribute (key_kind key) ≡ not (is_special key)) × (key_kind key ≢ custom_key)
unfolding key_kind is_special
key_kind-special key ordinary =
    kind_of_tests-special (key == "targetingKey") (key == "UserID") (key == "Email")
      (key == "IpAddress") (key == "UserAgent") (key == "Country") (key == "Locale")
      (key == "AppVersion") (key == "Custom") (key == "PrivateAttributes")
      (key == "StatsigEnvironment") (key == "CustomIDs") (key == "feature_config")
      (ground (arith, ordinary, eq_iff key "Custom"))

module _ {F X : Type 0} where
  -- the attribute that a user holds under a key
  abbrev pub attribute : String → User F X → Option (Any F X)
  attribute k u = elim u.custom [ none ↦ none | some m ↦ get k m ]

  attribute-put_custom :
      (j k : String) (v : Any F X) (u : User F X)
      → attribute k (put_custom j v u) ≡ (if j == k then some v else attribute k u)
  unfolding put_custom get
  attribute-put_custom j k v u = elim (Option-cases u.custom) [
    | inl e ↦ ground (arith, e, get-put j k v empty)
    | inr (m, e) ↦ ground (arith, e, get-put j k v m)
  ]

  -- an assignment that keeps the attributes
  assigned-custom :
      {A : Type 0} (key kind : String) (val : Option A) (set : A → User F X) (u u' : User F X)
      → ((a : A) → (set a).custom ≡ u.custom)
      → assigned key kind val set ≡ inr u'
      → u'.custom ≡ u.custom
  unfolding assigned
  assigned-custom key kind none set u u' same h = ground (arith, h)
  assigned-custom key kind (some a) set u u' same h = ground (arith, h, same a)

  set_text-custom :
      (f : TextField) (val : String) (u : User F X) → (set_text f val u).custom ≡ u.custom
  unfolding set_text
  set_text-custom user_id_field val u = refl
  set_text-custom email_field val u = refl
  set_text-custom ip_address_field val u = refl
  set_text-custom user_agent_field val u = refl
  set_text-custom country_field val u = refl
  set_text-custom locale_field val u = refl
  set_text-custom app_version_field val u = refl

  add_case-custom :
      (values : Values F X) (kind : KeyKind) (j k : String) (v : Any F X) (u u' : User F X)
      → kind ≢ custom_key
      → add_case values kind j v u ≡ inr u'
      → attribute k u'
        ≡ (if is_attribute kind then (if j == k then some v else attribute k u) else attribute k u)
  unfolding add_case
  add_case-custom values (text_key f) j k v u u' ordinary h =
      let kept =
        assigned-custom j "string" (to_str values v) (λ val. set_text f val u) u u'
          (λ a. set_text-custom f a u) h in
      rw kept
  add_case-custom values custom_key j k v u u' ordinary h = absurd (ordinary refl)
  add_case-custom values private_attributes_key j k v u u' ordinary h =
      let kept =
        assigned-custom j "map" (as_object v) (λ m. record u { private_attributes = some m }) u u'
          (λ a. refl) h in
      rw kept
  add_case-custom values statsig_environment_key j k v u u' ordinary h =
      let kept =
        assigned-custom j "map" (as_strings values v)
          (λ m. record u { statsig_environment = some m }) u u' (λ a. refl) h in
      rw kept
  add_case-custom values custom_ids_key j k v u u' ordinary h =
      let kept =
        assigned-custom j "map" (as_strings values v) (λ m. record u { custom_ids = some m }) u u'
          (λ a. refl) h in
      rw kept
  add_case-custom values ignored_key j k v u u' ordinary h = ground (arith, h)
  add_case-custom values attribute_key j k v u u' ordinary h =
      ground (arith, h, attribute-put_custom j k v u)

  add_attribute-custom :
      (values : Values F X) (j k : String) (v : Any F X) (u u' : User F X)
      → j ≢ "Custom"
      → add_attribute values j v u ≡ inr u'
      → attribute k u'
        ≡ (if is_special j then attribute k u else if j == k then some v else attribute k u)
  unfolding add_attribute
  add_attribute-custom values j k v u u' ordinary h = ground (
    arith,
    (key_kind-special j ordinary).0,
    add_case-custom values (key_kind j) j k v u u' (key_kind-special j ordinary).1 h,
  )

  ordinary :
      (j : String) (v : Any F X) (m : Fields F X)
      → get "Custom" (field j v m) ≡ none
      → (j ≢ "Custom") × (get "Custom" m ≡ none)
  unfolding get
  ordinary j v m h = ground (arith, h, eq_iff j "Custom")

  -- the attribute under a key once the loop has met a context
  abbrev after : String → Fields F X → User F X → Option (Any F X)
  after k m u =
      if is_special k
      then attribute k u
      else elim (get k m) [ none ↦ attribute k u | some v ↦ some v ]

  add_attributes-custom :
      (values : Values F X) (k : String) (m : Fields F X) (u u' : User F X)
      → IsMap m
      → get "Custom" m ≡ none
      → add_attributes values m u ≡ inr u'
      → attribute k u' ≡ after k m u
  unfolding add_attributes get
  add_attributes-custom values k empty u u' distinct plain h = ground (arith, h)
  add_attributes-custom values k (field j v m) u u' distinct plain h =
      elim (Sum-cases (add_attribute values j v u)) [
        | inl (err, e) ↦ ground (arith, e, h)
        | inr (u'', e) ↦
            let plain' : (j ≢ "Custom") × (get "Custom" m ≡ none) = ordinary j v m plain in
            ground (
              arith,
              h,
              e,
              distinct,
              eq_iff j k,
              add_attribute-custom values j k v u u'' plain'.0 e,
              add_attributes-custom values k m u'' u' distinct.1 plain'.1 (ground (arith, h, e)),
            )
      ]

  after-no_user :
      (k : String) (m : Fields F X) → after k m no_user ≡ (if is_special k then none else get k m)
  after-no_user k m = elim (Option-cases (get k m)) [
    | inl e ↦ ground (arith, e)
    | inr (v, e) ↦ ground (arith, e)
  ]

  identified :
      {E : Type 0} (sdk : Sdk E F X) (made u : User F X)
      → checked sdk made ≡ inr u
      → (u ≡ made) × ((u.user_id ≢ "") ⊎ (has_ids u ≡ true))
  unfolding checked
  identified sdk made u h = elim (Bool-cases (has_ids made)) [
    | inl some_id ↦ (ground (arith, h, some_id), inr (ground (arith, h, some_id)))
    | inr no_id ↦ (
      ground (arith, h, no_id),
      inl (ground (arith, h, no_id, eq_iff made.user_id "", eq_iff u.user_id "")),
    )
  ]

  -- If a context without the key "Custom" is made a user, then under every key that has no meaning of
  -- its own the user's custom attributes hold what the context holds, and nothing under the others;
  -- and the user has an id, unless the context is empty.
  pub to_statsig_user-custom :
      {E : Type 0} (sdk : Sdk E F X) (values : Values F X) (k : String) (eval_ctx : Fields F X)
      (u : User F X)
      → IsMap eval_ctx
      → get "Custom" eval_ctx ≡ none
      → to_statsig_user sdk values eval_ctx ≡ inr u
      → (attribute k u ≡ (if is_special k then none else get k eval_ctx))
        × ((eval_ctx ≡ empty) ⊎ (u.user_id ≢ "") ⊎ (has_ids u ≡ true))
  unfolding to_statsig_user get
  to_statsig_user-custom sdk values k empty u distinct plain h = (ground (arith, h), inl refl)
  to_statsig_user-custom sdk values k (field j v m) u distinct plain h =
      elim (Sum-cases (add_attributes values (field j v m) no_user)) [
        | inl (err, e) ↦ absurd (ground (arith, e, h))
        | inr (made, e) ↦
            let (same, known) = identified sdk made u (ground (arith, e, h)) in
            (
              rw same (
                  add_attributes-custom values k (field j v m) no_user made distinct plain e
                  ∙ after-no_user k (field j v m)),
              inr known,
            )
      ]
