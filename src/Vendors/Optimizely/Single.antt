-- ===== src/Vendors/Optimizely/Single.antt =====
-- What the evaluations of Optimizely's provider make of a decision: providers/optimizely/provider.go.
use go_sdk_contrib.Common.{
  String, ◌==◌, ◌≡◌, refl, inl, inr, Bool, false, ◌||◌, Option, none, some, List, [], ◌∷◌,
  Bool-cases, Option-cases, arith, if◌then◌else◌, concat,
}
use go_sdk_contrib.OpenFeature.{
  ErrorCode, type_mismatch, general, no_code, ℤ, Any, Fields, empty, field, ResolutionDetail, Sdk,
  SdkLaws,
}
use go_sdk_contrib.Vendors.Details.{as_string, as_float64, as_int}
use go_sdk_contrib.Vendors.Optimizely.{
  Decision, Client, attributes_of, get_single_variable, require_single_variable, resolution_success,
  error_of, result_of, get_decision, single, enabled_or, string_evaluation, float_evaluation,
  int_evaluation, user_id_of,
}

-- what the variables of a decision are as values of a type: none, one of this type, one of another,
-- or several
pub data Variables (A : Type 0) : Type 0 where
  no_variable several another_type : Variables A
  one_variable : A → Variables A

abbrev pub variables_of : {F X A : Type 0} → (Any F X → Option A) → Fields F X → Variables A
variables_of convert empty = no_variable
variables_of convert (field k v empty) = elim (convert v) [
  | none ↦ another_type
  | some a ↦ one_variable a
]
variables_of convert (field k v (field j w m)) = several

-- whether a text is one of the reasons
unfoldable pub has_reason : String → List String → Bool
has_reason text [] = false
has_reason text (reason ∷ reasons) = reason == text || has_reason text reasons

module _ {E F X : Type 0} (sdk : Sdk E F X) (laws : SdkLaws sdk) (client : Client F X) where
  -- the code of the error of an enabled flag
  abbrev pub code_of : {A : Type 0} → Variables A → ErrorCode
  code_of (one_variable a) = no_code
  code_of another_type = type_mismatch
  code_of _ = general

  abbrev pub value_or : {A : Type 0} → A → Variables A → A
  value_or default_value (one_variable a) = a
  value_or default_value _ = default_value

  error_of-none :
      (flag_key : String) (reasons : List String)
      → has_reason client.sdk_not_ready_message reasons ≡ false
      → has_reason (client.flag_key_invalid_message flag_key) reasons ≡ false
      → error_of sdk client flag_key reasons ≡ none
  unfolding error_of has_reason
  error_of-none flag_key [] h k = refl
  error_of-none flag_key (reason ∷ reasons) h k =
      ground (arith, h, k, error_of-none flag_key reasons)

  single-answer :
      {A : Type 0} (convert : Any F X → Option A) (name : String) (default_value : A)
      (variables : Fields F X) (decision : Decision F X) (flag_key : String)
      → decision.variables ≡ variables
      → error_of sdk client flag_key decision.reasons ≡ none
      → ((single sdk client convert name default_value
            (result_of sdk client flag_key decision)).value
          ≡ value_or default_value (variables_of convert variables))
        × (sdk.error_code
              (single sdk client convert name default_value
                (result_of sdk client flag_key decision)).detail.resolution_error
            ≡ code_of (variables_of convert variables))
  unfolding single require_single_variable resolution_success result_of get_single_variable
  single-answer convert name default_value empty decision flag_key h none_found =
      ground
        (arith, h, none_found, laws.general_code "flag has no variables; use BooleanEvaluation")
  single-answer convert name default_value (field k v empty) decision flag_key h none_found =
      elim (Option-cases (convert v)) [
        | inl e ↦ ground (
          arith,
          h,
          none_found,
          e,
          laws.type_mismatch_code
              (concat "variable is not " (concat name (concat ", got " (client.type_text v)))),
        )
        | inr (a, e) ↦
            ground (arith, h, none_found, e, (laws.no_code_iff sdk.no_error).0 laws.no_error_none)
      ]
  single-answer convert name default_value (field k v (field j w m)) decision flag_key h
        none_found =
      ground (
        arith,
        h,
        none_found,
        laws.general_code "flag has multiple variables; use ObjectEvaluation",
      )

  -- the value and the error's code that an evaluation gives for a decision
  abbrev pub Answers :
      {A : Type 0} → (Any F X → Option A) → A → Decision F X → ResolutionDetail A E F X → Type 0
  Answers convert default_value decision r =
      (r.value ≡ (
        if decision.enabled
        then value_or default_value (variables_of convert decision.variables)
        else default_value))
      × (sdk.error_code r.detail.resolution_error ≡ (
          if decision.enabled then code_of (variables_of convert decision.variables) else no_code))

  result_of-fine :
      (decision : Decision F X) (flag_key : String)
      → error_of sdk client flag_key decision.reasons ≡ none
      → ((result_of sdk client flag_key decision).has_error ≡ false)
        × ((result_of sdk client flag_key decision).enabled ≡ decision.enabled)
  unfolding result_of
  result_of-fine decision flag_key h = ground (arith, h)

  enabled_or-Answers :
      {A : Type 0} (convert : Any F X → Option A) (name : String) (default_value : A)
      (decision : Decision F X) (flag_key : String)
      → error_of sdk client flag_key decision.reasons ≡ none
      → Answers convert default_value decision (
          enabled_or sdk client default_value
            (single sdk client convert name default_value)
            (result_of sdk client flag_key decision))
  unfolding enabled_or
  enabled_or-Answers convert name default_value decision flag_key h =
      let (value, code) =
        single-answer convert name default_value decision.variables decision flag_key refl h in
      let (fine, same) = result_of-fine decision flag_key h in
      let none_code = (laws.no_code_iff sdk.no_error).0 laws.no_error_none in
      elim (Bool-cases decision.enabled) [
        | inl on ↦ (ground (arith, on, fine, same, value), ground (arith, on, fine, same, code))
        | inr off ↦ (ground (arith, off, fine, same), ground (arith, off, fine, same, none_code))
      ]

  get_decision-known :
      (flag_key user_id : String) (eval_ctx : Fields F X)
      → user_id_of eval_ctx ≡ some user_id
      → get_decision sdk client flag_key eval_ctx
        ≡ result_of sdk client flag_key (client.decide user_id (attributes_of eval_ctx) flag_key)
  unfolding get_decision
  get_decision-known flag_key user_id eval_ctx h = ground (arith, h)

  -- For a context with a targeting key, if no reason of the client's decision says that the SDK is
  -- not ready or that there is no such flag, then the evaluations as a string, a float and an
  -- integer give the value of the only variable, if the flag is enabled and has exactly one and it
  -- has the type asked for. Otherwise they give the default value: with no error if the flag is
  -- disabled, with TYPE_MISMATCH if the only variable has another type, and with GENERAL if there is
  -- no variable or there are several.
  pub evaluation-Answers :
      (flag_key user_id s : String) (f : F) (i : ℤ) (eval_ctx : Fields F X)
      → user_id_of eval_ctx ≡ some user_id
      → has_reason client.sdk_not_ready_message
          (client.decide user_id (attributes_of eval_ctx) flag_key).reasons
        ≡ false
      → has_reason
          (client.flag_key_invalid_message flag_key)
          (client.decide user_id (attributes_of eval_ctx) flag_key).reasons
        ≡ false
      → Answers as_string s
          (client.decide user_id (attributes_of eval_ctx) flag_key)
          (string_evaluation sdk client flag_key s eval_ctx)
        × Answers as_float64 f
            (client.decide user_id (attributes_of eval_ctx) flag_key)
            (float_evaluation sdk client flag_key f eval_ctx)
        × Answers as_int i
            (client.decide user_id (attributes_of eval_ctx) flag_key)
            (int_evaluation sdk client flag_key i eval_ctx)
  unfolding string_evaluation float_evaluation int_evaluation
  evaluation-Answers flag_key user_id s f i eval_ctx known ready found =
      let decision = client.decide user_id (attributes_of eval_ctx) flag_key in
      let asked = get_decision-known flag_key user_id eval_ctx known in
      let clear = error_of-none flag_key decision.reasons ready found in
      (
        rw asked (enabled_or-Answers as_string "string" s decision flag_key clear),
        rw asked (enabled_or-Answers as_float64 "float64" f decision flag_key clear),
        rw asked (enabled_or-Answers as_int "int" i decision flag_key clear),
      )
