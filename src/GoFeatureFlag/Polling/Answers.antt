-- ===== src/GoFeatureFlag/Polling/Answers.antt =====
-- What the in-process evaluator answers.
use go_sdk_contrib.Common.{
  String, ◌≡◌, ◌==◌, Bool, true, none, some, lookup, arith, if◌then◌else◌, Option-cases, inl, inr,
}
use go_sdk_contrib.OpenFeature.{Fields, Sdk, SdkLaws}
use go_sdk_contrib.GoFeatureFlag.Polling.{InProcess}
use go_sdk_contrib.GoFeatureFlag.Polling.Evaluation.{
  VarResult, Core, targeting_key, custom, to_resolution_error, result_error, evaluate,
}

-- whether a result is no answer
abbrev pub fails : {V F X : Type 0} → VarResult V F X → Bool
fails result = elim result.err [ none ↦ result.is_failed | some err ↦ true ]

module _ {A E F X : Type 0} (sdk : Sdk E F X) (core : Core A F X) where
  has_error-to_resolution_error :
      SdkLaws sdk
      → (code msg : String) → sdk.has_error (to_resolution_error sdk core code msg) ≡ true
  unfolding to_resolution_error
  has_error-to_resolution_error laws code msg = ground (
    arith,
    laws.provider_not_ready_error msg,
    laws.flag_not_found_error msg,
    laws.parse_error_error msg,
    laws.type_mismatch_error msg,
    laws.targeting_key_missing_error msg,
    laws.invalid_context_error msg,
    laws.general_error msg,
  )

  has_error-result_error :
      {V : Type 0}
      → SdkLaws sdk
      → (result : VarResult V F X) → sdk.has_error (result_error sdk core result) ≡ true
  unfolding result_error
  has_error-result_error laws result = elim (Option-cases result.err) [
    | inl e ↦
        rw (e, result_error)
          (has_error-to_resolution_error laws result.error_code result.error_details)
    | inr (err, e) ↦
        rw (e, result_error)
          (has_error-to_resolution_error laws
            (if result.error_code == "" then core.general_code else result.error_code) err)
  ]

  -- The answer has the default value and an error if the configuration has no such flag or the
  -- evaluation of the flag, with the targeting key and the other attributes of the context, has
  -- failed; else it has the value of the evaluation and no error.
  pub evaluate-answer :
      {V : Type 0} (laws : SdkLaws sdk)
      (core_evaluate : A → String → String → Fields F X → Fields F X → V → VarResult V F X)
      (flag_name : String) (default_value : V) (flat_ctx : Fields F X) (i : InProcess A F X)
      → let answer = evaluate sdk core core_evaluate flag_name default_value flat_ctx i in
        let result = λ (flag : A).
          core_evaluate flag flag_name
            (targeting_key flat_ctx)
            (custom flat_ctx)
            i.evaluation_context_enrichment
            default_value in
        (answer.value ≡ elim (lookup flag_name i.flag_config) [
          | none ↦ default_value
          | some flag ↦ if fails (result flag) then default_value else (result flag).value
        ])
        × (sdk.has_error answer.detail.resolution_error ≡ elim (lookup flag_name i.flag_config) [
          | none ↦ true
          | some flag ↦ fails (result flag)
        ])
  unfolding evaluate
  evaluate-answer laws core_evaluate flag_name default_value flat_ctx i =
      elim (Option-cases (lookup flag_name i.flag_config)) [
        | inl e ↦ (ground arith, ground (arith, laws.flag_not_found_error flag_name))
        | inr (flag, e) ↦ (
          ground arith,
          ground (
            arith,
            laws.no_error_none,
            has_error-result_error laws (
                core_evaluate flag flag_name (targeting_key flat_ctx) (custom flat_ctx)
                  i.evaluation_context_enrichment default_value),
          ),
        )
      ]
