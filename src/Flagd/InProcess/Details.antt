-- ===== src/Flagd/InProcess/Details.antt =====
-- The details that the in-process service answers with.
use mathlib.Core.Option
use go_sdk_contrib.Common.{
  String, concat, ◌≡◌, refl, ap, ◌∙◌, ◌==◌, eq_iff, Bool, true, false, not, ◌&&◌, ◌||◌, Option,
  none, some, arith, Option-cases, inl, inr, if◌then◌else◌,
}
use go_sdk_contrib.OpenFeature.{
  Any, string, Fields, empty, field, get, put, get-put_all, FlagMetadata, entry, Sdk, SdkLaws,
}
use go_sdk_contrib.Flagd.InProcess.Resolve.{
  Model, Evaluation, create_service_metadata, append_metadata, map_error, detail_of, resolve_value,
}

module _ {F X : Type 0} (k selector provider_id : String) where
  -- the service's own entry under a key
  abbrev pub own : Option (Any F X)
  own =
      if not (selector == "") && k == "scope"
      then some (string selector)
      else if not (provider_id == "") && k == "providerID"
      then some (string provider_id)
      else none

  get-create_service_metadata :
      get k (create_service_metadata {F = F} {X = X} selector provider_id) ≡ own
  unfolding create_service_metadata get put
  get-create_service_metadata =
      ground
        (arith, eq_iff "scope" k, eq_iff "providerID" k, eq_iff k "scope", eq_iff k "providerID")

entry-append_metadata :
    {F X : Type 0} (k : String) (service m : Fields F X)
    → Option.map (entry k) (append_metadata service (some m))
      ≡ some (elim (get k service) [ none ↦ get k m | some v ↦ some v ])
unfolding append_metadata get
entry-append_metadata k empty m = refl
entry-append_metadata k (field j v service) m = ap some (get-put_all k (field j v service) m)

module _ {E F X : Type 0} (sdk : Sdk E F X) (model : Model) where
  map_error-has_error :
      SdkLaws sdk → (key err : String) → sdk.has_error (map_error sdk model key err) ≡ true
  unfolding map_error
  map_error-has_error laws key err = ground (
    arith,
    laws.flag_not_found_error (concat "flag: " (concat key " not found")),
    laws.type_mismatch_error (concat "flag: " (concat key " evaluated type not valid")),
    laws.parse_error_error (concat "flag: " (concat key " parsing error")),
    laws.general_error (concat "flag: " (concat key " unable to evaluate")),
  )

module _ {E F X V : Type 0} (sdk : Sdk E F X) (model : Model) where
  metadata_of-detail_of :
      (key : String) (default_value : V) (e : Evaluation V F X) (metadata : FlagMetadata F X)
      → (detail_of sdk model key default_value e metadata).detail.flag_metadata ≡ metadata
  unfolding detail_of
  metadata_of-detail_of key default_value e metadata = ground arith

  entry-resolve_value :
      (k key : String) (service : Fields F X) (default_value : V) (e : Evaluation V F X)
      → Option.map
          (λ r. entry k r.detail.flag_metadata)
          (resolve_value sdk model service key default_value e)
        ≡ Option.map (entry k) (append_metadata service e.metadata)
  unfolding resolve_value
  entry-resolve_value k key service default_value e =
      elim (Option-cases (append_metadata service e.metadata)) [
        | inl h ↦ rw (h, resolve_value) refl
        | inr (m, h) ↦
            rw (h, resolve_value)
              (ap (λ t. some (entry k t)) (metadata_of-detail_of key default_value e m))
      ]

  -- If the evaluator has returned a map of metadata, the detail's metadata have the selector under
  -- "scope" and the provider's name under "providerID", where these are configured, whatever the
  -- evaluator has put there, and the evaluator's values under all other keys, on every branch.
  resolve_value-metadata :
      (k selector provider_id key : String) (default_value : V) (e : Evaluation V F X)
      (m : Fields F X)
      → e.metadata ≡ some m
      → Option.map
          (λ r. entry k r.detail.flag_metadata)
          (resolve_value sdk model
            (create_service_metadata selector provider_id)
            key
            default_value
            e)
        ≡ some (elim (own k selector provider_id) [ none ↦ get k m | some v ↦ some v ])
  unfolding resolve_value
  resolve_value-metadata k selector provider_id key default_value e m h =
      entry-resolve_value k key (create_service_metadata selector provider_id) default_value e
      ∙ ap
          (λ t.
            Option.map (entry k) (append_metadata (create_service_metadata selector provider_id) t))
          h
      ∙ entry-append_metadata k (create_service_metadata selector provider_id) m
      ∙ ap (λ o. some (elim o [ none ↦ get k m | some v ↦ some v ]))
          (get-create_service_metadata k selector provider_id)

  -- whether the default value is used
  abbrev pub falls_back : Evaluation V F X → Bool
  falls_back e = elim e.err [
    | some err ↦ true
    | none ↦ e.reason == model.disabled_reason || e.reason == model.fallback_reason
  ]

  has_error-detail_of :
      SdkLaws sdk
      → (key : String) (default_value : V) (e : Evaluation V F X) (metadata : FlagMetadata F X)
      → sdk.has_error (detail_of sdk model key default_value e metadata).detail.resolution_error
        ≡ elim e.err [ none ↦ false | some err ↦ true ]
  unfolding detail_of
  has_error-detail_of laws key default_value e metadata = elim (Option-cases e.err) [
    | inl h ↦ ground (arith, laws.no_error_none)
    | inr (err, h) ↦ ground (arith, map_error-has_error sdk model laws key err)
  ]

  value-detail_of :
      (key : String) (default_value : V) (e : Evaluation V F X) (metadata : FlagMetadata F X)
      → (detail_of sdk model key default_value e metadata).value
        ≡ (if falls_back e then default_value else e.value)
  unfolding detail_of
  value-detail_of key default_value e metadata = ground arith

  -- The detail has the default value if the evaluator has failed or says that the flag is disabled or
  -- falls back, else the evaluator's value, and it has an error exactly if the evaluator has failed.
  -- The call panics exactly if adding the service's metadata to the evaluator's does.
  pub resolve_value-answer :
      SdkLaws sdk
      → (service : Fields F X) (key : String) (default_value : V) (e : Evaluation V F X)
      → Option.map {B = V × Bool}
          (λ r. (r.value, sdk.has_error r.detail.resolution_error))
          (resolve_value sdk model service key default_value e)
        ≡ elim (append_metadata service e.metadata) [
          | none ↦ none
          | some m ↦ some (
            if falls_back e then default_value else e.value,
            elim e.err [ none ↦ false | some err ↦ true ],
          )
        ]
  unfolding resolve_value
  resolve_value-answer laws service key default_value e =
      elim (Option-cases (append_metadata service e.metadata)) [
        | inl h ↦ rw (h, resolve_value) refl
        | inr (m, h) ↦
            rw
              (
                h,
                resolve_value,
                value-detail_of key default_value e m,
                has_error-detail_of laws key default_value e m,
              )
              refl
      ]
