-- ===== src/CodeReadiness/Decision.antt =====
-- What the hook decides: hooks/codereadiness/codereadiness.go, New and After.
use go_sdk_contrib.Common.{
  String, ◌≡◌, ◌⊎◌, inr, ◌==◌, Bool, true, false, not, ◌&&◌, Option, none, some, [], ◌∷◌, arith,
  if◌then◌else◌,
}
use go_sdk_contrib.OpenFeature.{ℤ, pos, negsuc, string, FlagMetadata, get}
use go_sdk_contrib.CodeReadiness.{
  AfterError, default_min_code_version_key, NewError, Ready, report, add_required_sem_ver_prefix,
  initialize, compare, semver_comparator, with_strict_validation, apply, new, after,
}

abbrev pub is_refused : Option AfterError → Bool
is_refused answer = elim answer [ none ↦ false | some err ↦ true ]

-- the version that the metadata require, if both versions can be compared
abbrev pub minimum : (String → Bool) → {F X : Type 0} → String → FlagMetadata F X → Option String
minimum is_valid version metadata = elim metadata [
  | none ↦ none
  | some fields ↦ elim (get default_min_code_version_key fields) [
    | some (string required) ↦
        if not (required == "")
          && (is_valid (add_required_sem_ver_prefix version)
              && is_valid (add_required_sem_ver_prefix required))
        then some (add_required_sem_ver_prefix required)
        else none
    | _ ↦ none
  ]
]

-- whether the first version is before the second
abbrev pub is_before : (String → String → ℤ) → String → String → Bool
is_before semver_compare current required = elim (semver_compare current required) [
  | pos n ↦ false
  | negsuc n ↦ true
]

module _ (is_valid : String → Bool) (semver_compare : String → String → ℤ)
    (quote : String → String) where
  -- the hook that New makes with the option WithStrictValidation
  abbrev pub with_strictness : String → Bool → NewError ⊎ Ready
  with_strictness version strict =
      new is_valid semver_compare quote version (with_strict_validation strict ∷ [])

  made-new :
      (version : String) (strict : Bool) (r : Ready)
      → with_strictness version strict ≡ inr r
      → (r.hook.strict_validation ≡ strict)
        × ((r.hook.metadata_min_ver_key ≡ default_min_code_version_key)
            × (r.compare
                ≡ compare is_valid semver_compare quote
                    (initialize is_valid semver_compare quote version).0))
  unfolding new apply with_strict_validation semver_comparator report
  made-new version strict r h = ground (arith, h)

  -- The hook that New makes from a version and a strictness refuses an evaluation exactly if the
  -- metadata of the flag require, under the default key, a version that is not empty, both versions
  -- are valid with their prefix, and the program's is before the required one; or, if there is no
  -- such requirement or one of the versions is not valid, exactly if the hook is strict.
  pub after-decides :
      {F X : Type 0} (version : String) (strict : Bool) (r : Ready) (metadata : FlagMetadata F X)
      → with_strictness version strict ≡ inr r
      → is_refused (after r metadata) ≡ elim (minimum is_valid version metadata) [
        | none ↦ strict
        | some required ↦ is_before semver_compare (add_required_sem_ver_prefix version) required
      ]
  unfolding after report compare initialize
  after-decides version strict r metadata h =
      let (same, (key, comparing)) = made-new version strict r h in
      ground (arith, same, key, comparing)
