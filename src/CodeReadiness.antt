-- ===== src/CodeReadiness.antt =====
-- hooks/codereadiness/codereadiness.go: a hook that refuses the evaluation of a flag whose metadata
-- ask for a later version of the program. Logging is left out.
pub mod Decision
use go_sdk_contrib.Common.{
  String, ◌⊎◌, inl, inr, ◌==◌, Bool, true, false, not, Option, none, some, List, [], ◌∷◌, concat,
  cut_prefix, if◌then◌else◌,
}
use go_sdk_contrib.OpenFeature.{ℤ, pos, negsuc, Any, string, FlagMetadata, get}

abbrev pub default_min_code_version_key : String
default_min_code_version_key = "minCodeVersion"

abbrev pub version_prefix : String
version_prefix = "v"

-- Initialize is called once, before any Compare: it is a function from the version of the program
-- to its error and to what Compare answers from then on, an error or a Bool.
pub record Initialized : Type 0 where
  pub err : Option String
  pub compare : String → String ⊎ Bool

pub record VersionComparator : Type 0 where
  pub initialize : String → Initialized

-- `has_logger` is whether the logger is not nil.
pub record Hook : Type 0 where
  pub current_version : String
  pub comparator : Option VersionComparator
  pub strict_validation : Bool
  pub metadata_min_ver_key : String
  pub has_logger : Bool

-- Option
abbrev pub HookOption : Type 0
HookOption = Hook → Hook

unfoldable pub with_comparator : Option VersionComparator → HookOption
with_comparator comparator h = record h { comparator = comparator }

unfoldable pub with_strict_validation : Bool → HookOption
with_strict_validation strict h = record h { strict_validation = strict }

unfoldable pub with_metadata_min_ver_key : String → HookOption
with_metadata_min_ver_key key h = record h { metadata_min_ver_key = key }

unfoldable pub with_logger : Bool → HookOption
with_logger has_logger h = record h { has_logger = has_logger }

unfoldable pub apply : List HookOption → Hook → Hook
apply [] h = h
apply (o ∷ os) h = apply os (o h)

-- the errors of New and of After, by their cause
pub data NewError : Type 0 where
  nil_comparator nil_logger empty_version : NewError
  initialization_failed : String → NewError

pub data AfterError : Type 0 where
  metadata_nil key_missing not_a_string empty_value : AfterError
  invalid_versions : String → AfterError
  check_failed : AfterError

-- a hook with the Compare of its comparator, which is initialized
pub record Ready : Type 0 where
  pub hook : Hook
  pub compare : String → String ⊎ Bool

-- what After and New do with an error that only strict validation reports
unfoldable pub report : {A : Type 0} → Bool → A → Option A
report strict err = if strict then some err else none

unfoldable pub add_required_sem_ver_prefix : String → String
unfolding cut_prefix
add_required_sem_ver_prefix version = elim (cut_prefix version_prefix version) [
  | some rest ↦ version
  | none ↦ concat version_prefix version
]

pub record SemverComparator : Type 0 where
  pub current : String
  pub current_version_valid : Bool

-- IsValid and Compare of golang.org/x/mod/semver, and what %q of fmt makes of a text
module _ (is_valid : String → Bool) (semver_compare : String → String → ℤ)
    (quote : String → String) where
  unfoldable pub initialize : String → SemverComparator × Option String
  unfolding add_required_sem_ver_prefix
  initialize version =
      let current = add_required_sem_ver_prefix version in
      if is_valid current
      then (record { current = current; current_version_valid = true }, none)
      else (
        record { current = current; current_version_valid = false },
        some (concat "invalid current semver: " (quote version)),
      )

  unfoldable pub compare : SemverComparator → String → String ⊎ Bool
  unfolding add_required_sem_ver_prefix
  compare s required =
      let prefixed = add_required_sem_ver_prefix required in
      if not s.current_version_valid
      then inl (concat "invalid current semver: " (quote s.current))
      else if not (is_valid prefixed)
      then inl (concat "invalid required semver: " (quote prefixed))
      else inr (elim (semver_compare s.current prefixed) [ pos n ↦ true | negsuc n ↦ false ])

  unfoldable pub semver_comparator : VersionComparator
  unfolding initialize compare
  semver_comparator = record {
    initialize = λ version. record {
      err = (initialize version).1;
      compare = compare (initialize version).0;
    };
  }

  unfoldable pub new : String → List HookOption → NewError ⊎ Ready
  unfolding semver_comparator apply report
  new current_version opts =
      let h = apply opts (record {
        current_version = current_version;
        comparator = some semver_comparator;
        strict_validation = false;
        metadata_min_ver_key = default_min_code_version_key;
        has_logger = true;
      }) in
      elim h.comparator [
        | none ↦ inl nil_comparator
        | some comparator ↦
            if not h.has_logger
            then inl nil_logger
            else if h.current_version == ""
            then inl empty_version
            else (let made = comparator.initialize h.current_version in
                elim made.err [
                  | none ↦ inr (record { hook = h; compare = made.compare })
                  | some err ↦ elim (report h.strict_validation (initialization_failed err)) [
                    | some failed ↦ inl failed
                    | none ↦ inr (record { hook = h; compare = made.compare })
                  ]
                ])
      ]

module _ {F X : Type 0} where
  unfoldable pub after : Ready → FlagMetadata F X → Option AfterError
  unfolding report get
  after r metadata =
      let strict = r.hook.strict_validation in
      elim metadata [
        | none ↦ report strict metadata_nil
        | some fields ↦ elim (get r.hook.metadata_min_ver_key fields) [
          | none ↦ report strict key_missing
          | some (string min_code_version) ↦
              if min_code_version == ""
              then report strict empty_value
              else elim (r.compare min_code_version) [
                | inl err ↦ report strict (invalid_versions err)
                | inr valid ↦ if valid then none else some check_failed
              ]
          | some _ ↦ report strict not_a_string
        ]
      ]
