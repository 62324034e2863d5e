-- ===== src/Witnesses/Hooks.antt =====
-- The hooks.
use go_sdk_contrib.Common.{String, ◌≡◌, refl, ◌==◌, inr, Bool, true, false, some, if◌then◌else◌}
use go_sdk_contrib.OpenFeature.{ℤ, pos, negsuc, string, FlagMetadata, empty, field, get}
use go_sdk_contrib.CodeReadiness.{
  Ready, after, default_min_code_version_key, compare, initialize, new, semver_comparator,
  with_strict_validation, add_required_sem_ver_prefix,
}
use go_sdk_contrib.CodeReadiness.Decision.{is_refused, with_strictness, after-decides}

-- the versions are v1.0.0 and v2.0.0
abbrev is_valid : String → Bool
is_valid version = if version == "v1.0.0" then true else version == "v2.0.0"

abbrev semver_compare : String → String → ℤ
semver_compare current required =
    if current == required then pos 0 else if current == "v1.0.0" then negsuc 0 else pos 1

abbrev quote : String → String
quote text = text

abbrev lenient : Ready
lenient = record {
  hook = record {
    current_version = "1.0.0";
    comparator = some (semver_comparator is_valid semver_compare quote);
    strict_validation = false;
    metadata_min_ver_key = default_min_code_version_key;
    has_logger = true;
  };
  compare =
      compare is_valid semver_compare quote (initialize is_valid semver_compare quote "1.0.0").0;
}

lenient-made : with_strictness is_valid semver_compare quote "1.0.0" false ≡ inr lenient
unfolding new with_strict_validation
lenient-made = refl

abbrev requiring : FlagMetadata Bool Bool
requiring = some (field "minCodeVersion" (string "2.0.0") empty)

after-decides_example : is_refused (after lenient requiring) ≡ true
unfolding get add_required_sem_ver_prefix
after-decides_example =
    after-decides is_valid semver_compare quote "1.0.0" false lenient requiring lenient-made
