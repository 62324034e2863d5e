-- ===== src/MultiProvider/Strategies/Answers.antt =====
-- The three kinds of a provider's answer that the strategies tell apart.
use go_sdk_contrib.Common.{◌≡◌, ◌≢◌, true, false}
use go_sdk_contrib.OpenFeature.{flag_not_found, ProviderResolutionDetail, Sdk}

module _ {E F X : Type 0} (sdk : Sdk E F X) (d : ProviderResolutionDetail E F X) where
  -- no error
  abbrev pub Succeeds : Type 0
  Succeeds = sdk.has_error d.resolution_error ≡ false

  -- an error with the code FLAG_NOT_FOUND
  abbrev pub IsNotFound : Type 0
  IsNotFound =
      (sdk.has_error d.resolution_error ≡ true)
      × (sdk.error_code d.resolution_error ≡ flag_not_found)

  -- an error with another code
  abbrev pub Fails : Type 0
  Fails =
      (sdk.has_error d.resolution_error ≡ true)
      × (sdk.error_code d.resolution_error ≢ flag_not_found)
