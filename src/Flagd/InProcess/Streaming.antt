-- ===== src/Flagd/InProcess/Streaming.antt =====
-- The provider of flags that follows a stream: its channel, its readiness and its fatal errors.
use go_sdk_contrib.Common.{any, ◌&&◌, ◌≡◌, ◌≤◌, Bool, true, false, some, List, [], ◌∷◌, length}
use go_sdk_contrib.Flagd.InProcess.GrpcSync.{provider_fatal, Sync, channel_size}

-- whether a fatal error, if there is one, has one of these codes and no data has been passed on
abbrev pub fatal_first : {D C : Type 0} → (C → C → Bool) → List C → Sync D C → Bool
fatal_first same_code codes g = elim g.ending [
  | some (provider_fatal c) ↦
      any (same_code c) codes && elim g.passed_on [ [] ↦ true | d ∷ ds ↦ false ]
  | _ ↦ true
]

pub record IsSound {D C : Type 0} (same_code : C → C → Bool) (codes : List C) (g : Sync D C)
    : Type 0 where
  pub same_codes : g.non_retryable ≡ codes
  pub has_room : length g.events ≤ channel_size
  pub started : g.ready ≡ elim g.passed_on [ [] ↦ false | d ∷ ds ↦ true ]
  pub fatal : fatal_first same_code codes g ≡ true
