-- ===== src/Witnesses/Lifecycle.antt =====
-- The end of the provider of GO Feature Flag, with a collector that stores one event and an evaluator
-- that has no state.
use go_sdk_contrib.Common.{
  ℕ, ◌≡◌, refl, String, Bool, true, false, Option, none, some, List, [], ◌∷◌,
}
use go_sdk_contrib.GoFeatureFlag.Provider.Lifecycle.{
  Collecting, Lifecycle, start, signal, flush, end_current, Steps, here, next, returned,
  init_with_context, ShutsDown, collecting,
}
use go_sdk_contrib.GoFeatureFlag.Provider.Lifecycle.Ending.{
  left_by, waiting, shutdown-collected, init-retried,
}

abbrev one_stored : Collecting ℕ
one_stored = record {
  manager = record {
    events = 7 ∷ [];
    max_event_stored = 3;
    collect_interval = 1;
    collected = 5 ∷ [];
  };
  token = false;
  current = false;
  earlier = 0;
}

abbrev idle_provider : Lifecycle ℕ Bool
idle_provider = record { collector = some one_stored; evaluator = false }

abbrev running_provider : Lifecycle ℕ Bool
running_provider = record { collector = some (start one_stored); evaluator = true }

abbrev taking : List ℕ → Option String
taking events = none

abbrev failing : Bool → Bool × Option String
failing s = (s, some "error")

abbrev quiet : Bool → Option (Bool × Option String)
quiet s = some (false, none)

abbrev stopped_provider : Lifecycle ℕ Bool
stopped_provider = record {
  collector = some (flush taking (record one_stored { token = false; current = false }));
  evaluator = false;
}

running_provider-stops : ShutsDown taking quiet running_provider stopped_provider none
unfolding start signal
running_provider-stops = collecting refl (returned (next here (end_current refl refl)) refl) refl

shutdown-collected_example : left_by stopped_provider ≡ some (false, [], 5 ∷ 7 ∷ [])
unfolding start
shutdown-collected_example =
    shutdown-collected taking quiet running_provider stopped_provider none (start one_stored)
      running_provider-stops refl (λ events. refl)

init-retried_example :
    ((init_with_context failing (init_with_context failing idle_provider).0).0.collector
      ≡ some (start (start one_stored)))
    × Steps String (signal (start (start one_stored))) (waiting one_stored)
    × ((waiting one_stored).current ≡ true)
init-retried_example =
    init-retried failing failing idle_provider one_stored (waiting one_stored) refl refl here
