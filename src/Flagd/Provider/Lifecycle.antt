-- ===== src/Flagd/Provider/Lifecycle.antt =====
-- What Init returns, and the status that events leave.
use go_sdk_contrib.Common.{
  ◌≡◌, ◌≢◌, refl, Bool, true, false, Option, none, some, List, [], ◌∷◌, any, arith,
}
use go_sdk_contrib.OpenFeature.{ready_state}
use go_sdk_contrib.Flagd.Provider.{
  Provider, Happening, init_done, service_event, deadline, InitError, wait, init,
}

abbrev pub is_deadline : Happening → Bool
is_deadline deadline = true
is_deadline _ = false

module _ {L V Y O : Type 0} where
  -- the provider after Init, by what Init returns
  abbrev pub initialised : Option (Option InitError) → Provider L V Y O → Provider L V Y O
  initialised (some none) p = record p { status = ready_state; initialized = true }
  initialised _ p = p

  wait-initialised :
      (happenings : List Happening) (p : Provider L V Y O)
      → (wait happenings p).0 ≡ initialised (wait happenings p).1 p
  unfolding wait
  wait-initialised [] p = refl
  wait-initialised (init_done none ∷ happenings) p = wait-initialised happenings p
  wait-initialised (init_done (some err) ∷ happenings) p = refl
  wait-initialised (deadline ∷ happenings) p = refl
  wait-initialised (service_event e ∷ happenings) p = ground arith

  wait-ends :
      (happenings : List Happening) (p : Provider L V Y O)
      → any is_deadline happenings ≡ true
      → (wait happenings p).1 ≢ none
  unfolding wait
  wait-ends [] p h = ground (arith, h)
  wait-ends (init_done none ∷ happenings) p h = wait-ends happenings p h
  wait-ends (init_done (some err) ∷ happenings) p h = ground arith
  wait-ends (deadline ∷ happenings) p h = ground arith
  wait-ends (service_event e ∷ happenings) p h = ground arith

  -- Whatever Init meets and in whatever order: the provider becomes ready and initialised exactly
  -- if Init returns no error, and is not changed otherwise.
  init-initialised :
      (happenings : List Happening) (p : Provider L V Y O)
      → p.initialized ≡ false
      → (init happenings p).0 ≡ initialised (init happenings p).1 p
  unfolding init
  init-initialised happenings p h = ground (arith, wait-initialised happenings p)

  -- Init returns if its deadline is met.
  init-ends :
      (happenings : List Happening) (p : Provider L V Y O)
      → any is_deadline happenings ≡ true
      → (init happenings p).1 ≢ none
  unfolding init
  init-ends happenings p h = ground (arith, wait-ends happenings p h)
