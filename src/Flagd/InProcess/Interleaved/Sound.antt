-- ===== src/Flagd/InProcess/Interleaved/Sound.antt =====
-- What holds of the in-process service however its goroutines interleave.
use go_sdk_contrib.Common.{◌≡◌, refl, Bool, true, false, not, ◌||◌, List, [], ◌∷◌, Assoc, arith}
use go_sdk_contrib.OpenFeature.{provider_ready, FlagEvent}
use go_sdk_contrib.Flagd.InProcess.{Core, InProcess, new_in_process, shutdown}
use go_sdk_contrib.Flagd.InProcess.Interleaved.{
  Listener, resting, reporting, marking, recovering, completing, Goroutines, Action, receive_event,
  monitor_on, fire, callback, receive_data, listener_on, shut_down, at_rest, received, monitored,
  started, called_back, begun, completed, listened, act, act_all,
}

-- whether PROVIDER_READY is among the events
abbrev pub has_ready : List FlagEvent → Bool
has_ready [] = false
has_ready (e ∷ events) = elim e.event_type [ provider_ready ↦ true | _ ↦ has_ready events ]

abbrev pub is_recovering : {A : Type 0} → Listener A → Bool
is_recovering (recovering old) = true
is_recovering _ = false

abbrev pub is_completing : {A : Type 0} → Listener A → Bool
is_completing (completing old) = true
is_completing _ = false

-- A service is ready only if it has sent PROVIDER_READY or its listener is about to; if it has been
-- initialised, or is about to be, it has sent PROVIDER_READY; and it is ready only if it has been
-- initialised, or its listener is about to do so.
abbrev pub IsSound : {S A : Type 0} → Goroutines S A → Type 0
IsSound g =
    ((not g.service.ready || (has_ready g.service.sent || is_recovering g.listener)) ≡ true)
    × ((not (g.service.initialised || is_completing g.listener) || has_ready g.service.sent) ≡ true)
    × ((not g.service.ready
          || (g.service.initialised || (is_recovering g.listener || is_completing g.listener)))
        ≡ true)

module _ {D S A : Type 0} (core : Core D S A) where
  completed-IsSound :
      (old : Assoc A) (i : InProcess S)
      → has_ready i.sent ≡ true
      → (has_ready (completed core old i).sent ≡ true) × ((completed core old i).initialised ≡ true)
  unfolding completed
  completed-IsSound old i h = (ground (arith, h), ground (arith, h))

  at-IsSound :
      (l : Listener A) (g : Goroutines S A)
      → IsSound (record g { listener = l })
      → IsSound (listened core (record g { listener = l }))
  unfolding listened
  at-IsSound resting g h = h
  at-IsSound (reporting err) g h = ground (arith, h)
  at-IsSound (marking old) g h = ground (arith, h)
  at-IsSound (recovering old) g h = ground (arith, h)
  at-IsSound (completing old) g h =
      let sent : has_ready g.service.sent ≡ true = ground (arith, h) in
      ground (arith, completed-IsSound old g.service sent)

  act-IsSound : (a : Action D) (g : Goroutines S A) → IsSound g → IsSound (act core a g)
  unfolding act received monitored started called_back begun shutdown
  act-IsSound (receive_event t) g h = ground (arith, h)
  act-IsSound monitor_on g h = ground (arith, h)
  act-IsSound fire g h = ground (arith, h)
  act-IsSound callback g h = ground (arith, h)
  act-IsSound (receive_data d) g h = ground (arith, h)
  act-IsSound listener_on g h = at-IsSound g.listener g h
  act-IsSound shut_down g h = ground (arith, h)

  act_all-IsSound :
      (actions : List (Action D)) (g : Goroutines S A)
      → IsSound g
      → IsSound (act_all core actions g)
  unfolding act_all
  act_all-IsSound [] g h = h
  act_all-IsSound (a ∷ actions) g h = act_all-IsSound actions (act core a g) (act-IsSound a g h)

  -- However the handlers of the service's goroutines interleave, with callbacks of the timer that are
  -- late: the service is ready only if it has sent PROVIDER_READY or its listener is about to send it;
  -- it has been initialised, or its listener is about to end the initialisation, only after
  -- PROVIDER_READY; and it is ready only if it has been initialised or its listener is on the way to
  -- that.
  pub act_all-new-IsSound :
      (actions : List (Action D)) (store : S)
      → IsSound (act_all core actions (at_rest (new_in_process store)))
  unfolding new_in_process
  act_all-new-IsSound actions store =
      act_all-IsSound actions (at_rest (new_in_process store)) (refl, refl, refl)
