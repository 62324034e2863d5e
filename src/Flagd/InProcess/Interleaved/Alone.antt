-- ===== src/Flagd/InProcess/Interleaved/Alone.antt =====
-- When the handlers of the in-process service do not overlap, and what comes of it when they do.
use go_sdk_contrib.Common.{
  ◌≡◌, refl, ◌∙◌, ap, inl, inr, true, false, none, List, [], ◌∷◌, ◌++◌, Assoc, arith, Bool-cases,
  Option-cases, Sum-cases,
}
use go_sdk_contrib.OpenFeature.{
  provider_ready, provider_config_change, provider_stale, provider_error, FlagEvent,
}
use go_sdk_contrib.Flagd.InProcess.Diff.{StoredFlag, flag_map}
use go_sdk_contrib.Flagd.InProcess.{
  stopped, event, start_timer, Core, InProcess, Input, sync_event, timer, data_sync, shut,
  new_in_process, handle_provider_error, handle_provider_ready, handle_sync_event, expire, accept,
  process_sync_data, step, run,
}
use go_sdk_contrib.Flagd.InProcess.Ready.{IsConsistent, run-new-IsConsistent}
use go_sdk_contrib.Flagd.InProcess.Interleaved.{
  Goroutines, Action, receive_event, monitor_on, fire, callback, receive_data, listener_on,
  shut_down, at_rest, received, monitored, started, called_back, begun, completed, listened, act,
  act_all,
}

-- the accesses of the handler of an input, to its end
abbrev pub handler : {D : Type 0} → Input D → List (Action D)
handler (sync_event t) = receive_event t ∷ monitor_on ∷ monitor_on ∷ []
handler timer = fire ∷ callback ∷ []
handler (data_sync d) = receive_data d ∷ listener_on ∷ listener_on ∷ listener_on ∷ []
handler shut = shut_down ∷ []

-- those of handlers that do not overlap
abbrev pub handlers : {D : Type 0} → List (Input D) → List (Action D)
handlers [] = []
handlers (input ∷ inputs) = handler input ++ handlers inputs

-- The accesses of the handler of a lost connection, with those of the handler of data that has then
-- come before its event, and the expiry of the timer.
abbrev pub overtaken : {D : Type 0} → D → List (Action D)
overtaken d =
    receive_event provider_error
    ∷ receive_data d
    ∷ listener_on
    ∷ listener_on
    ∷ listener_on
    ∷ monitor_on
    ∷ monitor_on
    ∷ fire
    ∷ callback
    ∷ []

module _ {D S A : Type 0} (core : Core D S A) where
  act_all-append :
      (xs ys : List (Action D)) (g : Goroutines S A)
      → act_all core (xs ++ ys) g ≡ act_all core ys (act_all core xs g)
  unfolding act_all
  act_all-append [] ys g = refl
  act_all-append (x ∷ xs) ys g = act_all-append xs ys (act core x g)

  act_all-data :
      (d : D) (i : InProcess S)
      → act_all core (handler (data_sync d)) (at_rest i) ≡ at_rest (step core (data_sync d) i)
  unfolding act_all act begun listened step process_sync_data accept completed
  act_all-data d i = elim (Bool-cases i.closed) [
    | inl c ↦ ground (arith, c)
    | inr c ↦ elim (Sum-cases (core.get_all i.store)) [
      | inl (err, e) ↦ ground (arith, c, e)
      | inr (old, e) ↦ elim (Option-cases (core.set_state d i.store).1) [
        | inr (err, f) ↦ ground (arith, c, e, f)
        | inl f ↦ ground (arith, c, e, f)
      ]
    ]
  ]

  act_all-handler :
      (input : Input D) (i : InProcess S)
      → act_all core (handler input) (at_rest i) ≡ at_rest (step core input i)
  unfolding act_all act received monitored started called_back step handle_sync_event
      handle_provider_error handle_provider_ready expire
  act_all-handler (sync_event provider_error) i = refl
  act_all-handler (sync_event provider_ready) i = refl
  act_all-handler (sync_event provider_stale) i = refl
  act_all-handler (sync_event provider_config_change) i = refl
  act_all-handler timer i = ground arith
  act_all-handler (data_sync d) i = act_all-data d i
  act_all-handler shut i = refl

  act_all-handlers :
      (inputs : List (Input D)) (i : InProcess S)
      → act_all core (handlers inputs) (at_rest i) ≡ at_rest (run core inputs i)
  unfolding act_all run
  act_all-handlers [] i = refl
  act_all-handlers (input ∷ inputs) i =
      act_all-append (handler input) (handlers inputs) (at_rest i)
      ∙ ap (act_all core (handlers inputs)) (act_all-handler input i)
      ∙ act_all-handlers inputs (step core input i)

  -- As long as no handler is begun while another is under way, the ready flag says what the last
  -- event that is no change of the configuration has said, the service is not ready while the stale
  -- timer is set, and it is ready only once it has been initialised.
  pub handlers-IsConsistent :
      (inputs : List (Input D)) (store : S)
      → IsConsistent (act_all core (handlers inputs) (at_rest (new_in_process store))).service
  handlers-IsConsistent inputs store =
      rw (act_all-handlers inputs (new_in_process store)) (run-new-IsConsistent core inputs store)

  completed-keeps :
      (old : Assoc A) (i : InProcess S)
      → ((completed core old i).ready ≡ i.ready)
        × ((completed core old i).stale_timer ≡ i.stale_timer)
  unfolding completed
  completed-keeps old i = (ground arith, ground arith)

  pub overtaken-result :
      (d : D) (i : InProcess S) (old : List (StoredFlag A))
      → i.closed ≡ false
      → core.get_all i.store ≡ inr old
      → (core.set_state d i.store).1 ≡ none
      → let g = act_all core (overtaken d) (at_rest i) in
        (events : List FlagEvent) × (g.service.ready ≡ true)
        × (g.service.sent
            ≡ event provider_error "provider error"
              ∷ event provider_stale "connection error"
              ∷ events)
  unfolding act_all act received monitored started called_back begun listened start_timer
  overtaken-result d i old running e f =
      let back : InProcess S = record i {
        store = (core.set_state d i.store).0;
        stale_timer = stopped;
        ready = true;
        sent = event provider_ready "" ∷ i.sent;
      } in
      let kept = completed-keeps (flag_map old) back in
      (
        (completed core (flag_map old) back).sent,
        ground (arith, running, e, f, kept),
        ground (arith, running, e, f, kept),
      )
