-- ===== src/Flagd/InProcess/Ready.antt =====
-- The ready flag of the in-process service, its stale timer and the events that it sends agree.
use go_sdk_contrib.Common.{
  ◌≡◌, refl, ◌⊎◌, Bool, true, false, List, [], ◌∷◌, Assoc, arith, if◌then◌else◌, Option-cases,
  Sum-cases, inl, inr,
}
use go_sdk_contrib.OpenFeature.{
  EventType, provider_ready, provider_config_change, provider_stale, provider_error, FlagEvent,
}
use go_sdk_contrib.Flagd.InProcess.Diff.{flag_map}
use go_sdk_contrib.Flagd.InProcess.{
  Core, InProcess, Input, sync_event, timer, data_sync, shut, stopped, new_in_process,
  handle_provider_error, handle_provider_ready, handle_sync_event, expire, accept,
  process_sync_data, shutdown, step, run,
}

-- Whether the last event that is no change of the configuration says that the flags are ready; the
-- newest event is the first.
abbrev pub announced : List FlagEvent → Bool
announced [] = false
announced (e ∷ events) = elim e.event_type [
  | provider_ready ↦ true
  | provider_config_change ↦ announced events
  | _ ↦ false
]

pub record IsConsistent {S : Type 0} (i : InProcess S) : Type 0 where
  pub agrees : i.ready ≡ announced i.sent
  pub waits : (i.stale_timer ≡ stopped) ⊎ (i.ready ≡ false)
  pub completes : (i.ready ≡ false) ⊎ (i.initialised ≡ true)

module _ {S : Type 0} where
  handle_sync_event-IsConsistent :
      (t : EventType) (i : InProcess S) → IsConsistent i → IsConsistent (handle_sync_event t i)
  unfolding handle_sync_event handle_provider_error handle_provider_ready
  handle_sync_event-IsConsistent provider_error i h = record {
    agrees = refl;
    waits = inr refl;
    completes = inl refl;
  }
  handle_sync_event-IsConsistent provider_ready i h = record {
    agrees = h.agrees;
    waits = inl refl;
    completes = h.completes;
  }
  handle_sync_event-IsConsistent provider_stale i h = h
  handle_sync_event-IsConsistent provider_config_change i h = h

  expire-IsConsistent : (i : InProcess S) → IsConsistent i → IsConsistent (expire i)
  unfolding expire
  expire-IsConsistent i h = record {
    agrees = ground arith;
    waits = ground arith;
    completes = ground arith;
  }

either-IsConsistent :
    {S : Type 0} (b : Bool) (i j : InProcess S)
    → IsConsistent i
    → IsConsistent j
    → IsConsistent (if b then i else j)
either-IsConsistent true i j h k = h
either-IsConsistent false i j h k = k

module _ {D S A : Type 0} (core : Core D S A) where
  accept-IsConsistent :
      (old : Assoc A) (i : InProcess S) → IsConsistent i → IsConsistent (accept core old i)
  unfolding accept
  accept-IsConsistent old i h = record {
    agrees = ground arith;
    waits = ground arith;
    completes = ground arith;
  }

  process_sync_data-IsConsistent :
      (d : D) (i : InProcess S) → IsConsistent i → IsConsistent (process_sync_data core d i)
  unfolding process_sync_data
  process_sync_data-IsConsistent d i h = elim (Sum-cases (core.get_all i.store)) [
    | inl (err, e) ↦ rw (e, process_sync_data) h
    | inr (old, e) ↦ elim (Option-cases (core.set_state d i.store).1) [
      | inr (err, f) ↦
          rw (e, process_sync_data)
            (rw (f, process_sync_data)
              (record { agrees = refl; waits = inr refl; completes = inl refl }))
      | inl f ↦
          rw (e, process_sync_data)
            (rw (f, process_sync_data)
              (accept-IsConsistent (flag_map old)
                (record i { store = (core.set_state d i.store).0 })
                (record { agrees = h.agrees; waits = h.waits; completes = h.completes })))
    ]
  ]

  step-IsConsistent :
      (input : Input D) (i : InProcess S) → IsConsistent i → IsConsistent (step core input i)
  unfolding step shutdown
  step-IsConsistent (sync_event t) i h = handle_sync_event-IsConsistent t i h
  step-IsConsistent timer i h = expire-IsConsistent i h
  step-IsConsistent (data_sync d) i h =
      either-IsConsistent i.closed i _ h (process_sync_data-IsConsistent d i h)
  step-IsConsistent shut i h =
      either-IsConsistent i.closed i _ h
        (record { agrees = h.agrees; waits = inl refl; completes = h.completes })

  run-IsConsistent :
      (inputs : List (Input D)) (i : InProcess S)
      → IsConsistent i
      → IsConsistent (run core inputs i)
  unfolding run
  run-IsConsistent [] i h = h
  run-IsConsistent (input ∷ inputs) i h =
      run-IsConsistent inputs (step core input i) (step-IsConsistent input i h)

  -- When each input is handled to its end before the next one, the ready flag says what the last event
  -- that is no change of the configuration has said: ready after PROVIDER_READY, not ready after
  -- PROVIDER_STALE, after PROVIDER_ERROR and at the start. While the stale timer is set it is not
  -- ready, and it is ready only once it has been initialised.
  pub run-new-IsConsistent :
      (inputs : List (Input D)) (store : S) → IsConsistent (run core inputs (new_in_process store))
  unfolding new_in_process
  run-new-IsConsistent inputs store =
      run-IsConsistent inputs (new_in_process store)
        (record { agrees = refl; waits = inl refl; completes = inl refl })
