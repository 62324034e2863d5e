-- ===== src/Flagd/InProcess.antt =====
-- providers/flagd/pkg/service/in_process/service.go: the life of the service. What its goroutines
-- handle is a list of inputs, each to its end before the next; Interleaved splits the handlers. The store and the evaluator of flagd's core, and the
-- comparison reflect.DeepEqual, are the fields of `Core`.
pub mod Diff
pub mod Changed
pub mod Resolve
pub mod Details
pub mod Sources
pub mod Ready
pub mod GrpcSync
pub mod Streaming
pub mod Interleaved
use go_sdk_contrib.Common.{
  String, ◌⊎◌, inl, inr, Bool, true, false, Option, none, some, List, [], ◌∷◌, Assoc, concat,
  if◌then◌else◌,
}
use go_sdk_contrib.OpenFeature.{
  EventType, provider_ready, provider_config_change, provider_stale, provider_error, FlagEvent,
}
use go_sdk_contrib.Flagd.InProcess.Diff.{StoredFlag, flag_map, compute_changed_flags}

-- `D` is isync.DataSync, `S` the store, and `A` what a flag holds besides its key; an error is its
-- text.
pub record Core (D S A : Type 0) : Type 0 where
  pub get_all : S → String ⊎ List (StoredFlag A)
  pub set_state : D → S → S × Option String
  pub deep_equal : A → A → Bool

-- staleTimer: `expired` is a timer that is not nil and has called back.
pub data StaleTimer : Type 0 where
  stopped pending expired : StaleTimer

-- `initialised` is whether initSuccess is closed, `sent` the events, the newest first, and `closed`
-- whether Shutdown has been called.
pub record InProcess (S : Type 0) : Type 0 where
  pub store : S
  pub stale_timer : StaleTimer
  pub ready : Bool
  pub initialised : Bool
  pub closed : Bool
  pub sent : List FlagEvent

-- What the goroutines of the service and its owner do.
pub data Input (D : Type 0) : Type 0 where
  sync_event : EventType → Input D
  timer : Input D
  data_sync : D → Input D
  shut : Input D

abbrev pub event : EventType → String → FlagEvent
event t message = record { event_type = t; message = message; flag_changes = [] }

-- staleTimer.start, which leaves a timer that is there as it is
unfoldable pub start_timer : StaleTimer → StaleTimer
start_timer stopped = pending
start_timer t = t

unfoldable pub new_in_process : {S : Type 0} → S → InProcess S
new_in_process store = record {
  store = store;
  stale_timer = stopped;
  ready = false;
  initialised = false;
  closed = false;
  sent = [];
}

unfoldable pub handle_provider_error : {S : Type 0} → InProcess S → InProcess S
unfolding start_timer
handle_provider_error i = record i {
  sent = event provider_stale "connection error" ∷ i.sent;
  stale_timer = start_timer i.stale_timer;
}

unfoldable pub handle_provider_ready : {S : Type 0} → InProcess S → InProcess S
handle_provider_ready i = record i { stale_timer = stopped }

unfoldable pub handle_sync_event : {S : Type 0} → EventType → InProcess S → InProcess S
unfolding handle_provider_error handle_provider_ready
handle_sync_event provider_error i = handle_provider_error (record i { ready = false })
handle_sync_event provider_ready i = handle_provider_ready i
handle_sync_event provider_stale i = i
handle_sync_event provider_config_change i = i

-- the callback of the timer
unfoldable pub expire : {S : Type 0} → InProcess S → InProcess S
expire i = elim i.stale_timer [
  | pending ↦ record i {
    stale_timer = expired;
    sent = event provider_error "provider error" ∷ i.sent;
  }
  | _ ↦ i
]

module _ {D S A : Type 0} (core : Core D S A) where
  -- processSyncData once SetState has returned no error: the ready event, the end of the
  -- initialisation, and the event of a change
  unfoldable pub accept : Assoc A → InProcess S → InProcess S
  unfolding compute_changed_flags
  accept old_flag_map i =
      let i' = record i {
        stale_timer = stopped;
        ready = true;
        initialised = true;
        sent = if i.ready then i.sent else event provider_ready "" ∷ i.sent;
      } in
      elim (core.get_all i'.store) [
        | inl err ↦ i'
        | inr new_flags ↦ elim (compute_changed_flags core.deep_equal old_flag_map new_flags) [
          | [] ↦ i'
          | key ∷ keys ↦ record i' {
            sent =
                record {
                  event_type = provider_config_change;
                  message = "New flag sync";
                  flag_changes = key ∷ keys;
                }
                ∷ i'.sent;
          }
        ]
      ]

  unfoldable pub process_sync_data : D → InProcess S → InProcess S
  unfolding accept flag_map
  process_sync_data sync_data i = elim (core.get_all i.store) [
    | inl err ↦ i
    | inr old_flags ↦
        let (store, failed) = core.set_state sync_data i.store in
        elim failed [
          | some err ↦ record i {
            store = store;
            ready = false;
            sent = event provider_error (concat "Error from flag sync " err) ∷ i.sent;
          }
          | none ↦ accept (flag_map old_flags) (record i { store = store })
        ]
  ]

  unfoldable pub shutdown : InProcess S → InProcess S
  shutdown i = if i.closed then i else record i { stale_timer = stopped; closed = true }

  -- runEventSyncMonitor, the timer, runDataSyncListener and Shutdown; the listener has ended when
  -- Shutdown returns, while the monitor may still handle an event.
  unfoldable pub step : Input D → InProcess S → InProcess S
  unfolding handle_sync_event expire process_sync_data shutdown
  step (sync_event t) i = handle_sync_event t i
  step timer i = expire i
  step (data_sync d) i = if i.closed then i else process_sync_data d i
  step shut i = shutdown i

  unfoldable pub run : List (Input D) → InProcess S → InProcess S
  unfolding step
  run [] i = i
  run (input ∷ inputs) i = run inputs (step input i)
