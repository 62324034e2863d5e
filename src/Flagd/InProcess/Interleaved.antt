-- ===== src/Flagd/InProcess/Interleaved.antt =====
-- providers/flagd/pkg/service/in_process/service.go: the goroutines of the service one access to
-- shared state at a time, with handlers of different goroutines under way together. The flags are
-- changed and read by the listener alone, so that this counts as one access with the next.
pub mod Alone
pub mod Sound
use go_sdk_contrib.Common.{
  ℕ, zero, suc, ◌⊎◌, inl, inr, String, Bool, true, false, Option, none, some, List, [], ◌∷◌, Assoc,
  concat, if◌then◌else◌,
}
use go_sdk_contrib.OpenFeature.{
  EventType, provider_ready, provider_config_change, provider_stale, provider_error,
}
use go_sdk_contrib.Flagd.InProcess.Diff.{flag_map, compute_changed_flags}
use go_sdk_contrib.Flagd.InProcess.{
  Core, InProcess, stopped, pending, expired, event, start_timer, shutdown,
}

-- Where runEventSyncMonitor is: in its select, before the send of handleProviderError, or before the
-- start of the timer.
pub data Monitor : Type 0 where
  selecting announcing starting : Monitor

-- Where runDataSyncListener is: in its select, or in processSyncData before the event of an error,
-- the test of the ready flag, the event PROVIDER_READY, or the end of the initialisation.
pub data Listener (A : Type 0) : Type 0 where
  resting : Listener A
  reporting : String → Listener A
  marking : Assoc A → Listener A
  recovering : Assoc A → Listener A
  completing : Assoc A → Listener A

-- `fired` is how many callbacks of the timer have been started that have not sent their event.
pub record Goroutines (S A : Type 0) : Type 0 where
  pub service : InProcess S
  pub monitor : Monitor
  pub listener : Listener A
  pub fired : ℕ

-- an access of a goroutine; one that is not possible changes nothing
pub data Action (D : Type 0) : Type 0 where
  receive_event : EventType → Action D
  monitor_on : Action D
  fire : Action D
  callback : Action D
  receive_data : D → Action D
  listener_on : Action D
  shut_down : Action D

-- a service none of whose handlers is under way
abbrev pub at_rest : {S A : Type 0} → InProcess S → Goroutines S A
at_rest i = record { service = i; monitor = selecting; listener = resting; fired = 0 }

module _ {S A : Type 0} where
  unfoldable pub received : EventType → Goroutines S A → Goroutines S A
  received provider_error g = record g {
    service = record (g.service) { ready = false };
    monitor = announcing;
  }
  received provider_ready g = record g { service = record (g.service) { stale_timer = stopped } }
  received provider_stale g = g
  received provider_config_change g = g

  -- handleProviderError after the ready flag
  unfoldable pub monitored : Goroutines S A → Goroutines S A
  unfolding start_timer
  monitored g = elim g.monitor [
    | selecting ↦ g
    | announcing ↦ record g {
      service = record (g.service) {
        sent = event provider_stale "connection error" ∷ g.service.sent;
      };
      monitor = starting;
    }
    | starting ↦ record g {
      service = record (g.service) { stale_timer = start_timer g.service.stale_timer };
      monitor = selecting;
    }
  ]

  -- time.AfterFunc starts the callback; stop does not wait for it.
  unfoldable pub started : Goroutines S A → Goroutines S A
  started g = elim g.service.stale_timer [
    | pending ↦ record g {
      service = record (g.service) { stale_timer = expired };
      fired = suc g.fired;
    }
    | _ ↦ g
  ]

  unfoldable pub called_back : Goroutines S A → Goroutines S A
  called_back g = elim g.fired [
    | zero ↦ g
    | suc n ↦ record g {
      service = record (g.service) {
        sent = event provider_error "provider error" ∷ g.service.sent;
      };
      fired = n;
    }
  ]

module _ {D S A : Type 0} (core : Core D S A) where
  -- processSyncData up to its first access to the timer or to the ready flag
  unfoldable pub begun : D → Goroutines S A → Goroutines S A
  unfolding flag_map
  begun sync_data g = elim (core.get_all g.service.store) [
    | inl err ↦ g
    | inr old_flags ↦
        let (store, failed) = core.set_state sync_data g.service.store in
        elim failed [
          | some err ↦ record g {
            service = record (g.service) { store = store; ready = false };
            listener = reporting err;
          }
          | none ↦ record g {
            service = record (g.service) { store = store; stale_timer = stopped };
            listener = marking (flag_map old_flags);
          }
        ]
  ]

  -- the end of the initialisation, and the event of a change
  unfoldable pub completed : Assoc A → InProcess S → InProcess S
  unfolding compute_changed_flags
  completed old_flag_map i = elim (core.get_all i.store) [
    | inl err ↦ record i { initialised = true }
    | inr new_flags ↦ elim (compute_changed_flags core.deep_equal old_flag_map new_flags) [
      | [] ↦ record i { initialised = true }
      | key ∷ keys ↦ record i {
        initialised = true;
        sent =
            record {
              event_type = provider_config_change;
              message = "New flag sync";
              flag_changes = key ∷ keys;
            }
            ∷ i.sent;
      }
    ]
  ]

  -- processSyncData after `begun`
  unfoldable pub listened : Goroutines S A → Goroutines S A
  unfolding completed
  listened g = elim g.listener [
    | resting ↦ g
    | reporting err ↦ record g {
      service = record (g.service) {
        sent = event provider_error (concat "Error from flag sync " err) ∷ g.service.sent;
      };
      listener = resting;
    }
    | marking old ↦
        if g.service.ready
        then record g { listener = completing old }
        else record g { service = record (g.service) { ready = true }; listener = recovering old }
    | recovering old ↦ record g {
      service = record (g.service) { sent = event provider_ready "" ∷ g.service.sent };
      listener = completing old;
    }
    | completing old ↦ record g { service = completed old g.service; listener = resting }
  ]

  unfoldable pub act : Action D → Goroutines S A → Goroutines S A
  unfolding received monitored started called_back begun listened shutdown
  act (receive_event t) g = elim g.monitor [ selecting ↦ received t g | _ ↦ g ]
  act monitor_on g = monitored g
  act fire g = started g
  act callback g = called_back g
  act (receive_data d) g = elim g.listener [
    | resting ↦ if g.service.closed then g else begun d g
    | _ ↦ g
  ]
  act listener_on g = listened g
  act shut_down g = record g { service = shutdown core g.service }

  unfoldable pub act_all : List (Action D) → Goroutines S A → Goroutines S A
  unfolding act
  act_all [] g = g
  act_all (a ∷ actions) g = act_all actions (act a g)
