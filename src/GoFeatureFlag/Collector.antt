-- ===== src/GoFeatureFlag/Collector.antt =====
-- providers/go-feature-flag/pkg/manager/data_collector_manager.go. Durations are numbers of
-- nanoseconds. The relay proxy is outside the repository: at each call of CollectData it is a
-- function from the events that are sent to its error, if there is one.
pub mod Runs
use go_sdk_contrib.Common.{
  ℕ, zero, suc, ◌*◌, ◌<◌, ◌≡◌, ◌≢◌, Bool, true, false, Option, none, some, List, [], ◌∷◌, ◌++◌,
  length, leb, if◌then◌else◌,
}
use go_sdk_contrib.OpenFeature.{ℤ, pos, negsuc}

abbrev pub data_collector_max_event_stored_default : ℕ
data_collector_max_event_stored_default = 100000

abbrev pub collect_interval_default : ℕ
collect_interval_default = 2 * 60 * 1000000000

-- The mutex is held by each operation from its first to its last access. `collected` is what the
-- calls of CollectData that returned no error were given, in order.
pub record DataCollectorManager (A : Type 0) : Type 0 where
  pub events : List A
  pub max_event_stored : ℕ
  pub collect_interval : ℕ
  pub collected : List A

-- `x` if it is positive, else the default
abbrev pub or_default : ℤ → ℕ → ℕ
or_default (pos zero) d = d
or_default (pos (suc n)) d = suc n
or_default (negsuc n) d = d

unfoldable pub new_data_collector_manager : {A : Type 0} → ℤ → ℤ → DataCollectorManager A
new_data_collector_manager max_event_stored collect_interval = record {
  events = [];
  max_event_stored = or_default max_event_stored data_collector_max_event_stored_default;
  collect_interval = or_default collect_interval collect_interval_default;
  collected = [];
}

module _ {A Err : Type 0} (collect_data : List A → Option Err) where
  -- sendDataLocked
  unfoldable pub send_data_locked : DataCollectorManager A → DataCollectorManager A × Option Err
  send_data_locked d = elim d.events [
    | [] ↦ (d, none)
    | e ∷ es ↦ elim (collect_data (e ∷ es)) [
      | some err ↦ (d, some err)
      | none ↦ (record d { events = []; collected = d.collected ++ e ∷ es }, none)
    ]
  ]

  unfoldable pub send_data : DataCollectorManager A → DataCollectorManager A × Option Err
  unfolding send_data_locked
  send_data d = send_data_locked d

  unfoldable pub add_event : A → DataCollectorManager A → DataCollectorManager A × Option Err
  unfolding send_data_locked
  add_event event d =
      let (flushed, err) =
        if leb d.max_event_stored (length d.events) then send_data_locked d else (d, none) in
      elim err [
        | some e ↦ (flushed, some e)
        | none ↦ (record flushed { events = flushed.events ++ event ∷ [] }, none)
      ]

-- The goroutine that Start launches; `ended` when goroutineDone is closed.
pub data Goroutine : Type 0 where
  idle running ended : Goroutine

-- A manager with the goroutine of its last Start, and with how many goroutines of earlier ones
-- still run; `stopping` when collectChannel holds a token.
pub record System (A : Type 0) : Type 0 where
  pub manager : DataCollectorManager A
  pub goroutine : Goroutine
  pub earlier : ℕ
  pub stopping : Bool

-- how many goroutines run, which are earlier ones once Start is called
abbrev pub running_before : {A : Type 0} → System A → ℕ
running_before s = elim s.goroutine [ running ↦ suc s.earlier | _ ↦ s.earlier ]

-- The systems that calls of the operations lead to, with the events that AddEvent has accepted.
-- Start may be called while goroutines run. Any of them may take the token and end. Stop is two
-- steps: it puts the token, and once the goroutine of the last Start has ended, or if there is none,
-- it sends the data.
pub data Reach {A : Type 0} (Err : Type 0) : List A → System A → Type 0 where
  created :
      (max interval : ℤ)
      → Reach Err [] (record {
        manager = new_data_collector_manager max interval;
        goroutine = idle;
        earlier = 0;
        stopping = false;
      })
  start :
      {accepted : List A} {s : System A}
      → Reach Err accepted s
      → Reach Err accepted (record s { goroutine = running; earlier = running_before s })
  tick :
      {accepted : List A} {s : System A} (collect_data : List A → Option Err)
      → Reach Err accepted s
      → 0 < running_before s
      → Reach Err accepted (record s { manager = (send_data collect_data s.manager).0 })
  end :
      {accepted : List A} {s : System A}
      → Reach Err accepted s
      → s.goroutine ≡ running
      → s.stopping ≡ true
      → Reach Err accepted (record s { goroutine = ended; stopping = false })
  end_earlier :
      {accepted : List A} {s : System A} (n : ℕ)
      → Reach Err accepted s
      → s.earlier ≡ suc n
      → s.stopping ≡ true
      → Reach Err accepted (record s { earlier = n; stopping = false })
  stop :
      {accepted : List A} {s : System A}
      → Reach Err accepted s
      → Reach Err accepted (record s { stopping = true })
  stopped :
      {accepted : List A} {s : System A} (collect_data : List A → Option Err)
      → Reach Err accepted s
      → s.goroutine ≢ running
      → Reach Err accepted (record s { manager = (send_data collect_data s.manager).0 })
  sent :
      {accepted : List A} {s : System A} (collect_data : List A → Option Err)
      → Reach Err accepted s
      → Reach Err accepted (record s { manager = (send_data collect_data s.manager).0 })
  added :
      {accepted : List A} {s : System A} (collect_data : List A → Option Err) (event : A)
      → Reach Err accepted s
      → (add_event collect_data event s.manager).1 ≡ none
      → Reach Err
          (accepted ++ event ∷ [])
          (record s { manager = (add_event collect_data event s.manager).0 })
  refused :
      {accepted : List A} {s : System A} (collect_data : List A → Option Err) (event : A)
      (err : Err)
      → Reach Err accepted s
      → (add_event collect_data event s.manager).1 ≡ some err
      → Reach Err accepted (record s { manager = (add_event collect_data event s.manager).0 })
