-- ===== src/GoFeatureFlag/Collector/Runs.antt =====
-- No event is lost, sent twice or reordered by the manager of data_collector_manager.go, and its
-- queue is bounded.
use mathlib.Core.List.{append_assoc, append-nil}
use go_sdk_contrib.Common.{
  zero, suc, ◌≤◌, ◌<◌, ◌≡◌, ◌↔◌, refl, inl, inr, ap, ◌∙◌, Option, none, some, List, [], ◌∷◌, ◌++◌,
  length, length-append, List-cases, Option-cases, arith,
}
use go_sdk_contrib.OpenFeature.{pos, negsuc}
use go_sdk_contrib.GoFeatureFlag.Collector.{
  DataCollectorManager, new_data_collector_manager, send_data_locked, send_data, add_event, System,
  Reach, created, start, tick, end, end_earlier, stop, stopped, sent, added, refused,
}

module _ {A Err : Type 0} (collect_data : List A → Option Err) (d : DataCollectorManager A) where
  -- SendData moves the stored events to the collected ones if the relay proxy takes them, and
  -- changes nothing otherwise.
  pub send_data-conserves :
      (send_data collect_data d).0.collected ++ (send_data collect_data d).0.events
      ≡ d.collected ++ d.events
  unfolding send_data send_data_locked
  send_data-conserves = elim (List-cases d.events) [
    | inl e ↦ ground (arith, e)
    | inr (x, xs, e) ↦ elim (Option-cases (collect_data (x ∷ xs))) [
      | inl c ↦ ground (arith, e, c, append-nil (d.collected ++ x ∷ xs))
      | inr (err, c) ↦ ground (arith, e, c)
    ]
  ]

  send_data-bounded :
      (length (send_data collect_data d).0.events ≤ length d.events)
      × ((send_data collect_data d).0.max_event_stored ≡ d.max_event_stored)
  unfolding send_data send_data_locked
  send_data-bounded = (ground arith, ground arith)

  -- With a positive limit AddEvent fails, and then changes nothing, exactly if the queue is full
  -- and the relay proxy refuses the flush.
  add_event-refused :
      (event : A) (err : Err)
      → 0 < d.max_event_stored
      → (add_event collect_data event d ≡ (d, some err))
        ↔ (d.max_event_stored ≤ length d.events) × (collect_data d.events ≡ some err)
  unfolding add_event send_data_locked
  add_event-refused event err = λ h. (λ e. (ground arith, ground arith), λ e. ground arith)

  -- AddEvent without an error puts the event after those collected and stored.
  add_event-conserves :
      (event : A)
      → (add_event collect_data event d).1 ≡ none
      → (add_event collect_data event d).0.collected ++ (add_event collect_data event d).0.events
        ≡ (d.collected ++ d.events) ++ event ∷ []
  unfolding add_event send_data
  add_event-conserves event h =
      let flushed = (send_data_locked collect_data d).0 in
      ground (
        arith,
        send_data-conserves,
        append_assoc d.collected d.events (event ∷ []),
        append_assoc flushed.collected flushed.events (event ∷ []),
      )

  add_event-unchanged :
      (event : A) (err : Err)
      → (add_event collect_data event d).1 ≡ some err
      → (add_event collect_data event d).0 ≡ d
  unfolding add_event send_data_locked
  add_event-unchanged event err h = ground arith

  add_event-bounded :
      (event : A)
      → 0 < d.max_event_stored
      → length d.events ≤ d.max_event_stored
      → (length (add_event collect_data event d).0.events ≤ d.max_event_stored)
        × ((add_event collect_data event d).0.max_event_stored ≡ d.max_event_stored)
  unfolding add_event send_data_locked
  add_event-bounded event pos_max h =
      (ground (arith, length-append d.events (event ∷ [])), ground arith)

-- The limit is positive, and the stored events are within it.
abbrev pub IsBounded : {A : Type 0} → DataCollectorManager A → Type 0
IsBounded d = (0 < d.max_event_stored) × (length d.events ≤ d.max_event_stored)

module _ {A Err : Type 0} (collect_data : List A → Option Err) (d : DataCollectorManager A) where
  send_data-IsBounded : IsBounded d → IsBounded (send_data collect_data d).0
  send_data-IsBounded h = (
    omega (arith, send_data-bounded collect_data d, h),
    omega (arith, send_data-bounded collect_data d, h),
  )

  add_event-IsBounded : (event : A) → IsBounded d → IsBounded (add_event collect_data event d).0
  add_event-IsBounded event h = (
    omega (arith, add_event-bounded collect_data d event h.0 h.1, h),
    omega (arith, add_event-bounded collect_data d event h.0 h.1, h),
  )

module _ {A Err : Type 0} where
  -- Whatever calls are made and however they interleave with the goroutines, the collected events
  -- followed by the stored ones are the accepted events, in the order in which they were accepted.
  pub Reach-conserves :
      {accepted : List A} {s : System A}
      → Reach Err accepted s
      → s.manager.collected ++ s.manager.events ≡ accepted
  unfolding new_data_collector_manager
  Reach-conserves (created max interval) = refl
  Reach-conserves (start r) = Reach-conserves r
  Reach-conserves (tick c r h) = send_data-conserves c _ ∙ Reach-conserves r
  Reach-conserves (end r h g) = Reach-conserves r
  Reach-conserves (end_earlier n r h g) = Reach-conserves r
  Reach-conserves (stop r) = Reach-conserves r
  Reach-conserves (stopped c r h) = send_data-conserves c _ ∙ Reach-conserves r
  Reach-conserves (sent c r) = send_data-conserves c _ ∙ Reach-conserves r
  Reach-conserves (added c event r h) =
      add_event-conserves c _ event h ∙ ap (λ xs. xs ++ event ∷ []) (Reach-conserves r)
  Reach-conserves (refused {s = s} c event err r h) =
      ap (λ (d : DataCollectorManager A). d.collected ++ d.events)
        (add_event-unchanged c s.manager event err h)
      ∙ Reach-conserves r

  -- Never more events are stored than the limit, and the limit is positive.
  pub Reach-IsBounded :
      {accepted : List A} {s : System A} → Reach Err accepted s → IsBounded s.manager
  unfolding new_data_collector_manager
  Reach-IsBounded (created (pos zero) interval) = (omega arith, omega arith)
  Reach-IsBounded (created (pos (suc n)) interval) = (omega arith, omega arith)
  Reach-IsBounded (created (negsuc n) interval) = (omega arith, omega arith)
  Reach-IsBounded (start r) = Reach-IsBounded r
  Reach-IsBounded (tick {s = s} c r h) = send_data-IsBounded c s.manager (Reach-IsBounded r)
  Reach-IsBounded (end r h g) = Reach-IsBounded r
  Reach-IsBounded (end_earlier n r h g) = Reach-IsBounded r
  Reach-IsBounded (stop r) = Reach-IsBounded r
  Reach-IsBounded (stopped {s = s} c r h) = send_data-IsBounded c s.manager (Reach-IsBounded r)
  Reach-IsBounded (sent {s = s} c r) = send_data-IsBounded c s.manager (Reach-IsBounded r)
  Reach-IsBounded (added {s = s} c event r h) =
      add_event-IsBounded c s.manager event (Reach-IsBounded r)
  Reach-IsBounded (refused {s = s} c event err r h) =
      add_event-IsBounded c s.manager event (Reach-IsBounded r)
