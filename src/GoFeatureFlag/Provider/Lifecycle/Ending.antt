-- ===== src/GoFeatureFlag/Provider/Lifecycle/Ending.antt =====
-- What the end of the provider of GO Feature Flag does with the events, and when it waits forever.
use mathlib.Core.List.{append-nil}
use go_sdk_contrib.Common.{
  ◌≡◌, refl, ◌∙◌, ◌⊎◌, inl, inr, Bool, true, false, Option, none, some, List, [], ◌++◌, List-cases,
  Bool-cases, arith, if◌then◌else◌,
}
use go_sdk_contrib.GoFeatureFlag.Collector.{DataCollectorManager, send_data, send_data_locked}
use go_sdk_contrib.GoFeatureFlag.Collector.Runs.{send_data-conserves}
use go_sdk_contrib.GoFeatureFlag.Provider.Lifecycle.{
  Collecting, Lifecycle, start, signal, flush, tick, end_current, end_earlier, Steps, here, next,
  Stops, returned, init_with_context, ShutsDown, disabled, collecting,
}

module _ {A : Type 0} where
  -- the collected events followed by the stored ones
  abbrev pub events_of : Collecting A → List A
  events_of c = c.manager.collected ++ c.manager.events

  -- no goroutine takes the token any more, while Stop waits for one
  abbrev pub IsStuck : Collecting A → Type 0
  IsStuck c = (c.token ≡ false) × (c.current ≡ true)

  -- the goroutine that Stop waits for has ended, or the token is there for it alone
  abbrev pub IsFree : Collecting A → Type 0
  IsFree c = (c.earlier ≡ 0) × ((c.current ≡ false) ⊎ (c.token ≡ true))

module _ {A Err : Type 0} where
  Steps-conserves : {c d : Collecting A} → Steps Err c d → events_of d ≡ events_of c
  unfolding flush
  Steps-conserves here = refl
  Steps-conserves (next {d = d} r (tick collect_data h)) =
      send_data-conserves collect_data d.manager ∙ Steps-conserves r
  Steps-conserves (next r (end_current h g)) = Steps-conserves r
  Steps-conserves (next r (end_earlier n h g)) = Steps-conserves r

  -- a relay proxy that takes all events is given all that are stored
  events-send_data :
      (collect_data : List A → Option Err) (d : DataCollectorManager A)
      → ((events : List A) → collect_data events ≡ none)
      → (send_data collect_data d).0.events ≡ []
  unfolding send_data send_data_locked
  events-send_data collect_data d takes = ground (arith, takes d.events, List-cases d.events)

  Steps-IsStuck : {c d : Collecting A} → IsStuck c → Steps Err c d → IsStuck d
  unfolding flush
  Steps-IsStuck s here = s
  Steps-IsStuck s (next r (tick collect_data h)) = Steps-IsStuck s r
  Steps-IsStuck s (next r (end_current h g)) = ground (arith, Steps-IsStuck s r, h)
  Steps-IsStuck s (next r (end_earlier n h g)) = ground (arith, Steps-IsStuck s r, h)

  Steps-IsFree : {c d : Collecting A} → IsFree c → Steps Err c d → IsFree d
  unfolding flush
  Steps-IsFree s here = s
  Steps-IsFree s (next r (tick collect_data h)) = Steps-IsFree s r
  Steps-IsFree s (next r (end_current h g)) = ((Steps-IsFree s r).0, inl refl)
  Steps-IsFree s (next r (end_earlier n h g)) = ground (arith, (Steps-IsFree s r).0, g)

  -- If Stop can return in the state `d`, what it leaves has no event stored and every event
  -- collected, when the relay proxy takes what it is sent.
  Stops-collected :
      (collect_data : List A → Option Err) {c d : Collecting A}
      → Stops collect_data c d
      → ((events : List A) → collect_data events ≡ none)
      → (d.current ≡ false)
        × (d.manager.events ≡ [])
        × (d.manager.collected ≡ c.manager.collected ++ c.manager.events)
  unfolding flush signal
  Stops-collected collect_data (returned {d = w} r ended) takes =
      let emptied = events-send_data collect_data w.manager takes in
      (
        ended,
        emptied,
        ground (
          arith,
          emptied,
          send_data-conserves collect_data w.manager,
          Steps-conserves r,
          append-nil (send_data collect_data w.manager).0.collected,
        ),
      )

-- after the goroutine of the last Start, if it runs, has taken the token
abbrev after_end : {A : Type 0} → Collecting A → Collecting A
after_end d = if d.current then record d { token = false; current = false } else d

-- of a collector: whether the goroutine of the last Start runs, and the stored and collected events
abbrev pub left_by : {A S : Type 0} → Lifecycle A S → Option (Bool × List A × List A)
left_by q = elim q.collector [
  | none ↦ none
  | some d ↦ some (d.current, d.manager.events, d.manager.collected)
]

module _ {A : Type 0} where
  after_end-over : (d : Collecting A) → d.current ≡ false → after_end d ≡ d
  after_end-over d h = ground (arith, h)

  after_end-runs :
      (d : Collecting A)
      → d.current ≡ true
      → after_end d ≡ record d { token = false; current = false }
  after_end-runs d h = ground (arith, h)

module _ {A Err : Type 0} where
  Stops-free :
      (collect_data : List A → Option Err) {c d : Collecting A}
      → Steps Err (signal c) d
      → IsFree d
      → Stops collect_data c (flush collect_data (after_end d))
  Stops-free collect_data {d = d} r free = elim (Bool-cases d.current) [
    | inr over ↦ rw (after_end-over d over) (returned r over)
    | inl runs ↦
        rw (after_end-runs d runs)
          (returned (next r (end_current (ground (arith, free.1, runs)) runs)) refl)
  ]

-- the goroutine of the last Start has taken no token, and one of the earlier has
abbrev pub waiting : {A : Type 0} → Collecting A → Collecting A
unfolding start signal
waiting c = record (signal (start (start c))) { token = false; earlier = c.earlier }

module _ {A S Err : Type 0} where
  -- When the Shutdown of a provider that has a collector returns and the relay proxy takes what it
  -- is sent, no event is left stored, those that were are collected after the earlier ones, and the
  -- goroutine that the last Start launched has ended, whatever the goroutines sent meanwhile and
  -- whatever error the evaluator gives.
  pub shutdown-collected :
      (collect_data : List A → Option Err) (evaluator_shutdown : S → Option (S × Option Err))
      (p q : Lifecycle A S) (err : Option Err) (c : Collecting A)
      → ShutsDown collect_data evaluator_shutdown p q err
      → p.collector ≡ some c
      → ((events : List A) → collect_data events ≡ none)
      → left_by q ≡ some (false, [], c.manager.collected ++ c.manager.events)
  shutdown-collected collect_data evaluator_shutdown p q err c (disabled off h) on takes =
      ground (arith, off, on)
  shutdown-collected collect_data evaluator_shutdown p q err c (collecting {c = c'} found s h) on
        takes =
      let left = Stops-collected collect_data s takes in ground (arith, left, found, on)

  -- For a provider that is initialised once with a new collector, or again after its goroutines have
  -- ended: at any moment while Shutdown waits for the goroutine, the wait can end.
  stop-returns :
      (collect_data : List A → Option Err) (evaluator_init : S → S × Option Err) (p : Lifecycle A S)
      (c d : Collecting A)
      → p.collector ≡ some c
      → c.current ≡ false
      → c.earlier ≡ 0
      → Steps Err (signal (start c)) d
      → ((init_with_context evaluator_init p).0.collector ≡ some (start c))
        × Stops collect_data (start c) (flush collect_data (after_end d))
  unfolding init_with_context start signal
  stop-returns collect_data evaluator_init p c d found idle alone r = (
    ground (arith, found),
    Stops-free collect_data r (Steps-IsFree (ground (arith, idle, alone)) r),
  )

  -- Of a provider that has a collector whose last goroutine does not run, and that is initialised
  -- twice with no Shutdown between, as after an Init that failed, Shutdown can wait forever: the
  -- goroutine of the first Init takes the token, and from then on, whatever the goroutines do, that
  -- of the second, which Shutdown waits for, runs on.
  pub init-retried :
      (first second : S → S × Option Err) (p : Lifecycle A S) (c d : Collecting A)
      → p.collector ≡ some c
      → c.current ≡ false
      → Steps Err (waiting c) d
      → ((init_with_context second (init_with_context first p).0).0.collector
          ≡ some (start (start c)))
        × Steps Err (signal (start (start c))) (waiting c)
        × (d.current ≡ true)
  unfolding init_with_context start signal
  init-retried first second p c d found idle r = (
    ground (arith, found),
    next here (end_earlier c.earlier refl (ground (arith, idle))),
    (Steps-IsStuck (refl, refl) r).1,
  )
