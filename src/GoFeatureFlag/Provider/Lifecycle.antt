-- ===== src/GoFeatureFlag/Provider/Lifecycle.antt =====
-- The start and the end of the provider of GO Feature Flag: InitWithContext and ShutdownWithContext
-- of providers/go-feature-flag/pkg/provider.go with Start and Stop of the collector's manager, for a
-- provider that may be initialised more than once. The evaluator is its Init and its Shutdown.
pub mod Ending
use go_sdk_contrib.Common.{ℕ, suc, ◌≡◌, Bool, true, false, ◌||◌, Option, none, some, List, ltb}
use go_sdk_contrib.GoFeatureFlag.Collector.{DataCollectorManager, send_data}

-- A manager with the goroutines of its Starts that have not ended: `current` is whether that of the
-- last Start runs, and `earlier` how many others do. `token` is what collectChannel holds.
pub record Collecting (A : Type 0) : Type 0 where
  pub manager : DataCollectorManager A
  pub token : Bool
  pub current : Bool
  pub earlier : ℕ

-- A provider, as far as Init and Shutdown use it; there is a collector unless it is disabled.
pub record Lifecycle (A S : Type 0) : Type 0 where
  pub collector : Option (Collecting A)
  pub evaluator : S

module _ {A : Type 0} where
  unfoldable pub start : Collecting A → Collecting A
  start c = record c {
    current = true;
    earlier = elim c.current [ true ↦ suc c.earlier | false ↦ c.earlier ];
  }

  -- the send of Stop that does not wait
  unfoldable pub signal : Collecting A → Collecting A
  signal c = record c { token = true }

  -- the data of a manager sent
  unfoldable pub flush : {Err : Type 0} → (List A → Option Err) → Collecting A → Collecting A
  unfolding send_data
  flush collect_data c = record c { manager = (send_data collect_data c.manager).0 }

  -- What the goroutines do: at a tick any of them sends the data, and one of them takes the token and
  -- ends.
  pub data Step (Err : Type 0) : Collecting A → Collecting A → Type 0 where
    tick :
        {c : Collecting A} (collect_data : List A → Option Err)
        → (c.current || ltb 0 c.earlier) ≡ true
        → Step Err c (flush collect_data c)
    end_current :
        {c : Collecting A}
        → c.token ≡ true
        → c.current ≡ true
        → Step Err c (record c { token = false; current = false })
    end_earlier :
        {c : Collecting A} (n : ℕ)
        → c.token ≡ true
        → c.earlier ≡ suc n
        → Step Err c (record c { token = false; earlier = n })

  pub data Steps (Err : Type 0) (c : Collecting A) : Collecting A → Type 0 where
    here : Steps Err c c
    next : {d e : Collecting A} → Steps Err c d → Step Err d e → Steps Err c e

  -- Stop returns once the goroutine of the last Start has ended, or if there was none.
  pub data Stops {Err : Type 0} (collect_data : List A → Option Err) (c : Collecting A)
      : Collecting A → Type 0 where
    returned :
        {d : Collecting A}
        → Steps Err (signal c) d
        → d.current ≡ false
        → Stops collect_data c (flush collect_data d)

module _ {A S Err : Type 0} where
  -- InitWithContext: the collector is started before the evaluator, and goes on when that fails.
  unfoldable pub init_with_context :
      (S → S × Option Err) → Lifecycle A S → Lifecycle A S × Option Err
  unfolding start
  init_with_context evaluator_init p =
      let (evaluator, err) = evaluator_init p.evaluator in
      (
        record {
          collector = elim p.collector [ none ↦ none | some c ↦ some (start c) ];
          evaluator = evaluator;
        },
        err,
      )

  -- ShutdownWithContext with what it returns. `evaluator_shutdown` gives none when it does not
  -- return.
  pub data ShutsDown (collect_data : List A → Option Err)
      (evaluator_shutdown : S → Option (S × Option Err)) (p : Lifecycle A S)
      : Lifecycle A S → Option Err → Type 0 where
    disabled :
        {evaluator : S} {err : Option Err}
        → p.collector ≡ none
        → evaluator_shutdown p.evaluator ≡ some (evaluator, err)
        → ShutsDown collect_data evaluator_shutdown p (record p { evaluator = evaluator }) err
    collecting :
        {c d : Collecting A} {evaluator : S} {err : Option Err}
        → p.collector ≡ some c
        → Stops collect_data c d
        → evaluator_shutdown p.evaluator ≡ some (evaluator, err)
        → ShutsDown collect_data evaluator_shutdown p
            (record { collector = some d; evaluator = evaluator })
            err
