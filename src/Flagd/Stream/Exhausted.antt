-- ===== src/Flagd/Stream/Exhausted.antt =====
-- The event stream when no attempt to connect succeeds.
use mathlib.Core.Option
use go_sdk_contrib.Common.{
  ◌+◌, String, ◌≡◌, refl, ◌∙◌, Bool, true, false, not, ◌||◌, Option, none, some, List, [], ◌∷◌,
  length, All, arith, if◌then◌else◌,
}
use go_sdk_contrib.OpenFeature.{provider_error}
use go_sdk_contrib.Flagd.Cache.{CacheOps, Service, cache_purge, disable}
use go_sdk_contrib.Flagd.RetryCounter.{new_retry_counter, retry, sleep}
use go_sdk_contrib.Flagd.Stream.{
  Attempt, refused, opened, new_service, RpcService, returned, running, failed_message,
  signal_stream_ready, send_event, signal_error, purge_enabled, pause, give_up, try_again,
  stream_client, attempt, loop, start_event_stream,
}

-- whether an attempt is refused, with no cancellation
abbrev pub is_refused : {F X : Type 0} → Attempt F X → Bool
is_refused a = elim a.connection [ refused err ↦ not a.closed | opened messages failed ↦ false ]

-- an enabled cache is there
abbrev pub usable : {L V : Type 0} → Service L V → Bool
usable c = not c.cache_enabled || elim c.cache [ none ↦ false | some b ↦ true ]

-- the channel that Init reads, after the signal of an error
abbrev pub signalled : {L V : Type 0} → RpcService L V → Option (Option String)
signalled s = elim s.stream_ready [
  | some earlier ↦ some earlier
  | none ↦ if s.signaled then none else some (some failed_message)
]

-- what has happened to a service that has given up
pub record IsGivenUp {L V : Type 0} (before after : RpcService L V) : Type 0 where
  pub disabled : after.cache.cache_enabled ≡ false
  pub announced :
      after.events
      ≡ record { event_type = provider_error; message = failed_message; flag_changes = [] }
        ∷ before.events
  pub answered : after.stream_ready ≡ signalled before

module _ {L V : Type 0} (lru_ops : CacheOps L V) where
  -- the cache after a purge, and after it has been disabled
  abbrev pub purged : Service L V → Service L V
  purged c =
      if c.cache_enabled then record c { cache = Option.map (cache_purge lru_ops) c.cache } else c

  abbrev pub disabled : Service L V → Service L V
  disabled c = record (purged c) { cache_enabled = false }

  purge_enabled-usable :
      (c : Service L V)
      → usable c ≡ true
      → (purge_enabled lru_ops c ≡ some (purged c)) × (usable (purged c) ≡ true)
  unfolding purge_enabled
  purge_enabled-usable c h = (ground (arith, h), ground (arith, h))

  disable-usable : (c : Service L V) → usable c ≡ true → disable lru_ops c ≡ some (disabled c)
  unfolding disable
  disable-usable c h = ground (arith, h)

  -- a service that gives up
  abbrev pub given_up : RpcService L V → RpcService L V
  given_up s = record s {
    cache = disabled s.cache;
    stream_ready = signalled s;
    events =
        record { event_type = provider_error; message = failed_message; flag_changes = [] }
        ∷ s.events;
  }

  give_up-usable :
      (s : RpcService L V) → usable s.cache ≡ true → give_up lru_ops s ≡ some (given_up s)
  unfolding give_up signal_error signal_stream_ready send_event
  give_up-usable s h = ground (arith, disable-usable s.cache h)

  -- a service before the next attempt, once one has been refused
  abbrev pub next : RpcService L V → RpcService L V
  next s = pause (record s { cache = purged s.cache })

module _ {L V F X : Type 0} (lru_ops : CacheOps L V) where
  attempt-refused :
      (a : Attempt F X) (s : RpcService L V)
      → is_refused a ≡ true
      → usable s.cache ≡ true
      → attempt lru_ops a s ≡ some (running (next lru_ops s))
  unfolding attempt stream_client
  attempt-refused a s r u = ground (arith, purge_enabled-usable lru_ops s.cache u)

  loop-refused :
      (a : Attempt F X) (attempts : List (Attempt F X)) (s : RpcService L V) (again : Bool)
      → again ≡ true
      → is_refused a ≡ true
      → usable s.cache ≡ true
      → loop lru_ops (a ∷ attempts) s again
        ≡ loop lru_ops attempts (try_again (next lru_ops s)).0 (try_again (next lru_ops s)).1
  unfolding loop
  loop-refused a attempts s false e r u = cc
  loop-refused a attempts s true e r u = rw (attempt-refused a s r u, loop) refl

  loop-ended :
      (attempts : List (Attempt F X)) (s : RpcService L V) (again : Bool)
      → again ≡ false
      → usable s.cache ≡ true
      → loop lru_ops attempts s again ≡ some (returned (given_up lru_ops s))
  unfolding loop
  loop-ended attempts s true e u = cc
  loop-ended attempts s false e u = rw (give_up-usable lru_ops s u, loop) refl

  loop-refusals :
      (attempts : List (Attempt F X)) (s : RpcService L V)
      → All (λ a. is_refused a ≡ true) attempts
      → usable s.cache ≡ true
      → s.retry_counter.current_retries + length attempts ≡ s.retry_counter.max_retries
      → (after : RpcService L V) × (start_event_stream lru_ops attempts s ≡ some (returned after))
        × IsGivenUp s after
  unfolding start_event_stream try_again pause retry sleep
  loop-refusals [] s r u h = (
    given_up lru_ops (try_again s).0,
    loop-ended [] (try_again s).0 (try_again s).1 (ground (arith, h)) u,
    record { disabled = refl; announced = refl; answered = refl },
  )
  loop-refusals (a ∷ attempts) s r u h =
      let s' = (try_again s).0 in
      let (after, e, g) =
        loop-refusals attempts (next lru_ops s') r.1 (purge_enabled-usable lru_ops s.cache u).1
          (omega (arith, h)) in
      (
        after,
        loop-refused a attempts s' (try_again s).1 (ground (arith, h)) r.0 u ∙ e,
        record { disabled = g.disabled; announced = g.announced; answered = g.answered },
      )

  -- If as many attempts to connect are refused as the limit of retries says, startEventStream
  -- returns: the cache is disabled, the last event is PROVIDER_ERROR and none of the others is new,
  -- and the channel that Init reads has an error, if nothing has been put into it before.
  pub start_event_stream-IsGivenUp :
      (attempts : List (Attempt F X)) (c : Service L V)
      → All (λ a. is_refused a ≡ true) attempts
      → usable c ≡ true
      → (after : RpcService L V) × (start_event_stream lru_ops attempts
            (new_service c (length attempts))
          ≡ some (returned after))
        × IsGivenUp (new_service c (length attempts)) after
  unfolding new_service new_retry_counter
  start_event_stream-IsGivenUp attempts c r u =
      loop-refusals attempts (new_service c (length attempts)) r u (omega arith)
