-- ===== src/Flagd/Provider/Composed.antt =====
-- The provider with the in-process service: the status that its events give, and where its flags are
-- from.
use mathlib.Core.List.{reverse, reverse-cons}
use mathlib.Core.Sum.{inr-injective}
use go_sdk_contrib.Common.{
  ℕ, String, ◌≡◌, ◌≢◌, eq_iff, refl, sym, ap, ◌∙◌, inr, Bool, true, false, Option, none, some, List,
  [], ◌∷◌, ◌++◌, arith,
}
use go_sdk_contrib.OpenFeature.{
  ℤ, ready_state, error_state, EventType, provider_ready, provider_config_change, provider_stale,
  provider_error, FlagEvent,
}
use go_sdk_contrib.Flagd.InProcess.Diff.{StoredFlag}
use go_sdk_contrib.Flagd.InProcess.{
  Core, InProcess, Input, stopped, event, new_in_process, start_timer, handle_provider_error,
  handle_sync_event, expire,
}
use go_sdk_contrib.Flagd.InProcess.Ready.{announced, IsConsistent}
use go_sdk_contrib.Flagd.InProcess.Interleaved.{at_rest, act_all}
use go_sdk_contrib.Flagd.InProcess.Interleaved.Alone.{
  handlers, handlers-IsConsistent, overtaken, overtaken-result,
}
use go_sdk_contrib.Flagd.Environment.{Environment}
use go_sdk_contrib.Flagd.Configuration.{
  file, ProviderConfiguration, ProviderOption, new_provider_configuration,
}
use go_sdk_contrib.Flagd.Configuration.Laws.{new_provider_configuration-IsSettled}
use go_sdk_contrib.Flagd.InProcess.Sources.{file_sync, create_sync_provider}
use go_sdk_contrib.Flagd.Provider.{
  Provider, in_process_service, handle_event, handle_events, new_provider, made, choose_service,
  file_configuration,
}

sent-expire :
    {S : Type 0} (i : InProcess S)
    → i.stale_timer ≡ stopped
    → (expire (handle_sync_event provider_error i)).sent
      ≡ event provider_error "provider error" ∷ event provider_stale "connection error" ∷ i.sent
unfolding handle_sync_event handle_provider_error expire start_timer
sent-expire i h = ground (arith, h)

module _ {L V Y O : Type 0} where
  handle_events-append :
      (xs ys : List FlagEvent) (p : Provider L V Y O)
      → handle_events (xs ++ ys) p ≡ handle_events ys (handle_events xs p)
  unfolding handle_events
  handle_events-append [] ys p = refl
  handle_events-append (x ∷ xs) ys p = handle_events-append xs ys (handle_event x p)

  -- the provider once it has handled the events that a service has sent, the newest first
  abbrev pub following : List FlagEvent → Provider L V Y O → Provider L V Y O
  following sent p = handle_events (reverse sent) p

  following-newest :
      (e : FlagEvent) (sent : List FlagEvent) (p : Provider L V Y O)
      → following (e ∷ sent) p ≡ handle_event e (following sent p)
  unfolding handle_events
  following-newest e sent p =
      ap (λ events. handle_events events p) (reverse-cons e sent)
      ∙ handle_events-append (reverse sent) (e ∷ []) p

  status-announced :
      (sent : List FlagEvent) (p : Provider L V Y O)
      → announced sent ≡ true
      → (following sent p).status ≡ ready_state
  unfolding handle_event
  status-announced [] p h = ground (arith, h)
  status-announced (e ∷ sent) p h = ground (arith, following-newest e sent p)

  -- As long as no handler of the in-process service is begun while another is under way, a provider
  -- that has handled the events of a service that is ready has the status READY.
  pub following-ready :
      {D S A : Type 0} (core : Core D S A) (inputs : List (Input D)) (store : S)
      (p : Provider L V Y O)
      → (act_all core (handlers inputs) (at_rest (new_in_process store))).service.ready ≡ true
      → (following
          (act_all core (handlers inputs) (at_rest (new_in_process store))).service.sent
          p).status
        ≡ ready_state
  following-ready core inputs store p h =
      status-announced
        (act_all core (handlers inputs) (at_rest (new_in_process store))).service.sent p
        (sym (handlers-IsConsistent core inputs store).agrees ∙ h)

  status-newest :
      (t : EventType) (message : String) (sent : List FlagEvent) (p : Provider L V Y O)
      → (following (event t message ∷ sent) p).status ≡ elim t [
        | provider_ready ↦ ready_state
        | provider_config_change ↦ ready_state
        | provider_error ↦ error_state
        | provider_stale ↦ (following sent p).status
      ]
  unfolding handle_event
  status-newest t message sent p = ground (arith, following-newest (event t message) sent p)

  -- When a service that is ready loses its connection it is no longer ready, yet the status of the
  -- provider stays READY; it becomes ERROR when the stale timer, which has then been started, expires.
  pub following-stale :
      {S : Type 0} (i : InProcess S) (p : Provider L V Y O)
      → IsConsistent i
      → i.ready ≡ true
      → ((handle_sync_event provider_error i).ready ≡ false)
        × ((following (handle_sync_event provider_error i).sent p).status ≡ ready_state)
        × ((following (expire (handle_sync_event provider_error i)).sent p).status ≡ error_state)
  unfolding handle_sync_event handle_provider_error
  following-stale i p c h = (
    refl,
    status-newest provider_stale "connection error" i.sent p
        ∙ status-announced i.sent p (sym c.agrees ∙ h),
    ap (λ sent. (following sent p).status) (sent-expire i (ground (arith, c.waits, h)))
        ∙ status-newest provider_error "provider error"
            (event provider_stale "connection error" ∷ i.sent) p,
  )

  -- When, of a service that has not been shut down, data that the store accepts comes between the
  -- reset of the ready flag by the handler of a lost connection and the event of this handler, with no
  -- other handler under way, the stale timer is started after the data has
  -- stopped it: once it expires the service is ready, while a provider that has handled its events has
  -- the status ERROR.
  pub following-overtaken :
      {D S A : Type 0} (core : Core D S A) (d : D) (i : InProcess S) (old : List (StoredFlag A))
      (p : Provider L V Y O)
      → i.closed ≡ false
      → core.get_all i.store ≡ inr old
      → (core.set_state d i.store).1 ≡ none
      → ((act_all core (overtaken d) (at_rest i)).service.ready ≡ true)
        × ((following (act_all core (overtaken d) (at_rest i)).service.sent p).status ≡ error_state)
  following-overtaken core d i old p running e f =
      let (events, ready, sent) = overtaken-result core d i old running e f in
      (
        ready,
        ap (λ all. (following all p).status) sent
            ∙ status-newest provider_error "provider error"
                (event provider_stale "connection error" ∷ events) p,
      )

create_sync_provider-file :
    {Y O : Type 0} (host_port : Option String → Option ℕ → String)
    (is_valid_target_scheme : String → Bool) (cfg : ProviderConfiguration Y O)
    → cfg.offline_flag_source_path ≢ ""
    → create_sync_provider host_port is_valid_target_scheme (file_configuration cfg)
      ≡ (file_sync cfg.offline_flag_source_path, cfg.offline_flag_source_path)
unfolding create_sync_provider file_configuration
create_sync_provider-file host_port is_valid_target_scheme cfg h =
    ground (arith, h, eq_iff cfg.offline_flag_source_path "")

module _ {L V Y O : Type 0} (new_lru : ℤ → Option L) where
  accepted-made :
      (cfg : ProviderConfiguration Y O) (failed : Option String) (p : Provider L V Y O)
      → made new_lru cfg failed ≡ inr p
      → (failed ≡ none)
        × (p.provider_configuration ≡ cfg)
        × (p.service ≡ choose_service new_lru cfg)
  unfolding made
  accepted-made cfg (some err) p h = cc
  accepted-made cfg none p h =
      let e = inr-injective _ p h in
      (refl, sym (ap (λ q. q.provider_configuration) e), sym (ap (λ q. q.service) e))

  choose_service-file :
      (cfg : ProviderConfiguration Y O)
      → cfg.resolver ≡ file
      → choose_service {V = V} new_lru cfg ≡ in_process_service (file_configuration cfg)
  unfolding choose_service
  choose_service-file cfg h = ground (arith, h)

  -- If NewProvider makes a provider and its resolver is the file resolver, its service reads the
  -- flags from the file at the configured path, which is not "", whatever the other options and the
  -- environment say.
  new_provider-file :
      (host_port : Option String → Option ℕ → String) (is_valid_target_scheme : String → Bool)
      (env : Environment) (opts : List (ProviderOption Y O)) (p : Provider L V Y O)
      → new_provider new_lru env opts ≡ inr p
      → p.provider_configuration.resolver ≡ file
      → (p.service ≡ in_process_service (file_configuration p.provider_configuration))
        × (p.provider_configuration.offline_flag_source_path ≢ "")
        × (create_sync_provider host_port is_valid_target_scheme
              (file_configuration p.provider_configuration)
            ≡ (
              file_sync p.provider_configuration.offline_flag_source_path,
              p.provider_configuration.offline_flag_source_path,
            ))
  unfolding new_provider
  new_provider-file host_port is_valid_target_scheme env opts p h r =
      let (accepted, same, chosen) =
        accepted-made (new_provider_configuration env opts).0
          (new_provider_configuration env opts).1 p h in
      let settled = new_provider_configuration-IsSettled env opts in
      let has_path : p.provider_configuration.offline_flag_source_path ≢ "" = λ e.
        settled.refused.1
          (sym (ap (λ c. c.resolver) same) ∙ r, sym (ap (λ c. c.offline_flag_source_path) same) ∙ e)
          accepted in
      (
        chosen
            ∙ ap (choose_service new_lru) (sym same)
            ∙ choose_service-file p.provider_configuration r,
        has_path,
        create_sync_provider-file host_port is_valid_target_scheme p.provider_configuration
            has_path,
      )
