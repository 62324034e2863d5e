-- ===== src/HttpConnector/Fallback.antt =====
-- The payloads that the connector keeps for a failure of its source.
use mathlib.Core.Path.{subst}
use go_sdk_contrib.Common.{
  ℕ, ◌+◌, ◌<◌, ◌≤◌, sym, ap, ◌∙◌, String, ◌≡◌, ◌≢◌, refl, ◌==◌, eq_iff, true, false, not, none,
  some, ◌∷◌, arith, if◌then◌else◌,
}
use go_sdk_contrib.HttpConnector.{
  PayloadCache, fail_safe_payload_cache_key, polling_payload_cache_key, FailSafeCache, Client,
  HttpConnector, send_data_sync, fetch, fetch_directly, look_up, fetch_and_update,
  update_payload_if_needed, get_fail_safe, cached_payload, update_from_cache, sync,
}

-- Reading a cache of payloads does not change what it has, and it has what was put into it.
pub record CacheLaws {P : Type 0} (methods : PayloadCache P) : Type 0 where
  pub get_pure : (k : String) (p : P) → (methods.get k p).0 ≡ p
  pub get-put :
      (k v : String) (p : P)
      → (methods.put k v p).1 ≡ false
      → ((methods.get k (methods.put k v p).0).1 ≡ v)
        × ((methods.get k (methods.put k v p).0).2 ≡ false)

module _ {P : Type 0} (methods : PayloadCache P) where
  first-update :
      (now : ℕ) (payload : String) (f : FailSafeCache) (p : P)
      → f.last_update_time ≡ none
      → (methods.put fail_safe_payload_cache_key payload p).1 ≡ false
      → update_payload_if_needed methods now payload f p ≡ (
        record f { last_update_time = some now },
        (methods.put fail_safe_payload_cache_key payload p).0,
      )
  unfolding update_payload_if_needed
  first-update now payload f p fresh ok = ground (arith, fresh, ok)

  early-update :
      (now later : ℕ) (payload : String) (f : FailSafeCache) (p : P)
      → f.last_update_time ≡ some now
      → now ≤ later
      → later < now + f.update_interval
      → update_payload_if_needed methods later payload f p ≡ (f, p)
  unfolding update_payload_if_needed
  early-update now later payload f p e le lt = ground (arith, e, le, lt)

  get-put-fail_safe :
      CacheLaws methods
      → (payload : String) (p : P) → (methods.put fail_safe_payload_cache_key payload p).1 ≡ false
      → (get_fail_safe methods (methods.put fail_safe_payload_cache_key payload p).0).1 ≡ payload
  unfolding get_fail_safe
  get-put-fail_safe laws payload p ok =
      ground (arith, laws.get-put fail_safe_payload_cache_key payload p ok)

  -- What has been put into the fail-safe cache without an error can be read from it, and until its
  -- interval has passed another payload is not put into it.
  update_payload_if_needed-kept :
      CacheLaws methods
      → (now later : ℕ) (payload other : String) (f : FailSafeCache) (p : P)
      → f.last_update_time ≡ none
      → (methods.put fail_safe_payload_cache_key payload p).1 ≡ false
      → now ≤ later
      → later < now + f.update_interval
      → let (f', p') = update_payload_if_needed methods now payload f p in
        ((get_fail_safe methods p').1 ≡ payload)
        × (update_payload_if_needed methods later other f' p' ≡ (f', p'))
  update_payload_if_needed-kept laws now later payload other f p fresh ok le early =
      subst
        (λ x.
          ((get_fail_safe methods x.1).1 ≡ payload)
          × (update_payload_if_needed methods later other x.0 x.1 ≡ (x.0, x.1)))
        (sym (first-update now payload f p fresh ok))
        (get-put-fail_safe laws payload p ok, early-update now later other _ _ refl le early)

  look_up-pure :
      CacheLaws methods
      → (key : String) (c : HttpConnector P) (p : P) → c.payload_cache ≡ some p
      → look_up methods key c ≡ (c, (methods.get key p).1)
  unfolding look_up
  look_up-pure laws key c p h = ground (arith, h, laws.get_pure key p)

  fetch-fails :
      (client : Client) (c : HttpConnector P)
      → c.is_shutdown ≡ false
      → c.cache_fetcher ≡ none
      → fetch_directly client ≡ (none, false)
      → fetch client c ≡ (c, false)
  unfolding fetch
  fetch-fails client c running plain fails =
      ground (arith, running, plain, ap (λ x. x.0) fails, ap (λ x. x.1) fails)

  look_up-empty :
      CacheLaws methods
      → (c : HttpConnector P) (p : P) → c.payload_cache ≡ some p
      → (methods.get polling_payload_cache_key p).1 ≡ ""
      → look_up methods polling_payload_cache_key c ≡ (c, "")
  look_up-empty laws c p cached empty =
      look_up-pure laws polling_payload_cache_key c p cached ∙ ap (λ v. (c, v)) empty

  fetch_and_update-fails :
      CacheLaws methods
      → (client : Client) (c : HttpConnector P) (p : P) → c.payload_cache ≡ some p
      → (methods.get polling_payload_cache_key p).1 ≡ ""
      → fetch client c ≡ (c, false)
      → fetch_and_update methods client c ≡ (c, false)
  unfolding fetch_and_update
  fetch_and_update-fails laws client c p cached empty fails =
      subst
        (λ x.
          (if not c.use_polling_cache
            then fetch client c
            else if x.1 == ""
            then fetch client x.0
            else (x.0, true))
          ≡ (c, false))
        (sym (look_up-empty laws c p cached empty)) (ground (arith, fails))

  update_from_cache-fail_safe :
      CacheLaws methods
      → (c : HttpConnector P) (p : P) (f : FailSafeCache) (payload : String)
      → c.payload_cache ≡ some p
      → c.fail_safe_cache ≡ some f
      → (methods.get polling_payload_cache_key p).1 ≡ ""
      → (methods.get fail_safe_payload_cache_key p).1 ≡ payload
      → (methods.get fail_safe_payload_cache_key p).2 ≡ false
      → payload ≢ ""
      → c.is_shutdown ≡ false
      → (update_from_cache methods c).delivered ≡ payload ∷ c.delivered
  unfolding update_from_cache cached_payload get_fail_safe send_data_sync
  update_from_cache-fail_safe laws c p f payload cached safe empty kept found full running =
      let looked = look_up-empty laws c p cached empty in
      ground (
        arith,
        ap (λ x. x.0) looked,
        ap (λ x. x.1) looked,
        eq_iff payload "",
        eq_iff (look_up methods polling_payload_cache_key c).1 "",
        eq_iff (cached_payload methods c).1 "",
      )

  -- If the first request of Sync fails and the polling cache is empty, a connector without the fetcher
  -- of conditional requests delivers the payload of the fail-safe cache if that has one, and is
  -- initialised.
  pub sync-falls_back :
      CacheLaws methods
      → (client : Client) (c : HttpConnector P) (p : P) (f : FailSafeCache) (payload : String)
      → c.is_initialized ≡ false
      → c.is_shutdown ≡ false
      → c.cache_fetcher ≡ none
      → fetch_directly client ≡ (none, false)
      → c.payload_cache ≡ some p
      → c.fail_safe_cache ≡ some f
      → (methods.get polling_payload_cache_key p).1 ≡ ""
      → (methods.get fail_safe_payload_cache_key p).1 ≡ payload
      → (methods.get fail_safe_payload_cache_key p).2 ≡ false
      → payload ≢ ""
      → ((sync methods client c).delivered ≡ payload ∷ c.delivered)
        × ((sync methods client c).is_initialized ≡ true)
  unfolding sync
  sync-falls_back laws client c p f payload fresh running plain fails cached safe empty kept found
        full =
      let fetched =
        fetch_and_update-fails laws client c p cached empty
          (fetch-fails client c running plain fails) in
      let updated =
        update_from_cache-fail_safe laws c p f payload cached safe empty kept found full running in
      (
        ground (arith, fresh, ap (λ x. x.0) fetched, ap (λ x. x.1) fetched, updated),
        ground (arith, fresh),
      )
