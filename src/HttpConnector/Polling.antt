-- ===== src/HttpConnector/Polling.antt =====
-- What the connector delivers.
use go_sdk_contrib.Common.{
  ℕ, String, ◌≡◌, ◌≢◌, ◌==◌, Bool, true, false, not, some, List, [], ◌∷◌, arith, if◌then◌else◌,
  Option-cases, inl, inr,
}
use go_sdk_contrib.HttpConnector.{
  PayloadCache, polling_payload_cache_key, pick, Fetcher, Client, Response, HttpConnector,
  fetch_content, send_data_sync, pass_on, fetch, look_up, fetch_and_update, update_cache,
  cached_payload, update_from_cache, sync, shutdown, Input, start, tick, write, stop, step, run,
}

-- A connector that is shut down, with the payloads that it had delivered.
pub record IsShut {P : Type 0} (delivered : List String) (c : HttpConnector P) : Type 0 where
  pub stopped : c.is_shutdown ≡ true
  pub unchanged : c.delivered ≡ delivered

module _ {P : Type 0} (ds : List String) where
  fetch-IsShut :
      (client : Client) (c : HttpConnector P) → IsShut ds c → IsShut ds (fetch client c).0
  unfolding fetch pass_on send_data_sync
  fetch-IsShut client c h = record {
    stopped = ground (arith, h.stopped);
    unchanged = ground (arith, h.stopped, h.unchanged);
  }

  either-IsShut :
      (b : Bool) (x y : HttpConnector P)
      → IsShut ds x
      → IsShut ds y
      → IsShut ds (if b then x else y)
  either-IsShut true x y h k = h
  either-IsShut false x y h k = k

  first-IsShut :
      (b : Bool) (x y : HttpConnector P × Bool)
      → IsShut ds x.0
      → IsShut ds y.0
      → IsShut ds (if b then x else y).0
  first-IsShut true x y h k = h
  first-IsShut false x y h k = k

  initialised-IsShut :
      (c : HttpConnector P) → IsShut ds c → IsShut ds (record c { is_initialized = true })
  initialised-IsShut c h = record { stopped = h.stopped; unchanged = h.unchanged }

  send_data_sync-IsShut :
      (payload : String) (c : HttpConnector P)
      → IsShut ds c
      → IsShut ds (send_data_sync payload c).0
  unfolding send_data_sync
  send_data_sync-IsShut payload c h = record {
    stopped = ground (arith, h.stopped);
    unchanged = ground (arith, h.stopped, h.unchanged);
  }

module _ {P : Type 0} (methods : PayloadCache P) (ds : List String) where
  look_up-IsShut :
      (key : String) (c : HttpConnector P) → IsShut ds c → IsShut ds (look_up methods key c).0
  unfolding look_up
  look_up-IsShut key c h = record {
    stopped = ground (arith, h.stopped);
    unchanged = ground (arith, h.unchanged);
  }

  fetch_and_update-IsShut :
      (client : Client) (c : HttpConnector P)
      → IsShut ds c
      → IsShut ds (fetch_and_update methods client c).0
  unfolding fetch_and_update
  fetch_and_update-IsShut client c h =
      let found = look_up-IsShut polling_payload_cache_key c h in
      first-IsShut ds (not c.use_polling_cache) _ _ (fetch-IsShut ds client c h) (
        first-IsShut ds ((look_up methods polling_payload_cache_key c).1 == "") _ _
          (fetch-IsShut ds client (look_up methods polling_payload_cache_key c).0 found) found)

  cached_payload-IsShut :
      (c : HttpConnector P) → IsShut ds c → IsShut ds (cached_payload methods c).0
  unfolding cached_payload
  cached_payload-IsShut c h =
      let found = look_up-IsShut polling_payload_cache_key c h in
      record {
        stopped = ground (arith, found.stopped);
        unchanged = ground (arith, found.unchanged);
      }

  update_from_cache-IsShut :
      (c : HttpConnector P) → IsShut ds c → IsShut ds (update_from_cache methods c)
  unfolding update_from_cache
  update_from_cache-IsShut c h =
      let found = cached_payload-IsShut c h in
      either-IsShut ds ((cached_payload methods c).1 == "") _ _ found
        (send_data_sync-IsShut ds (cached_payload methods c).1 (cached_payload methods c).0 found)

  sync-IsShut :
      (client : Client) (c : HttpConnector P) → IsShut ds c → IsShut ds (sync methods client c)
  unfolding sync
  sync-IsShut client c h =
      let fetched = fetch_and_update-IsShut client c h in
      either-IsShut ds c.is_initialized c _ h (
        initialised-IsShut ds _ (
          either-IsShut ds (fetch_and_update methods client c).1 _ _ fetched
            (update_from_cache-IsShut (fetch_and_update methods client c).0 fetched)))

  update_cache-IsShut :
      (now : ℕ) (payload : String) (c : HttpConnector P)
      → IsShut ds c
      → IsShut ds (update_cache methods now payload c)
  unfolding update_cache
  update_cache-IsShut now payload c h = record {
    stopped = ground (arith, h.stopped);
    unchanged = ground (arith, h.unchanged);
  }

  step-IsShut : (i : Input) (c : HttpConnector P) → IsShut ds c → IsShut ds (step methods i c)
  unfolding step shutdown
  step-IsShut (start client) c h = sync-IsShut client c h
  step-IsShut (tick client) c h =
      either-IsShut ds c.is_initialized _ c (fetch_and_update-IsShut client c h) h
  step-IsShut (write now k) c h = elim (Option-cases (pick k c.scheduled)) [
    | inl e ↦ rw (e, step) h
    | inr ((payload, scheduled), e) ↦
        rw (e, step)
          (update_cache-IsShut now payload (record c { scheduled = scheduled })
            (record { stopped = h.stopped; unchanged = h.unchanged }))
  ]
  step-IsShut stop c h = record {
    stopped = ground (arith, h.stopped);
    unchanged = ground (arith, h.unchanged);
  }

  run-IsShut :
      (inputs : List Input) (c : HttpConnector P) → IsShut ds c → IsShut ds (run methods inputs c)
  unfolding run
  run-IsShut [] c h = h
  run-IsShut (i ∷ inputs) c h = run-IsShut inputs (step methods i c) (step-IsShut i c h)

module _ {P : Type 0} (methods : PayloadCache P) where
  -- After a connector that was initialised has been shut down, it delivers nothing and stays shut
  -- down, whatever comes: calls of Sync, ticks that are still served and updates of the caches.
  pub shutdown-IsShut :
      (inputs : List Input) (c : HttpConnector P)
      → c.is_initialized ≡ true
      → IsShut c.delivered (run methods inputs (shutdown c))
  unfolding shutdown
  shutdown-IsShut inputs c h =
      run-IsShut methods c.delivered inputs (shutdown c)
        (record { stopped = ground (arith, h); unchanged = ground (arith, h) })

module _ {P : Type 0} where
  -- With the fetcher of conditional requests, an answer that is neither 200 nor 304, that of a server
  -- that fails, say, is taken for a new payload, which is "": a connector that is not shut down
  -- delivers it and puts it into the caches.
  fetch-other_status :
      (client : Client) (f : Fetcher) (resp : Response) (c : HttpConnector P)
      → c.request_ok ≡ true
      → c.is_shutdown ≡ false
      → c.cache_fetcher ≡ some f
      → client f.cached_etag f.cached_last_modified ≡ some resp
      → resp.status ≢ 200
      → resp.status ≢ 304
      → ((fetch client c).1 ≡ true)
        × ((fetch client c).0.delivered ≡ "" ∷ c.delivered)
        × ((fetch client c).0.scheduled ≡ "" ∷ c.scheduled)
  unfolding fetch fetch_content pass_on send_data_sync
  fetch-other_status client f resp c ok running conditional answer h k = (
    ground (arith, ok, running, conditional, answer, h, k),
    ground (arith, ok, running, conditional, answer, h, k),
    ground (arith, ok, running, conditional, answer, h, k),
  )
