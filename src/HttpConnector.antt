-- ===== src/HttpConnector.antt =====
-- tools/flagd-http-connector/pkg: a provider of flags for flagd that polls a URL. The cache of
-- payloads is an interface that its user implements: `PayloadCache` holds its methods on its states
-- `P`. The HTTP client is the function from the conditional headers of a request to what it meets.
pub mod Options
pub mod Polling
pub mod Fallback
use go_sdk_contrib.Common.{
  ℕ, zero, suc, ◌-◌, String, ◌==◌, eqb, ltb, Bool, true, false, not, ◌&&◌, Option, none, some, List,
  [], ◌∷◌, if◌then◌else◌,
}
use go_sdk_contrib.OpenFeature.{ℤ}

abbrev pub polling_payload_cache_key : String
polling_payload_cache_key = "HttpConnector.polling-payload"

abbrev pub fail_safe_payload_cache_key : String
fail_safe_payload_cache_key = "FailSafeCache.failsafe-payload"

-- Get returns a text and an error perhaps; the setters return whether there is an error.
pub record PayloadCache (P : Type 0) : Type 0 where
  pub get : String → P → P × String × Bool
  pub put : String → String → P → P × Bool
  pub put_with_ttl : String → String → ℤ → P → P × Bool

-- HttpCacheFetcher
pub record Fetcher : Type 0 where
  pub cached_etag : String
  pub cached_last_modified : String

-- FailSafeCache: times are seconds, and the zero time is none.
pub record FailSafeCache : Type 0 where
  pub last_update_time : Option ℕ
  pub update_interval : ℕ

-- A response; the body is none if it cannot be read.
pub record Response : Type 0 where
  pub status : ℕ
  pub etag : String
  pub last_modified : String
  pub body : Option String

-- The client, which returns none for an error: the arguments are the headers If-None-Match and
-- If-Modified-Since, which are "" if they are not set.
abbrev pub Client : Type 0
Client = String → String → Option Response

-- `request_ok` is whether a request can be made from the URL, `scheduled` the payloads that
-- goroutines are about to put into the caches, and `delivered` those that have been sent, the newest
-- first. The channel of data is not nil and not closed.
pub record HttpConnector (P : Type 0) : Type 0 where
  pub use_polling_cache : Bool
  pub request_ok : Bool
  pub payload_cache : Option P
  pub cache_fetcher : Option Fetcher
  pub fail_safe_cache : Option FailSafeCache
  pub poll_interval_seconds : ℤ
  pub payload_cache_poll_ttl_seconds : ℤ
  pub is_initialized : Bool
  pub is_shutdown : Bool
  pub scheduled : List String
  pub delivered : List String

-- What FetchContent returns: a status with the text, unless there is an error.
unfoldable pub fetch_content : Client → Fetcher → Fetcher × Option (ℕ × String)
fetch_content client f = elim (client f.cached_etag f.cached_last_modified) [
  | none ↦ (f, none)
  | some resp ↦
      if eqb resp.status 200
      then (
        record { cached_etag = resp.etag; cached_last_modified = resp.last_modified },
        elim resp.body [ none ↦ none | some body ↦ some (200, body) ],
      )
      else (f, some (resp.status, ""))
]

-- A request without the fetcher, with what it gives where it is not 200 with a body: `some true` is
-- the return of true, and `some false` that of false.
unfoldable pub fetch_directly : Client → Option String × Bool
fetch_directly client = elim (client "" "") [
  | none ↦ (none, false)
  | some resp ↦
      if eqb resp.status 304
      then (none, true)
      else if eqb resp.status 200
      then (resp.body, false)
      else (none, false)
]

module _ {P : Type 0} where
  unfoldable pub is_ready : HttpConnector P → Bool
  is_ready c = c.is_initialized && not c.is_shutdown

  unfoldable pub send_data_sync : String → HttpConnector P → HttpConnector P × Bool
  send_data_sync payload c =
      if c.is_shutdown then (c, false) else (record c { delivered = payload ∷ c.delivered }, true)

  -- the end of fetchAndUpdate: the goroutine that updates the caches, and the data
  unfoldable pub pass_on : String → HttpConnector P → HttpConnector P × Bool
  unfolding send_data_sync
  pass_on payload c = send_data_sync payload (record c { scheduled = payload ∷ c.scheduled })

  -- fetchAndUpdate once the polling cache has no payload
  unfoldable pub fetch : Client → HttpConnector P → HttpConnector P × Bool
  unfolding fetch_content fetch_directly pass_on
  fetch client c = if not c.request_ok then (c, false) else elim c.cache_fetcher [
    | some f ↦
        let (f', answer) = fetch_content client f in
        let c' : HttpConnector P = record c { cache_fetcher = some f' } in
        elim answer [
          | none ↦ (c', false)
          | some (status, payload) ↦ if eqb status 304 then (c', true) else pass_on payload c'
        ]
    | none ↦ if c.is_shutdown then (c, false) else elim (fetch_directly client).0 [
      | none ↦ (c, (fetch_directly client).1)
      | some payload ↦ pass_on payload c
    ]
  ]

module _ {P : Type 0} (methods : PayloadCache P) where
  -- the text that the cache has, with the cache after the call
  unfoldable pub look_up : String → HttpConnector P → HttpConnector P × String
  look_up key c = elim c.payload_cache [
    | none ↦ (c, "")
    | some p ↦ (record c { payload_cache = some (methods.get key p).0 }, (methods.get key p).1)
  ]

  unfoldable pub fetch_and_update : Client → HttpConnector P → HttpConnector P × Bool
  unfolding look_up fetch
  fetch_and_update client c =
      let (c', payload) = look_up polling_payload_cache_key c in
      if not c.use_polling_cache
      then fetch client c
      else if payload == ""
      then fetch client c'
      else (c', true)

  -- UpdatePayloadIfNeeded at a time
  unfoldable pub update_payload_if_needed : ℕ → String → FailSafeCache → P → FailSafeCache × P
  update_payload_if_needed now payload f p =
      if elim f.last_update_time [ none ↦ false | some t ↦ ltb (now - t) f.update_interval ]
      then (f, p)
      else let (p', failed) = methods.put fail_safe_payload_cache_key payload p in
        (if failed then f else record f { last_update_time = some now }, p')

  -- updateCache at a time; NewHttpConnector has no fail-safe cache without a cache of payloads.
  unfoldable pub update_cache : ℕ → String → HttpConnector P → HttpConnector P
  unfolding update_payload_if_needed
  update_cache now payload c = elim c.payload_cache [
    | none ↦ c
    | some p ↦ elim c.fail_safe_cache [
      | none ↦ record c {
        payload_cache =
            some
              (methods.put_with_ttl polling_payload_cache_key payload
                c.payload_cache_poll_ttl_seconds p).0;
      }
      | some f ↦
          let (f', p') = update_payload_if_needed now payload f p in
          record c {
            fail_safe_cache = some f';
            payload_cache =
                some
                  (methods.put_with_ttl polling_payload_cache_key payload
                    c.payload_cache_poll_ttl_seconds p').0;
          }
    ]
  ]

  -- FailSafeCache.Get
  unfoldable pub get_fail_safe : P → P × String
  get_fail_safe p =
      let (p', value, failed) = methods.get fail_safe_payload_cache_key p in
      (p', if failed then "" else value)

  -- the payload that updateFromCache finds
  unfoldable pub cached_payload : HttpConnector P → HttpConnector P × String
  unfolding look_up get_fail_safe
  cached_payload c =
      let (c', payload) = look_up polling_payload_cache_key c in
      if not (payload == "") then (c', payload) else elim c'.fail_safe_cache [
        | none ↦ (c', "")
        | some f ↦ elim c'.payload_cache [
          | none ↦ (c', "")
          | some p ↦ (record c' { payload_cache = some (get_fail_safe p).0 }, (get_fail_safe p).1)
        ]
      ]

  unfoldable pub update_from_cache : HttpConnector P → HttpConnector P
  unfolding cached_payload send_data_sync
  update_from_cache c =
      let (c', payload) = cached_payload c in
      if payload == "" then c' else (send_data_sync payload c').0

  unfoldable pub sync : Client → HttpConnector P → HttpConnector P
  unfolding fetch_and_update update_from_cache
  sync client c =
      if c.is_initialized
      then c
      else let (c', success) = fetch_and_update client c in
        record (if success then c' else update_from_cache c') { is_initialized = true }

unfoldable pub shutdown : {P : Type 0} → HttpConnector P → HttpConnector P
shutdown c =
    if not c.is_initialized then c else if c.is_shutdown then c else record c { is_shutdown = true }

-- the element at a position, with the others
unfoldable pub pick : {A : Type 0} → ℕ → List A → Option (A × List A)
pick k [] = none
pick zero (x ∷ xs) = some (x, xs)
pick (suc k) (x ∷ xs) = elim (pick k xs) [ none ↦ none | some (y, ys) ↦ some (y, x ∷ ys) ]

-- A call of Sync, a tick of the ticker, which may still be served after the shutdown, a goroutine
-- that updates the caches at a time, and a call of Shutdown.
pub data Input : Type 0 where
  start : Client → Input
  tick : Client → Input
  write : ℕ → ℕ → Input
  stop : Input

module _ {P : Type 0} (methods : PayloadCache P) where
  unfoldable pub step : Input → HttpConnector P → HttpConnector P
  unfolding sync fetch_and_update update_cache shutdown pick
  step (start client) c = sync methods client c
  step (tick client) c = if c.is_initialized then (fetch_and_update methods client c).0 else c
  step (write now k) c = elim (pick k c.scheduled) [
    | none ↦ c
    | some (payload, scheduled) ↦
        update_cache methods now payload (record c { scheduled = scheduled })
  ]
  step stop c = shutdown c

  unfoldable pub run : List Input → HttpConnector P → HttpConnector P
  unfolding step
  run [] c = c
  run (i ∷ inputs) c = run inputs (step i c)
