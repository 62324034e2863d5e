-- ===== src/MultiProvider/FirstSuccess/Laws.antt =====
-- What the loop of first_success.go returns, in whatever order the answers arrive.
use mathlib.Core.Logic.{∥∥₁_map}
use mathlib.Core.List.{Mem, exists_of_mem-map}
use mathlib.Core.List.Perm
use go_sdk_contrib.Common.{
  ◌<◌, String, ◌≡◌, ◌≢◌, refl, ap, ◌∙◌, true, none, some, List, [], ◌∷◌, ◌++◌, length, total, All,
  arith,
}
use go_sdk_contrib.OpenFeature.{FlagMetadata, general, ResolutionDetail, Sdk, SdkLaws}
use go_sdk_contrib.MultiProvider.Strategies.{
  NamedProvider, AggregateError, ResultWrapper, wrap, merge_flag_tags, build_default_result,
}
use go_sdk_contrib.MultiProvider.Strategies.Answers.{Succeeds, IsNotFound, Fails}
use go_sdk_contrib.MultiProvider.FirstSuccess.{
  Event, finished, done, success_metadata, finish, aggregated, defaulted, collect, resolve,
}
use go_sdk_contrib.MultiProvider.FirstSuccess.Reports.{
  Delivered, n_events, every_event, no_event, some_event, no_cancel, failing, missing, kinds,
  first_win-mem, first_win-none, report-finished, report-error, report-Succeeds,
}
use go_sdk_contrib.MultiProvider.FirstSuccess.Counts.{
  win, failure, miss, errors, won, collect-first_win, collect-all_failed, collect-all_missing,
  collect-ends,
}

module _ {E F X : Type 0} (sdk : Sdk E F X) (range : AggregateError E → AggregateError E) where
  module _ {V : Type 0} (providers : List (NamedProvider E F X))
      (ask : NamedProvider E F X → ResolutionDetail V E F X) (default : V)
      (events : List (Event V E F X)) where
    -- the provider's answer with the metadata of a success merged in
    abbrev pub credited : NamedProvider E F X → ResolutionDetail V E F X
    credited q = record {
      value = (ask q).value;
      detail = record ((ask q).detail) {
        flag_metadata =
            merge_flag_tags ((ask q).detail.flag_metadata ∷ success_metadata q.name ∷ []);
      };
    }

    resolve-collected :
        {x : ResultWrapper V E F X × FlagMetadata F X}
        → collect sdk range (length providers) default [] 0 events ≡ some x
        → resolve sdk range providers default events ≡ some (finish sdk range x)
    unfolding resolve
    resolve-collected e = rw (e, resolve)

    resolve-finished :
        (r : ResultWrapper V E F X)
        → Mem (finished r) events
        → Delivered sdk providers ask events
        → collect sdk range (length providers) default [] 0 events
          ≡ some (r, success_metadata r.name)
        → ∥ (
            (q : NamedProvider E F X) × Mem q providers
            × Succeeds sdk (ask q).detail
            × (resolve sdk range providers default events ≡ some (credited q))) ∥₁
    unfolding finish
    resolve-finished r m d e = ∥∥₁_map (exists_of_mem-map ((Perm.mem_iff d).0 m)) λ (q, mq, eq).
        let (good, same) = report-finished sdk q (wrap q (ask q)) eq in
        (q, mq, good, rw (resolve-collected e, ← same))

    -- If every provider answers before the deadline and one of them succeeds, the answer of a
    -- provider that succeeded is returned, with the metadata of a success merged in, whatever the
    -- order in which the answers arrive.
    pub resolve-success :
        {p : NamedProvider E F X}
        → Delivered sdk providers ask events
        → Mem p providers
        → Succeeds sdk (ask p).detail
        → ∥ (
            (q : NamedProvider E F X) × Mem q providers
            × Succeeds sdk (ask q).detail
            × (resolve sdk range providers default events ≡ some (credited q))) ∥₁
    resolve-success {p} d m s =
        let one : 0 < total win events = omega (
          arith,
          some_event sdk providers ask events win d m,
          ap win (report-Succeeds sdk p (wrap p (ask p)) s),
        ) in
        let (r, first, mr) = first_win-mem events one in
        let e : collect sdk range (length providers) default [] 0 events
            ≡ some (r, success_metadata r.name) =
          collect-first_win sdk range (length providers) default [] 0 events
            (no_cancel sdk providers ask events d)
            (omega (arith, kinds events, n_events sdk providers ask events d))
            (omega (arith, kinds events, n_events sdk providers ask events d))
          ∙ ap won first in
        resolve-finished r mr d e

    -- If every provider fails before the deadline, none of them with FLAG_NOT_FOUND, the default
    -- value is returned with a general error and the error reason.
    resolve-every_failure :
        SdkLaws sdk
        → Delivered sdk providers ask events
        → All (λ p. Fails sdk (ask p).detail) providers
        → (r : ResolutionDetail V E F X) × (resolve sdk range providers default events ≡ some r)
          × (r.value ≡ default)
          × (sdk.has_error r.detail.resolution_error ≡ true)
          × (sdk.error_code r.detail.resolution_error ≡ general)
          × (r.detail.reason ≡ sdk.error_reason)
    unfolding finish aggregated build_default_result
    resolve-every_failure laws d a =
        let n = length providers in
        let e : collect sdk range n default [] 0 events
            ≡ some (aggregated sdk range default (errors events)) =
          collect-all_failed sdk range n default [] 0 events
            (omega (
              arith,
              every_event sdk providers ask events failure _ (failing sdk providers ask events) d a,
              n_events sdk providers ask events d,
            ))
            (omega (arith, n_events sdk providers ask events d)) in
        (
          finish sdk range (aggregated sdk range default (errors events)),
          resolve-collected e,
          refl,
          laws.general_error _,
          laws.general_code _,
          refl,
        )

    -- If every provider, and there is one, answers FLAG_NOT_FOUND before the deadline, the default
    -- value is returned with that code and the default reason.
    resolve-every_missing :
        SdkLaws sdk
        → Delivered sdk providers ask events
        → providers ≢ []
        → All (λ p. IsNotFound sdk (ask p).detail) providers
        → (r : ResolutionDetail V E F X) × (resolve sdk range providers default events ≡ some r)
          × (r.value ≡ default)
          × IsNotFound sdk r.detail
          × (r.detail.reason ≡ sdk.default_reason)
    unfolding finish defaulted build_default_result
    resolve-every_missing laws d some_provider a =
        let n = length providers in
        let e : collect sdk range n default [] 0 events ≡ some (defaulted sdk range default none) =
          collect-all_missing sdk range n default 0 events
            (omega (
              arith,
              every_event sdk providers ask events miss _ (missing sdk providers ask events) d a,
              n_events sdk providers ask events d,
            ))
            (omega (arith, n_events sdk providers ask events d)) (ground arith) in
        (
          finish sdk range (defaulted sdk range default none),
          resolve-collected e,
          refl,
          (laws.flag_not_found_error _, laws.flag_not_found_code _),
          refl,
        )

    -- If every provider answers and none succeeds, and some provider fails and another answers
    -- FLAG_NOT_FOUND, the loop goes on waiting after every provider has answered.
    resolve-mixed_waits :
        {p q : NamedProvider E F X}
        → Delivered sdk providers ask events
        → All (λ p. sdk.has_error (ask p).detail.resolution_error ≡ true) providers
        → Mem p providers
        → Fails sdk (ask p).detail
        → Mem q providers
        → IsNotFound sdk (ask q).detail
        → resolve sdk range providers default events ≡ none
    unfolding resolve
    resolve-mixed_waits {p} {q} d a mp fp mq mm =
        let no_win : total win events ≡ 0 =
          no_event sdk providers ask events win _ (λ p h. report-error sdk p (wrap p (ask p)) h) d
            a in
        let e : collect sdk range (length providers) default [] 0 events ≡ none =
          collect-first_win sdk range (length providers) default [] 0 events
            (no_cancel sdk providers ask events d)
            (omega (
              arith,
              kinds events,
              n_events sdk providers ask events d,
              some_event sdk providers ask events miss d mq,
              missing sdk providers ask events q mm,
            ))
            (omega (
              arith,
              kinds events,
              n_events sdk providers ask events d,
              some_event sdk providers ask events failure d mp,
              failing sdk providers ask events p fp,
            ))
          ∙ ap won (first_win-none events no_win) in
        rw (e, resolve)

  -- At the deadline the loop ends, whatever has been received before.
  resolve-ends :
      {V : Type 0} (providers : List (NamedProvider E F X)) (default : V)
      (events rest : List (Event V E F X)) (ctx_err : String)
      → resolve sdk range providers default (events ++ done ctx_err ∷ rest) ≢ none
  unfolding resolve
  resolve-ends providers default events rest ctx_err =
      ground (arith, collect-ends sdk range (length providers) default [] 0 events rest ctx_err)
