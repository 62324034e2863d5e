-- ===== src/GoFeatureFlag/Polling/Current.antt =====
-- The configuration that the in-process evaluator works with after any number of polls.
use go_sdk_contrib.Common.{
  ◌≤◌, String, ◌≡◌, refl, Bool, true, false, List, [], ◌∷◌, Assoc, length, length-append, arith,
  if◌then◌else◌,
}
use go_sdk_contrib.OpenFeature.{EventType, provider_ready, provider_stale, Fields}
use go_sdk_contrib.GoFeatureFlag.Api.{FlagConfigResponse, Refresh, changed, not_modified, failed}
use go_sdk_contrib.GoFeatureFlag.Polling.{
  event_channel_buffer, InProcess, emit_event, mark_stale, clear_stale, load_configuration,
  handle_refresh_result, tick, init, new_inprocess_evaluator,
}

module _ {A F X : Type 0} where
  -- a list of polls
  unfoldable pub ticks : List (Refresh (Assoc A) (Fields F X)) → InProcess A F X → InProcess A F X
  ticks [] i = i
  ticks (refresh ∷ refreshes) i = ticks refreshes (tick refresh i)

  -- the configuration that was the last to come, and whether the last poll has failed
  abbrev pub latest :
      FlagConfigResponse (Assoc A) (Fields F X)
      → List (Refresh (Assoc A) (Fields F X))
      → FlagConfigResponse (Assoc A) (Fields F X)
  latest resp [] = resp
  latest resp (changed new ∷ refreshes) = latest new refreshes
  latest resp (not_modified ∷ refreshes) = latest resp refreshes
  latest resp (failed err ∷ refreshes) = latest resp refreshes

  abbrev pub last_failed : Bool → List (Refresh (Assoc A) (Fields F X)) → Bool
  last_failed before [] = before
  last_failed before (changed new ∷ refreshes) = last_failed false refreshes
  last_failed before (not_modified ∷ refreshes) = last_failed false refreshes
  last_failed before (failed err ∷ refreshes) = last_failed true refreshes

-- An evaluator that has the flags, the enrichment and the ETag of a configuration, is stale or not,
-- and has room for its events.
pub record IsCurrent {A F X : Type 0} (resp : FlagConfigResponse (Assoc A) (Fields F X))
    (stale : Bool) (i : InProcess A F X) : Type 0 where
  pub flags : i.flag_config ≡ resp.flags
  pub enrichment : i.evaluation_context_enrichment ≡ resp.evaluation_context_enrichment
  pub tag : i.etag ≡ resp.etag
  pub staleness : i.stale ≡ stale
  pub has_room : length i.events ≤ event_channel_buffer

module _ {A F X : Type 0} where
  emit_event-IsCurrent :
      (t : EventType) (resp : FlagConfigResponse (Assoc A) (Fields F X)) (stale : Bool)
      (i : InProcess A F X)
      → IsCurrent resp stale i
      → IsCurrent resp stale (emit_event t i)
  unfolding emit_event
  emit_event-IsCurrent t resp stale i h = record {
    flags = ground (arith, h.flags);
    enrichment = ground (arith, h.enrichment);
    tag = ground (arith, h.tag);
    staleness = ground (arith, h.staleness);
    has_room = ground (arith, h.has_room, length-append i.events (t ∷ []));
  }

  settled :
      (resp : FlagConfigResponse (Assoc A) (Fields F X)) (before after : Bool) (i : InProcess A F X)
      → IsCurrent resp before i
      → IsCurrent resp after (record i { stale = after })
  settled resp before after i h = record {
    flags = h.flags;
    enrichment = h.enrichment;
    tag = h.tag;
    staleness = refl;
    has_room = h.has_room;
  }

  either-IsCurrent :
      (resp : FlagConfigResponse (Assoc A) (Fields F X)) (stale b : Bool) (i j : InProcess A F X)
      → IsCurrent resp stale i
      → IsCurrent resp stale j
      → IsCurrent resp stale (if b then i else j)
  either-IsCurrent resp stale true i j h k = h
  either-IsCurrent resp stale false i j h k = k

  tick-changed-IsCurrent :
      (new resp : FlagConfigResponse (Assoc A) (Fields F X)) (stale : Bool) (i : InProcess A F X)
      → IsCurrent resp stale i
      → IsCurrent new false (tick (changed new) i)
  unfolding tick load_configuration handle_refresh_result clear_stale
  tick-changed-IsCurrent new resp stale i h = emit_event-IsCurrent _ new false _ (record {
    flags = refl;
    enrichment = refl;
    tag = refl;
    staleness = refl;
    has_room = h.has_room;
  })

  tick-not_modified-IsCurrent :
      (resp : FlagConfigResponse (Assoc A) (Fields F X)) (stale : Bool) (i : InProcess A F X)
      → IsCurrent resp stale i
      → IsCurrent resp false (tick not_modified i)
  unfolding tick load_configuration handle_refresh_result clear_stale
  tick-not_modified-IsCurrent resp stale i h =
      either-IsCurrent resp false i.stale _ _
        (emit_event-IsCurrent provider_ready resp false (record i { stale = false })
          (settled resp stale false i h))
        (settled resp stale false i h)

  mark_stale-IsCurrent :
      (resp : FlagConfigResponse (Assoc A) (Fields F X)) (stale : Bool) (i : InProcess A F X)
      → IsCurrent resp stale i
      → IsCurrent resp true (mark_stale i).0
  unfolding mark_stale
  mark_stale-IsCurrent resp stale i h = record {
    flags = ground (arith, h.flags);
    enrichment = ground (arith, h.enrichment);
    tag = ground (arith, h.tag);
    staleness = ground arith;
    has_room = ground (arith, h.has_room);
  }

  tick-failed-IsCurrent :
      (err : String) (resp : FlagConfigResponse (Assoc A) (Fields F X)) (stale : Bool)
      (i : InProcess A F X)
      → IsCurrent resp stale i
      → IsCurrent resp true (tick (failed err) i)
  unfolding tick load_configuration handle_refresh_result
  tick-failed-IsCurrent err resp stale i h =
      let marked = mark_stale-IsCurrent resp stale i h in
      either-IsCurrent resp true (mark_stale i).1 _ _
        (emit_event-IsCurrent provider_stale resp true (mark_stale i).0 marked) marked

  ticks-IsCurrent :
      (refreshes : List (Refresh (Assoc A) (Fields F X)))
      (resp : FlagConfigResponse (Assoc A) (Fields F X)) (stale : Bool) (i : InProcess A F X)
      → IsCurrent resp stale i
      → IsCurrent (latest resp refreshes) (last_failed stale refreshes) (ticks refreshes i)
  unfolding ticks
  ticks-IsCurrent [] resp stale i h = h
  ticks-IsCurrent (changed new ∷ refreshes) resp stale i h =
      ticks-IsCurrent refreshes new false _ (tick-changed-IsCurrent new resp stale i h)
  ticks-IsCurrent (not_modified ∷ refreshes) resp stale i h =
      ticks-IsCurrent refreshes resp false _ (tick-not_modified-IsCurrent resp stale i h)
  ticks-IsCurrent (failed err ∷ refreshes) resp stale i h =
      ticks-IsCurrent refreshes resp true _ (tick-failed-IsCurrent err resp stale i h)

  -- After any polls the evaluator works with the configuration that was the last to come, that of
  -- Init or a later one, it is stale exactly if the last poll has failed, and its channel has not got
  -- more events than it has room for.
  pub init-ticks-IsCurrent :
      (resp : FlagConfigResponse (Assoc A) (Fields F X))
      (refreshes : List (Refresh (Assoc A) (Fields F X)))
      → IsCurrent
          (latest resp refreshes)
          (last_failed false refreshes)
          (ticks refreshes (init (changed resp) new_inprocess_evaluator).0)
  unfolding init new_inprocess_evaluator load_configuration handle_refresh_result clear_stale
      emit_event
  init-ticks-IsCurrent resp refreshes = ticks-IsCurrent refreshes resp false _ (record {
    flags = refl;
    enrichment = refl;
    tag = refl;
    staleness = refl;
    has_room = omega arith;
  })
