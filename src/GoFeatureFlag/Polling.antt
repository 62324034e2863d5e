-- ===== src/GoFeatureFlag/Polling.antt =====
-- providers/go-feature-flag/pkg/evaluator/inprocess.go: evaluation in the process, with flags that are
-- polled from the relay proxy.
pub mod Current
pub mod Evaluation
pub mod Answers
use go_sdk_contrib.Common.{
  ℕ, String, ◌==◌, ◌⊎◌, inl, inr, ltb, Bool, true, false, not, ◌||◌, Option, none, some, List, [],
  ◌∷◌, ◌++◌, length, Assoc, lookup, if◌then◌else◌,
}
use go_sdk_contrib.OpenFeature.{
  ℤ, Any, string, Fields, empty, field, get, FlagMetadata, ProviderResolutionDetail,
  ResolutionDetail, Sdk, EventType, provider_ready, provider_config_change, provider_stale,
}
use go_sdk_contrib.GoFeatureFlag.Api.{FlagConfigResponse, Refresh, changed, not_modified, failed}

abbrev pub event_channel_buffer : ℕ
event_channel_buffer = 5

-- `events` are the types of the events in the channel, the oldest first.
pub record InProcess (A F X : Type 0) : Type 0 where
  pub flag_config : Assoc A
  pub evaluation_context_enrichment : Fields F X
  pub etag : String
  pub stale : Bool
  pub events : List EventType
  pub polling : Bool

-- configurationRefreshStatus
pub data Status : Type 0 where
  refresh_not_modified refresh_changed : Status

module _ {A F X : Type 0} where
  unfoldable pub new_inprocess_evaluator : InProcess A F X
  new_inprocess_evaluator = record {
    flag_config = [];
    evaluation_context_enrichment = empty;
    etag = "";
    stale = false;
    events = [];
    polling = false;
  }

  -- with the status, or the text of the error
  unfoldable pub load_configuration :
      Refresh (Assoc A) (Fields F X) → InProcess A F X → InProcess A F X × (String ⊎ Status)
  load_configuration not_modified i = (i, inr refresh_not_modified)
  load_configuration (failed err) i = (i, inl err)
  load_configuration (changed resp) i = (
    record i {
      flag_config = resp.flags;
      evaluation_context_enrichment = resp.evaluation_context_enrichment;
      etag = resp.etag;
    },
    inr refresh_changed,
  )

  -- an event that finds the channel full is dropped
  unfoldable pub emit_event : EventType → InProcess A F X → InProcess A F X
  emit_event t i =
      if ltb (length i.events) event_channel_buffer
      then record i { events = i.events ++ (t ∷ []) }
      else i

  unfoldable pub mark_stale : InProcess A F X → InProcess A F X × Bool
  mark_stale i = if i.stale then (i, false) else (record i { stale = true }, true)

  unfoldable pub clear_stale : InProcess A F X → InProcess A F X × Bool
  clear_stale i = (record i { stale = false }, i.stale)

  unfoldable pub handle_refresh_result : String ⊎ Status → InProcess A F X → InProcess A F X
  unfolding emit_event mark_stale clear_stale
  handle_refresh_result (inl err) i =
      let (i', marked) = mark_stale i in if marked then emit_event provider_stale i' else i'
  handle_refresh_result (inr refresh_changed) i =
      emit_event provider_config_change (clear_stale i).0
  handle_refresh_result (inr refresh_not_modified) i =
      let (i', was_stale) = clear_stale i in if was_stale then emit_event provider_ready i' else i'

  -- what the goroutine does at a tick
  unfoldable pub tick : Refresh (Assoc A) (Fields F X) → InProcess A F X → InProcess A F X
  unfolding load_configuration handle_refresh_result
  tick refresh i =
      let (i', result) = load_configuration refresh i in handle_refresh_result result i'

  -- with the text of the error, if there is one
  unfoldable pub init :
      Refresh (Assoc A) (Fields F X) → InProcess A F X → InProcess A F X × Option String
  unfolding load_configuration handle_refresh_result
  init refresh i =
      let (i', result) = load_configuration refresh i in
      elim result [
        | inl err ↦ (i', some err)
        | inr status ↦ (record (handle_refresh_result (inr status) i') { polling = true }, none)
      ]

  unfoldable pub shutdown : InProcess A F X → InProcess A F X
  shutdown i = record i { polling = false }
