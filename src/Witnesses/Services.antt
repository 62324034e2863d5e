-- ===== src/Witnesses/Services.antt =====
-- The services of flagd and OFREP.
use go_sdk_contrib.Common.{
  ℕ, String, ◌≡◌, refl, inl, inr, Bool, true, false, Option, none, some, List, [], ◌∷◌, Assoc,
  lookup, arith,
}
use go_sdk_contrib.OpenFeature.{
  Any, nil, bool, object, Fields, empty, field, get, general, flag_not_found,
}
use go_sdk_contrib.Flagd.Cache.{Backend, CacheOps, InMemory, Service, mem}
use go_sdk_contrib.Flagd.Rpc.{
  Detail, bool_detail, Kind, Reasons, Response, reason_cached, answer as response_answer,
  resolve_flag,
}
use go_sdk_contrib.Flagd.RpcLaws.{static-cached}
use go_sdk_contrib.Flagd.Changes.{
  kept, changed_flags, blanks, keys, handle_configuration_change_event, changes-removed,
}
use go_sdk_contrib.Ofrep.Resolver.{Resolution, Host, resolve_single}
use go_sdk_contrib.Ofrep.Flags
use go_sdk_contrib.Ofrep.Values.{resolve-not_ok}
use go_sdk_contrib.Witnesses.Sdk.{Error, small_sdk, small_laws}

abbrev lru_ops : CacheOps (Assoc (Detail Error ℕ ℕ)) (Detail Error ℕ ℕ)
lru_ops = record {
  add = λ k v s. (s, false);
  purge = λ s. [];
  get = λ k s. (s, none);
  remove = λ k s. (s, false);
}

abbrev reasons : Reasons
reasons = record { static = "STATIC"; default = "DEFAULT"; disabled = "DISABLED" }

abbrev bool_kind : Kind Bool Error ℕ ℕ
bool_kind = record { inject = bool_detail; cast = elim [ bool_detail d ↦ some d | _ ↦ none ] }

abbrev static_response : Response Bool ℕ ℕ
static_response = record {
  value = some true;
  reason = "STATIC";
  variant = some "on";
  metadata = empty;
}

abbrev one_value : InMemory ℕ
one_value = ("a", 1) ∷ []

static-cached_example :
    let detail = response_answer small_sdk lru_ops reasons "not ready" false static_response in
    (s : Service (Assoc (Detail Error ℕ ℕ)) (Detail Error ℕ ℕ)) × (resolve_flag small_sdk lru_ops
        reasons "not ready" bool_kind true
        (inr static_response)
        "flag"
        false
        (record { cache_enabled = true; cache = some (mem []) })
      ≡ some (s, detail))
    × (resolve_flag small_sdk lru_ops reasons "not ready" bool_kind false
          (inl (general, "down"))
          "flag"
          true
          s
        ≡ some (s, record detail { detail = record (detail.detail) { reason = reason_cached } }))
unfolding lookup
static-cached_example =
    static-cached small_sdk lru_ops reasons "not ready" bool_kind (λ d. refl) [] "flag"
      static_response false true false (inl (general, "down")) refl refl

abbrev two_flags : Fields ℕ ℕ
two_flags = field "a" nil (field "b" nil empty)

abbrev changed : Fields ℕ ℕ
changed = field "flags" (object two_flags) empty

abbrev service : Service (Assoc ℕ) ℕ
service = record { cache_enabled = true; cache = some (mem one_value) }

abbrev lru_ops_n : CacheOps (Assoc ℕ) ℕ
lru_ops_n = record {
  add = λ k v s. (s, false);
  purge = λ s. [];
  get = λ k s. (s, none);
  remove = λ k s. (s, false);
}

changes-removed_example :
    (s' : Service (Assoc ℕ) ℕ) × (c' : Backend (Assoc ℕ) ℕ) × (sent : Option (List String))
    × (handle_configuration_change_event lru_ops_n (some changed) service ≡ some (s', sent))
    × (s'.cache_enabled ≡ true)
    × (s'.cache ≡ some c')
    × (kept "a" c' ≡ none)
    × (sent ≡ some ("" ∷ "" ∷ "a" ∷ "b" ∷ []))
unfolding changed_flags get lookup blanks keys
changes-removed_example = changes-removed lru_ops_n (some changed) service one_value "a" refl refl

-- A host whose server answers with this status; bodies are numbers.
abbrev host : ℕ → Host ℕ ℕ ℕ
host status = record {
  marshal_request = λ ctx. inr 0;
  single = λ key b. inr (record { status = status; data_bytes = 1; header = λ k. "" });
  unmarshal_success =
      λ b. inr (record { value = bool true; reason = "STATIC"; variant = "on"; metadata = nil });
  unmarshal_error = λ b. inl "bad";
  unmarshal_response = λ b. inl "bad";
  atoi = λ s. none;
  until = λ s. none;
  seconds_text = λ d. "0";
}

abbrev reply : ℕ → Resolution ℕ
reply status = record { status = status; data_bytes = 1; header = λ k. "" }

abbrev to_bool : Any ℕ ℕ → Option Bool
to_bool (bool b) = some b
to_bool _ = none

resolve-not_ok_example :
    let r =
      Flags.resolve small_sdk
        (resolve_single small_sdk (host 404) "flag" empty)
        true
        to_bool
        (λ v. "no") in
    (r.value ≡ true)
    × (r.detail.reason ≡ "ERROR")
    × (small_sdk.error_code r.detail.resolution_error ≡ flag_not_found)
resolve-not_ok_example =
    resolve-not_ok small_sdk small_laws (host 404) "flag" empty 0 (reply 404) true to_bool
      (λ v. "no") refl refl (λ e. absurd (omega (arith, e)))
