-- ===== src/Session.antt =====
-- crates/runtime-core/src/runtime: the session manager. What all of its files use: ids, events
-- (runtime/events.rs, runtime/mod.rs) and the look-ups that end in an error.
pub mod Transcript
pub mod Lifecycle
pub mod Started
pub mod Turns
pub mod Results
pub mod Approvals
pub mod Apart
pub mod Events
pub mod Repairs
pub mod Recovery
use gooselake.Base.{ℕ, suc, ◌+◌, ◌%◌, String, ◌<>◌, Option, none, some, if◌then◌else◌}
use gooselake.Text.{decimal}
use gooselake.Error.{ok, not_found, protocol_violation, provider_not_registered}
use gooselake.Json.{Value, obj, field, end, str}
use gooselake.Map
use gooselake.Records.{
  SessionRecord, TurnRecord, RuntimeEventScope, RuntimeEventCriticality, scope_text,
}
use gooselake.Provider.{ProviderKind, kind_text, kind_from_str}
use gooselake.Store.{Payload, RuntimeEventRecord, Store, upsert_session}
use gooselake.World.{
  World, Env, M, pure, raise, gets, ok_or, modify, ◌>>=◌, ◌>>◌, others_run, now_ms, persist,
  append_to_store, u64_mod,
}

-- `json!({ "message": text })`.
abbrev pub message_value : String → Value
message_value text = obj (field "message" (str text) end)

-- `AtomicU64::fetch_add(1)`.
unfoldable pub take_id : M ℕ
take_id w = (ok w.next_id, record w { next_id = (w.next_id + 1) % u64_mod })

abbrev pub insert_session : String → SessionRecord → World → World
insert_session key s w = record w { sessions = Map.insert key s w.sessions }

abbrev pub insert_turn : String → TurnRecord → World → World
insert_turn key t w = record w { turns = Map.insert key t w.turns }

module _ (env : Env) where
  unfoldable pub allocate_id : String → String → M String
  unfolding take_id
  allocate_id prefix suffix = do
    seq ← take_id
    now ← now_ms env
    pure (prefix <> ("_" <> (suffix <> ("_" <> (decimal now <> ("_" <> decimal seq))))))

  unfoldable pub append_event :
      RuntimeEventScope
      → String
      → Option String
      → Option String
      → String
      → RuntimeEventCriticality
      → Payload
      → M RuntimeEventRecord
  append_event scope scope_id session_id turn_id kind criticality payload = do
    event_id ← allocate_id "evt" (scope_text scope)
    now ← now_ms env
    others_run env
    append_to_store env (record {
      event_id = event_id;
      scope = scope;
      scope_id = scope_id;
      session_id = session_id;
      team_id = none;
      turn_id = turn_id;
      kind = kind;
      criticality = criticality;
      payload = payload;
      created_at = now;
    })

  -- An event of a session, which is always critical.
  unfoldable pub session_event : String → Option String → String → Payload → M RuntimeEventRecord
  session_event session_id turn_id kind payload =
      append_event RuntimeEventScope.session session_id (some session_id) turn_id kind
        RuntimeEventCriticality.critical payload

  unfoldable pub get_session : String → M SessionRecord
  get_session session_id = do
    others_run env
    found ← gets (λ w. Map.get session_id w.sessions)
    ok_or found (not_found ("session " <> session_id))

  unfoldable pub provider_kind_of : SessionRecord → M ProviderKind
  provider_kind_of session =
      ok_or (kind_from_str session.provider)
        (protocol_violation ("unknown provider " <> session.provider))

  unfoldable pub require_provider : ProviderKind → M (Unit {0})
  require_provider kind =
      if env.registered kind then pure tt else raise (provider_not_registered (kind_text kind))

  -- Writes to the store outside every lock.
  unfoldable pub persist_unlocked : (Store → Store) → M (Unit {0})
  persist_unlocked write = do others_run env; persist env write

  unfoldable pub store_session : SessionRecord → M (Unit {0})
  store_session session = persist_unlocked (upsert_session session)

  -- `sessions.write().await.insert(…)`.
  unfoldable pub put_session : String → SessionRecord → M (Unit {0})
  put_session key session = do others_run env; modify (insert_session key session)

  unfoldable pub put_turn : String → TurnRecord → M (Unit {0})
  put_turn key turn = do others_run env; modify (insert_turn key turn)
