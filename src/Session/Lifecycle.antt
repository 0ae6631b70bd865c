-- ===== src/Session/Lifecycle.antt =====
-- crates/runtime-core/src/runtime/sessions.rs: sessions are created, resumed and closed.
pub mod Stored
pub mod Closing
use gooselake.Base.{
  ℕ, String, ◌<>◌, ◌==◌, Option, none, some, if◌then◌else◌, or_else, unwrap_or, [], ◌∷◌,
}
use gooselake.Error.{invalid_state, protocol_violation}
use gooselake.Json.{Value, obj, end}
use gooselake.Records.{SessionRecord, SessionStatus}
use gooselake.Provider.{ProviderKind, ProviderSession, kind_text}
use gooselake.Store.{text, upsert_session}
use gooselake.World.{Env, M, pure, raise, ok_or, modify, ◌>>=◌, ◌>>◌, now_ms, ask}
use gooselake.Session.{
  insert_session, allocate_id, session_event, get_session, provider_kind_of, require_provider,
  store_session, put_session, persist_unlocked,
}

pub record CreateSessionInput : Type 0 where
  pub provider : ProviderKind
  pub model : Option String
  pub cwd : Option String
  pub permission_mode : Option String
  pub metadata : Option Value

pub record ResumeSessionInput : Type 0 where
  pub provider_session_ref : Option String
  pub canonical_provider_session_ref : Option String

-- "closed" stays; every other status becomes "ready".
abbrev resumed_status : SessionStatus → SessionStatus
resumed_status SessionStatus.closed = SessionStatus.closed
resumed_status s = SessionStatus.ready

new_session : CreateSessionInput → String → ℕ → ProviderSession → SessionRecord
new_session i id at created = record {
  id = id;
  provider = kind_text i.provider;
  status = SessionStatus.ready;
  cwd = i.cwd;
  model = i.model;
  permission_mode = i.permission_mode;
  system_prompt = none;
  metadata = unwrap_or i.metadata (obj end);
  provider_session_ref = some created.provider_session_ref;
  canonical_provider_session_ref = created.canonical_provider_session_ref;
  active_turn_id = none;
  worktree_id = none;
  created_at = at;
  updated_at = at;
  closed_at = none;
  failure_code = none;
  failure_message = none;
}

unfoldable pub closed_session : SessionRecord → ℕ → ℕ → SessionRecord
closed_session session closed_at updated_at = record session {
  status = SessionStatus.closed;
  closed_at = some closed_at;
  updated_at = updated_at;
  active_turn_id = none;
}

unfoldable pub resumed_session : SessionRecord → ProviderSession → ℕ → SessionRecord
resumed_session session resumed updated_at = record session {
  provider_session_ref = some resumed.provider_session_ref;
  canonical_provider_session_ref = resumed.canonical_provider_session_ref;
  status = resumed_status session.status;
  updated_at = updated_at;
}

module _ (env : Env) where
  unfoldable pub create_session : CreateSessionInput → M SessionRecord
  unfolding new_session
  create_session input = do
    require_provider env input.provider
    now ← now_ms env
    session_id ← allocate_id env "sess" (kind_text input.provider)
    created ← ask env (λ n. env.create_session n input.provider (record {
      runtime_session_id = session_id;
      model = input.model;
      cwd = input.cwd;
      permission_mode = input.permission_mode;
      metadata = input.metadata;
    }))
    if created.runtime_session_id == session_id
        then (do
          let session = new_session input session_id now created
          store_session env session
          put_session env session_id session
          session_event env session_id none "session.created"
              (("provider", text session.provider) ∷ [])
          pure session)
        else raise (
            protocol_violation (
              "provider returned mismatched runtime session id (expected="
              <> (session_id <> (", actual=" <> (created.runtime_session_id <> ")")))))

  unfoldable pub close_found : String → String → SessionRecord → M SessionRecord
  unfolding closed_session
  close_found session_id reason session = do
    closed_at ← now_ms env
    updated_at ← now_ms env
    let updated = closed_session session closed_at updated_at
    store_session env updated
    put_session env session_id updated
    session_event env session_id none "session.closed" (("reason", text reason) ∷ [])
    pure updated

  unfoldable pub finalize_session_close : String → String → M SessionRecord
  finalize_session_close session_id reason = do
    session ← get_session env session_id
    close_found session_id reason session

  unfoldable pub close_session : String → Option String → M SessionRecord
  close_session session_id reason = do
    session ← get_session env session_id
    kind ← provider_kind_of env session
    require_provider env kind
    ask env (λ n.
        env.close_session n kind (record { runtime_session_id = session_id; reason = reason }))
    finalize_session_close session_id (unwrap_or reason "closed_by_request")

  unfoldable pub force_close_session : String → Option String → M SessionRecord
  force_close_session session_id reason =
      finalize_session_close session_id (unwrap_or reason "closed_by_runtime_rollback")

  unfoldable pub resume_session : String → ResumeSessionInput → M SessionRecord
  unfolding resumed_session
  resume_session session_id input = do
    session ← get_session env session_id
    kind ← provider_kind_of env session
    require_provider env kind
    session_ref ←
        ok_or (or_else input.provider_session_ref session.provider_session_ref)
          (invalid_state ("session " <> (session_id <> " has no provider_session_ref to resume")))
    resumed ← ask env (λ n. env.resume_session n kind (record {
      runtime_session_id = session_id;
      provider_session_ref = session_ref;
      canonical_provider_session_ref =
          or_else input.canonical_provider_session_ref session.canonical_provider_session_ref;
      cwd = session.cwd;
      metadata = some session.metadata;
    }))
    if resumed.runtime_session_id == session_id
        then (do
          updated_at ← now_ms env
          let updated = resumed_session session resumed updated_at
          store_session env updated
          put_session env session_id updated
          session_event env session_id none "session.resumed" []
          pure updated)
        else raise (
            protocol_violation (
              "provider resume returned mismatched session id (expected="
              <> (session_id <> (", actual=" <> (resumed.runtime_session_id <> ")")))))

  unfoldable pub set_session_worktree_id : String → Option String → M SessionRecord
  set_session_worktree_id session_id worktree_id = do
    session ← get_session env session_id
    updated_at ← now_ms env
    let updated = record session { worktree_id = worktree_id; updated_at = updated_at }
    modify (insert_session session_id updated)
    persist_unlocked env (upsert_session updated)
    pure updated
