-- ===== src/Session/Recovery.antt =====
-- crates/runtime-core/src/runtime/recovery.rs: what a restart does with the sessions, turns and
-- approvals that the store remembers.
pub mod Settled
pub mod Unstored
use gooselake.Base.{
  suc, String, ◌==◌, false, not, ◌&&◌, List, [], ◌∷◌, Option, none, some, if◌then◌else◌, length,
}
use gooselake.Error.{Result, ok, err}
use gooselake.Map
use gooselake.Map.{Map}
use gooselake.Records.{
  SessionRecord, TurnRecord, ApprovalRecord, RuntimeEventScope, RuntimeEventCriticality,
  is_unavailable,
}
use gooselake.Provider.{ProviderKind, kind_text}
use gooselake.Store.{upsert_session, upsert_turn, upsert_approval, RuntimeEventRecord, json}
use gooselake.World.{Env, M, pure, gets, attempt, modify, ◌>>=◌, ◌>>◌, others_run, now_ms, ask}
use gooselake.Session.{
  append_event, get_session, provider_kind_of, persist_unlocked, put_session, put_turn,
}
use gooselake.Session.Started.{spawn_wait_for_turn}
use gooselake.Session.Approvals.{is_pending}
use gooselake.Session.Transcript.{is_terminal_turn_status}
use gooselake.Session.Repairs.{
  StartupRecoveryProviderStatus, StartupRecoverySummary, Recovering, set_session, failed_session,
  after_resume, any_awaited, clear_turn, is_waiting_turn, settle_idle, settle_missing,
  settle_foreign, settle_awaited, repaired_turn, running_unless_ended, health, insert_approval,
  declined, is_orphaned, summary_value,
}

module _ (env : Env) where
  unfoldable pub provider_health : ProviderKind → M StartupRecoveryProviderStatus
  provider_health kind =
      if env.registered kind
      then (do answer ← attempt (ask env (λ n. env.healthcheck n kind)); pure (health kind answer))
      else pure (record {
        provider = kind_text kind;
        healthy = false;
        detail = some "provider not registered";
      })

  unfoldable pub provider_healths : List ProviderKind → M (List StartupRecoveryProviderStatus)
  provider_healths [] = pure []
  provider_healths (kind ∷ kinds) = do
    status ← provider_health kind
    rest ← provider_healths kinds
    pure (status ∷ rest)

  -- A session that has not ended is taken up again by its adapter.
  unfoldable pub resume_with : String → Recovering → M Recovering
  unfolding after_resume
  resume_with session_ref r = do
    kind ← provider_kind_of env r.session
    if env.registered kind
        then (do
          answer ← attempt (
              ask env (λ n. env.resume_session n kind (record {
                runtime_session_id = r.session.id;
                provider_session_ref = session_ref;
                canonical_provider_session_ref = r.session.canonical_provider_session_ref;
                cwd = r.session.cwd;
                metadata = some r.session.metadata;
              })))
          pure (after_resume answer r))
        else pure r

  unfoldable pub resume_by : Option String → Recovering → M Recovering
  unfolding failed_session
  resume_by none r = pure (
      set_session
        (failed_session r.session "startup_missing_provider_ref" "missing provider_session_ref") r)
  resume_by (some session_ref) r = resume_with session_ref r

  unfoldable pub resume_stored : Recovering → M Recovering
  resume_stored r =
      if is_unavailable r.session.status then pure r else resume_by r.session.provider_session_ref r

  -- A turn that waits for an approval that is not pending has failed.
  unfoldable pub repair_turn : TurnRecord → Recovering → M Recovering
  unfolding repaired_turn clear_turn
  repair_turn turn r = do
    at ← now_ms env
    let repaired = repaired_turn turn at
    persist_unlocked env (upsert_turn repaired)
    put_turn env repaired.id repaired
    pure (record (set_session (clear_turn r.session) r) {
      summary = record r.summary { turns_reconciled = suc r.summary.turns_reconciled };
    })

  -- The server waits for the turn again. `session_changed` stays as it was.
  unfoldable pub wait_again : TurnRecord → Recovering → M Recovering
  wait_again turn r = do
    kind ← provider_kind_of env r.session
    spawn_wait_for_turn kind r.session.id turn.id
    pure (record r {
      session = record r.session { status = running_unless_ended r.session.status };
      summary = record r.summary { resumed_waits = suc r.summary.resumed_waits };
    })

  unfoldable pub settle_found : Map ApprovalRecord → TurnRecord → Recovering → M Recovering
  unfolding settle_foreign settle_awaited clear_turn is_waiting_turn any_awaited
  settle_found approvals turn r =
      if not (turn.session_id == r.session.id)
      then pure (settle_foreign turn r)
      else if is_terminal_turn_status turn.status
      then pure (set_session (clear_turn r.session) r)
      else if is_waiting_turn turn.status
      then (if any_awaited turn.id r.session.id (Map.values approvals)
          then pure (settle_awaited r)
          else repair_turn turn r)
      else wait_again turn r

  unfoldable pub settle_turn :
      Map ApprovalRecord → String → Option TurnRecord → Recovering → M Recovering
  unfolding settle_missing
  settle_turn approvals turn_id none r = pure (settle_missing turn_id r)
  settle_turn approvals turn_id (some turn) r = settle_found approvals turn r

  unfoldable pub settle_active :
      Map TurnRecord → Map ApprovalRecord → Option String → Recovering → M Recovering
  unfolding settle_idle
  settle_active turns approvals none r = pure (settle_idle r.session.status r)
  settle_active turns approvals (some turn_id) r =
      settle_turn approvals turn_id (Map.get turn_id turns) r

  unfoldable pub store_recovered : Recovering → M StartupRecoverySummary
  store_recovered r =
      if r.changed
      then (do
        at ← now_ms env
        let s = record r.session { updated_at = at }
        persist_unlocked env (upsert_session s)
        put_session env s.id s
        pure (record r.summary { sessions_reconciled = suc r.summary.sessions_reconciled }))
      else pure r.summary

  unfoldable pub recover_found :
      Map TurnRecord
      → Map ApprovalRecord
      → Result SessionRecord
      → StartupRecoverySummary
      → M StartupRecoverySummary
  recover_found turns approvals (err e) summary = pure summary
  recover_found turns approvals (ok session) summary = do
    resumed ← resume_stored (record { session = session; changed = false; summary = summary })
    settled ← settle_active turns approvals resumed.session.active_turn_id resumed
    store_recovered settled

  -- The walk over the sessions.
  unfoldable pub recover_sessions :
      Map TurnRecord
      → Map ApprovalRecord
      → List String
      → StartupRecoverySummary
      → M StartupRecoverySummary
  recover_sessions turns approvals [] summary = pure summary
  recover_sessions turns approvals (id ∷ ids) summary = do
    found ← attempt (get_session env id)
    next ← recover_found turns approvals found summary
    recover_sessions turns approvals ids next

  unfoldable pub recover_approval :
      Map TurnRecord → ApprovalRecord → StartupRecoverySummary → M StartupRecoverySummary
  unfolding is_orphaned declined
  recover_approval turns a summary =
      if is_pending a.status && is_orphaned (Map.get a.turn_id turns)
      then (do
        at ← now_ms env
        let resolved = declined a at
        persist_unlocked env (upsert_approval resolved)
        others_run env
        modify (insert_approval resolved.id resolved)
        pure (record summary { approvals_reconciled = suc summary.approvals_reconciled }))
      else pure summary

  unfoldable pub recover_approvals :
      Map TurnRecord → List ApprovalRecord → StartupRecoverySummary → M StartupRecoverySummary
  recover_approvals turns [] summary = pure summary
  recover_approvals turns (a ∷ rest) summary = do
    next ← recover_approval turns a summary
    recover_approvals turns rest next

  unfoldable pub recover_startup : M StartupRecoverySummary
  recover_startup = do
    started_at ← now_ms env
    others_run env
    turns ← gets (λ w. w.turns)
    others_run env
    approvals ← gets (λ w. w.approvals)
    others_run env
    session_ids ← gets (λ w. Map.keys w.sessions)
    healths ← provider_healths env.metadata
    summary ← recover_sessions turns approvals session_ids (record {
      started_at = started_at;
      completed_at = 0;
      sessions_scanned = length session_ids;
      turns_scanned = length turns;
      approvals_scanned = length approvals;
      sessions_reconciled = 0;
      turns_reconciled = 0;
      approvals_reconciled = 0;
      resumed_sessions = 0;
      resumed_waits = 0;
      deferred_deliveries_retried = 0;
      provider_status = healths;
      notes = [];
    })
    resolved ← recover_approvals turns (Map.values approvals) summary
    completed_at ← now_ms env
    pure (record resolved { completed_at = completed_at })

  unfoldable pub emit_startup_recovered_event : StartupRecoverySummary → M RuntimeEventRecord
  emit_startup_recovered_event summary =
      append_event env RuntimeEventScope.system "startup_recovery" none none
        "runtime.startup_recovered" RuntimeEventCriticality.critical
        (("summary", json (summary_value summary)) ∷ [])
