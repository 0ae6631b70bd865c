-- ===== src/Session/Approvals.antt =====
-- crates/runtime-core/src/runtime/turns.rs: `respond_approval`.
use gooselake.Base.{
  ℕ, String, ◌<>◌, ◌==◌, Bool, true, false, not, none, some, if◌then◌else◌, [], ◌∷◌,
}
use gooselake.Error.{not_found, invalid_state, protocol_violation}
use gooselake.Map
use gooselake.Records.{
  SessionRecord, SessionStatus, TurnRecord, TurnStatus, ApprovalRecord, ApprovalStatus,
}
use gooselake.Provider.{
  ProviderKind, ApprovalDecision, as_approval_status, decision_text, parse_decision,
}
use gooselake.Store.{text, upsert_approval}
use gooselake.World.{
  Env, M, pure, raise, lift, gets, ok_or, modify, ◌>>=◌, ◌>>◌, others_run, now_ms, ask, persist,
}
use gooselake.Session.{
  message_value, session_event, get_session, provider_kind_of, require_provider,
}
use gooselake.Session.Started.{
  ApprovalResponseInput, ready_unless_ended, clear_active, spawn_wait_for_turn,
}
use gooselake.Session.Results.{update_session, update_turn}

abbrev pub is_pending : ApprovalStatus → Bool
is_pending ApprovalStatus.pending = true
is_pending s = false

unfoldable pub resumed_turn : TurnRecord → TurnRecord
resumed_turn turn = record turn { status = TurnStatus.in_progress; error = none }

unfoldable pub accepted_session : SessionRecord → ℕ → SessionRecord
accepted_session session now = record session {
  status = SessionStatus.turn_running;
  updated_at = now;
}

unfoldable pub declined_turn : TurnRecord → ℕ → TurnRecord
declined_turn turn now = record turn {
  status = TurnStatus.interrupted;
  completed_at = some now;
  error = some (message_value "approval declined");
}

unfoldable pub declined_session : String → SessionRecord → ℕ → SessionRecord
declined_session turn_id session now = record session {
  active_turn_id = clear_active session.active_turn_id turn_id;
  status = ready_unless_ended session.status;
  updated_at = now;
}

module _ (env : Env) where
  -- `turns.write()` and `sessions.write()` are held over both updates.
  unfoldable pub accept_turn : ProviderKind → String → String → M (Unit {0})
  unfolding resumed_turn accepted_session
  accept_turn kind session_id turn_id = do
    others_run env
    turn ← gets (λ w. Map.get turn_id w.turns)
    update_turn env turn_id (λ t. pure (resumed_turn t)) turn
    session ← gets (λ w. Map.get session_id w.sessions)
    update_session env session_id (λ s. do now ← now_ms env; pure (accepted_session s now)) session
    session_event env session_id (some turn_id) "turn.started"
        (("source", text "approval.accepted") ∷ [])
    spawn_wait_for_turn kind session_id turn_id

  unfoldable pub decline_turn : String → String → M (Unit {0})
  unfolding declined_turn declined_session
  decline_turn session_id turn_id = do
    others_run env
    turn ← gets (λ w. Map.get turn_id w.turns)
    update_turn env turn_id (λ t. do now ← now_ms env; pure (declined_turn t now)) turn
    session ← gets (λ w. Map.get session_id w.sessions)
    update_session env session_id (λ s. do now ← now_ms env; pure (declined_session turn_id s now))
        session
    session_event env session_id (some turn_id) "turn.interrupted"
        (("source", text "approval.declined") ∷ [])
    pure tt

  after_decision : ApprovalDecision → ProviderKind → String → String → M (Unit {0})
  after_decision ApprovalDecision.accept kind session_id turn_id =
      accept_turn kind session_id turn_id
  after_decision ApprovalDecision.decline kind session_id turn_id = decline_turn session_id turn_id

  -- The approval is found, is the session's and is pending.
  answer_approval :
      ProviderKind → String → String → ApprovalResponseInput → ApprovalRecord → M ApprovalRecord
  unfolding after_decision
  answer_approval kind session_id approval_id input existing = do
    decision ← lift (parse_decision input.decision)
    ask env (λ n. env.respond_approval n kind (record {
      runtime_session_id = session_id;
      turn_id = existing.turn_id;
      approval_id = approval_id;
      decision = decision_text decision;
      payload = input.payload;
    }))
    now ← now_ms env
    let resolved : ApprovalRecord = record existing {
      status = as_approval_status decision;
      response = input.payload;
      resolved_at = some now;
    }
    persist env (upsert_approval resolved)
    modify (λ w. record w { approvals = Map.insert approval_id resolved w.approvals })
    session_event env session_id (some resolved.turn_id) "approval.resolved"
        (("approval_id", text approval_id) ∷ [])
    after_decision decision kind session_id resolved.turn_id
    pure resolved

  unfoldable pub respond_approval : String → String → ApprovalResponseInput → M ApprovalRecord
  unfolding answer_approval
  respond_approval session_id approval_id input = do
    session ← get_session env session_id
    kind ← provider_kind_of env session
    require_provider env kind
    others_run env
    found ← gets (λ w. Map.get approval_id w.approvals)
    existing ← ok_or found (not_found ("approval " <> approval_id))
    if not (existing.session_id == session_id)
        then raise (
            protocol_violation
              ("approval " <> (approval_id <> (" does not belong to session " <> session_id))))
        else if not (is_pending existing.status)
        then raise (invalid_state ("approval " <> (approval_id <> " is not pending")))
        else answer_approval kind session_id approval_id input existing
