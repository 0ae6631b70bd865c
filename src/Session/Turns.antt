-- ===== src/Session/Turns.antt =====
-- crates/runtime-core/src/runtime/turns.rs: a turn is sent, interrupted, approved and ended.
pub mod Owner
pub mod Accepted
use gooselake.Base.{
  ℕ, String, ◌<>◌, ◌==◌, Bool, true, false, ◌||◌, not, Option, none, some, if◌then◌else◌, is_some,
  or_else, [], ◌∷◌,
}
use gooselake.Error.{
  RuntimeError, Result, ok, err, to_string, not_found, invalid_state, protocol_violation,
}
use gooselake.Json.{Value, Values, arr, obj, field, str, end}
use gooselake.Map
use gooselake.Records.{
  SessionRecord, SessionStatus, TurnRecord, TurnStatus, ApprovalRecord, ApprovalStatus,
  is_unavailable, session_status_text,
}
use gooselake.Provider.{ProviderKind, ProviderSendTurnRequest, ProviderTurnAck, kind_text}
use gooselake.Store.{text, upsert_turn, upsert_approval}
use gooselake.World.{
  Env, M, pure, raise, lift, ok_or, attempt, modify, ◌>>=◌, ◌>>◌, others_run, now_ms, ask,
}
use gooselake.Session.{
  message_value, allocate_id, session_event, get_session, provider_kind_of, require_provider,
  store_session, put_session, put_turn, persist_unlocked,
}
use gooselake.Session.Started.{
  SendTurnInput, ApprovalResponseInput, SendTurnAccepted, is_active, ready_unless_ended,
  clear_active, spawn_wait_for_turn, turn_started, session_started, new_turn, running_session,
  failed_turn, new_approval,
}

module _ (env : Env) where
  -- The provider lost the session: it is resumed, and the turn is sent again.
  unfoldable pub resume_and_resend :
      ProviderKind → ProviderSendTurnRequest → SessionRecord → M ProviderTurnAck
  resume_and_resend kind request session = do
    session_ref ← ok_or session.provider_session_ref (
        not_found (
          "provider session "
          <> (request.runtime_session_id <> " was not found and cannot be resumed")))
    ask env (λ n. env.resume_session n kind (record {
      runtime_session_id = request.runtime_session_id;
      provider_session_ref = session_ref;
      canonical_provider_session_ref = session.canonical_provider_session_ref;
      cwd = session.cwd;
      metadata = some session.metadata;
    }))
    ask env (λ n. env.send_turn n kind request)

  unfoldable pub after_first_send :
      ProviderKind
      → ProviderSendTurnRequest
      → SessionRecord
      → Result ProviderTurnAck
      → M ProviderTurnAck
  unfolding resume_and_resend
  after_first_send kind request session (err (not_found s)) = resume_and_resend kind request session
  after_first_send kind request session r = lift r

  unfoldable pub dispatch_send_turn_with_resume_fallback :
      ProviderKind → ProviderSendTurnRequest → SessionRecord → M ProviderTurnAck
  unfolding after_first_send
  dispatch_send_turn_with_resume_fallback kind request session = do
    require_provider env kind
    first ← attempt (ask env (λ n. env.send_turn n kind request))
    after_first_send kind request session first

  -- "Fail closed: persist a terminal failed turn and keep session writable."
  unfoldable pub record_failed_send :
      String → String → SessionRecord → SendTurnInput → ℕ → RuntimeError → M SendTurnAccepted
  unfolding failed_turn
  record_failed_send session_id turn_id session input now error = do
    completed_at ← now_ms env
    let turn = failed_turn session_id turn_id input now completed_at error
    updated_at ← now_ms env
    let failed_session = record session {
      active_turn_id = none;
      status = ready_unless_ended session.status;
      updated_at = updated_at;
    }
    persist_unlocked env (upsert_turn turn)
    store_session env failed_session
    put_turn env turn_id turn
    put_session env session_id failed_session
    session_event env session_id (some turn_id) "turn.failed"
        (("error", text (to_string error)) ∷ [])
    raise error

  unfoldable pub request_approval : String → String → ℕ → String → M (Unit {0})
  unfolding new_approval
  request_approval session_id turn_id now approval_id = do
    let approval = new_approval approval_id session_id turn_id now
    persist_unlocked env (upsert_approval approval)
    others_run env
    modify (λ w. record w { approvals = Map.insert approval_id approval w.approvals })
    session_event env session_id (some turn_id) "approval.requested"
        (("approval_id", text approval_id) ∷ [])
    pure tt

  unfoldable pub start_running : ProviderKind → String → String → M (Unit {0})
  start_running kind session_id turn_id = do
    session_event env session_id (some turn_id) "turn.started" []
    spawn_wait_for_turn kind session_id turn_id

  -- An approval id was allocated exactly if an approval is required.
  unfoldable pub ask_or_start : ProviderKind → String → String → ℕ → Option String → M (Unit {0})
  unfolding request_approval start_running
  ask_or_start kind session_id turn_id now none = start_running kind session_id turn_id
  ask_or_start kind session_id turn_id now (some approval_id) =
      request_approval session_id turn_id now approval_id

  unfoldable pub record_accepted_send :
      ProviderKind
      → String
      → String
      → SessionRecord
      → SendTurnInput
      → ℕ
      → Option String
      → M SendTurnAccepted
  unfolding new_turn running_session ask_or_start
  record_accepted_send kind session_id turn_id session input now approval_id = do
    let turn = new_turn session_id turn_id input now (is_some approval_id)
    let updated = running_session session turn_id now (is_some approval_id)
    persist_unlocked env (upsert_turn turn)
    store_session env updated
    put_turn env turn_id turn
    put_session env session_id updated
    ask_or_start kind session_id turn_id now approval_id
    pure (record { session_id = session_id; turn_id = turn_id; status = turn.status })

  unfoldable pub allocate_approval : ProviderKind → Bool → M (Option String)
  allocate_approval kind false = pure none
  allocate_approval kind true = do id ← allocate_id env "apr" (kind_text kind); pure (some id)

  unfoldable pub finish_send :
      ProviderKind
      → String
      → String
      → SessionRecord
      → SendTurnInput
      → ℕ
      → Option String
      → Result ProviderTurnAck
      → M SendTurnAccepted
  finish_send kind session_id turn_id session input now approval_id (err e) =
      record_failed_send session_id turn_id session input now e
  finish_send kind session_id turn_id session input now approval_id (ok ack) =
      if not (ack.runtime_session_id == session_id) || not (ack.turn_id == turn_id)
      then raise (
          protocol_violation (
            "provider send_turn acknowledgement mismatch (expected_session="
            <> (session_id
                <> (", expected_turn="
                    <> (turn_id
                        <> (", actual_session="
                            <> (ack.runtime_session_id
                                <> (", actual_turn=" <> (ack.turn_id <> ")")))))))))
      else record_accepted_send kind session_id turn_id session input now approval_id

  unfoldable pub start_with :
      ProviderKind → String → SessionRecord → SendTurnInput → M SendTurnAccepted
  unfolding allocate_approval finish_send
  start_with kind session_id session input = do
    turn_id ← allocate_id env "turn" (kind_text kind)
    now ← now_ms env
    let mode = or_else input.permission_mode session.permission_mode
    approval_id ← allocate_approval kind (is_active mode "require_approval")
    let request : ProviderSendTurnRequest = record {
      runtime_session_id = session_id;
      turn_id = turn_id;
      input = input.input;
      expected_turn_id = input.expected_turn_id;
      permission_mode = mode;
      approval_id = approval_id;
    }
    answer ← attempt (dispatch_send_turn_with_resume_fallback kind request session)
    finish_send kind session_id turn_id session input now approval_id answer

  unfoldable pub start_turn : String → SessionRecord → SendTurnInput → M SendTurnAccepted
  start_turn session_id session input = do
    kind ← provider_kind_of env session
    start_with kind session_id session input

  unfoldable pub send_turn : String → SendTurnInput → M SendTurnAccepted
  unfolding start_turn
  send_turn session_id input = do
    session ← get_session env session_id
    if is_unavailable session.status
        then raise (
            invalid_state (
              "session "
              <> (session_id
                  <> (" is not writable in status " <> session_status_text session.status))))
        else if is_some session.active_turn_id
        then raise (invalid_state ("session " <> (session_id <> " already has an active turn")))
        else start_turn session_id session input

  unfoldable pub interrupt_turn : String → String → M (Unit {0})
  interrupt_turn session_id turn_id = do
    session ← get_session env session_id
    if is_active session.active_turn_id turn_id
        then (do
          kind ← provider_kind_of env session
          require_provider env kind
          ask env (λ n.
              env.interrupt_turn n kind
                (record { runtime_session_id = session_id; turn_id = turn_id }))
          session_event env session_id (some turn_id) "turn.interrupt_requested" []
          pure tt)
        else raise
            (invalid_state ("turn " <> (turn_id <> (" is not active for session " <> session_id))))
