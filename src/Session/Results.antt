-- ===== src/Session/Results.antt =====
-- crates/runtime-core/src/runtime/turns.rs: the end of a turn, as its adapter reports it.
pub mod Ended
pub mod Twice
use gooselake.Base.{
  ℕ, String, ◌<>◌, ◌==◌, Bool, true, false, not, Option, none, some, if◌then◌else◌, [], ◌∷◌,
}
use gooselake.Error.{RuntimeError, to_string, not_found, protocol_violation}
use gooselake.Json.{Value, null, as_array}
use gooselake.Map
use gooselake.Records.{SessionRecord, SessionStatus, TurnRecord, TurnStatus, turn_status_text}
use gooselake.Provider.{ProviderTurnResult, ProviderTurnStatus, as_turn_status}
use gooselake.Store.{PayloadItem, Payload, json, text, upsert_turn, upsert_session}
use gooselake.World.{
  Env, M, pure, raise, gets, ok_or, modify, ◌>>=◌, ◌>>◌, others_run, now_ms, persist,
}
use gooselake.Session.{message_value, insert_session, insert_turn, session_event}
use gooselake.Session.Transcript.{
  is_terminal_turn_status, extract_turn_user_text, extract_assistant_text_from_usage, append_text,
}
use gooselake.Session.Started.{ready_unless_ended, clear_active}

-- `turn.status == incoming_status`.
unfoldable pub same_turn_status : TurnStatus → ProviderTurnStatus → Bool
same_turn_status TurnStatus.in_progress ProviderTurnStatus.in_progress = true
same_turn_status TurnStatus.completed ProviderTurnStatus.completed = true
same_turn_status TurnStatus.interrupted ProviderTurnStatus.interrupted = true
same_turn_status TurnStatus.failed ProviderTurnStatus.failed = true
same_turn_status a b = false

unfoldable pub ended_turn : TurnRecord → ProviderTurnResult → ℕ → TurnRecord
ended_turn turn result now = record turn {
  status = as_turn_status result.status;
  completed_at = some now;
  usage = result.usage;
  error = result.error;
}

assistant_text : Option Value → Option String
assistant_text none = none
assistant_text (some usage) = extract_assistant_text_from_usage usage

-- Completed and interrupted turns enter the transcript.
with_transcript : ProviderTurnStatus → TurnRecord → ProviderTurnResult → Value → Value
unfolding assistant_text
with_transcript ProviderTurnStatus.in_progress turn result metadata = metadata
with_transcript ProviderTurnStatus.failed turn result metadata = metadata
with_transcript _ turn result metadata =
    append_text (assistant_text result.usage) "assistant"
      (append_text (extract_turn_user_text (as_array turn.input)) "user" metadata)

unfoldable pub session_after : SessionRecord → TurnRecord → ProviderTurnResult → ℕ → SessionRecord
unfolding with_transcript
session_after session turn result now = record session {
  active_turn_id = clear_active session.active_turn_id result.turn_id;
  status = ready_unless_ended session.status;
  metadata = with_transcript result.status turn result session.metadata;
  updated_at = now;
}

unfoldable pub conflicted : SessionRecord → String → ℕ → SessionRecord
conflicted session conflict now = record session {
  status = SessionStatus.failed;
  failure_code = some "terminal_conflict";
  failure_message = some conflict;
  updated_at = now;
}

unfoldable pub event_kind : ProviderTurnStatus → String
event_kind ProviderTurnStatus.completed = "turn.completed"
event_kind ProviderTurnStatus.interrupted = "turn.interrupted"
event_kind ProviderTurnStatus.failed = "turn.failed"
event_kind ProviderTurnStatus.in_progress = "turn.in_progress"

value_or_null : Option Value → PayloadItem
value_or_null none = json null
value_or_null (some v) = json v

text_or_null : Option String → PayloadItem
text_or_null none = json null
text_or_null (some s) = text s

unfoldable pub result_payload : ProviderTurnResult → Payload
unfolding value_or_null text_or_null assistant_text
result_payload result =
    ("status", text (turn_status_text (as_turn_status result.status)))
    ∷ ("usage", value_or_null result.usage)
    ∷ ("error", value_or_null result.error)
    ∷ ("assistant_text", text_or_null (assistant_text result.usage))
    ∷ []

module _ (env : Env) where
  -- The rest of an update under the lock of `sessions`: in memory, then in the store.
  unfoldable pub update_session :
      String → (SessionRecord → M SessionRecord) → Option SessionRecord → M (Unit {0})
  update_session key change none = pure tt
  update_session key change (some session) = do
    updated ← change session
    modify (insert_session key updated)
    persist env (upsert_session updated)

  unfoldable pub update_turn :
      String → (TurnRecord → M TurnRecord) → Option TurnRecord → M (Unit {0})
  update_turn key change none = pure tt
  update_turn key change (some turn) = do
    updated ← change turn
    modify (insert_turn key updated)
    persist env (upsert_turn updated)

  unfoldable pub conflict_text : TurnRecord → ProviderTurnResult → String
  conflict_text turn result =
      "conflicting terminal state for turn "
      <> (result.turn_id
          <> (" (stored="
              <> (turn_status_text turn.status
                  <> (", incoming=" <> (turn_status_text (as_turn_status result.status) <> ")")))))

  unfoldable pub fail_conflicting : TurnRecord → ProviderTurnResult → M (Unit {0})
  unfolding conflict_text
  fail_conflicting turn result = do
    session ← gets (λ w. Map.get turn.session_id w.sessions)
    update_session turn.session_id
        (λ s. do now ← now_ms env; pure (conflicted s (conflict_text turn result) now)) session

  -- A second end of a turn: the same one is ignored, another one fails the session.
  unfoldable pub second_end : TurnRecord → ProviderTurnResult → M (Unit {0})
  unfolding fail_conflicting
  second_end turn result =
      if same_turn_status turn.status result.status
      then pure tt
      else do fail_conflicting turn result; raise (protocol_violation (conflict_text turn result))

  unfoldable pub end_session : TurnRecord → ProviderTurnResult → Option SessionRecord → M (Unit {0})
  end_session turn result none = raise (not_found ("session " <> result.runtime_session_id))
  end_session turn result (some session) = do
    now ← now_ms env
    let updated = session_after session turn result now
    modify (insert_session result.runtime_session_id updated)
    persist env (upsert_session updated)

  -- What follows once the ended turn is in memory.
  unfoldable pub after_end : TurnRecord → ProviderTurnResult → M (Unit {0})
  unfolding end_session event_kind result_payload
  after_end ended result = do
    persist env (upsert_turn ended)
    session ← gets (λ w. Map.get result.runtime_session_id w.sessions)
    end_session ended result session
    session_event env result.runtime_session_id (some result.turn_id) (event_kind result.status)
        (result_payload result)
    pure tt

  unfoldable pub first_end : TurnRecord → ProviderTurnResult → M (Unit {0})
  unfolding after_end
  first_end turn result = do
    now ← now_ms env
    let ended = ended_turn turn result now
    modify (insert_turn result.turn_id ended)
    after_end ended result

  unfoldable pub apply_to_turn : ProviderTurnResult → TurnRecord → M (Unit {0})
  unfolding second_end first_end
  apply_to_turn result turn =
      if not (turn.session_id == result.runtime_session_id)
      then raise
          (protocol_violation ("provider turn ownership mismatch for turn " <> result.turn_id))
      else if is_terminal_turn_status turn.status
      then second_end turn result
      else first_end turn result

  unfoldable pub apply_to_found : ProviderTurnResult → M (Unit {0})
  apply_to_found result = do
    found ← gets (λ w. Map.get result.turn_id w.turns)
    turn ← ok_or found (not_found ("turn " <> result.turn_id))
    apply_to_turn result turn

  -- Both locks are held until the event, so other tasks run before the first read only.
  unfoldable pub apply_terminal_result : ProviderTurnResult → M (Unit {0})
  apply_terminal_result result = do others_run env; apply_to_found result

  unfoldable pub fail_turn : RuntimeError → TurnRecord → M TurnRecord
  fail_turn error turn = do
    now ← now_ms env
    pure (record turn {
      status = TurnStatus.failed;
      completed_at = some now;
      error = some (message_value (to_string error));
    })

  unfoldable pub fail_unless_ended : String → RuntimeError → Option TurnRecord → M (Unit {0})
  unfolding fail_turn
  fail_unless_ended turn_id error none = pure tt
  fail_unless_ended turn_id error (some turn) =
      if is_terminal_turn_status turn.status
      then pure tt
      else update_turn turn_id (fail_turn error) (some turn)

  unfoldable pub fail_session : String → RuntimeError → SessionRecord → M SessionRecord
  fail_session turn_id error session = do
    now ← now_ms env
    pure (record session {
      active_turn_id = clear_active session.active_turn_id turn_id;
      status = SessionStatus.failed;
      failure_code = some "provider_wait_failure";
      failure_message = some (to_string error);
      updated_at = now;
    })

  -- Under the lock of the turns.
  unfoldable pub fail_found : String → RuntimeError → M (Unit {0})
  fail_found turn_id error = do
    turn ← gets (λ w. Map.get turn_id w.turns)
    fail_unless_ended turn_id error turn

  unfoldable pub apply_terminal_failure : String → String → RuntimeError → M (Unit {0})
  unfolding fail_session
  apply_terminal_failure session_id turn_id error = do
    others_run env
    fail_found turn_id error
    others_run env
    session ← gets (λ w. Map.get session_id w.sessions)
    update_session session_id (fail_session turn_id error) session
    session_event env session_id (some turn_id) "provider.error"
        (("error", text (to_string error)) ∷ [])
    pure tt
