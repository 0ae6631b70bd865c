-- ===== src/Session/Started.antt =====
-- crates/runtime-core/src/runtime/turns.rs: the records of a turn that starts.
use gooselake.Base.{ℕ, String, ◌==◌, Bool, true, false, Option, none, some, if◌then◌else◌, ◌∷◌}
use gooselake.Error.{RuntimeError, to_string}
use gooselake.Json.{Value, Values, arr, obj, field, str, end}
use gooselake.Records.{
  SessionRecord, SessionStatus, TurnRecord, TurnStatus, ApprovalRecord, ApprovalStatus,
}
use gooselake.Provider.{ProviderKind}
use gooselake.World.{M, modify}
use gooselake.Session.{message_value}

pub record SendTurnInput : Type 0 where
  pub input : Values
  pub expected_turn_id : Option String
  pub permission_mode : Option String

pub record ApprovalResponseInput : Type 0 where
  pub decision : String
  pub payload : Option Value

pub record SendTurnAccepted : Type 0 where
  pub session_id : String
  pub turn_id : String
  pub status : TurnStatus

-- `active.as_deref() == Some(turn_id)`.
abbrev pub is_active : Option String → String → Bool
is_active none turn_id = false
is_active (some t) turn_id = t == turn_id

-- "closed" and "failed" stay; every other status becomes "ready".
abbrev pub ready_unless_ended : SessionStatus → SessionStatus
ready_unless_ended SessionStatus.closed = SessionStatus.closed
ready_unless_ended SessionStatus.failed = SessionStatus.failed
ready_unless_ended s = SessionStatus.ready

abbrev pub clear_active : Option String → String → Option String
clear_active active turn_id = if is_active active turn_id then none else active

unfoldable pub spawn_wait_for_turn : ProviderKind → String → String → M (Unit {0})
spawn_wait_for_turn kind session_id turn_id = modify (λ w. record w {
  waits = record { provider = kind; session_id = session_id; turn_id = turn_id } ∷ w.waits;
})

unfoldable pub turn_started : Bool → TurnStatus
turn_started true = TurnStatus.waiting_for_approval
turn_started false = TurnStatus.in_progress

unfoldable pub session_started : Bool → SessionStatus
session_started true = SessionStatus.waiting_for_approval
session_started false = SessionStatus.turn_running

unfoldable pub new_turn : String → String → SendTurnInput → ℕ → Bool → TurnRecord
unfolding turn_started
new_turn session_id turn_id input now requires_approval = record {
  id = turn_id;
  session_id = session_id;
  provider_turn_ref = none;
  status = turn_started requires_approval;
  input = arr input.input;
  source = some "user";
  started_at = some now;
  completed_at = none;
  usage = none;
  error = none;
}

unfoldable pub running_session : SessionRecord → String → ℕ → Bool → SessionRecord
unfolding session_started
running_session session turn_id now requires_approval = record session {
  status = session_started requires_approval;
  active_turn_id = some turn_id;
  updated_at = now;
}

unfoldable pub failed_turn : String → String → SendTurnInput → ℕ → ℕ → RuntimeError → TurnRecord
failed_turn session_id turn_id input now completed error = record {
  id = turn_id;
  session_id = session_id;
  provider_turn_ref = none;
  status = TurnStatus.failed;
  input = arr input.input;
  source = some "user";
  started_at = some now;
  completed_at = some completed;
  usage = none;
  error = some (message_value (to_string error));
}

unfoldable pub new_approval : String → String → String → ℕ → ApprovalRecord
new_approval approval_id session_id turn_id now = record {
  id = approval_id;
  session_id = session_id;
  turn_id = turn_id;
  tool_call_id = none;
  provider_approval_ref = some approval_id;
  status = ApprovalStatus.pending;
  request = obj (field "reason" (str "manual approval required before provider execution") end);
  response = none;
  created_at = now;
  resolved_at = none;
}
