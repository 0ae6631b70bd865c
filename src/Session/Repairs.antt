-- ===== src/Session/Repairs.antt =====
-- crates/runtime-core/src/runtime/recovery.rs: the records that a restart repairs, and its summary.
use gooselake.Base.{
  ℕ, suc, String, ◌<>◌, ◌==◌, Bool, true, false, not, ◌&&◌, ◌||◌, List, [], ◌∷◌, ◌++◌, Option, none,
  some, if◌then◌else◌, map,
}
use gooselake.Error.{Result, ok, err, to_string}
use gooselake.Json.{Value, obj, field, end, str, num, bool, arr, null, of_list}
use gooselake.Map
use gooselake.Map.{Map}
use gooselake.Records.{
  SessionRecord, SessionStatus, TurnRecord, TurnStatus, ApprovalRecord, ApprovalStatus,
  is_unavailable,
}
use gooselake.Provider.{ProviderKind, ProviderSession, kind_text}
use gooselake.World.{World}
use gooselake.Session.{message_value}
use gooselake.Session.Started.{ready_unless_ended}
use gooselake.Session.Approvals.{is_pending}
use gooselake.Session.Transcript.{is_terminal_turn_status}

pub record StartupRecoveryProviderStatus : Type 0 where
  pub provider : String
  pub healthy : Bool
  pub detail : Option String

pub record StartupRecoverySummary : Type 0 where
  pub started_at : ℕ
  pub completed_at : ℕ
  pub sessions_scanned : ℕ
  pub turns_scanned : ℕ
  pub approvals_scanned : ℕ
  pub sessions_reconciled : ℕ
  pub turns_reconciled : ℕ
  pub approvals_reconciled : ℕ
  pub resumed_sessions : ℕ
  pub resumed_waits : ℕ
  pub deferred_deliveries_retried : ℕ
  pub provider_status : List StartupRecoveryProviderStatus
  pub notes : List String

-- `updated_session`, `session_changed` and `summary` on the walk over a session.
pub record Recovering : Type 0 where
  pub session : SessionRecord
  pub changed : Bool
  pub summary : StartupRecoverySummary

abbrev pub set_session : SessionRecord → Recovering → Recovering
set_session s r = record r { session = s; changed = true }

unfoldable pub note : String → StartupRecoverySummary → StartupRecoverySummary
note line s = record s { notes = s.notes ++ line ∷ [] }

unfoldable pub same_text : Option String → Option String → Bool
same_text none none = true
same_text none (some b) = false
same_text (some a) none = false
same_text (some a) (some b) = a == b

unfoldable pub failed_session : SessionRecord → String → String → SessionRecord
failed_session s code message = record s {
  status = SessionStatus.failed;
  failure_code = some code;
  failure_message = some message;
  active_turn_id = none;
}

-- The adapter took the session up again: its references are kept.
unfoldable pub take_references : ProviderSession → Recovering → Recovering
unfolding same_text
take_references resumed r =
    let s = r.session in
    let changed = not (
      same_text s.provider_session_ref (some resumed.provider_session_ref)
      && same_text s.canonical_provider_session_ref resumed.canonical_provider_session_ref) in
    record {
      session = record s {
        provider_session_ref = some resumed.provider_session_ref;
        canonical_provider_session_ref = resumed.canonical_provider_session_ref;
      };
      changed = changed || r.changed;
      summary = record r.summary { resumed_sessions = suc r.summary.resumed_sessions };
    }

unfoldable pub after_resume : Result ProviderSession → Recovering → Recovering
unfolding take_references failed_session note
after_resume (ok resumed) r = take_references resumed r
after_resume (err e) r = record r {
  session = failed_session r.session "startup_provider_resume_failed" (to_string e);
  changed = true;
  summary = note ("session " <> (r.session.id <> (" marked failed: " <> to_string e))) r.summary;
}

-- `approvals_snapshot.values().any(…)`.
unfoldable pub is_awaited : String → String → ApprovalRecord → Bool
is_awaited turn_id session_id a =
    a.turn_id == turn_id && a.session_id == session_id && is_pending a.status

unfoldable pub any_awaited : String → String → List ApprovalRecord → Bool
unfolding is_awaited
any_awaited turn_id session_id [] = false
any_awaited turn_id session_id (a ∷ others) =
    is_awaited turn_id session_id a || any_awaited turn_id session_id others

unfoldable pub clear_turn : SessionRecord → SessionRecord
clear_turn s = record s { active_turn_id = none; status = ready_unless_ended s.status }

unfoldable pub is_waiting_session : SessionStatus → Bool
is_waiting_session SessionStatus.waiting_for_approval = true
is_waiting_session s = false

unfoldable pub is_waiting_turn : TurnStatus → Bool
is_waiting_turn TurnStatus.waiting_for_approval = true
is_waiting_turn s = false

-- A session that works on nothing is ready where it was running or waiting.
unfoldable pub settle_idle : SessionStatus → Recovering → Recovering
settle_idle SessionStatus.turn_running r =
    set_session (record r.session { status = SessionStatus.ready }) r
settle_idle SessionStatus.waiting_for_approval r =
    set_session (record r.session { status = SessionStatus.ready }) r
settle_idle s r = r

unfoldable pub settle_missing : String → Recovering → Recovering
unfolding clear_turn note
settle_missing turn_id r = record (set_session (clear_turn r.session) r) {
  summary =
      note ("session " <> (r.session.id <> (" cleared stale active turn " <> turn_id))) r.summary;
}

unfoldable pub settle_foreign : TurnRecord → Recovering → Recovering
unfolding failed_session
settle_foreign turn r =
    set_session
      (failed_session r.session "startup_turn_ownership_mismatch"
        ("turn " <> (turn.id <> (" belongs to " <> turn.session_id))))
      r

unfoldable pub settle_awaited : Recovering → Recovering
unfolding is_waiting_session
settle_awaited r =
    if is_waiting_session r.session.status
    then r
    else set_session (record r.session { status = SessionStatus.waiting_for_approval }) r

unfoldable pub repaired_turn : TurnRecord → ℕ → TurnRecord
repaired_turn turn at = record turn {
  status = TurnStatus.failed;
  completed_at = some at;
  error = some (message_value "startup recovery: missing pending approval");
}

-- "closed" and "failed" stay; every other status becomes "turn_running".
abbrev pub running_unless_ended : SessionStatus → SessionStatus
running_unless_ended s = if is_unavailable s then s else SessionStatus.turn_running

unfoldable pub health : ProviderKind → Result (Unit {0}) → StartupRecoveryProviderStatus
health kind (ok u) = record { provider = kind_text kind; healthy = true; detail = none }
health kind (err e) = record {
  provider = kind_text kind;
  healthy = false;
  detail = some (to_string e);
}

abbrev pub insert_approval : String → ApprovalRecord → World → World
insert_approval key a w = record w { approvals = Map.insert key a w.approvals }

unfoldable pub declined : ApprovalRecord → ℕ → ApprovalRecord
declined a at = record a {
  status = ApprovalStatus.decline;
  resolved_at = some at;
  response = some (obj (field "reason" (str "startup_recovery_orphaned_approval") end));
}

-- The turn of the approval is missing or has ended.
unfoldable pub is_orphaned : Option TurnRecord → Bool
is_orphaned none = true
is_orphaned (some turn) = is_terminal_turn_status turn.status

-- The summary as JSON, by the derived `Serialize`.
text_or_null : Option String → Value
text_or_null none = null
text_or_null (some s) = str s

health_value : StartupRecoveryProviderStatus → Value
unfolding text_or_null
health_value s = obj (
    field "provider" (str s.provider)
      (field "healthy" (bool s.healthy) (field "detail" (text_or_null s.detail) end)))

unfoldable pub summary_value : StartupRecoverySummary → Value
unfolding health_value
summary_value s = obj (
    field "started_at" (num s.started_at) (
      field "completed_at" (num s.completed_at) (
        field "sessions_scanned" (num s.sessions_scanned) (
          field "turns_scanned" (num s.turns_scanned) (
            field "approvals_scanned" (num s.approvals_scanned) (
              field "sessions_reconciled" (num s.sessions_reconciled) (
                field "turns_reconciled" (num s.turns_reconciled) (
                  field "approvals_reconciled" (num s.approvals_reconciled) (
                    field "resumed_sessions" (num s.resumed_sessions) (
                      field "resumed_waits" (num s.resumed_waits) (
                        field "deferred_deliveries_retried" (num s.deferred_deliveries_retried) (
                          field "provider_status"
                            (arr (of_list (map health_value s.provider_status)))
                            (field "notes" (arr (of_list (map str s.notes))) end)))))))))))))
