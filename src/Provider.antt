-- ===== src/Provider.antt =====
-- crates/runtime-core/src/provider.rs: provider kinds, the requests to an adapter and its answers.
use gooselake.Base.{String, ◌<>◌, ◌==◌, ◌||◌, Option, none, some, if◌then◌else◌}
use gooselake.Text.{trim, to_ascii_lowercase}
use gooselake.Error.{Result, ok, err, invalid_state}
use gooselake.Json.{Value, Values}
use gooselake.Records.{TurnStatus, ApprovalStatus}

pub data ProviderKind : Type 0 where
  codex claude acp : ProviderKind

unfoldable pub kind_text : ProviderKind → String
kind_text codex = "codex"
kind_text claude = "claude"
kind_text acp = "acp"

unfoldable pub kind_from_str : String → Option ProviderKind
unfolding trim to_ascii_lowercase
kind_from_str value =
    let word = to_ascii_lowercase (trim value) in
    if word == "codex"
    then some codex
    else if word == "claude"
    then some claude
    else if word == "acp"
    then some acp
    else none

pub record ProviderCreateSessionRequest : Type 0 where
  pub runtime_session_id : String
  pub model : Option String
  pub cwd : Option String
  pub permission_mode : Option String
  pub metadata : Option Value

pub record ProviderResumeSessionRequest : Type 0 where
  pub runtime_session_id : String
  pub provider_session_ref : String
  pub canonical_provider_session_ref : Option String
  pub cwd : Option String
  pub metadata : Option Value

pub record ProviderSendTurnRequest : Type 0 where
  pub runtime_session_id : String
  pub turn_id : String
  pub input : Values
  pub expected_turn_id : Option String
  pub permission_mode : Option String
  pub approval_id : Option String

pub record ProviderInterruptTurnRequest : Type 0 where
  pub runtime_session_id : String
  pub turn_id : String

pub record ProviderApprovalResponseRequest : Type 0 where
  pub runtime_session_id : String
  pub turn_id : String
  pub approval_id : String
  pub decision : String
  pub payload : Option Value

pub record ProviderCloseSessionRequest : Type 0 where
  pub runtime_session_id : String
  pub reason : Option String

pub record ProviderSession : Type 0 where
  pub runtime_session_id : String
  pub provider_session_ref : String
  pub canonical_provider_session_ref : Option String

pub record ProviderTurnAck : Type 0 where
  pub runtime_session_id : String
  pub turn_id : String

pub data ProviderTurnStatus : Type 0 where
  in_progress completed interrupted failed : ProviderTurnStatus

-- `ProviderTurnStatus::as_str`, as the turn status that the text is.
abbrev pub as_turn_status : ProviderTurnStatus → TurnStatus
as_turn_status ProviderTurnStatus.in_progress = TurnStatus.in_progress
as_turn_status ProviderTurnStatus.completed = TurnStatus.completed
as_turn_status ProviderTurnStatus.interrupted = TurnStatus.interrupted
as_turn_status ProviderTurnStatus.failed = TurnStatus.failed

pub record ProviderTurnResult : Type 0 where
  pub runtime_session_id : String
  pub turn_id : String
  pub status : ProviderTurnStatus
  pub usage : Option Value
  pub error : Option Value

pub data ApprovalDecision : Type 0 where
  accept decline : ApprovalDecision

unfoldable pub parse_decision : String → Result ApprovalDecision
unfolding trim to_ascii_lowercase
parse_decision value =
    let word = to_ascii_lowercase (trim value) in
    if word == "accept" || word == "accepted"
    then ok ApprovalDecision.accept
    else if word == "decline" || word == "declined" || word == "reject" || word == "rejected"
    then ok ApprovalDecision.decline
    else err (
        invalid_state ("invalid approval decision '" <> (value <> "'; expected accept or decline")))

-- `ApprovalDecision::as_str`, as the approval status and as the text.
abbrev pub as_approval_status : ApprovalDecision → ApprovalStatus
as_approval_status ApprovalDecision.accept = ApprovalStatus.accept
as_approval_status ApprovalDecision.decline = ApprovalStatus.decline

unfoldable pub decision_text : ApprovalDecision → String
decision_text ApprovalDecision.accept = "accept"
decision_text ApprovalDecision.decline = "decline"
