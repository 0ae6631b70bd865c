-- ===== src/Records.antt =====
-- crates/runtime-core/src/state.rs: the records that the services keep and the store holds. Times
-- are `i64` milliseconds since 1970 in the source and natural numbers here. A status column is one
-- of the words below; any other text, which only a foreign database row can bring, is `other`.
use gooselake.Base.{ℕ, String, Bool, true, false, Option}
use gooselake.Json.{Value}

pub data SessionStatus : Type 0 where
  ready turn_running waiting_for_approval closed failed : SessionStatus
  other : String → SessionStatus

pub data TurnStatus : Type 0 where
  in_progress waiting_for_approval completed interrupted failed : TurnStatus
  other : String → TurnStatus

pub data ApprovalStatus : Type 0 where
  pending accept decline : ApprovalStatus
  other : String → ApprovalStatus

pub data DeliveryStatus : Type 0 where
  pending deferred injecting injected failed cancelled : DeliveryStatus
  other : String → DeliveryStatus

pub data RuntimeEventScope : Type 0 where
  session team process worktree system : RuntimeEventScope

pub data RuntimeEventCriticality : Type 0 where
  critical droppable : RuntimeEventCriticality

pub record SessionRecord : Type 0 where
  pub id : String
  pub provider : String
  pub status : SessionStatus
  pub cwd : Option String
  pub model : Option String
  pub permission_mode : Option String
  pub system_prompt : Option String
  pub metadata : Value
  pub provider_session_ref : Option String
  pub canonical_provider_session_ref : Option String
  pub active_turn_id : Option String
  pub worktree_id : Option String
  pub created_at : ℕ
  pub updated_at : ℕ
  pub closed_at : Option ℕ
  pub failure_code : Option String
  pub failure_message : Option String

pub record TurnRecord : Type 0 where
  pub id : String
  pub session_id : String
  pub provider_turn_ref : Option String
  pub status : TurnStatus
  pub input : Value
  pub source : Option String
  pub started_at : Option ℕ
  pub completed_at : Option ℕ
  pub usage : Option Value
  pub error : Option Value

pub record ApprovalRecord : Type 0 where
  pub id : String
  pub session_id : String
  pub turn_id : String
  pub tool_call_id : Option String
  pub provider_approval_ref : Option String
  pub status : ApprovalStatus
  pub request : Value
  pub response : Option Value
  pub created_at : ℕ
  pub resolved_at : Option ℕ

pub data ProcessStatus : Type 0 where
  queued running completed failed timed_out killed : ProcessStatus
  other : String → ProcessStatus

-- `timeout_ms` is an `i64` that holds the bits of the `u64` that was asked for: here it is the `u64`.
pub record ProcessRecord : Type 0 where
  pub id : String
  pub session_id : Option String
  pub tool_call_id : Option String
  pub pid : Option ℕ
  pub command : Value
  pub cwd : Option String
  pub status : ProcessStatus
  pub exit_code : Option ℕ
  pub signal : Option ℕ
  pub stdout_path : Option String
  pub stderr_path : Option String
  pub started_at : ℕ
  pub ended_at : Option ℕ
  pub timeout_ms : Option ℕ

pub record TeamRecord : Type 0 where
  pub id : String
  pub name : String
  pub lead_agent_id : String
  pub created_by : String
  pub created_at : ℕ
  pub updated_at : ℕ
  pub deleted_at : Option ℕ

pub record TeamMemberRecord : Type 0 where
  pub team_id : String
  pub agent_id : String
  pub title : Option String
  pub joined_at : ℕ
  pub added_by : String
  pub creator_agent_id : Option String
  pub creator_compaction_subscription : String
  pub worktree_id : Option String

pub record TeamMessageRecord : Type 0 where
  pub id : String
  pub team_id : String
  pub scope : String
  pub sender_agent_id : String
  pub recipient_agent_ids : Value
  pub input : Value
  pub image_paths : Value
  pub priority : String
  pub policy : String
  pub correlation_id : Option String
  pub reply_to_message_id : Option String
  pub idempotency_key : Option String
  pub created_at : ℕ

pub record TeamDeliveryRecord : Type 0 where
  pub id : String
  pub message_id : String
  pub team_id : String
  pub recipient_agent_id : String
  pub provider : String
  pub status : DeliveryStatus
  pub effective_policy : Option String
  pub injection_strategy : Option String
  pub injected_turn_id : Option String
  pub last_error_code : Option String
  pub last_error_message : Option String
  pub created_at : ℕ
  pub updated_at : ℕ

-- `status.as_str()`.
unfoldable pub session_status_text : SessionStatus → String
session_status_text SessionStatus.ready = "ready"
session_status_text SessionStatus.turn_running = "turn_running"
session_status_text SessionStatus.waiting_for_approval = "waiting_for_approval"
session_status_text SessionStatus.closed = "closed"
session_status_text SessionStatus.failed = "failed"
session_status_text (SessionStatus.other s) = s

unfoldable pub turn_status_text : TurnStatus → String
turn_status_text TurnStatus.in_progress = "in_progress"
turn_status_text TurnStatus.waiting_for_approval = "waiting_for_approval"
turn_status_text TurnStatus.completed = "completed"
turn_status_text TurnStatus.interrupted = "interrupted"
turn_status_text TurnStatus.failed = "failed"
turn_status_text (TurnStatus.other s) = s

unfoldable pub delivery_status_text : DeliveryStatus → String
delivery_status_text DeliveryStatus.pending = "pending"
delivery_status_text DeliveryStatus.deferred = "deferred"
delivery_status_text DeliveryStatus.injecting = "injecting"
delivery_status_text DeliveryStatus.injected = "injected"
delivery_status_text DeliveryStatus.failed = "failed"
delivery_status_text DeliveryStatus.cancelled = "cancelled"
delivery_status_text (DeliveryStatus.other s) = s

pub record ManagedWorktreeRecord : Type 0 where
  pub id : String
  pub repo_root : String
  pub worktree_root : String
  pub worktree_cwd : String
  pub branch_name : String
  pub worktree_name : String
  pub unified_workspace_path : String
  pub deletion_policy : String
  pub created_by_session_id : Option String
  pub created_by_operation_id : Option String
  pub created_at : ℕ
  pub updated_at : ℕ

pub record ManagedWorktreeClaimRecord : Type 0 where
  pub worktree_id : String
  pub session_id : String
  pub claim_role : String
  pub created_at : ℕ
  pub released_at : Option ℕ

pub record TeamOperationDiagnosticRecord : Type 0 where
  pub id : ℕ
  pub operation_id : Option String
  pub team_id : Option String
  pub code : String
  pub message : String
  pub payload : Value
  pub created_at : ℕ

unfoldable pub scope_text : RuntimeEventScope → String
scope_text RuntimeEventScope.session = "session"
scope_text RuntimeEventScope.team = "team"
scope_text RuntimeEventScope.process = "process"
scope_text RuntimeEventScope.worktree = "worktree"
scope_text RuntimeEventScope.system = "system"

-- `matches!(status, "closed" | "failed")`.
abbrev pub is_unavailable : SessionStatus → Bool
is_unavailable SessionStatus.closed = true
is_unavailable SessionStatus.failed = true
is_unavailable s = false
