-- ===== src/Examples.antt =====
-- A small state: two sessions, one team of two, and the messages that they send.
pub mod Teams
pub mod Sessions
pub mod Processes
pub mod Restarts
pub mod Worktrees
use gooselake.Base.{
  suc, String, true, false, ◌≡◌, refl, inr, List, [], ◌∷◌, none, some, ◌⊎◌, ◌↔◌, if◌then◌else◌,
}
use gooselake.Error.{ok, RuntimeError, ok, err, invalid_state, unsupported, io}
use gooselake.Text.{trim, to_ascii_lowercase}
use gooselake.Json.{null, arr, nil}
use gooselake.Map
use gooselake.Records.{
  SessionRecord, SessionStatus, TeamRecord, TeamMemberRecord, TeamMessageRecord, TeamDeliveryRecord,
  DeliveryStatus, delivery_status_text, is_unavailable, TurnRecord, TurnStatus, RuntimeEventScope,
  RuntimeEventCriticality,
}
use gooselake.Session.Started.{SendTurnAccepted, SendTurnInput}
use gooselake.Session.Lifecycle.{ResumeSessionInput}
use gooselake.World.{World, TeamCommsState, Env}
use gooselake.Team.Apart.{Quiet, SameSessions}
use gooselake.Provider.{ProviderTurnResult, ProviderTurnStatus, as_turn_status}
use gooselake.Records.{TurnRecord, TurnStatus, RuntimeEventScope, RuntimeEventCriticality}
use gooselake.Store.{
  NewRuntimeEvent, find_event, append_runtime_event, list_runtime_events, max_seq,
}
use gooselake.Store.EventLog.{append_runtime_event-again, list_runtime_events-next}
use gooselake.Session.Transcript.{is_terminal_turn_status}
use gooselake.Session.Results.{apply_terminal_result, apply_terminal_failure}
use gooselake.Session.Results.Ended.{KeepsEnded, same_turns, terminal-KeepsEnded}
use gooselake.Session.Results.Twice.{apply_terminal_result-twice}
use gooselake.Team.Control.{cancel_stored}
use gooselake.Team.Control.Cancel.{AllWaiting, is_in, cancelled_if_there, cancel_stored-atomic}
use gooselake.Team.Transition.{queue, first_blocker, find_recipient_queue_blocker}
use gooselake.Team.Delivery.{inject_delivery, resume_deferred_for_recipient}
use gooselake.Team.Roster.{TeamCreateRequest, TeamJoinRequest}
use gooselake.Team.Members.{create_team, join_team, remove_team_member, set_team_lead}
use gooselake.Team.Control.{delete_team}
use gooselake.Team.Members.Leads.{StaysLed}
use gooselake.Team.Members.Leadership.{members-StaysLed}
use gooselake.Team.Drafts.{Draft, Header, TeamMessageAck, existing}
use gooselake.Team.Messages.{find_or_enter}
use gooselake.Team.Messages.Resend.{find_or_enter-again}
use gooselake.Team.Helpers.{is_attemptable, is_terminal_status, normalize_policy}
use gooselake.Team.Delivery.Attempts.{inject-Follows}
use gooselake.Team.Delivery.Calm.{status_of}
use gooselake.Team.Delivery.Fifo.{AllEnded, first_blocker-none_iff, inject-blocked}
use gooselake.Team.Delivery.Gone.{inject-gone}
use gooselake.Team.Delivery.Routes.{Follows, Follows-order}

-- No other task runs, the store never fails, and every adapter refuses.
abbrev pub calm : Env
calm = record {
  clock = λ n. n;
  registered = λ k. true;
  create_session = λ n k r. err (unsupported "create_session");
  resume_session = λ n k r. err (unsupported "resume_session");
  send_turn = λ n k r. err (unsupported "send_turn");
  interrupt_turn = λ n k r. err (unsupported "interrupt_turn");
  respond_approval = λ n k r. err (unsupported "respond_approval");
  close_session = λ n k r. err (unsupported "close_session");
  metadata = [];
  healthcheck = λ n k. ok tt;
  store_fault = λ n. none;
  others = λ n w. w;
  enabled = true;
  max_pending_deliveries = 8;
  event_id_nonce = "n";
  git = λ n repo args. ok (record {
    success = true;
    exit_code = some 0;
    status = "exit status: 0";
    stdout = "";
    stderr = "";
  });
  exists = λ n path. false;
  create_dir_all = λ n path. ok tt;
  run_script = λ n command cwd. err (io "failed to run worktree init script: none");
  worktrees = record {
    enabled = true;
    root_dir = "/w";
    init_script_path = "init.sh";
    deletion_policy_default = "retain_on_last_claim";
  };
}

abbrev pub calm-Quiet : Quiet calm
calm-Quiet n w = refl

abbrev pub session_of : String → SessionStatus → SessionRecord
session_of id status = record {
  id = id;
  provider = "codex";
  status = status;
  cwd = none;
  model = none;
  permission_mode = none;
  system_prompt = none;
  metadata = null;
  provider_session_ref = none;
  canonical_provider_session_ref = none;
  active_turn_id = none;
  worktree_id = none;
  created_at = 1;
  updated_at = 1;
  closed_at = none;
  failure_code = none;
  failure_message = none;
}

abbrev pub team : TeamRecord
team = record {
  id = "team_1";
  name = "pair";
  lead_agent_id = "ses_a";
  created_by = "user";
  created_at = 1;
  updated_at = 1;
  deleted_at = none;
}

abbrev pub member_of : String → TeamMemberRecord
member_of id = record {
  team_id = "team_1";
  agent_id = id;
  title = none;
  joined_at = 1;
  added_by = "user";
  creator_agent_id = none;
  creator_compaction_subscription = "auto";
  worktree_id = none;
}

abbrev pub hello : TeamMessageRecord
hello = record {
  id = "msg_1";
  team_id = "team_1";
  scope = "direct";
  sender_agent_id = "ses_a";
  recipient_agent_ids = arr nil;
  input = arr nil;
  image_paths = arr nil;
  priority = "normal";
  policy = "non_interrupting";
  correlation_id = none;
  reply_to_message_id = none;
  idempotency_key = none;
  created_at = 2;
}

abbrev pub delivery_of : String → DeliveryStatus → TeamDeliveryRecord
delivery_of id status = record {
  id = id;
  message_id = "msg_1";
  team_id = "team_1";
  recipient_agent_id = "ses_b";
  provider = "codex";
  status = status;
  effective_policy = none;
  injection_strategy = none;
  injected_turn_id = none;
  last_error_code = none;
  last_error_message = none;
  created_at = 2;
  updated_at = 2;
}

-- Two deliveries wait for `ses_b`.
abbrev pub comms : TeamCommsState
comms = record {
  teams = ("team_1", team) ∷ [];
  members_by_team =
      ("team_1", ("ses_a", member_of "ses_a") ∷ ("ses_b", member_of "ses_b") ∷ []) ∷ [];
  messages = ("msg_1", hello) ∷ [];
  deliveries =
      ("dlv_1", delivery_of "dlv_1" DeliveryStatus.deferred)
      ∷ ("dlv_2", delivery_of "dlv_2" DeliveryStatus.pending)
      ∷ [];
  team_message_ids = ("team_1", "msg_1" ∷ []) ∷ [];
  team_delivery_ids = ("team_1", "dlv_1" ∷ "dlv_2" ∷ []) ∷ [];
  message_delivery_ids = ("msg_1", "dlv_1" ∷ "dlv_2" ∷ []) ∷ [];
  recipient_delivery_ids = ("ses_b", "dlv_1" ∷ "dlv_2" ∷ []) ∷ [];
  idempotency_index = [];
}

abbrev pub world : World
world = record {
  sessions =
      ("ses_a", session_of "ses_a" SessionStatus.ready)
      ∷ ("ses_b", session_of "ses_b" SessionStatus.closed)
      ∷ [];
  turns = [];
  approvals = [];
  next_id = 1;
  waits = [];
  comms = comms;
  next_team_id = 2;
  next_message_id = 2;
  next_delivery_id = 3;
  next_event_id = 1;
  next_worktree_id = 1;
  next_worktree_event_id = 1;
  git_calls = [];
  store = record {
    sessions = [];
    turns = [];
    approvals = [];
    teams = [];
    team_members = [];
    team_messages = [];
    team_deliveries = [];
    processes = [];
    managed_worktrees = [];
    managed_worktree_claims = [];
    team_operation_diagnostics = [];
    events = [];
  };
  tick = 0;
}

abbrev pub draft : Draft
draft = record {
  team_id = "team_1";
  scope = "direct";
  sender_agent_id = "ses_a";
  recipient_agent_ids = "ses_b" ∷ [];
  input = arr nil;
  image_paths = [];
  priority = "normal";
  policy = "non_interrupting";
  correlation_id = none;
  reply_to_message_id = none;
  idempotency_key = some "key";
}

abbrev pub header : Header
header = record {
  scope = "direct";
  priority = "normal";
  policy = "non_interrupting";
  sender = "ses_a";
  key = some "key";
}

abbrev pub new_team : TeamCreateRequest
new_team = record {
  name = "pair";
  lead_agent_id = "ses_a";
  member_agent_ids = [];
  created_by = none;
}

abbrev pub joining : TeamJoinRequest
joining = record {
  team_id = "team_1";
  agent_id = "ses_a";
  title = none;
  added_by = none;
  creator_agent_id = none;
  creator_compaction_subscription = none;
  worktree_id = none;
}

abbrev pub running : TurnRecord
running = record {
  id = "turn_1";
  session_id = "ses_a";
  provider_turn_ref = none;
  status = TurnStatus.in_progress;
  input = arr nil;
  source = some "user";
  started_at = some 3;
  completed_at = none;
  usage = none;
  error = none;
}

-- `ses_a` works on a turn.
abbrev pub busy : World
busy = record world {
  turns = ("turn_1", running) ∷ [];
  sessions =
      (
        "ses_a",
        record (session_of "ses_a" SessionStatus.turn_running) { active_turn_id = some "turn_1" },
      )
      ∷ [];
}

abbrev pub finished : ProviderTurnResult
finished = record {
  runtime_session_id = "ses_a";
  turn_id = "turn_1";
  status = ProviderTurnStatus.completed;
  usage = none;
  error = none;
}

abbrev pub started : NewRuntimeEvent
started = record {
  event_id = "evt_1";
  scope = RuntimeEventScope.session;
  scope_id = "ses_a";
  session_id = some "ses_a";
  team_id = none;
  turn_id = some "turn_1";
  kind = "turn.started";
  criticality = RuntimeEventCriticality.critical;
  payload = [];
  created_at = 3;
}

-- As `calm`, with an adapter that accepts every turn.
abbrev pub obliging : Env
obliging = record calm {
  send_turn =
      λ n k r. ok (record { runtime_session_id = r.runtime_session_id; turn_id = r.turn_id });
}

abbrev pub accepted : SendTurnAccepted
accepted = record {
  session_id = "ses_a";
  turn_id = "turn_codex_1_1";
  status = TurnStatus.in_progress;
}

abbrev pub asking : SendTurnInput
asking = record { input = nil; expected_turn_id = none; permission_mode = none }

abbrev pub resuming : ResumeSessionInput
resuming = record { provider_session_ref = some "ref"; canonical_provider_session_ref = none }
