-- ===== src/Process/Details.antt =====
-- crates/runtime-tools/src/process.rs: what is told of the processes, and the removal of those that
-- ended long ago.
pub mod Visible
pub mod Listed
use gooselake.Base.{
  ℕ, ◌-◌, String, ◌<>◌, ◌==◌, Bool, true, false, not, ◌&&◌, ◌||◌, List, [], ◌∷◌, Option, none, some,
  leb, eqb, if◌then◌else◌,
}
use gooselake.Text.{decimal}
use gooselake.Error.{not_found}
use gooselake.Json.{Value}
use gooselake.Map
use gooselake.Map.{Map}
use gooselake.Records.{ProcessRecord, ProcessStatus, RuntimeEventScope}
use gooselake.Store.{RuntimeEventRecord, list_runtime_events}
use gooselake.Process.{
  ManagedProcess, ProcessEnv, M, pure, gets, ok_or, lift, modify, ◌>>=◌, ◌>>◌, others_run, now_ms,
  contains, is_ended, process_from_id, ensure_ownership,
}

pub record ProcessSummary : Type 0 where
  pub process_id : String
  pub session_id : Option String
  pub pid : Option ℕ
  pub status : ProcessStatus
  pub command : Value
  pub cwd : Option String
  pub started_at : ℕ
  pub ended_at : Option ℕ

pub record ProcessDetails : Type 0 where
  pub process : ProcessSummary
  pub exit_code : Option ℕ
  pub signal : Option ℕ
  pub timeout_ms : Option ℕ
  pub stdout_path : Option String
  pub stderr_path : Option String
  pub stdout_bytes : ℕ
  pub stderr_bytes : ℕ
  pub stdout_truncated : Bool
  pub stderr_truncated : Bool

unfoldable pub summary_of : ProcessRecord → ProcessSummary
summary_of r = record {
  process_id = r.id;
  session_id = r.session_id;
  pid = r.pid;
  status = r.status;
  command = r.command;
  cwd = r.cwd;
  started_at = r.started_at;
  ended_at = r.ended_at;
}

unfoldable pub detail_from_process : ManagedProcess → ProcessDetails
unfolding summary_of
detail_from_process p = record {
  process = summary_of p.row;
  exit_code = p.row.exit_code;
  signal = p.row.signal;
  timeout_ms = p.row.timeout_ms;
  stdout_path = p.row.stdout_path;
  stderr_path = p.row.stderr_path;
  stdout_bytes = p.stdout_bytes;
  stderr_bytes = p.stderr_bytes;
  stdout_truncated = p.stdout_truncated;
  stderr_truncated = p.stderr_truncated;
}

-- The objects that the map of processes leads to, in its order.
unfoldable pub with_object : Option ManagedProcess → List ManagedProcess → List ManagedProcess
with_object none ps = ps
with_object (some p) ps = p ∷ ps

unfoldable pub objects_at : List String → Map ManagedProcess → List ManagedProcess
unfolding with_object
objects_at [] objects = []
objects_at (id ∷ ids) objects = with_object (Map.get id objects) (objects_at ids objects)

-- An ended process is expired once `retention` milliseconds have gone by since its end.
unfoldable ended_before : ℕ → ℕ → Option ℕ → Bool
ended_before now retention none = false
ended_before now retention (some ended_at) = leb retention (now - ended_at)

unfoldable is_expired : ℕ → ℕ → ManagedProcess → Bool
unfolding ended_before
is_expired now retention p = is_ended p.row.status && ended_before now retention p.row.ended_at

unfoldable expired_ids : ℕ → ℕ → List ManagedProcess → List String
unfolding is_expired
expired_ids now retention [] = []
expired_ids now retention (p ∷ ps) =
    let rest = expired_ids now retention ps in
    if is_expired now retention p then p.row.id ∷ rest else rest

unfoldable pub without : List String → List String → List String
unfolding contains
without gone [] = []
without gone (id ∷ ids) =
    let rest = without gone ids in if contains id gone then rest else id ∷ rest

-- The row is passed over where a caller is named and it is not the caller's.
unfoldable pub is_callers : Option String → Option String → Bool
is_callers none session_id = true
is_callers (some caller) none = false
is_callers (some caller) (some session_id) = session_id == caller

-- "completed", "failed", "timed_out" and "killed".
unfoldable pub is_completed : ProcessStatus → Bool
is_completed ProcessStatus.completed = true
is_completed ProcessStatus.failed = true
is_completed ProcessStatus.timed_out = true
is_completed ProcessStatus.killed = true
is_completed s = false

unfoldable pub is_listed : Option String → Bool → ManagedProcess → Bool
unfolding is_callers is_completed
is_listed caller include_completed p =
    is_callers caller p.row.session_id && (include_completed || not (is_completed p.row.status))

unfoldable pub listed : Option String → Bool → List ManagedProcess → List ProcessSummary
unfolding is_listed summary_of
listed caller include_completed [] = []
listed caller include_completed (p ∷ ps) =
    let rest = listed caller include_completed ps in
    if is_listed caller include_completed p then summary_of p.row ∷ rest else rest

-- `rows.sort_by(|left, right| right.started_at.cmp(&left.started_at))`, which keeps the order of
-- rows with the same start.
unfoldable pub insert_row : ProcessSummary → List ProcessSummary → List ProcessSummary
insert_row r [] = r ∷ []
insert_row r (x ∷ xs) = if leb x.started_at r.started_at then r ∷ x ∷ xs else x ∷ insert_row r xs

unfoldable pub sort_rows : List ProcessSummary → List ProcessSummary
unfolding insert_row
sort_rows [] = []
sort_rows (r ∷ rs) = insert_row r (sort_rows rs)

pub record ProcessListRequest : Type 0 where
  pub caller_session_id : Option String
  pub include_completed : Bool

record ProcessGetRequest : Type 0 where
  pub process_id : String
  pub caller_session_id : Option String

has_pid : ℕ → Option ℕ → Bool
has_pid pid none = false
has_pid pid (some n) = eqb n pid

unfoldable find_pid : ℕ → List ManagedProcess → Option ManagedProcess
unfolding has_pid
find_pid pid [] = none
find_pid pid (p ∷ ps) = if has_pid pid p.row.pid then some p else find_pid pid ps

module _ (env : ProcessEnv) where
  unfoldable pub cleanup_expired_terminal : M (Unit {0})
  unfolding objects_at expired_ids without
  cleanup_expired_terminal = do
    retention ← gets (λ m. m.config.completed_retention_ms)
    if eqb retention 0 then pure tt else (do
      now ← now_ms env
      others_run env
      ids ← gets (λ m. expired_ids now retention (objects_at m.processes m.objects))
      others_run env
      modify (λ m. record m { processes = without ids m.processes }))

  unfoldable pub list_processes : ProcessListRequest → M (List ProcessSummary)
  unfolding listed sort_rows
  list_processes request = do
    cleanup_expired_terminal
    others_run env
    gets (λ m. sort_rows (
        listed request.caller_session_id request.include_completed
          (objects_at m.processes m.objects)))

  unfoldable get_process : ProcessGetRequest → M ProcessDetails
  get_process request = do
    p ← process_from_id env request.process_id
    ensure_ownership p request.caller_session_id
    pure (detail_from_process p)

  unfoldable process_id_from_pid : ℕ → M String
  unfolding find_pid
  process_id_from_pid pid = do
    others_run env
    p ← gets (λ m. find_pid pid (objects_at m.processes m.objects))
    process ← ok_or p (not_found ("process pid " <> decimal pid))
    pure process.row.id

  -- The events of a process, for a caller that owns it.
  unfoldable replay_events : String → Option String → Option ℕ → ℕ → M (List RuntimeEventRecord)
  replay_events process_id caller after_seq limit = do
    p ← process_from_id env process_id
    ensure_ownership p caller
    events ← gets (λ m.
        list_runtime_events (some (RuntimeEventScope.process, process_id)) after_seq
          (if leb limit 1 then 1 else limit) m.store)
    lift events
