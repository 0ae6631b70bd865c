-- ===== src/Process/Start.antt =====
-- crates/runtime-tools/src/process.rs, `run_process`: a process is started. Each function is what
-- happens between two points where other tasks may run, or the call that is made of them.
use gooselake.Base.{
  ℕ, suc, ◌+◌, ◌%◌, String, ◌<>◌, Bool, List, [], ◌∷◌, ◌⊎◌, inl, inr, Option, none, some,
  if◌then◌else◌, unwrap_or,
}
use gooselake.Text.{decimal, trim, is_empty}
use gooselake.Text.Words.{split_whitespace}
use gooselake.Error.{Result, ok, err, unsupported, invalid_state, io}
use gooselake.Json.{obj, field, end, str}
use gooselake.Records.{ProcessRecord, ProcessStatus, RuntimeEventCriticality}
use gooselake.Store.{json, text}
use gooselake.World.{u64_mod}
use gooselake.Process.{
  Child, managed, Task, ProcessEnv, M, pure, raise, gets, attempt, modify, ◌>>=◌, ◌>>◌, others_run,
  now_ms, persist, append_process_event, put_object, process_from_id,
}
use gooselake.Process.Details.{ProcessDetails, detail_from_process}
use gooselake.Process.Tasks.{
  num_or_null, text_or_null, take_permit, drop_permit, add_task, move_task,
}

pub record ProcessRunRequest : Type 0 where
  pub caller_session_id : Option String
  pub tool_call_id : Option String
  pub command : String
  pub cwd : Option String
  pub timeout_ms : Option ℕ

-- `next_process_id.fetch_add(1)`.
unfoldable pub take_process_id : M ℕ
take_process_id m =
    (ok m.next_process_id, record m { next_process_id = (m.next_process_id + 1) % u64_mod })

-- The request's directory, trimmed, unless nothing is left.
trimmed_cwd : Option String → Option String
trimmed_cwd none = none
trimmed_cwd (some cwd) = if is_empty (trim cwd) then none else some (trim cwd)

-- The words of the command line: the shell's, or those of the command.
unfoldable pub command_line : Bool → String → List String
command_line allow_shell command =
    if allow_shell then "sh" ∷ "-lc" ∷ command ∷ [] else split_whitespace command

log_path : String → String → String → String
log_path log_dir id suffix = log_dir <> ("/" <> (id <> suffix))

unfoldable pub new_process : ProcessRunRequest → String → String → ℕ → ℕ → Child → ProcessRecord
unfolding trimmed_cwd log_path
new_process request id log_dir default_timeout started_at child = record {
  id = id;
  session_id = request.caller_session_id;
  tool_call_id = request.tool_call_id;
  pid = child.pid;
  command = obj (field "command" (str (trim request.command)) end);
  cwd = trimmed_cwd request.cwd;
  status = ProcessStatus.running;
  exit_code = none;
  signal = none;
  stdout_path = some (log_path log_dir id ".stdout.log");
  stderr_path = some (log_path log_dir id ".stderr.log");
  started_at = started_at;
  ended_at = none;
  timeout_ms = some (unwrap_or request.timeout_ms default_timeout);
}

module _ (env : ProcessEnv) where
  unfoldable pub spawned : String → String ⊎ Child → M Child
  spawned id (inl error) = raise (io ("failed to spawn process: " <> error))
  spawned id (inr child) = pure child

  -- `proc.spawn()`, which does not wait.
  unfoldable pub ask_spawn : List String → Option String → M (String ⊎ Child)
  ask_spawn words cwd m = (ok (env.spawn m.tick words cwd), record m { tick = suc m.tick })

  unfoldable pub spawn_child : List String → Option String → M Child
  unfolding spawned ask_spawn
  spawn_child [] cwd = raise (invalid_state "command cannot be empty")
  spawn_child (executable ∷ args) cwd = do
    answer ← ask_spawn (executable ∷ args) cwd
    spawned executable answer

  -- A child whose row cannot be written is killed, and the error is returned.
  unfoldable pub keep_or_teardown : Result (Unit {0}) → String → M (Unit {0})
  keep_or_teardown (ok u) id = pure tt
  keep_or_teardown (err e) id = do modify (λ m. record m { signalled = id ∷ m.signalled }); raise e

  -- `run_process` from the permit to the row in the store.
  unfoldable pub start_process : ProcessRunRequest → M (ProcessRecord × Child)
  unfolding take_process_id spawn_child command_line trimmed_cwd new_process keep_or_teardown
  start_process request = do
    n ← take_process_id
    m ← gets (λ m. m)
    let id = "proc_" <> decimal n
    child ←
        spawn_child (command_line m.config.allow_shell (trim request.command))
          (trimmed_cwd request.cwd)
    started_at ← now_ms env
    let row = new_process request id m.config.log_dir m.config.default_timeout_ms started_at child
    written ← attempt (persist env row)
    keep_or_teardown written id
    pure (row, child)

  unfoldable pub settle_start : Result (ProcessRecord × Child) → M (ProcessRecord × Child)
  settle_start (ok (row, child)) = do modify (add_task (Task.starting row child)); pure (row, child)
  settle_start (err e) = do modify drop_permit; raise e

  -- With the permit: on an error it is given back.
  unfoldable pub admit : ProcessRunRequest → M (ProcessRecord × Child)
  unfolding settle_start
  admit request = do
    modify take_permit
    started ← attempt (start_process request)
    settle_start started

  -- The process is entered in the map, its start is told, and `run_lifecycle` is spawned.
  unfoldable pub register : ProcessRecord → Child → M (Unit {0})
  register row child = do
    modify (λ m. record (put_object row.id (managed row (some child)) m) {
      processes = row.id ∷ m.processes;
    })
    append_process_event env row.id row.session_id "process.started"
        RuntimeEventCriticality.critical
        (("process_id", text row.id)
          ∷ ("pid", json (num_or_null child.pid))
          ∷ ("cwd", json (text_or_null row.cwd))
          ∷ [])
    modify (λ m. record m { tasks = move_task row.id (Task.launched row.id) m.tasks })

  -- `run_process`. The wait for a permit ends when other tasks have left one.
  unfoldable pub run_process : ProcessRunRequest → M ProcessDetails
  run_process request = do
    enabled ← gets (λ m. m.config.enabled)
    if enabled
        then if is_empty (trim request.command)
          then raise (invalid_state "command cannot be empty")
          else (do
            others_run env
            started ← admit request
            others_run env
            register started.0 started.1
            p ← process_from_id env started.0.id
            pure (detail_from_process p))
        else raise (unsupported "gg_process tools are disabled")
