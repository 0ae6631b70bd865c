-- ===== src/Examples/Processes.antt =====
-- A process manager with one process, and the theorems on processes at it.
use gooselake.Process.Output.Counted.{tally, pump_stream-counts}
use mathlib.Core.List.{Memᴰ}
use gooselake.Process.Details.{is_callers, ProcessListRequest}
use gooselake.Process.{now_ms, persist, written, others_run, ◌>>=◌}
use gooselake.Process.Details.{summary_of, cleanup_expired_terminal}
use gooselake.Base.{
  Option, String, ℕ, ◌+◌, ◌-◌, some-eq, ◌≤◌, ◌<>◌, ◌≡◌, ◌≢◌, refl, arith, true, false, List, [],
  ◌∷◌, ◌++◌, length, All, none, some, inr, leb, ltb, if◌then◌else◌, ◌||◌,
}
use gooselake.Text.{decimal, parse_u64}
use gooselake.Text.Words.{byte_length, lines, drop_bytes}
use gooselake.Error.{ok}
use gooselake.Json.{null}
use gooselake.Map
use gooselake.Records.{ProcessRecord, ProcessStatus}
use gooselake.Process.{
  ProcessManagerConfig, ManagedProcess, managed, Task, Manager, ProcessEnv, contains, owns,
}
use gooselake.Process.Told.{Quiet}
use gooselake.Process.Details.{detail_from_process, list_processes}
use gooselake.Process.Details.Listed.{IsNewestFirst, list_processes-lists}
use gooselake.Process.Details.Visible.{IsVisible}
use gooselake.Process.Logs.{ProcessLogReadRequest, LogFile, chunk_of, shown_lines, take}
use gooselake.Process.Logs.Shown.{shown_lines-bounds, chunk_of-bytes}
use gooselake.Process.Output.{stdout, used_bytes, is_truncated, pump_stream, file_at}
use gooselake.Process.Output.Limit.{pump_stream-writes}
use gooselake.Process.Output.Progress.{progress, concat}
use gooselake.Process.Startup.{
  new, parse_process_sequence, hydrate_processes, recover_process, max_with,
}
use gooselake.Process.Startup.Fresh.{AllEnded, new-fresh, new-ended}
use gooselake.Process.Lifecycle.{exited, end_of, finish, take_child, time_out}
use gooselake.Process.Lifecycle.Ends.{EndsWith, finish-ends}
use gooselake.Process.Kill.{kill_process, request_kill}
use gooselake.Process.Kill.Late.{kill_process-late}
use gooselake.Process.Tasks.{end_task}
use gooselake.Process.Schedule.{here, next, kill_requested, late}
use gooselake.Process.Schedule.Permits.{Balanced, Reach-few}
use gooselake.Team.Helpers.{parse_counter}
use gooselake.Team.Counters.{parse_counter-decimal}

-- No other task runs, the store takes everything, and no child can be started.
abbrev idle : ProcessEnv
idle = record {
  clock = λ n. n;
  store_fault = λ n. none;
  spawn = λ n words cwd. inr (record { pid = some n });
  read_to_string = λ n path. none;
  open_log = λ n path. true;
  write_log = λ n path bytes. length bytes;
  others = λ n m. m;
}

abbrev sleeping : ProcessRecord
sleeping = record {
  id = "proc_1";
  session_id = some "ses_a";
  tool_call_id = none;
  pid = some 77;
  command = null;
  cwd = none;
  status = ProcessStatus.running;
  exit_code = none;
  signal = none;
  stdout_path = some "log/proc_1.stdout.log";
  stderr_path = none;
  started_at = 5;
  ended_at = none;
  timeout_ms = some 1000;
}

abbrev sleeper : ManagedProcess
sleeper = managed sleeping (some (record { pid = some 77 }))

abbrev limits : ProcessManagerConfig
limits = record {
  enabled = true;
  max_concurrent = 2;
  default_timeout_ms = 1000;
  max_output_bytes_per_process = 3;
  allow_shell = false;
  completed_retention_ms = 0;
  output_event_sample_bytes = 2;
  log_dir = "log";
}

abbrev stopped : Manager
stopped = record {
  config = limits;
  store = record {
    sessions = [];
    turns = [];
    approvals = [];
    teams = [];
    team_members = [];
    team_messages = [];
    team_deliveries = [];
    processes = ("proc_1", sleeping) ∷ [];
    managed_worktrees = [];
    managed_worktree_claims = [];
    team_operation_diagnostics = [];
    events = [];
  };
  permits = 2;
  tasks = [];
  next_process_id = 1;
  next_event_id = 1;
  objects = [];
  processes = [];
  signalled = [];
  files = [];
  startup_recovered_processes = [];
  tick = 0;
}

abbrev manager : Manager
manager = record stopped {
  permits = 1;
  tasks = Task.launched "proc_1" ∷ [];
  next_process_id = 2;
  objects = ("proc_1", sleeper) ∷ [];
  processes = "proc_1" ∷ [];
}

abbrev chunks : List (List ℕ)
chunks = (1 ∷ 2 ∷ []) ∷ (3 ∷ 4 ∷ []) ∷ []

pump_stream-writes_example :
    let (r, m') = pump_stream idle stdout "proc_1" none "out" chunks manager in
    (r ≡ ok tt)
    × (progress stdout "proc_1" "out" m' ≡ record {
      limit = 3;
      counted = some (
        used_bytes stdout sleeper + length (take (3 - used_bytes stdout sleeper) (concat chunks)),
        ltb (3 - used_bytes stdout sleeper) (length (concat chunks)) || is_truncated stdout sleeper,
      );
      file = file_at "out" manager ++ take (3 - used_bytes stdout sleeper) (concat chunks);
    })
    × (used_bytes stdout sleeper + length (take (3 - used_bytes stdout sleeper) (concat chunks))
        ≤ 3)
unfolding used_bytes is_truncated managed Map.get
pump_stream-writes_example =
    pump_stream-writes idle stdout "proc_1" none "out" (λ n m. refl) (λ n bytes. refl) chunks
      manager sleeper refl refl (omega arith)

abbrev idle-Quiet : Quiet idle
idle-Quiet n m = refl

-- No write to a log file gets anywhere.
abbrev full_disk : ProcessEnv
full_disk = record idle { write_log = λ n path bytes. 0 }

pump_stream-counts_example :
    let (r, m') = pump_stream full_disk stdout "proc_1" none "out" chunks manager in
    (r ≡ ok tt)
    × (tally stdout "proc_1" m' ≡ record {
      limit = 3;
      counted = some (
        used_bytes stdout sleeper + length (take (3 - used_bytes stdout sleeper) (concat chunks)),
        ltb (3 - used_bytes stdout sleeper) (length (concat chunks)) || is_truncated stdout sleeper,
      );
      file = [];
    })
    × (used_bytes stdout sleeper + length (take (3 - used_bytes stdout sleeper) (concat chunks))
        ≤ 3)
unfolding used_bytes is_truncated managed Map.get
pump_stream-counts_example =
    pump_stream-counts full_disk stdout "proc_1" none "out" (λ n m. refl) chunks manager sleeper
      refl refl (omega arith)

kill_process-late_example :
    let m1 = (take_child idle "proc_1" manager).1 in
    let (r, m2) =
      kill_process idle
        (record { process_id = "proc_1"; caller_session_id = some "ses_a"; reason = none })
        m1 in
    (r ≡ ok (detail_from_process sleeper))
    × (m2.signalled ≡ manager.signalled)
    × (m2.store ≡ manager.store)
    × (Map.get "proc_1" m2.objects ≡ some (record sleeper { child = none; kill_requested = true }))
unfolding contains owns Map.get managed
kill_process-late_example =
    kill_process-late idle idle-Quiet "proc_1" (some "ses_a") none manager sleeper
      (record { pid = some 77 }) refl refl refl refl refl

finish-ends_example :
    let (status, code, signal) =
      end_of idle (Map.get "proc_1" manager.objects) (exited (some 0) none) in
    let (r, m') = finish idle "proc_1" status code signal manager in
    (r ≡ ok tt)
    × ((s : ProcessStatus) × (c : Option ℕ) × (g : Option ℕ) × EndsWith false false
          (exited (some 0) none)
          s
          c
          g
        × (Map.get "proc_1" m'.objects
            ≡ some (record sleeper {
              row = record sleeping { status = s; exit_code = c; signal = g; ended_at = some 0 };
            })))
    × (m'.tasks ≡ end_task "proc_1" manager.tasks)
    × (m'.permits ≡ manager.permits + 1)
unfolding Map.get managed
finish-ends_example = finish-ends idle "proc_1" sleeper manager refl (exited (some 0) none)

Reach-few_example :
    Balanced (time_out idle "proc_1" (request_kill idle "proc_1" manager).1).1
    × (length (time_out idle "proc_1" (request_kill idle "proc_1" manager).1).1.tasks ≤ (
        if leb
          (time_out idle "proc_1" (request_kill idle "proc_1" manager).1).1.config.max_concurrent
          1
        then 1
        else (time_out idle "proc_1"
            (request_kill idle "proc_1" manager).1).1.config.max_concurrent))
Reach-few_example =
    Reach-few idle (next (next here (kill_requested "proc_1")) (late "proc_1"))
      (record { sum = refl })

new-fresh_example :
    All
      (λ (row : ProcessRecord). "proc_" <> decimal (new idle stopped).1.next_process_id ≢ row.id)
      (Map.values stopped.store.processes)
unfolding Map.values new parse_process_sequence hydrate_processes recover_process now_ms persist
    written ◌>>=◌ max_with parse_u64
new-fresh_example =
    new-fresh idle stopped refl ((λ k e. let e' : 1 ≡ k = some-eq e in omega arith), tt)

new-ended_example : AllEnded (new idle stopped).1
unfolding Map.values new parse_process_sequence hydrate_processes recover_process now_ms persist
    written ◌>>=◌ max_with parse_u64
new-ended_example = new-ended idle stopped refl refl

shown_lines-bounds_example :
    (2 ≤ 80 → shown_lines 1 80 ("a" ∷ "b" ∷ []) ≡ take 1 ("a" ∷ "b" ∷ []) ++ "a" ∷ "b" ∷ [])
    × (length (shown_lines 1 80 ("a" ∷ "b" ∷ [])) ≤ 82)
shown_lines-bounds_example = shown_lines-bounds 1 80 ("a" ∷ "b" ∷ [])

abbrev reading : ProcessLogReadRequest
reading = record {
  process_id = "proc_1";
  caller_session_id = none;
  stream = none;
  head_lines = none;
  tail_lines = some 10;
  max_bytes = some 2;
}

abbrev out_file : LogFile
out_file = record { name = "stdout"; path = some "log/proc_1.stdout.log"; truncated = false }

chunk_of-bytes_example :
    ((chunk_of reading (detail_from_process sleeper) out_file "hé").bytes
      ≡ byte_length (chunk_of reading (detail_from_process sleeper) out_file "hé").content)
    × ((chunk_of reading (detail_from_process sleeper) out_file "hé").bytes ≤ 8)
chunk_of-bytes_example = chunk_of-bytes reading (detail_from_process sleeper) out_file "hé" 2 refl

abbrev listing : ProcessListRequest
listing = record { caller_session_id = some "ses_a"; include_completed = true }

list_processes-lists_example :
    let m' = (list_processes idle listing manager).1 in
    All (IsVisible listing) (summary_of sleeping ∷ [])
    × IsNewestFirst (summary_of sleeping ∷ [])
    × ((id : String) (p : ManagedProcess)
        → contains id m'.processes ≡ true
        → Map.get id m'.objects ≡ some p
        → IsVisible listing (summary_of p.row)
        → Memᴰ (summary_of p.row) (summary_of sleeping ∷ []))
unfolding list_processes cleanup_expired_terminal others_run Map.get is_callers ◌>>=◌ managed
list_processes-lists_example =
    list_processes-lists idle listing manager (summary_of sleeping ∷ []) refl

parse_counter-decimal_example :
    (parse_counter ("team_" <> decimal 12) ≡ some 12)
    × (parse_counter ("msg_" <> decimal 12) ≡ some 12)
    × (parse_counter ("dlv_" <> decimal 12) ≡ some 12)
parse_counter-decimal_example = parse_counter-decimal 12 (omega arith)

-- The limit in bytes is exceeded where it cuts a character.
cut_character : (chunk_of reading (detail_from_process sleeper) out_file "hé").bytes ≡ 4
unfolding chunk_of byte_length lines drop_bytes
cut_character = refl
