-- ===== src/Process/Schedule.antt =====
-- crates/runtime-tools/src/process.rs: the runs of the process manager. The tasks of the server
-- interleave at will; a step is what one of them does between two points where another may run.
pub mod Load
pub mod Parts
pub mod Permits
use gooselake.Base.{ℕ, zero, ◌<◌, String, ◌==◌, ◌≡◌, Bool, true, false, ◌||◌, List, [], ◌∷◌, Option}
use gooselake.Map
use gooselake.Records.{ProcessRecord, ProcessStatus}
use gooselake.Process.{Child, ManagedProcess, Task, Manager, ProcessEnv}
use gooselake.Process.Details.{without}
use gooselake.Process.Output.{Stream, write_chunk, report_chunk}
use gooselake.Process.Tasks.{task_id}
use gooselake.Process.Start.{ProcessRunRequest, admit, register}
use gooselake.Process.Lifecycle.{WaitResult, take_child, time_out, child_ended, finish}
use gooselake.Process.Kill.{request_kill, signal_child, report_kill}

-- A call for the process holds a permit.
abbrev pub holds : String → List Task → Bool
holds id [] = false
holds id (t ∷ ts) = task_id t == id || holds id ts

pub data Step (env : ProcessEnv) : Manager → Manager → Type 0 where
  -- `run_process` gets a permit, and starts the child
  admitted :
      {m : Manager} (request : ProcessRunRequest)
      → 0 < m.permits
      → Step env m (admit env request m).1
  -- and enters the process
  registered :
      {m : Manager} (row : ProcessRecord) (child : Child)
      → holds row.id m.tasks ≡ true
      → Step env m (register env row child m).1
  -- `run_lifecycle` takes the child, waits, and ends
  taken : {m : Manager} (id : String) → holds id m.tasks ≡ true → Step env m (take_child env id m).1
  late : {m : Manager} (id : String) → Step env m (time_out env id m).1
  ended : {m : Manager} (id : String) (wait : WaitResult) → Step env m (child_ended env id wait m).1
  finished :
      {m : Manager} (id : String) (status : ProcessStatus) (code signal : Option ℕ)
      → holds id m.tasks ≡ true
      → Step env m (finish env id status code signal m).1
  -- `pump_stream` writes a chunk, and tells of it
  wrote :
      {m : Manager} (stream : Stream) (id path : String) (chunk : List ℕ)
      (p : Option ManagedProcess)
      → Step env m (write_chunk env stream id path chunk p m)
  reported :
      {m : Manager} (stream : Stream) (id : String) (session_id : Option String) (budget size n : ℕ)
      → Step env m (report_chunk env stream id session_id budget size n m).1
  -- `kill_process`
  kill_requested : {m : Manager} (id : String) → Step env m (request_kill env id m).1
  signalled : {m : Manager} (id : String) → Step env m (signal_child env id m).1
  kill_reported :
      {m : Manager} (killed : Bool) (p : ManagedProcess) (reason : Option String)
      → Step env m (report_kill env killed p reason m).1
  -- `cleanup_expired_terminal` removes processes
  cleaned :
      {m : Manager} (ids : List String)
      → Step env m (record m { processes = without ids m.processes })

pub data Reach (env : ProcessEnv) (m : Manager) : Manager → Type 0 where
  here : Reach env m m
  next : {n o : Manager} → Reach env m n → Step env n o → Reach env m o
