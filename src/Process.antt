-- ===== src/Process.antt =====
-- crates/runtime-tools/src/process.rs: the processes that sessions run. The state of
-- `RuntimeProcessManager`, what it asks of the operating system, and what all of its files use.
pub mod Told
pub mod Schedule
pub mod Startup
pub mod Details
pub mod Logs
pub mod Output
pub mod Tasks
pub mod Start
pub mod Lifecycle
pub mod Kill
use gooselake.Base.{
  ℕ, suc, ◌+◌, ◌%◌, String, ◌<>◌, ◌==◌, Bool, true, false, ◌||◌, List, [], ◌∷◌, ◌⊎◌, Option, none,
  some, if◌then◌else◌,
}
use gooselake.Text.{decimal}
use gooselake.Error.{RuntimeError, Result, ok, err, not_found, invalid_state}
use gooselake.Map
use gooselake.Map.{Map}
use gooselake.Records.{ProcessRecord, ProcessStatus, RuntimeEventScope, RuntimeEventCriticality}
use gooselake.Store.{Store, Payload, NewRuntimeEvent, append_runtime_event, upsert_process}
use gooselake.World.{u64_mod}

pub record ProcessManagerConfig : Type 0 where
  pub enabled : Bool
  pub max_concurrent : ℕ
  pub default_timeout_ms : ℕ
  pub max_output_bytes_per_process : ℕ
  pub allow_shell : Bool
  pub completed_retention_ms : ℕ
  pub output_event_sample_bytes : ℕ
  pub log_dir : String

-- A handle of a child process, with its `id()`.
pub record Child : Type 0 where
  pub pid : Option ℕ

pub record ManagedProcess : Type 0 where
  pub row : ProcessRecord
  pub child : Option Child
  pub stdout_bytes : ℕ
  pub stderr_bytes : ℕ
  pub stdout_truncated : Bool
  pub stderr_truncated : Bool
  pub kill_requested : Bool
  pub timed_out : Bool

-- `ManagedProcess::new`.
unfoldable pub managed : ProcessRecord → Option Child → ManagedProcess
managed row child = record {
  row = row;
  child = child;
  stdout_bytes = 0;
  stderr_bytes = 0;
  stdout_truncated = false;
  stderr_truncated = false;
  kill_requested = false;
  timed_out = false;
}

-- A call that holds one of the semaphore's permits: `run_process` between the store and the map
-- of processes, or `run_lifecycle` before it takes the child, while it waits for the child's end,
-- and once it knows how the process ended.
pub data Task : Type 0 where
  starting : ProcessRecord → Child → Task
  launched waiting : String → Task
  ending : String → ProcessStatus → Option ℕ → Option ℕ → Task

-- The fields of `RuntimeProcessManager`. `objects` holds the shared `ManagedProcess` of an id, and
-- `processes` the ids that the map still leads to. `signalled` are the processes whose child got a
-- kill signal, and `files` the bytes of the log files.
pub record Manager : Type 0 where
  pub config : ProcessManagerConfig
  pub store : Store
  pub permits : ℕ
  pub tasks : List Task
  pub next_process_id : ℕ
  pub next_event_id : ℕ
  pub objects : Map ManagedProcess
  pub processes : List String
  pub signalled : List String
  pub files : Map (List ℕ)
  pub startup_recovered_processes : List String
  pub tick : ℕ

-- The operating system, the clock, the store's faults and the other tasks, by the number of the
-- question. `spawn` is given the words of the command line and the working directory; `open_log`
-- says whether a log file can be opened, and `write_log` how many of the bytes reach it.
pub record ProcessEnv : Type 0 where
  pub clock : ℕ → ℕ
  pub store_fault : ℕ → Option RuntimeError
  pub spawn : ℕ → List String → Option String → String ⊎ Child
  pub read_to_string : ℕ → String → Option String
  pub open_log : ℕ → String → Bool
  pub write_log : ℕ → String → List ℕ → ℕ
  pub others : ℕ → Manager → Manager

abbrev pub M : Type 0 → Type 0
M A = Manager → Result A × Manager

module _ {A : Type 0} where
  unfoldable pub pure : A → M A
  pure a m = (ok a, m)

  unfoldable pub raise : RuntimeError → M A
  raise e m = (err e, m)

  unfoldable pub gets : (Manager → A) → M A
  gets f m = (ok (f m), m)

  unfoldable pub lift : Result A → M A
  lift r m = (r, m)

  unfoldable pub ok_or : Option A → RuntimeError → M A
  ok_or none e m = (err e, m)
  ok_or (some a) e m = (ok a, m)

  -- The result as a value: `if let Ok(…) = call`, and `let _ = call`.
  unfoldable pub attempt : M A → M (Result A)
  attempt op m = let (r, m') = op m in (ok r, m')

unfoldable pub modify : (Manager → Manager) → M (Unit {0})
modify f m = (ok tt, f m)

module _ {A B : Type 0} where
  abbrev pub continue : Result A → (A → M B) → M B
  continue (ok a) f m = f a m
  continue (err e) f m = (err e, m)

  infixl 10 ◌>>=◌ ◌>>◌
  unfoldable pub ◌>>=◌ : M A → (A → M B) → M B
  unfolding pure raise gets ok_or attempt modify
  ◌>>=◌ op f m = let (r, m') = op m in continue r f m'

  abbrev pub ◌>>◌ : M A → M B → M B
  op >> next = op >>= λ _. next

unfoldable pub contains : String → List String → Bool
contains id [] = false
contains id (x ∷ xs) = x == id || contains id xs

abbrev pub put_object : String → ManagedProcess → Manager → Manager
put_object id p m = record m { objects = Map.insert id p m.objects }

-- `next_event_id.fetch_add(1)`.
unfoldable pub take_event_id : M ℕ
take_event_id m = (ok m.next_event_id, record m { next_event_id = (m.next_event_id + 1) % u64_mod })

-- "completed", "failed", "timed_out" and "killed".
abbrev pub is_ended : ProcessStatus → Bool
is_ended ProcessStatus.completed = true
is_ended ProcessStatus.failed = true
is_ended ProcessStatus.timed_out = true
is_ended ProcessStatus.killed = true
is_ended s = false

unfoldable pub found : Bool → Option ManagedProcess → String → M ManagedProcess
found true (some p) id m = (ok p, m)
found true none id m = (err (not_found ("process " <> id)), m)
found false p id m = (err (not_found ("process " <> id)), m)

module _ (env : ProcessEnv) where
  -- A lock is awaited, and other tasks run.
  unfoldable pub others_run : M (Unit {0})
  others_run m = (ok tt, env.others m.tick (record m { tick = suc m.tick }))

  unfoldable pub now_ms : M ℕ
  now_ms m = (ok (env.clock m.tick), record m { tick = suc m.tick })

  unfoldable pub written : (Store → Store) → Option RuntimeError → M (Unit {0})
  written write none m = (ok tt, record m { store = write m.store })
  written write (some e) m = (err e, m)

  unfoldable pub persist : ProcessRecord → M (Unit {0})
  unfolding written
  persist row m =
      written (upsert_process row) (env.store_fault m.tick) (record m { tick = suc m.tick })

  unfoldable pub append_to_store : NewRuntimeEvent → M (Unit {0})
  unfolding written
  append_to_store event m =
      written (λ s. (append_runtime_event event s).1) (env.store_fault m.tick)
        (record m { tick = suc m.tick })

  -- An event that the store refuses is dropped.
  unfoldable pub append_process_event :
      String → Option String → String → RuntimeEventCriticality → Payload → M (Unit {0})
  unfolding take_event_id
  append_process_event process_id session_id kind criticality payload = do
    n ← take_event_id
    now ← now_ms
    attempt (
        append_to_store (record {
          event_id = "evt_proc_" <> (process_id <> ("_" <> decimal n));
          scope = RuntimeEventScope.process;
          scope_id = process_id;
          session_id = session_id;
          team_id = none;
          turn_id = none;
          kind = kind;
          criticality = criticality;
          payload = payload;
          created_at = now;
        }))
    pure tt

  unfoldable pub process_from_id : String → M ManagedProcess
  unfolding contains found
  process_from_id process_id = do
    others_run
    m ← gets (λ m. m)
    found (contains process_id m.processes) (Map.get process_id m.objects) process_id

-- The caller is the session that started the process, or names none.
unfoldable pub owns : Option String → Option String → Bool
owns none owner = true
owns (some caller) none = false
owns (some caller) (some owner) = owner == caller

unfoldable pub ensure_ownership : ManagedProcess → Option String → M (Unit {0})
unfolding owns
ensure_ownership p caller =
    if owns caller p.row.session_id
    then pure tt
    else raise (invalid_state ("process " <> (p.row.id <> " belongs to a different session")))
