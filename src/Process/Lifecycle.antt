-- ===== src/Process/Lifecycle.antt =====
-- crates/runtime-tools/src/process.rs, `run_lifecycle`: a process is waited for. Each function is
-- what happens between two points where other tasks may run.
pub mod Ends
use gooselake.Base.{ℕ, String, Bool, true, false, [], ◌∷◌, Option, none, some, if◌then◌else◌, eqb}
use gooselake.Map
use gooselake.Records.{ProcessRecord, ProcessStatus, RuntimeEventCriticality}
use gooselake.Store.{json, text}
use gooselake.Process.{
  Child, ManagedProcess, Task, Manager, ProcessEnv, M, pure, gets, attempt, modify, ◌>>=◌, ◌>>◌,
  now_ms, persist, append_process_event, put_object,
}
use gooselake.Process.Tasks.{num_or_null, drop_permit, move_task, end_task}

-- How `child.wait()` ends: with the exit code and the signal, or with the error's number.
pub data WaitResult : Type 0 where
  exited : Option ℕ → Option ℕ → WaitResult
  wait_failed : Option ℕ → WaitResult

-- The status that a process ends with, its exit code and its signal.
unfoldable pub end_status : Bool → Bool → WaitResult → ProcessStatus × Option ℕ × Option ℕ
end_status timed_out killed (wait_failed errno) = (ProcessStatus.failed, none, errno)
end_status true killed (exited code signal) = (ProcessStatus.timed_out, code, signal)
end_status false true (exited code signal) = (ProcessStatus.killed, code, signal)
end_status false false (exited none signal) = (ProcessStatus.failed, none, signal)
end_status false false (exited (some code) signal) =
    (if eqb code 0 then ProcessStatus.completed else ProcessStatus.failed, some code, signal)

unfoldable pub ended_process :
    ProcessRecord → ProcessStatus → Option ℕ → Option ℕ → ℕ → ProcessRecord
ended_process row status code signal at = record row {
  status = status;
  exit_code = code;
  signal = signal;
  ended_at = some at;
}

unfoldable pub status_text : ProcessStatus → String
status_text ProcessStatus.queued = "queued"
status_text ProcessStatus.running = "running"
status_text ProcessStatus.completed = "completed"
status_text ProcessStatus.failed = "failed"
status_text ProcessStatus.timed_out = "timed_out"
status_text ProcessStatus.killed = "killed"
status_text (ProcessStatus.other s) = s

unfoldable pub end_kind : ProcessStatus → String
end_kind ProcessStatus.completed = "process.completed"
end_kind ProcessStatus.timed_out = "process.timed_out"
end_kind ProcessStatus.killed = "process.killed"
end_kind s = "process.failed"

module _ (env : ProcessEnv) where
  -- `run_lifecycle` ends: its permit is given back.
  unfoldable pub leave : String → M (Unit {0})
  leave id = do modify (λ m. record m { tasks = end_task id m.tasks }); modify drop_permit

  unfoldable pub take_child_of : String → ManagedProcess → Option Child → M Bool
  unfolding leave
  take_child_of id p none = do leave id; pure false
  take_child_of id p (some child) = do
    modify (put_object id (record p { child = none }))
    modify (λ m. record m { tasks = move_task id (Task.waiting id) m.tasks })
    pure true

  unfoldable pub take_child_found : String → Option ManagedProcess → M Bool
  unfolding leave take_child_of
  take_child_found id none = do leave id; pure false
  take_child_found id (some p) = take_child_of id p p.child

  -- `run_lifecycle` takes the child out of the object, if one is there.
  unfoldable pub take_child : String → M Bool
  unfolding take_child_found
  take_child id = do p ← gets (λ m. Map.get id m.objects); take_child_found id p

  unfoldable pub set_timed_out : String → Option ManagedProcess → Manager → Manager
  set_timed_out id none m = m
  set_timed_out id (some p) m = put_object id (record p { timed_out = true }) m

  -- The child did not end in time: the flag is set, and the child gets the kill signal.
  unfoldable pub time_out : String → M (Unit {0})
  unfolding set_timed_out
  time_out id =
      modify
        (λ m. record (set_timed_out id (Map.get id m.objects) m) { signalled = id ∷ m.signalled })

  unfoldable pub end_of : Option ManagedProcess → WaitResult → ProcessStatus × Option ℕ × Option ℕ
  unfolding end_status
  end_of none wait = end_status false false wait
  end_of (some p) wait = end_status p.timed_out p.kill_requested wait

  -- The child has ended, and its output is written: the flags say what that end is called.
  unfoldable pub child_ended : String → WaitResult → M (Unit {0})
  unfolding end_of
  child_ended id wait = modify (λ m.
      let (status, code, signal) = end_of (Map.get id m.objects) wait in
      record m { tasks = move_task id (Task.ending id status code signal) m.tasks })

  unfoldable pub record_end :
      String → ProcessStatus → Option ℕ → Option ℕ → Option ManagedProcess → M (Option String)
  unfolding ended_process
  record_end id status code signal none = pure none
  record_end id status code signal (some p) = do
    at ← now_ms env
    let row = ended_process p.row status code signal at
    modify (put_object id (record p { row = row }))
    attempt (persist env row)
    pure row.session_id

  -- The end is recorded and told.
  unfoldable pub finish : String → ProcessStatus → Option ℕ → Option ℕ → M (Unit {0})
  unfolding record_end end_kind status_text leave
  finish id status code signal = do
    p ← gets (λ m. Map.get id m.objects)
    session_id ← record_end id status code signal p
    append_process_event env id session_id (end_kind status) RuntimeEventCriticality.critical (
        ("process_id", text id)
        ∷ ("status", text (status_text status))
        ∷ ("exit_code", json (num_or_null code))
        ∷ ("signal", json (num_or_null signal))
        ∷ [])
    leave id
