-- ===== src/Process/Kill/Late.antt =====
-- A kill that comes once `run_lifecycle` waits for the child.
use gooselake.Base.{String, ◌≡◌, eq_refl, refl, true, Option, none, some}
use gooselake.Error.{ok}
use gooselake.Map
use gooselake.Map.Laws.{get-insert}
use gooselake.Process.{
  Child, ManagedProcess, Manager, ProcessEnv, ◌>>=◌, contains, owns, process_from_id,
  ensure_ownership,
}
use gooselake.Process.Told.{Quiet, others_run-quiet}
use gooselake.Process.Details.{detail_from_process}
use gooselake.Process.Lifecycle.{take_child}
use gooselake.Process.Kill.{kill_process, request_kill, signal_child, report_kill}

module _ (env : ProcessEnv) (quiet : Quiet env) (id : String) (caller reason : Option String)
    (m : Manager) (p : ManagedProcess) (c : Child) (entered : contains id m.processes ≡ true)
    (held : Map.get id m.objects ≡ some p) (same : p.row.id ≡ id)
    (owned : owns caller p.row.session_id ≡ true) (ready : p.child ≡ some c) where
  -- While no other task runs: once `run_lifecycle` has taken the child of a process that is in the
  -- map, a kill of the process by a session that owns it succeeds and sets the flag, but sends no
  -- signal to the child and writes no event, and the answer is the process as it was.
  pub kill_process-late :
      let m1 = (take_child env id m).1 in
      let (r, m2) =
        kill_process env
          (record { process_id = id; caller_session_id = caller; reason = reason })
          m1 in
      (r ≡ ok (detail_from_process p))
      × (m2.signalled ≡ m.signalled)
      × (m2.store ≡ m.store)
      × (Map.get id m2.objects ≡ some (record p { child = none; kill_requested = true }))
  unfolding take_child kill_process request_kill signal_child report_kill process_from_id
      ensure_ownership detail_from_process ◌>>=◌
  kill_process-late =
      simp (others_run-quiet env quiet, held, ready, entered, same, owned, get-insert, eq_refl)
        (refl, refl, refl, refl)
