-- ===== src/Process/Kill.antt =====
-- crates/runtime-tools/src/process.rs, `kill_process`.
pub mod Late
use gooselake.Base.{String, Bool, true, false, [], ◌∷◌, Option, none, some, unwrap_or}
use gooselake.Map
use gooselake.Records.{RuntimeEventCriticality}
use gooselake.Store.{text}
use gooselake.Process.{
  Child, ManagedProcess, Manager, ProcessEnv, M, pure, gets, modify, ◌>>=◌, ◌>>◌, others_run,
  append_process_event, put_object, process_from_id, ensure_ownership,
}
use gooselake.Process.Details.{ProcessDetails, detail_from_process}

pub record ProcessKillRequest : Type 0 where
  pub process_id : String
  pub caller_session_id : Option String
  pub reason : Option String

abbrev pub child_of : Option ManagedProcess → Option Child
child_of none = none
child_of (some p) = p.child

module _ (env : ProcessEnv) where
  unfoldable pub set_kill_requested : String → Option ManagedProcess → Manager → Manager
  set_kill_requested id none m = m
  set_kill_requested id (some p) m = put_object id (record p { kill_requested = true }) m

  unfoldable pub request_kill : String → M (Unit {0})
  unfolding set_kill_requested
  request_kill id = modify (λ m. set_kill_requested id (Map.get id m.objects) m)

  unfoldable pub kill_child : String → Option Child → M Bool
  kill_child id none = pure false
  kill_child id (some child) = do modify (λ m. record m { signalled = id ∷ m.signalled }); pure true

  -- `if let Some(child) = child.as_mut() { child.start_kill() }`.
  unfoldable pub signal_child : String → M Bool
  unfolding kill_child
  signal_child id = do p ← gets (λ m. Map.get id m.objects); kill_child id (child_of p)

  unfoldable pub report_kill : Bool → ManagedProcess → Option String → M (Unit {0})
  report_kill false p reason = pure tt
  report_kill true p reason =
      append_process_event env p.row.id p.row.session_id "process.kill_requested"
        RuntimeEventCriticality.critical
        (("reason", text (unwrap_or reason "requested")) ∷ ("process_id", text p.row.id) ∷ [])

  -- `kill_process`: the flag is set, and then the child, where the object still has it, gets the
  -- signal.
  unfoldable pub kill_process : ProcessKillRequest → M ProcessDetails
  unfolding report_kill
  kill_process request = do
    p ← process_from_id env request.process_id
    ensure_ownership p request.caller_session_id
    others_run env
    request_kill p.row.id
    others_run env
    killed ← signal_child p.row.id
    others_run env
    report_kill killed p request.reason
    others_run env
    final ← gets (λ m. Map.get p.row.id m.objects)
    pure (detail_from_process (unwrap_or final p))
