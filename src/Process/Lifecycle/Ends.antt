-- ===== src/Process/Lifecycle/Ends.antt =====
-- How a process ends.
use gooselake.Base.{
  ℕ, ◌≢◌, Option, suc, eqb, Bool-cases, inl, inr, ap, some-eq, ◌+◌, String, ◌≡◌, eq_refl, refl,
  arith, ◌∙◌, [], ◌∷◌, Bool, true, false, none, some,
}
use gooselake.Error.{ok}
use gooselake.Map
use gooselake.Map.Laws.{get-insert}
use gooselake.Records.{ProcessStatus, RuntimeEventCriticality}
use gooselake.Store.{json, text}
use gooselake.Process.{Manager, ManagedProcess, ProcessEnv, ◌>>=◌, put_object, now_ms}
use gooselake.Process.Told.{append_process_event-told, persist-told}
use gooselake.Process.Tasks.{end_task, num_or_null}
use gooselake.Process.Lifecycle.{
  WaitResult, exited, wait_failed, end_status, end_of, ended_process, finish, leave, end_kind,
  status_text,
}

-- What a process ends with: its status, its exit code and its signal, by the flags and by what the
-- wait for its child gave.
pub data EndsWith (late asked : Bool)
    : WaitResult → ProcessStatus → Option ℕ → Option ℕ → Type 0 where
  lost :
      {errno : Option ℕ} → EndsWith late asked (wait_failed errno) ProcessStatus.failed none errno
  timed_out :
      {code signal : Option ℕ}
      → late ≡ true
      → EndsWith late asked (exited code signal) ProcessStatus.timed_out code signal
  killed :
      {code signal : Option ℕ}
      → late ≡ false
      → asked ≡ true
      → EndsWith late asked (exited code signal) ProcessStatus.killed code signal
  completed :
      {code signal : Option ℕ}
      → late ≡ false
      → asked ≡ false
      → code ≡ some 0
      → EndsWith late asked (exited code signal) ProcessStatus.completed code signal
  failed :
      {code signal : Option ℕ}
      → late ≡ false
      → asked ≡ false
      → code ≢ some 0
      → EndsWith late asked (exited code signal) ProcessStatus.failed code signal

eqb_zero : (n : ℕ) → eqb n 0 ≡ true → n ≡ 0
eqb_zero n h = ground arith

eqb_not_zero : (n : ℕ) → eqb n 0 ≡ false → n ≢ 0
eqb_not_zero n h = ground arith

end_status-EndsWith :
    (late asked : Bool) (wait : WaitResult)
    → let (status, code, signal) = end_status late asked wait in
      EndsWith late asked wait status code signal
unfolding end_status
end_status-EndsWith late asked (wait_failed errno) = lost
end_status-EndsWith true asked (exited code signal) = timed_out refl
end_status-EndsWith false true (exited code signal) = killed refl refl
end_status-EndsWith false false (exited none signal) = failed refl refl (λ e. cc)
end_status-EndsWith false false (exited (some code) signal) = elim (Bool-cases (eqb code 0)) [
  | inl e ↦ rw e (completed refl refl (ap some (eqb_zero code e)))
  | inr e ↦ rw e (failed refl refl (λ h. eqb_not_zero code e (some-eq h)))
]

module _ (env : ProcessEnv) (id : String) (p : ManagedProcess) (m : Manager)
    (held : Map.get id m.objects ≡ some p) where
  -- Whatever the store does: once the child has ended, in whatever way, `finish`, with what the flags
  -- and the wait say of that end, succeeds; the process in memory is as it was, but for the status,
  -- the exit code and the signal of its end and the time of it, and the call and its permit are given
  -- back. The status is "failed" without a code where the wait failed, "timed_out" where the time was
  -- over, else "killed" where a kill was asked for, else "completed" for the code 0, else "failed".
  pub finish-ends :
      (wait : WaitResult)
      → let (status, code, signal) = end_of env (Map.get id m.objects) wait in
        let (r, m') = finish env id status code signal m in
        (r ≡ ok tt)
        × ((s : ProcessStatus) × (c : Option ℕ) × (g : Option ℕ) × EndsWith p.timed_out
              p.kill_requested wait s c g
            × (Map.get id m'.objects
                ≡ some (record p {
                  row = record p.row {
                    status = s;
                    exit_code = c;
                    signal = g;
                    ended_at = some (env.clock m.tick);
                  };
                })))
        × (m'.tasks ≡ end_task id m.tasks)
        × (m'.permits ≡ m.permits + 1)
  unfolding finish end_of leave ended_process now_ms ◌>>=◌
  finish-ends wait =
      let (status, code, signal) = end_status p.timed_out p.kill_requested wait in
      let row = ended_process p.row status code signal (env.clock m.tick) in
      let recorded = put_object id (record p { row = row }) (record m { tick = suc m.tick }) in
      let (s, kept) = persist-told env row recorded in
      let (s', said) =
        append_process_event-told env id p.row.session_id (end_kind status)
          RuntimeEventCriticality.critical
          (("process_id", text id)
            ∷ ("status", text (status_text status))
            ∷ ("exit_code", json (num_or_null code))
            ∷ ("signal", json (num_or_null signal))
            ∷ [])
          (record recorded { store = s; tick = suc recorded.tick }) in
      rw (held, kept, said)
        (
          refl,
          (
            status,
            code,
            signal,
            end_status-EndsWith p.timed_out p.kill_requested wait,
            get-insert _ _ _ _ ∙ rw eq_refl refl,
          ),
          refl,
          refl,
        )
