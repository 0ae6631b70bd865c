-- ===== src/Process/Schedule/Parts.antt =====
-- Each part of a step that takes and gives no permit.
use gooselake.Base.{
  ℕ, suc, String, ◌≡◌, refl, ◌⊎◌, inl, inr, Bool, true, false, List, [], ◌∷◌, Option, none, some,
  Option-cases, if◌then◌else◌, leb, length,
}
use gooselake.Error.{Result, ok, err}
use gooselake.Map
use gooselake.Records.{ProcessStatus}
use gooselake.Process.{
  Child, ManagedProcess, Manager, ProcessEnv, put_object, now_ms, modify, ◌>>=◌,
}
use gooselake.Process.Told.{persist-told}
use gooselake.Process.Output.{Stream, write_chunk, report_chunk, append_file, to_write, used_bytes}
use gooselake.Process.Logs.{take}
use gooselake.Process.Start.{
  ProcessRunRequest, start_process, spawn_child, spawned, ask_spawn, take_process_id,
  keep_or_teardown,
}
use gooselake.Process.Lifecycle.{time_out, record_end, ended_process}
use gooselake.Process.Kill.{request_kill, signal_child, report_kill, kill_child}
use gooselake.Process.Schedule.Load.{SameLoad, Keeps, SameLoad-refl, if-Keeps, keeps_rules}

pub SameLoad-signal :
    (id : String) (m : Manager) → SameLoad m (record m { signalled = id ∷ m.signalled })
SameLoad-signal id m = record { permits = refl; tasks = refl; config = refl }

pub take_process_id-Keeps : Keeps take_process_id
unfolding take_process_id
take_process_id-Keeps = record { at = λ m. record { permits = refl; tasks = refl; config = refl } }

module _ (env : ProcessEnv) where
  pub spawned-Keeps : (name : String) (answer : String ⊎ Child) → Keeps (spawned env name answer)
  unfolding spawned
  spawned-Keeps name (inl e) = search keeps_rules
  spawned-Keeps name (inr c) = search keeps_rules

  pub spawn_child-Keeps :
      (words : List String) (cwd : Option String) → Keeps (spawn_child env words cwd)
  unfolding spawn_child ask_spawn
  spawn_child-Keeps [] cwd = search keeps_rules
  spawn_child-Keeps (w ∷ ws) cwd = search (keeps_rules, spawned-Keeps, ask)
    where
      ask : Keeps (ask_spawn env (w ∷ ws) cwd)
      ask = record { at = λ m. record { permits = refl; tasks = refl; config = refl } }

  pub keep_or_teardown-Keeps :
      (r : Result (Unit {0})) (id : String) → Keeps (keep_or_teardown env r id)
  unfolding keep_or_teardown
  keep_or_teardown-Keeps (ok u) id = search keeps_rules
  keep_or_teardown-Keeps (err e) id = search (keeps_rules, λ (m : Manager). SameLoad-signal id m)

  pub start_process-Keeps : (request : ProcessRunRequest) → Keeps (start_process env request)
  unfolding start_process
  start_process-Keeps request =
      search (keeps_rules, take_process_id-Keeps, spawn_child-Keeps, keep_or_teardown-Keeps) depth
        40

  pub record_end-SameLoad :
      (id : String) (status : ProcessStatus) (code signal : Option ℕ) (p : Option ManagedProcess)
      (m : Manager)
      → ((o : Option String) × ((record_end env id status code signal p m).0 ≡ ok o))
        × SameLoad m (record_end env id status code signal p m).1
  unfolding record_end now_ms ◌>>=◌
  record_end-SameLoad id status code signal none m = ((none, refl), SameLoad-refl m)
  record_end-SameLoad id status code signal (some p) m =
      let row = ended_process p.row status code signal (env.clock m.tick) in
      let (s, e) =
        persist-told env row
          (put_object id (record p { row = row }) (record m { tick = suc m.tick })) in
      ((p.row.session_id, refl), rw e (record { permits = refl; tasks = refl; config = refl }))

  pub time_out-SameLoad : (id : String) (m : Manager) → SameLoad m (time_out env id m).1
  unfolding time_out modify
  time_out-SameLoad id m = elim (Option-cases (Map.get id m.objects)) [
    | inl e ↦ rw e (record { permits = refl; tasks = refl; config = refl })
    | inr (p, e) ↦ rw e (record { permits = refl; tasks = refl; config = refl })
  ]

  pub request_kill-SameLoad : (id : String) (m : Manager) → SameLoad m (request_kill env id m).1
  unfolding request_kill modify
  request_kill-SameLoad id m = elim (Option-cases (Map.get id m.objects)) [
    | inl e ↦ rw e (SameLoad-refl m)
    | inr (p, e) ↦ rw e (record { permits = refl; tasks = refl; config = refl })
  ]

  pub kill_child-Keeps : (id : String) (child : Option Child) → Keeps (kill_child env id child)
  unfolding kill_child
  kill_child-Keeps id none = search keeps_rules
  kill_child-Keeps id (some child) = search (keeps_rules, SameLoad-signal id)

  pub signal_child-Keeps : (id : String) → Keeps (signal_child env id)
  unfolding signal_child
  signal_child-Keeps id = search (keeps_rules, kill_child-Keeps)

  pub report_kill-Keeps :
      (killed : Bool) (p : ManagedProcess) (reason : Option String)
      → Keeps (report_kill env killed p reason)
  unfolding report_kill
  report_kill-Keeps false p reason = search keeps_rules
  report_kill-Keeps true p reason = search keeps_rules

  pub report_chunk-Keeps :
      (stream : Stream) (id : String) (session_id : Option String) (budget size n : ℕ)
      → Keeps (report_chunk env stream id session_id budget size n)
  unfolding report_chunk
  report_chunk-Keeps stream id session_id budget size n = search (keeps_rules, if-Keeps) depth 20

  append_file-SameLoad :
      (b : Bool) (path : String) (bytes : List ℕ) (m : Manager)
      → SameLoad m (if b then append_file env path bytes m else m)
  unfolding append_file
  append_file-SameLoad true path bytes m = record { permits = refl; tasks = refl; config = refl }
  append_file-SameLoad false path bytes m = SameLoad-refl m

  pub write_chunk-SameLoad :
      (stream : Stream) (id path : String) (chunk : List ℕ) (p : Option ManagedProcess)
      (m : Manager)
      → SameLoad m (write_chunk env stream id path chunk p m)
  unfolding write_chunk
  write_chunk-SameLoad stream id path chunk none m = SameLoad-refl m
  write_chunk-SameLoad stream id path chunk (some p) m =
      let n = to_write m.config.max_output_bytes_per_process (used_bytes stream p) (length chunk) in
      let same = append_file-SameLoad (leb 1 n) path (take n chunk) m in
      record { permits = same.permits; tasks = same.tasks; config = same.config }
