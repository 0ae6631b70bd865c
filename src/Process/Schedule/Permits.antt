-- ===== src/Process/Schedule/Permits.antt =====
-- The permits, and the calls that hold one, over a run of the process manager.
use gooselake.Base.{
  ℕ, ◌+◌, ◌≤◌, ◌<◌, String, ◌≡◌, refl, arith, inl, inr, true, List, [], ◌∷◌, Option, some, length,
  leb, if◌then◌else◌, Option-cases,
}
use gooselake.Error.{Result, ok, err}
use gooselake.Map
use gooselake.Records.{ProcessRecord, ProcessStatus, RuntimeEventCriticality}
use gooselake.Store.{json, text}
use gooselake.Process.{Child, Task, Manager, ProcessEnv, managed, put_object, modify, ◌>>=◌}
use gooselake.Process.Told.{append_process_event-told, told}
use gooselake.Process.Tasks.{move_task, end_task, take_permit, num_or_null, text_or_null}
use gooselake.Process.Start.{ProcessRunRequest, admit, register, start_process, settle_start}
use gooselake.Process.Lifecycle.{
  WaitResult, take_child, child_ended, finish, leave, take_child_found, take_child_of, record_end,
  end_kind, status_text, end_of,
}
use gooselake.Process.Schedule.{
  holds, Step, Reach, admitted, registered, taken, late, ended, finished, wrote, reported,
  kill_requested, signalled, kill_reported, cleaned, here, next,
}
use gooselake.Process.Schedule.Load.{SameLoad, SameLoad-refl}
use gooselake.Process.Schedule.Parts.{
  start_process-Keeps, record_end-SameLoad, time_out-SameLoad, request_kill-SameLoad,
  signal_child-Keeps, report_kill-Keeps, report_chunk-Keeps, write_chunk-SameLoad,
}

-- Every permit is free or held by one call.
pub record Balanced (m : Manager) : Type 0 where
  pub sum :
      m.permits + length m.tasks
      ≡ (if leb m.config.max_concurrent 1 then 1 else m.config.max_concurrent)

length-move_task :
    (id : String) (t : Task) (ts : List Task) → length (move_task id t ts) ≡ length ts
unfolding move_task
length-move_task id t [] = refl
length-move_task id t (x ∷ xs) = ground (arith, length-move_task id t xs)

length-end_task :
    (id : String) (ts : List Task) → holds id ts ≡ true → length (end_task id ts) + 1 ≡ length ts
unfolding end_task
length-end_task id [] h = cc
length-end_task id (x ∷ xs) h = ground (arith, length-end_task id xs)

SameLoad-Balanced : {m n : Manager} → SameLoad m n → Balanced m → Balanced n
SameLoad-Balanced {m} {n} s b = record { sum = rw (s.permits, s.tasks, s.config) b.sum }

module _ (env : ProcessEnv) where
  settle_start-Balanced :
      (r : Result (ProcessRecord × Child)) (m n : Manager)
      → Balanced m
      → 0 < m.permits
      → SameLoad (take_permit m) n
      → Balanced (settle_start env r n).1
  unfolding settle_start ◌>>=◌
  settle_start-Balanced (ok (row, child)) m n b h s = record {
    sum = rw (s.config, s.tasks, s.permits) (omega (arith, b.sum));
  }
  settle_start-Balanced (err e) m n b h s = record {
    sum = rw (s.config, s.tasks, s.permits) (omega (arith, b.sum));
  }

  admit-Balanced :
      (request : ProcessRunRequest) (m : Manager)
      → Balanced m
      → 0 < m.permits
      → Balanced (admit env request m).1
  unfolding admit ◌>>=◌
  admit-Balanced request m b h =
      settle_start-Balanced (start_process env request (take_permit m)).0 m _ b h
        ((start_process-Keeps env request).at (take_permit m))

  register-Balanced :
      (row : ProcessRecord) (child : Child) (m : Manager)
      → Balanced m
      → Balanced (register env row child m).1
  unfolding register ◌>>=◌
  register-Balanced row child m b =
      let (s, e) =
        append_process_event-told env row.id row.session_id "process.started"
          RuntimeEventCriticality.critical
          (("process_id", text row.id)
            ∷ ("pid", json (num_or_null child.pid))
            ∷ ("cwd", json (text_or_null row.cwd))
            ∷ [])
          (record (put_object row.id (managed row (some child)) m) {
            processes = row.id ∷ m.processes;
          }) in
      rw e (record { sum = rw (length-move_task row.id (Task.launched row.id) m.tasks) b.sum })

  leave-Balanced :
      (id : String) (m n : Manager)
      → Balanced m
      → holds id m.tasks ≡ true
      → SameLoad m n
      → Balanced (leave env id n).1
  unfolding leave ◌>>=◌
  leave-Balanced id m n b h s = record {
    sum = rw (s.config, s.tasks, s.permits) (omega (arith, b.sum, length-end_task id m.tasks h));
  }

  take_child-Balanced :
      (id : String) (m : Manager)
      → Balanced m
      → holds id m.tasks ≡ true
      → Balanced (take_child env id m).1
  unfolding take_child take_child_found take_child_of ◌>>=◌
  take_child-Balanced id m b h = elim (Option-cases (Map.get id m.objects)) [
    | inl e ↦ rw e (leave-Balanced id m m b h (SameLoad-refl m))
    | inr (p, e) ↦ elim (Option-cases p.child) [
      | inl e' ↦ rw (e, e') (leave-Balanced id m m b h (SameLoad-refl m))
      | inr (c, e') ↦
          rw (e, e') (record { sum = rw (length-move_task id (Task.waiting id) m.tasks) b.sum })
    ]
  ]

  finish-Balanced :
      (id : String) (status : ProcessStatus) (code signal : Option ℕ) (m : Manager)
      → Balanced m
      → holds id m.tasks ≡ true
      → Balanced (finish env id status code signal m).1
  unfolding finish ◌>>=◌
  finish-Balanced id status code signal m b h =
      let p = Map.get id m.objects in
      let ((session_id, e), kept) = record_end-SameLoad env id status code signal p m in
      let m' = (record_end env id status code signal p m).1 in
      let (s, e') =
        append_process_event-told env id session_id (end_kind status)
          RuntimeEventCriticality.critical
          (("process_id", text id)
            ∷ ("status", text (status_text status))
            ∷ ("exit_code", json (num_or_null code))
            ∷ ("signal", json (num_or_null signal))
            ∷ [])
          m' in
      rw (e, e')
        (leave-Balanced id m (told s m') b h
          (record { permits = kept.permits; tasks = kept.tasks; config = kept.config }))

  child_ended-Balanced :
      (id : String) (wait : WaitResult) (m : Manager)
      → Balanced m
      → Balanced (child_ended env id wait m).1
  unfolding child_ended modify
  child_ended-Balanced id wait m b =
      let (status, code, signal) = end_of env (Map.get id m.objects) wait in
      record { sum = rw (length-move_task id (Task.ending id status code signal) m.tasks) b.sum }

  step-Balanced : {m n : Manager} → Step env m n → Balanced m → Balanced n
  step-Balanced (admitted {m} request h) b = admit-Balanced request m b h
  step-Balanced (registered {m} row child h) b = register-Balanced row child m b
  step-Balanced (taken {m} id h) b = take_child-Balanced id m b h
  step-Balanced (late {m} id) b = SameLoad-Balanced (time_out-SameLoad env id m) b
  step-Balanced (ended {m} id wait) b = child_ended-Balanced id wait m b
  step-Balanced (finished {m} id status code signal h) b =
      finish-Balanced id status code signal m b h
  step-Balanced (wrote {m} stream id path chunk p) b =
      SameLoad-Balanced (write_chunk-SameLoad env stream id path chunk p m) b
  step-Balanced (reported {m} stream id session_id budget size n) b =
      SameLoad-Balanced ((report_chunk-Keeps env stream id session_id budget size n).at m) b
  step-Balanced (kill_requested {m} id) b = SameLoad-Balanced (request_kill-SameLoad env id m) b
  step-Balanced (signalled {m} id) b = SameLoad-Balanced ((signal_child-Keeps env id).at m) b
  step-Balanced (kill_reported {m} killed p reason) b =
      SameLoad-Balanced ((report_kill-Keeps env killed p reason).at m) b
  step-Balanced (cleaned {m} ids) b = record { sum = b.sum }

  Reach-Balanced : {m n : Manager} → Reach env m n → Balanced m → Balanced n
  Reach-Balanced here b = b
  Reach-Balanced (next r step) b = step-Balanced step (Reach-Balanced r b)

  -- From a state where every permit is free or held by one call, whatever the tasks of the server
  -- do and in whatever order: every permit stays free or held by one call, and there are never more
  -- calls that start or wait for a process than `max_concurrent`, or one where that is 0.
  pub Reach-few :
      {m n : Manager}
      → Reach env m n
      → Balanced m
      → Balanced n
        × (length n.tasks ≤ (if leb n.config.max_concurrent 1 then 1 else n.config.max_concurrent))
  Reach-few r b = let b' = Reach-Balanced r b in (b', omega (arith, b'.sum))
