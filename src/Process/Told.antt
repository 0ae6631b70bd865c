-- ===== src/Process/Told.antt =====
-- What an event of a process changes.
use gooselake.Base.{ℕ, suc, ◌+◌, ◌%◌, String, ◌≡◌, refl, Option, Option-cases, inl, inr}
use gooselake.Error.{ok}
use gooselake.Records.{ProcessRecord, RuntimeEventCriticality}
use gooselake.Store.{Store, Payload}
use gooselake.World.{u64_mod}
use gooselake.Process.{
  Manager, ProcessEnv, ◌>>=◌, append_process_event, append_to_store, written, persist, others_run,
  now_ms,
}

abbrev pub told : Store → Manager → Manager
told s m = record m {
  store = s;
  next_event_id = (m.next_event_id + 1) % u64_mod;
  tick = suc (suc m.tick);
}

module _ (env : ProcessEnv) where
  pub append_process_event-told :
      (id : String) (session_id : Option String) (kind : String)
      (criticality : RuntimeEventCriticality) (payload : Payload) (m : Manager)
      → (s : Store) × (append_process_event env id session_id kind criticality payload m
          ≡ (ok tt, told s m))
  unfolding append_process_event append_to_store written now_ms ◌>>=◌
  append_process_event-told id session_id kind criticality payload m = (
    (append_process_event env id session_id kind criticality payload m).1.store,
    elim (Option-cases (env.store_fault (suc m.tick))) [
      | inl e ↦ rw e refl
      | inr (x, e) ↦ rw e refl
    ],
  )

  -- A write of a process's row changes the store and the count of questions.
  pub persist-told :
      (row : ProcessRecord) (m : Manager)
      → (s : Store) × ((persist env row m).1 ≡ record m { store = s; tick = suc m.tick })
  unfolding persist written
  persist-told row m = (
    (persist env row m).1.store,
    elim (Option-cases (env.store_fault m.tick)) [ inl e ↦ rw e refl | inr (x, e) ↦ rw e refl ],
  )

-- No other task runs.
abbrev pub Quiet : ProcessEnv → Type 0
Quiet env = (n : ℕ) (m : Manager) → env.others n m ≡ m

module _ (env : ProcessEnv) (quiet : Quiet env) where
  pub others_run-quiet : (m : Manager) → others_run env m ≡ (ok tt, record m { tick = suc m.tick })
  unfolding others_run
  others_run-quiet m = rw (quiet m.tick (record m { tick = suc m.tick })) refl
