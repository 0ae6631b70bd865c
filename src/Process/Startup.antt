-- ===== src/Process/Startup.antt =====
-- crates/runtime-tools/src/process.rs, `new`: the processes that the store remembers, and the first
-- number for a new one.
pub mod Fresh
use gooselake.Base.{
  ℕ, ◌+◌, ◌%◌, String, ◌==◌, Bool, true, false, List, [], ◌∷◌, Option, none, some, if◌then◌else◌,
  leb, ◌++◌,
}
use gooselake.Text.{parse_u64}
use gooselake.Text.Words.{strip_prefix}
use gooselake.Map
use gooselake.Records.{ProcessRecord, ProcessStatus}
use gooselake.World.{u64_mod}
use gooselake.Process.{
  managed, Manager, ProcessEnv, M, pure, gets, modify, ◌>>=◌, ◌>>◌, now_ms, persist, put_object,
}

parse_rest : Option String → Option ℕ
parse_rest none = none
parse_rest (some value) = parse_u64 value

unfoldable pub parse_process_sequence : String → Option ℕ
unfolding parse_rest strip_prefix
parse_process_sequence process_id = parse_rest (strip_prefix "proc_" process_id)

-- `max_seq.max(seq)`, where there is a sequence.
unfoldable pub max_with : ℕ → Option ℕ → ℕ
max_with m none = m
max_with m (some seq) = if leb m seq then seq else m

-- "running" and "queued".
abbrev pub is_live : ProcessStatus → Bool
is_live ProcessStatus.running = true
is_live ProcessStatus.queued = true
is_live s = false

unfoldable pub enter_process : ProcessRecord → Manager → Manager
enter_process row m = record (put_object row.id (managed row none) m) {
  processes = row.id ∷ m.processes;
}

module _ (env : ProcessEnv) where
  -- A process that was alive when the server stopped is failed now.
  unfoldable pub recover_process : ProcessRecord → M ProcessRecord
  recover_process row =
      if is_live row.status
      then (do
        ended_at ← now_ms env
        let failed = record row { status = ProcessStatus.failed; ended_at = some ended_at }
        persist env failed
        modify (λ m. record m {
          startup_recovered_processes = m.startup_recovered_processes ++ row.id ∷ [];
        })
        pure failed)
      else pure row

  -- The loop over the hydrated records, which returns the greatest sequence.
  unfoldable pub hydrate_processes : List ProcessRecord → ℕ → M ℕ
  hydrate_processes [] max_seq = pure max_seq
  hydrate_processes (row ∷ rows) max_seq = do
    recovered ← recover_process row
    modify (enter_process recovered)
    hydrate_processes rows (max_with max_seq (parse_process_sequence row.id))

  -- `new`, behind the creation of the log directory: `blank` has the store and the configuration.
  unfoldable pub new : M (Unit {0})
  new = do
    m ← gets (λ m. m)
    max_seq ← hydrate_processes (Map.values m.store.processes) 0
    modify (λ m. record m {
      permits = if leb m.config.max_concurrent 1 then 1 else m.config.max_concurrent;
      next_process_id = (max_seq + 1) % u64_mod;
      next_event_id = 1;
    })
