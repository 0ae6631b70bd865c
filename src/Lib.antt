-- ===== src/Lib.antt =====
-- Verification of gooselake, a runtime that drives coding-agent sessions through provider adapters
-- and lets teams of sessions send each other messages.
--
-- The program's parts and their files.
-- - Error, Records, Provider: crates/runtime-core/src/error.rs, state.rs and provider.rs. Statuses are
--   texts in the source; here they are data types with a constructor `other` for any other text.
-- - Json: the values of serde_json that the code reads and builds. A number is kept as the
--   natural number that it stands for.
-- - Text, Map, Base: what the source uses of Rust's texts, maps and sequences. A HashMap is an
--   association list, whose order stands for the arbitrary order of iteration.
-- - Store: crates/runtime-store-sqlite/src/repository_upserts.rs and repository.rs, as functions on
--   tables: what each upsert keeps of an old row, and the log of events.
-- - World: the fields of `RuntimeSessionManager` and `RuntimeTeamCommsService` that change
--   (runtime/mod.rs, team_comms/state.rs), and the environment. An operation is a function from a
--   state to a result and a state. Nothing is rolled back on an error, as in the source.
-- - Session: crates/runtime-core/src/runtime. Lifecycle has sessions.rs; Started, Turns, Results and
--   Approvals have turns.rs; Transcript has helpers.rs.
--   Repairs and Recovery have recovery.rs: the records that a restart repairs, and the walk that
--   repairs them.
-- - Team: crates/runtime-core/src/team_comms. Helpers has helpers.rs; Transition and Delivery have
--   delivery.rs; Roster, Members, Messages, Queries and Control have service_impl.rs; Drafts and
--   Messages have create_message_and_deliveries of mod.rs; Hydration has `new` and
--   `recover_startup_deferred_deliveries` of mod.rs, on the rows that the store hands over.
-- - Process: crates/runtime-tools/src/process.rs, on a state and an environment of its own. Startup has
--   `new`; Start has `run_process`, Lifecycle `run_lifecycle`, Output `pump_stream`, Kill
--   `kill_process`; Details and Logs have what is read. Schedule has the runs of the manager, as
--   steps of its tasks in any order; a call that holds a permit of the semaphore is a Task.
-- - Worktree: crates/runtime-tools/src/worktree. Worktree and Paths have core.rs; Claims the claims,
--   Cleanup the cleanup, and Create the creation, of service.rs. Its state is in World, beside the
--   services that it shares the store with; Store/Worktrees has its tables. A run of git is a question
--   to the environment, and is noted.
-- - Examples: a small state at which the theorems are applied.
--
-- How the parts interact. The team service holds teams, messages, deliveries and a queue of deliveries
-- for each recipient; it asks the session manager for the recipient's session and starts a turn in it
-- to hand a message over. Both write each record to the store beside their own copy.
--
-- The environment. `others` is what other tasks do at each point where one may run: before a lock is
-- got, before a write to the store outside of locks, and while an adapter is awaited. It may change
-- the state at will, so that a theorem speaks of every interleaving that its hypotheses on `others`
-- allow; `Quiet` says that there is none. Adapters, the clock and the store's faults answer by the
-- number of the question, `tick`, and so may answer the same question differently each time. A log
-- file may not open, and of a write to it any number of bytes may get there.
--
-- Bounds. Milliseconds (i64 in the source) are natural numbers. The counters for ids wrap at 2 ^ 64.
-- The loop that allocates an id tries one id more than its map has entries: among so many different
-- ids one is free.
--
-- Not modelled: the SQL of hydration, the HTTP server, configuration, the adapters' processes, the
-- spawn of team members and the repair of worktrees at startup, and credentials. Broadcasts of events
-- to subscribers are left out, since no operation reads them.
pub mod Base
pub mod Map
pub mod Text
pub mod Error
pub mod Json
pub mod Records
pub mod Provider
pub mod Store
pub mod World
pub mod Session
pub mod Team
pub mod Process
pub mod Worktree
pub mod Examples
