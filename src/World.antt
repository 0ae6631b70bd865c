-- ===== src/World.antt =====
-- The state of a running server, what it asks of its environment, and the monad of its operations.
-- An operation returns the state beside an error too: what was written before stays written.
-- Each lock that the source takes, each write to the store outside a lock and each call of an
-- adapter is a point where other tasks may run: there `others` changes the state at will, so that a theorem about one operation speaks of
-- every interleaving with tasks that keep what its hypotheses say of `others`.
pub mod Moves
pub mod Frame
pub mod Ensures
pub mod Succeeds
use gooselake.Base.{ℕ, suc, ◌+◌, ◌%◌, String, ◌<>◌, Bool, List, [], ◌∷◌, ◌++◌, Option, none, some}
use gooselake.Text.{decimal}
use gooselake.Error.{RuntimeError, Result, ok, err}
use gooselake.Map.{Map}
use gooselake.Records.{
  SessionRecord, TurnRecord, ApprovalRecord, TeamRecord, TeamMemberRecord, TeamMessageRecord,
  TeamDeliveryRecord, RuntimeEventScope, RuntimeEventCriticality, scope_text,
}
use gooselake.Provider.{
  ProviderKind, ProviderCreateSessionRequest, ProviderResumeSessionRequest, ProviderSendTurnRequest,
  ProviderInterruptTurnRequest, ProviderApprovalResponseRequest, ProviderCloseSessionRequest,
  ProviderSession, ProviderTurnAck,
}
use gooselake.Store.{Store, Payload, NewRuntimeEvent, RuntimeEventRecord, append_runtime_event}

-- `TeamCommsState` (team_comms/state.rs).
pub record TeamCommsState : Type 0 where
  pub teams : Map TeamRecord
  pub members_by_team : Map (Map TeamMemberRecord)
  pub messages : Map TeamMessageRecord
  pub deliveries : Map TeamDeliveryRecord
  pub team_message_ids : Map (List String)
  pub team_delivery_ids : Map (List String)
  pub message_delivery_ids : Map (List String)
  pub recipient_delivery_ids : Map (List String)
  pub idempotency_index : Map String

-- A task started by `spawn_wait_for_turn` that has not ended.
pub record Wait : Type 0 where
  pub provider : ProviderKind
  pub session_id : String
  pub turn_id : String

-- A run of git: the repository and the arguments.
abbrev pub GitCall : Type 0
GitCall = String × List String

-- What a child process left (`std::process::Output`); a signal leaves no exit code.
pub record Output : Type 0 where
  pub success : Bool
  pub exit_code : Option ℕ
  pub status : String
  pub stdout : String
  pub stderr : String

-- `WorktreeServiceConfig` (crates/runtime-tools/src/lib.rs).
pub record WorktreeServiceConfig : Type 0 where
  pub enabled : Bool
  pub root_dir : String
  pub init_script_path : String
  pub deletion_policy_default : String

-- The fields of `RuntimeSessionManager`, `RuntimeTeamCommsService` and `RuntimeWorktreeService`
-- that change, the runs of git, latest first, the store, and the number of questions that the
-- environment has answered.
pub record World : Type 0 where
  pub sessions : Map SessionRecord
  pub turns : Map TurnRecord
  pub approvals : Map ApprovalRecord
  pub next_id : ℕ
  pub waits : List Wait
  pub comms : TeamCommsState
  pub next_team_id : ℕ
  pub next_message_id : ℕ
  pub next_delivery_id : ℕ
  pub next_event_id : ℕ
  pub next_worktree_id : ℕ
  pub next_worktree_event_id : ℕ
  pub git_calls : List GitCall
  pub store : Store
  pub tick : ℕ

-- The environment, and the configuration. The number is that of the question; `metadata` are the
-- registered adapters by their display names.
pub record Env : Type 0 where
  pub clock : ℕ → ℕ
  pub registered : ProviderKind → Bool
  pub create_session : ℕ → ProviderKind → ProviderCreateSessionRequest → Result ProviderSession
  pub resume_session : ℕ → ProviderKind → ProviderResumeSessionRequest → Result ProviderSession
  pub send_turn : ℕ → ProviderKind → ProviderSendTurnRequest → Result ProviderTurnAck
  pub interrupt_turn : ℕ → ProviderKind → ProviderInterruptTurnRequest → Result (Unit {0})
  pub respond_approval : ℕ → ProviderKind → ProviderApprovalResponseRequest → Result (Unit {0})
  pub close_session : ℕ → ProviderKind → ProviderCloseSessionRequest → Result (Unit {0})
  pub metadata : List ProviderKind
  pub healthcheck : ℕ → ProviderKind → Result (Unit {0})
  pub store_fault : ℕ → Option RuntimeError
  pub others : ℕ → World → World
  pub enabled : Bool
  pub max_pending_deliveries : ℕ
  pub event_id_nonce : String
  pub git : ℕ → String → List String → Result Output
  pub exists : ℕ → String → Bool
  pub create_dir_all : ℕ → String → Result (Unit {0})
  pub run_script : ℕ → String → String → Result Output
  pub worktrees : WorktreeServiceConfig

abbrev pub M {ℓ} : Type ℓ → Type ℓ
M A = World → Result A × World

module _ {A : Type 0} where
  unfoldable pub pure : A → M A
  pure a w = (ok a, w)

  unfoldable pub raise : RuntimeError → M A
  raise e w = (err e, w)

  unfoldable pub lift : Result A → M A
  lift r w = (r, w)

  unfoldable pub gets : (World → A) → M A
  gets f w = (ok (f w), w)

  -- `option.ok_or_else(|| e)?`.
  unfoldable pub ok_or : Option A → RuntimeError → M A
  ok_or none e w = (err e, w)
  ok_or (some a) e w = (ok a, w)

  -- The result as a value: `match call.await { Ok … Err … }`, and `let _ = call.await`.
  unfoldable pub attempt : M A → M (Result A)
  attempt m w = let (r, w') = m w in (ok r, w')

unfoldable pub modify : (World → World) → M (Unit {0})
modify f w = (ok tt, f w)

module _ {A B : Type 0} where
  abbrev pub continue : Result A → (A → M B) → M B
  continue (ok a) f w = f a w
  continue (err e) f w = (err e, w)

  infixl 10 ◌>>=◌ ◌>>◌
  unfoldable pub ◌>>=◌ : M A → (A → M B) → M B
  unfolding pure raise lift gets ok_or attempt modify
  ◌>>=◌ m f w = let (r, w') = m w in continue r f w'

  abbrev pub ◌>>◌ : M A → M B → M B
  m >> n = m >>= λ _. n

module _ (env : Env) where
  -- Other tasks run: before a lock is got, and before a write to the store outside every lock.
  unfoldable pub others_run : M (Unit {0})
  others_run w = (ok tt, env.others w.tick (record w { tick = suc w.tick }))

  unfoldable pub now_ms : M ℕ
  now_ms w = (ok (env.clock w.tick), record w { tick = suc w.tick })

  -- An adapter's answer; other tasks run while it is awaited.
  unfoldable pub ask : {A : Type 0} → (ℕ → Result A) → M A
  ask answer w = (answer w.tick, env.others w.tick (record w { tick = suc w.tick }))

  -- One write to the store, which may fail.
  unfoldable pub written : (Store → Store) → Option RuntimeError → World → Result (Unit {0}) × World
  written write none w = (ok tt, record w { store = write w.store })
  written write (some e) w = (err e, w)

  unfoldable pub persist : (Store → Store) → M (Unit {0})
  unfolding written
  persist write w = written write (env.store_fault w.tick) (record w { tick = suc w.tick })

  unfoldable pub appended :
      NewRuntimeEvent → Option RuntimeError → World → Result RuntimeEventRecord × World
  appended event none w =
      let (row, store) = append_runtime_event event w.store in (ok row, record w { store = store })
  appended event (some e) w = (err e, w)

  unfoldable pub append_to_store : NewRuntimeEvent → M RuntimeEventRecord
  unfolding appended
  append_to_store event w = appended event (env.store_fault w.tick) (record w { tick = suc w.tick })

abbrev pub u64_mod : ℕ
u64_mod = 18446744073709551616
