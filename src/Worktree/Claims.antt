-- ===== src/Worktree/Claims.antt =====
-- crates/runtime-tools/src/worktree/service.rs: the look-ups, the claims on worktrees, and the
-- cleanup after the last claim.
pub mod Compatible
pub mod Held
pub mod Others
pub mod Kept
pub mod Same
use gooselake.Base.{
  ℕ, zero, suc, String, ◌<>◌, ◌==◌, Bool, true, false, not, ◌&&◌, List, [], ◌∷◌, ◌++◌, map, Option,
  none, some, is_some, unwrap_or, if◌then◌else◌, eqb, ltb, length,
}
use gooselake.Text.{trim, to_ascii_lowercase}
use gooselake.Json.{Value, null, obj, field, end, str, bool, arr, of_list}
use gooselake.Error.{RuntimeError, Result, ok, err, to_string, invalid_state, not_found}
use gooselake.Records.{ManagedWorktreeRecord, ManagedWorktreeClaimRecord}
use gooselake.Store.{Store, worktree, claim, text, json}
use gooselake.Store.Worktrees.{
  is_claim, upsert_managed_worktree_claim, append_team_operation_diagnostic,
}
use gooselake.World.{
  World, Env, M, Output, pure, raise, lift, gets, attempt, modify, ◌>>=◌, ◌>>◌, others_run, now_ms,
  persist,
}
use gooselake.Session.{persist_unlocked}
use gooselake.Worktree.{
  ensure_enabled, append_worktree_event, run_git_for_repo, exists, is_record_tombstoned,
  get_worktree_from_hydrated, is_active, active_claims_for,
}
use gooselake.Worktree.Cleanup.{WorktreeCleanupRequest, WorktreeCleanupResponse, cleanup_worktree}

pub record WorktreeClaimRequest : Type 0 where
  pub worktree_id : String
  pub session_id : String
  pub claim_role : String

pub record WorktreeClaimResponse : Type 0 where
  pub worktree : ManagedWorktreeRecord
  pub claim : ManagedWorktreeClaimRecord

pub record WorktreeReleaseRequest : Type 0 where
  pub worktree_id : String
  pub session_id : String
  pub cleanup_if_last_claim : Option Bool

pub record WorktreeReleaseResponse : Type 0 where
  pub worktree : ManagedWorktreeRecord
  pub released_claim : ManagedWorktreeClaimRecord
  pub active_claim_count : ℕ
  pub cleanup : Option WorktreeCleanupResponse

unfoldable pub living_rows : List ManagedWorktreeRecord → List ManagedWorktreeRecord
living_rows [] = []
living_rows (row ∷ rows) =
    let rest = living_rows rows in if is_record_tombstoned row then rest else row ∷ rest

-- `rows.sort_by(created_at)`, which keeps the order of equal times.
unfoldable pub insert_row :
    ManagedWorktreeRecord → List ManagedWorktreeRecord → List ManagedWorktreeRecord
insert_row r [] = r ∷ []
insert_row r (q ∷ rows) =
    if ltb q.created_at r.created_at then q ∷ insert_row r rows else r ∷ q ∷ rows

unfoldable pub sort_by_created_at : List ManagedWorktreeRecord → List ManagedWorktreeRecord
unfolding insert_row
sort_by_created_at [] = []
sort_by_created_at (r ∷ rows) = insert_row r (sort_by_created_at rows)

-- A claim of the session on another worktree.
unfoldable pub find_conflict :
    String → String → List ManagedWorktreeClaimRecord → Option ManagedWorktreeClaimRecord
find_conflict session_id worktree_id [] = none
find_conflict session_id worktree_id (c ∷ claims) =
    if c.session_id == session_id && is_active c && not (c.worktree_id == worktree_id)
    then some c
    else find_conflict session_id worktree_id claims

unfoldable pub find_claim :
    String → String → List ManagedWorktreeClaimRecord → Option ManagedWorktreeClaimRecord
unfolding is_claim
find_claim worktree_id session_id [] = none
find_claim worktree_id session_id (c ∷ claims) =
    if is_claim worktree_id session_id c then some c else find_claim worktree_id session_id claims

unfoldable pub claim_or_missing :
    WorktreeReleaseRequest → Option ManagedWorktreeClaimRecord → Result ManagedWorktreeClaimRecord
claim_or_missing request none =
    err (not_found ("worktree claim " <> (request.worktree_id <> (":" <> request.session_id))))
claim_or_missing request (some c) = ok c

unfoldable pub new_claim : WorktreeClaimRequest → ℕ → ManagedWorktreeClaimRecord
new_claim request at = record {
  worktree_id = request.worktree_id;
  session_id = request.session_id;
  claim_role = to_ascii_lowercase (trim request.claim_role);
  created_at = at;
  released_at = none;
}

module _ (env : Env) where
  unfoldable pub list_worktrees : M (List ManagedWorktreeRecord)
  unfolding sort_by_created_at living_rows
  list_worktrees = do
    ensure_enabled env
    others_run env
    s ← gets (λ w. w.store)
    pure (sort_by_created_at (living_rows s.managed_worktrees))

  unfoldable pub get_worktree : String → M ManagedWorktreeRecord
  get_worktree worktree_id = do
    ensure_enabled env
    others_run env
    s ← gets (λ w. w.store)
    get_worktree_from_hydrated worktree_id s

  unfoldable pub store_claim :
      WorktreeClaimRequest → ManagedWorktreeRecord → M WorktreeClaimResponse
  unfolding new_claim
  store_claim request row = do
    at ← now_ms env
    let c = new_claim request at
    persist_unlocked env (upsert_managed_worktree_claim c)
    append_worktree_event env row.id "worktree.claimed" (("claim", claim c) ∷ [])
        (some request.session_id) none
    pure (record { worktree = row; claim = c })

  unfoldable pub unless_conflict :
      WorktreeClaimRequest
      → ManagedWorktreeRecord
      → Option ManagedWorktreeClaimRecord
      → M WorktreeClaimResponse
  unless_conflict request row none = store_claim request row
  unless_conflict request row (some conflict) = raise (
      invalid_state (
        "session "
        <> (request.session_id
            <> (" already has an active claim on worktree " <> conflict.worktree_id))))

  unfoldable pub claim_worktree : WorktreeClaimRequest → M WorktreeClaimResponse
  unfolding find_conflict
  claim_worktree request = do
    ensure_enabled env
    others_run env
    s ← gets (λ w. w.store)
    row ← get_worktree_from_hydrated request.worktree_id s
    unless_conflict request row
        (find_conflict request.session_id request.worktree_id s.managed_worktree_claims)

  -- The claim was released: who holds the worktree now?
  unfoldable pub cleanup_released :
      WorktreeReleaseRequest → ManagedWorktreeRecord → ℕ → M (Option WorktreeCleanupResponse)
  cleanup_released request row count =
      if unwrap_or request.cleanup_if_last_claim true && eqb count 0
      then (do
        response ←
            cleanup_worktree env
              (record { worktree_id = row.id; reason = some "release_last_claim" })
        pure (some response))
      else pure none

  -- The claim is written: the event, and the cleanup where no active claim is left.
  unfoldable pub finish_release :
      WorktreeReleaseRequest
      → ManagedWorktreeRecord
      → ManagedWorktreeClaimRecord
      → M WorktreeReleaseResponse
  finish_release request row released = do
    append_worktree_event env row.id "worktree.released" (("claim", claim released) ∷ [])
        (some request.session_id) none
    others_run env
    after ← gets (λ w. w.store)
    let count = length (active_claims_for row.id after.managed_worktree_claims)
    cleanup ← cleanup_released request row count
    pure (record {
      worktree = row;
      released_claim = released;
      active_claim_count = count;
      cleanup = cleanup;
    })

  unfoldable pub release_found :
      WorktreeReleaseRequest
      → ManagedWorktreeRecord
      → ManagedWorktreeClaimRecord
      → M WorktreeReleaseResponse
  release_found request row existing = do
    at ← now_ms env
    let released = record existing { released_at = some at }
    persist_unlocked env (upsert_managed_worktree_claim released)
    finish_release request row released

  unfoldable pub release_worktree : WorktreeReleaseRequest → M WorktreeReleaseResponse
  unfolding find_claim claim_or_missing
  release_worktree request = do
    ensure_enabled env
    others_run env
    s ← gets (λ w. w.store)
    row ← get_worktree_from_hydrated request.worktree_id s
    existing ← lift (
        claim_or_missing request
          (find_claim request.worktree_id request.session_id s.managed_worktree_claims))
    release_found request row existing
