-- ===== src/Worktree.antt =====
-- crates/runtime-tools/src/worktree/core.rs: what the worktree service shares: its ids and events,
-- the rows that it looks up, and its runs of git. The fields of `RuntimeWorktreeService` that
-- change are in World. The lock of a repository serialises the runs on it; it is a point where
-- other tasks run.
pub mod Paths
pub mod Cleanup
pub mod Claims
pub mod Create
use gooselake.Base.{
  ℕ, suc, ◌+◌, ◌%◌, String, ◌<>◌, ◌==◌, Bool, true, false, not, ◌&&◌, ◌||◌, List, [], ◌∷◌, Option,
  none, some, is_some, if◌then◌else◌, starts_with, eqb, length,
}
use gooselake.Text.{decimal, trim, is_empty}
use gooselake.Error.{RuntimeError, Result, ok, err, unsupported, not_found, io}
use gooselake.Records.{
  ManagedWorktreeRecord, ManagedWorktreeClaimRecord, RuntimeEventScope, RuntimeEventCriticality,
}
use gooselake.Store.{Store, Payload}
use gooselake.World.{
  World, Env, M, Output, pure, raise, lift, gets, attempt, modify, ◌>>=◌, ◌>>◌, others_run, now_ms,
  ask, append_to_store, u64_mod,
}

abbrev pub take_worktree_event_id : M ℕ
take_worktree_event_id = do
  n ← gets (λ w. w.next_worktree_event_id)
  modify (λ w. record w { next_worktree_event_id = (n + 1) % u64_mod })
  pure n

-- `std::process::Command::output` for a git command.
git_of : Env → String → List String → M Output
git_of env repo_root args = do
  modify (λ w. record w { git_calls = (repo_root, args) ∷ w.git_calls })
  ask env (λ n. env.git n repo_root args)

-- `args.join(" ")`.
unfoldable pub join_words : List String → String
join_words [] = ""
join_words (a ∷ []) = a
join_words (a ∷ b ∷ rest) = let others = join_words (b ∷ rest) in a <> (" " <> others)

unfoldable pub is_allowed : Option ℕ → List ℕ → Bool
is_allowed code [] = false
is_allowed none (a ∷ rest) = false
is_allowed (some n) (a ∷ rest) = eqb n a || is_allowed (some n) rest

unfoldable pub git_failure : List String → Output → RuntimeError
unfolding join_words
git_failure args output =
    let stderr = trim output.stderr in
    if is_empty stderr
    then io ("git " <> (join_words args <> (" failed with status " <> output.status)))
    else io ("git " <> (join_words args <> (" failed: " <> stderr)))

unfoldable pub check_output : List String → List ℕ → Output → M Output
unfolding is_allowed git_failure
check_output args allowed output =
    if output.success || is_allowed output.exit_code allowed
    then pure output
    else raise (git_failure args output)

module _ (env : Env) where
  unfoldable pub ensure_enabled : M (Unit {0})
  ensure_enabled =
      if env.worktrees.enabled
      then pure tt
      else raise (unsupported "managed worktrees are disabled")

  unfoldable pub append_worktree_event :
      String → String → Payload → Option String → Option String → M (Unit {0})
  append_worktree_event worktree_id kind payload session_id team_id = do
    n ← take_worktree_event_id
    at ← now_ms env
    others_run env
    attempt (
        append_to_store env (record {
          event_id =
              "evt_worktree_"
              <> (worktree_id <> ("_" <> (env.event_id_nonce <> ("_" <> decimal n))));
          scope = RuntimeEventScope.worktree;
          scope_id = worktree_id;
          session_id = session_id;
          team_id = team_id;
          turn_id = none;
          kind = kind;
          criticality = RuntimeEventCriticality.critical;
          payload = payload;
          created_at = at;
        }))
    pure tt

  unfoldable pub run_git_for_repo : String → List String → List ℕ → M Output
  unfolding git_of check_output
  run_git_for_repo repo_root args allowed = do
    output ← git_of env repo_root args
    check_output args allowed output

  -- `Path::exists`.
  unfoldable pub exists : String → M Bool
  exists path = ask env (λ n. ok (env.exists n path))

unfoldable pub is_record_tombstoned : ManagedWorktreeRecord → Bool
is_record_tombstoned r =
    starts_with r.repo_root "__gg_tombstoned__/"
    || starts_with r.worktree_cwd "__gg_tombstoned__/"
    || starts_with r.branch_name "__gg_tombstoned__/"

unfoldable pub find_worktree : String → List ManagedWorktreeRecord → Option ManagedWorktreeRecord
unfolding is_record_tombstoned
find_worktree id [] = none
find_worktree id (row ∷ rows) =
    if row.id == id && not (is_record_tombstoned row) then some row else find_worktree id rows

unfoldable pub found_or : String → Option ManagedWorktreeRecord → Result ManagedWorktreeRecord
found_or id none = err (not_found ("worktree " <> id))
found_or id (some row) = ok row

unfoldable pub get_worktree_from_hydrated : String → Store → M ManagedWorktreeRecord
unfolding find_worktree found_or
get_worktree_from_hydrated id s = lift (found_or id (find_worktree id s.managed_worktrees))

-- `row.released_at.is_none()`.
abbrev pub is_active : ManagedWorktreeClaimRecord → Bool
is_active c = not (is_some c.released_at)

unfoldable pub active_claims_for :
    String → List ManagedWorktreeClaimRecord → List ManagedWorktreeClaimRecord
active_claims_for worktree_id [] = []
active_claims_for worktree_id (c ∷ claims) =
    let rest = active_claims_for worktree_id claims in
    if c.worktree_id == worktree_id && is_active c then c ∷ rest else rest
