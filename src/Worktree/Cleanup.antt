-- ===== src/Worktree/Cleanup.antt =====
-- crates/runtime-tools/src/worktree/service.rs: the cleanup of a worktree that nobody claims.
use gooselake.Base.{
  ℕ, zero, suc, String, ◌<>◌, ◌==◌, Bool, true, false, not, List, [], ◌∷◌, ◌++◌, map, Option, none,
  some, if◌then◌else◌, eqb, length,
}
use gooselake.Json.{Value, null, obj, field, end, str, bool, arr, of_list}
use gooselake.Error.{Result, ok, err, to_string}
use gooselake.Records.{ManagedWorktreeRecord}
use gooselake.Store.{text, json}
use gooselake.Store.Worktrees.{append_team_operation_diagnostic}
use gooselake.World.{Env, M, Output, pure, gets, attempt, ◌>>=◌, ◌>>◌, others_run, now_ms}
use gooselake.Session.{persist_unlocked}
use gooselake.Worktree.{
  ensure_enabled, append_worktree_event, run_git_for_repo, exists, get_worktree_from_hydrated,
  active_claims_for,
}

pub record WorktreeCleanupRequest : Type 0 where
  pub worktree_id : String
  pub reason : Option String

pub record WorktreeCleanupResponse : Type 0 where
  pub worktree_id : String
  pub status : String
  pub deletion_policy : String
  pub active_claim_count : ℕ
  pub worktree_path_deleted : Bool
  pub branch_deleted : Bool
  pub diagnostics : List String

text_or_null : Option String → Value
text_or_null none = null
text_or_null (some s) = str s

-- What the two steps of a cleanup found: the path, the branch, and what went wrong.
pub record Cleaned : Type 0 where
  pub worktree_path_deleted : Bool
  pub branch_deleted : Bool
  pub diagnostics : List String

abbrev pub is_one : Option ℕ → Bool
is_one none = false
is_one (some code) = eqb code 1

abbrev pub is_clean : List String → Bool
is_clean [] = true
is_clean (d ∷ ds) = false

unfoldable pub kept_response : ManagedWorktreeRecord → String → ℕ → WorktreeCleanupResponse
kept_response row status count = record {
  worktree_id = row.id;
  status = status;
  deletion_policy = row.deletion_policy;
  active_claim_count = count;
  worktree_path_deleted = false;
  branch_deleted = false;
  diagnostics = [];
}

abbrev pub diagnostics_value : List String → Value
diagnostics_value ds = arr (of_list (map str ds))

module _ (env : Env) where
  unfoldable pub path_removed : ManagedWorktreeRecord → Result Output → M Cleaned
  path_removed row (err e) = pure (record {
    worktree_path_deleted = false;
    branch_deleted = false;
    diagnostics = to_string e ∷ [];
  })
  path_removed row (ok output) = do
    is_there ← exists env row.worktree_cwd
    pure (record { worktree_path_deleted = not is_there; branch_deleted = false; diagnostics = [] })

  -- The directory: what is there is removed by git.
  unfoldable pub remove_path : ManagedWorktreeRecord → M Cleaned
  unfolding path_removed
  remove_path row = do
    is_there ← exists env row.worktree_cwd
    if is_there
        then (do
          removed ← attempt (
              run_git_for_repo env row.repo_root
                ("worktree" ∷ "remove" ∷ "--force" ∷ row.worktree_cwd ∷ []) (128 ∷ 255 ∷ []))
          path_removed row removed)
        else pure
            (record { worktree_path_deleted = true; branch_deleted = false; diagnostics = [] })

  unfoldable pub branch_removed : Cleaned → Result Output → M Cleaned
  branch_removed c (ok output) = pure (record c { branch_deleted = true })
  branch_removed c (err e) = pure (record c { diagnostics = c.diagnostics ++ to_string e ∷ [] })

  unfoldable pub branch_looked_up : ManagedWorktreeRecord → Cleaned → Result Output → M Cleaned
  unfolding branch_removed
  branch_looked_up row c (err e) =
      pure (record c { diagnostics = c.diagnostics ++ to_string e ∷ [] })
  branch_looked_up row c (ok output) =
      if is_one output.exit_code then pure (record c { branch_deleted = true }) else (do
        removed ←
            attempt
              (run_git_for_repo env row.repo_root ("branch" ∷ "-D" ∷ row.branch_name ∷ []) (1 ∷ []))
        branch_removed c removed)

  -- The branch, where it is there.
  unfoldable pub remove_branch : ManagedWorktreeRecord → Cleaned → M Cleaned
  unfolding branch_looked_up
  remove_branch row c = do
    found ← attempt (
        run_git_for_repo env row.repo_root
          ("show-ref" ∷ "--verify" ∷ "--quiet" ∷ ("refs/heads/" <> row.branch_name) ∷ []) (1 ∷ []))
    branch_looked_up row c found

  unfoldable pub report_cleanup :
      WorktreeCleanupRequest → ManagedWorktreeRecord → Cleaned → M (Unit {0})
  unfolding text_or_null
  report_cleanup request row c =
      if is_clean c.diagnostics
      then append_worktree_event env row.id "worktree.cleaned_up"
          (("worktree_id", text row.id)
            ∷ ("reason", json (text_or_null request.reason))
            ∷ ("worktree_path_deleted", json (bool c.worktree_path_deleted))
            ∷ ("branch_deleted", json (bool c.branch_deleted))
            ∷ [])
          none none
      else (do
        at ← now_ms env
        attempt (
            persist_unlocked env (
              append_team_operation_diagnostic none none "worktree_cleanup_failed"
                "managed worktree cleanup failed"
                (obj (
                  field "worktree_id" (str row.id)
                    (field "diagnostics" (diagnostics_value c.diagnostics) end)))
                at))
        append_worktree_event env row.id "worktree.cleanup_failed"
            (("worktree_id", text row.id)
              ∷ ("reason", json (text_or_null request.reason))
              ∷ ("diagnostics", json (diagnostics_value c.diagnostics))
              ∷ [])
            none none)

  unfoldable pub delete_worktree :
      WorktreeCleanupRequest → ManagedWorktreeRecord → M WorktreeCleanupResponse
  delete_worktree request row = do
    others_run env
    others_run env
    path ← remove_path row
    c ← remove_branch row path
    report_cleanup request row c
    pure (record {
      worktree_id = row.id;
      status = if is_clean c.diagnostics then "deleted" else "cleanup_failed";
      deletion_policy = row.deletion_policy;
      active_claim_count = 0;
      worktree_path_deleted = c.worktree_path_deleted;
      branch_deleted = c.branch_deleted;
      diagnostics = c.diagnostics;
    })

  -- By the number of claims on the worktree that are active.
  unfoldable pub cleanup_found :
      WorktreeCleanupRequest → ManagedWorktreeRecord → ℕ → M WorktreeCleanupResponse
  unfolding kept_response
  cleanup_found request row (suc n) = pure (kept_response row "skipped_live_claims" (suc n))
  cleanup_found request row zero =
      if row.deletion_policy == "delete_on_last_claim"
      then delete_worktree request row
      else pure (kept_response row "retained_by_policy" 0)

  unfoldable pub cleanup_worktree : WorktreeCleanupRequest → M WorktreeCleanupResponse
  unfolding active_claims_for
  cleanup_worktree request = do
    ensure_enabled env
    others_run env
    s ← gets (λ w. w.store)
    row ← get_worktree_from_hydrated request.worktree_id s
    cleanup_found request row (length (active_claims_for row.id s.managed_worktree_claims))
