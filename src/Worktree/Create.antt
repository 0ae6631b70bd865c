-- ===== src/Worktree/Create.antt =====
-- crates/runtime-tools/src/worktree: the creation of a worktree (service.rs) and its steps (core.rs).
use gooselake.Base.{
  ℕ, ◌+◌, ◌%◌, String, ◌<>◌, ◌==◌, Bool, true, false, not, ◌&&◌, List, [], ◌∷◌, Option, none, some,
  unwrap_or, if◌then◌else◌, eqb, length,
}
use gooselake.Text.{decimal, trim, is_empty}
use gooselake.Json.{obj, field, end, str}
use gooselake.Error.{Result, ok, err, to_string, invalid_state}
use gooselake.Records.{SessionRecord, ManagedWorktreeRecord}
use gooselake.Store.{Store, worktree, text}
use gooselake.Store.Worktrees.{upsert_managed_worktree, append_team_operation_diagnostic}
use gooselake.World.{
  Env, M, Output, pure, raise, ok_or, gets, attempt, modify, ◌>>=◌, ◌>>◌, others_run, now_ms, ask,
  u64_mod,
}
use gooselake.Session.{get_session, persist_unlocked}
use gooselake.Session.Transcript.{trimmed_non_empty}
use gooselake.Worktree.{
  ensure_enabled, append_worktree_event, git_of, run_git_for_repo, exists, is_record_tombstoned,
  active_claims_for,
}
use gooselake.Worktree.Paths.{
  PlannedWorktreePaths, is_absolute, join_path, normalize_deletion_policy, plan_worktree_paths,
}

pub record WorktreeCreateRequest : Type 0 where
  pub team_id : Option String
  pub source_session_id : String
  pub repo_root : Option String
  pub worktree_name : String
  pub branch_prefix : Option String
  pub base_ref : Option String
  pub deletion_policy : Option String
  pub run_init_script : Option Bool
  pub created_by_session_id : Option String
  pub operation_id : Option String

pub record WorktreeCreateResponse : Type 0 where
  pub worktree : ManagedWorktreeRecord
  pub created : Bool
  pub init_script_status : String

abbrev pub allocate_worktree_id : M String
allocate_worktree_id = do
  n ← gets (λ w. w.next_worktree_id)
  modify (λ w. record w { next_worktree_id = (n + 1) % u64_mod })
  pure ("wt_" <> decimal n)

unfoldable pub worktree_by_identity :
    PlannedWorktreePaths → List ManagedWorktreeRecord → Option ManagedWorktreeRecord
unfolding is_record_tombstoned
worktree_by_identity p [] = none
worktree_by_identity p (row ∷ rows) =
    if not (is_record_tombstoned row)
      && row.repo_root == p.repo_root
      && row.worktree_cwd == p.worktree_cwd
      && row.branch_name == p.branch_name
    then some row
    else worktree_by_identity p rows

unfoldable pub new_worktree :
    WorktreeCreateRequest → PlannedWorktreePaths → String → String → ℕ → ManagedWorktreeRecord
new_worktree request p id deletion_policy now = record {
  id = id;
  repo_root = p.repo_root;
  worktree_root = p.worktree_root;
  worktree_cwd = p.worktree_cwd;
  branch_name = p.branch_name;
  worktree_name = p.worktree_name;
  unified_workspace_path = p.unified_workspace_path;
  deletion_policy = deletion_policy;
  created_by_session_id = request.created_by_session_id;
  created_by_operation_id = request.operation_id;
  created_at = now;
  updated_at = now;
}

abbrev pub exited_with : ℕ → Option ℕ → Bool
exited_with n none = false
exited_with n (some code) = eqb code n

abbrev pub show_branch : String → List String
show_branch branch_name = "show-ref" ∷ "--verify" ∷ "--quiet" ∷ ("refs/heads/" <> branch_name) ∷ []

unfoldable pub base_args : Option String → List String
base_args none = []
base_args (some base_ref) = base_ref ∷ []

module _ (env : Env) where
  unfoldable pub resolve_repo_root_from_source_cwd : String → M String
  unfolding git_of
  resolve_repo_root_from_source_cwd source_cwd = do
    output ← git_of env source_cwd ("rev-parse" ∷ "--show-toplevel" ∷ [])
    let repo_root = trim output.stdout
    if not output.success
        then raise (invalid_state "source session cwd is not inside a git repository")
        else if is_empty repo_root
        then raise (invalid_state "unable to resolve git repository root")
        else pure repo_root

  unfoldable pub repo_root_of : Option String → String → M String
  repo_root_of none source_cwd = resolve_repo_root_from_source_cwd source_cwd
  repo_root_of (some value) source_cwd = pure value

  unfoldable pub branch_exists_for_record : ManagedWorktreeRecord → M Bool
  branch_exists_for_record row = do
    output ← run_git_for_repo env row.repo_root (show_branch row.branch_name) (1 ∷ [])
    pure (exited_with 0 output.exit_code)

  or_live : Result Bool → M Bool
  or_live (ok b) = pure b
  or_live (err e) = pure true

  unfoldable pub has_live_artifacts_for_record : ManagedWorktreeRecord → M Bool
  unfolding or_live
  has_live_artifacts_for_record row = do
    is_there ← exists env row.worktree_cwd
    if is_there
        then pure true
        else (do found ← attempt (branch_exists_for_record row); or_live found)

  unfoldable pub script_ended : Output → M String
  script_ended output =
      let stderr = trim output.stderr in
      if output.success
      then pure "succeeded"
      else raise (
          invalid_state (
            if is_empty stderr
            then "worktree init script failed"
            else "worktree init script failed: " <> stderr))

  unfoldable pub run_worktree_init_script : String → M String
  unfolding script_ended is_absolute join_path
  run_worktree_init_script worktree_cwd = do
    let configured = env.worktrees.init_script_path
    let script_path =
        if is_absolute configured then configured else join_path worktree_cwd configured
    let command = if is_absolute configured then script_path else "./" <> configured
    is_there ← exists env script_path
    if not is_there
        then pure "skipped_missing"
        else (do output ← ask env (λ n. env.run_script n command worktree_cwd); script_ended output)

  unfoldable pub upsert_worktree_record :
      WorktreeCreateRequest → PlannedWorktreePaths → String → String → M ManagedWorktreeRecord
  unfolding new_worktree worktree_by_identity
  upsert_worktree_record request p id deletion_policy = do
    now ← now_ms env
    persist_unlocked env (upsert_managed_worktree (new_worktree request p id deletion_policy now))
    others_run env
    s ← gets (λ w. w.store)
    ok_or (worktree_by_identity p s.managed_worktrees) (
        invalid_state
          ("managed worktree logical upsert did not persist identity for " <> p.worktree_cwd))

  -- The script failed: what git made is taken back, whether that works or not.
  unfoldable pub undo_worktree :
      WorktreeCreateRequest → PlannedWorktreePaths → Result String → M String
  undo_worktree request p (ok status) = pure status
  undo_worktree request p (err e) = do
    at ← now_ms env
    attempt (
        persist_unlocked env (
          append_team_operation_diagnostic request.operation_id request.team_id
            "worktree_init_failed" (to_string e)
            (obj (
              field "worktree_cwd" (str p.worktree_cwd)
                (field "branch_name" (str p.branch_name) end)))
            at))
    attempt (
        run_git_for_repo env p.repo_root ("worktree" ∷ "remove" ∷ "--force" ∷ p.worktree_cwd ∷ [])
          (128 ∷ 255 ∷ []))
    attempt (run_git_for_repo env p.repo_root ("branch" ∷ "-D" ∷ p.branch_name ∷ []) (1 ∷ []))
    raise e

  unfoldable pub init_worktree : WorktreeCreateRequest → PlannedWorktreePaths → M String
  unfolding undo_worktree
  init_worktree request p =
      if unwrap_or request.run_init_script true
      then (do
        status ← attempt (run_worktree_init_script p.worktree_cwd)
        undo_worktree request p status)
      else pure "skipped_disabled"

  -- The branch and the directory are new.
  unfoldable pub make_worktree :
      WorktreeCreateRequest → SessionRecord → PlannedWorktreePaths → M WorktreeCreateResponse
  unfolding base_args trimmed_non_empty normalize_deletion_policy
  make_worktree request source p = do
    ask env (λ n. env.create_dir_all n p.worktree_root)
    run_git_for_repo env p.repo_root
        ("worktree"
          ∷ "add"
          ∷ "-b"
          ∷ p.branch_name
          ∷ p.worktree_cwd
          ∷ base_args (trimmed_non_empty request.base_ref))
        []
    status ← init_worktree request p
    id ← allocate_worktree_id
    row ←
        upsert_worktree_record request p id (normalize_deletion_policy env request.deletion_policy)
    append_worktree_event env row.id "worktree.created"
        (("worktree", worktree row) ∷ ("init_script_status", text status) ∷ []) (some source.id)
        request.team_id
    pure (record { worktree = row; created = true; init_script_status = status })

  -- The branch may not be there, and the directory neither.
  unfoldable pub is_taken : PlannedWorktreePaths → M Bool
  is_taken p = do
    output ← run_git_for_repo env p.repo_root (show_branch p.branch_name) (1 ∷ [])
    if exited_with 0 output.exit_code then pure true else exists env p.worktree_cwd

  unfoldable pub add_worktree :
      WorktreeCreateRequest → SessionRecord → PlannedWorktreePaths → M WorktreeCreateResponse
  add_worktree request source p = do
    taken ← is_taken p
    if taken
        then raise (invalid_state ("worktree name '" <> (p.worktree_name <> "' already exists")))
        else make_worktree request source p

  -- A row at the place stands, but for one that nobody claims, of which nothing is left, and whose
  -- policy is to delete it.
  unfoldable pub unless_existing :
      WorktreeCreateRequest
      → SessionRecord
      → PlannedWorktreePaths
      → ℕ
      → Option ManagedWorktreeRecord
      → M WorktreeCreateResponse
  unless_existing request source p count none = add_worktree request source p
  unless_existing request source p count (some row) = do
    live ← has_live_artifacts_for_record row
    if eqb count 0 && not live && row.deletion_policy == "delete_on_last_claim"
        then add_worktree request source p
        else pure
            (record { worktree = row; created = false; init_script_status = "skipped_existing" })

  unfoldable pub claim_count : Option ManagedWorktreeRecord → Store → ℕ
  unfolding active_claims_for
  claim_count none s = 0
  claim_count (some row) s = length (active_claims_for row.id s.managed_worktree_claims)

  unfoldable pub create_worktree : WorktreeCreateRequest → M WorktreeCreateResponse
  unfolding plan_worktree_paths worktree_by_identity trimmed_non_empty
  create_worktree request = do
    ensure_enabled env
    source ← get_session env request.source_session_id
    source_cwd ← ok_or source.cwd (invalid_state "source session has no cwd for worktree planning")
    repo_root ← repo_root_of (trimmed_non_empty request.repo_root) source_cwd
    let p = plan_worktree_paths env repo_root request.worktree_name request.branch_prefix
    others_run env
    others_run env
    s ← gets (λ w. w.store)
    let existing = worktree_by_identity p s.managed_worktrees
    unless_existing request source p (claim_count existing s) existing
