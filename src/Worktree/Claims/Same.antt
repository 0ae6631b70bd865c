-- ===== src/Worktree/Claims/Same.antt =====
-- The table of claims, over what the worktree service does beside claims, and over a cleanup.
use gooselake.Base.{ℕ, suc, String, List, ◌∷◌, Option, ◌≡◌, refl, ◌∙◌, Option-cases, inl, inr, zero}
use gooselake.Json.{Value}
use gooselake.Error.{Result, ok, err}
use gooselake.Records.{ManagedWorktreeRecord, ManagedWorktreeClaimRecord}
use gooselake.Store.{Store, NewRuntimeEvent, Payload, append_runtime_event, find_event}
use gooselake.Store.Worktrees.{append_team_operation_diagnostic}
use gooselake.World.{
  World, Env, Output, ◌>>=◌, others_run, now_ms, ask, persist, written, append_to_store, appended,
}
use gooselake.World.Moves.{IsPreorder, Moves, Moves-bind, moves_rules}
use gooselake.Session.{persist_unlocked}
use gooselake.Worktree.{
  ensure_enabled, append_worktree_event, take_worktree_event_id, run_git_for_repo, git_of,
  check_output, exists, get_worktree_from_hydrated,
}
use gooselake.Worktree.Cleanup.{
  WorktreeCleanupRequest, Cleaned, path_removed, remove_path, branch_removed, branch_looked_up,
  remove_branch, report_cleanup, delete_worktree, cleanup_found, cleanup_worktree,
}

abbrev pub claims_of : World → List ManagedWorktreeClaimRecord
claims_of w = w.store.managed_worktree_claims

abbrev pub SameClaims : World → World → Type 0
SameClaims w v = claims_of v ≡ claims_of w

-- Other tasks leave the table of claims alone.
abbrev pub LeavesClaims : Env → Type 0
LeavesClaims env = (n : ℕ) (w : World) → SameClaims w (env.others n w)

pub same_order : IsPreorder SameClaims
same_order = record { refl_at = λ w. refl; trans_at = λ u v w e e'. e' ∙ e }

append_runtime_event-claims :
    (event : NewRuntimeEvent) (s : Store)
    → (append_runtime_event event s).1.managed_worktree_claims ≡ s.managed_worktree_claims
unfolding append_runtime_event
append_runtime_event-claims event s = elim (Option-cases (find_event event.event_id s.events)) [
  | inl e ↦ rw e refl
  | inr (row, e) ↦ rw e refl
]

module _ (env : Env) (rely : LeavesClaims env) where
  pub others_run-Same : Moves SameClaims (others_run env)
  unfolding others_run
  others_run-Same = record { at = λ w. rely w.tick (record w { tick = suc w.tick }) }

  pub now_ms-Same : Moves SameClaims (now_ms env)
  unfolding now_ms
  now_ms-Same = record { at = λ w. refl }

  ask-Same : {A : Type 0} (answer : ℕ → Result A) → Moves SameClaims (ask env answer)
  unfolding ask
  ask-Same answer = record { at = λ w. rely w.tick (record w { tick = suc w.tick }) }

  append_to_store-Same : (event : NewRuntimeEvent) → Moves SameClaims (append_to_store env event)
  unfolding append_to_store appended
  append_to_store-Same event = record {
    at = λ w. elim (Option-cases (env.store_fault w.tick)) [
      | inl e ↦ rw e (append_runtime_event-claims event w.store)
      | inr (x, e) ↦ rw e refl
    ];
  }

  persist-Same :
      (write : Store → Store)
      → ((s : Store) → (write s).managed_worktree_claims ≡ s.managed_worktree_claims)
      → Moves SameClaims (persist env write)
  unfolding persist written
  persist-Same write h = record {
    at = λ w. elim (Option-cases (env.store_fault w.tick)) [
      | inl e ↦ rw e (h w.store)
      | inr (x, e) ↦ rw e refl
    ];
  }

  persist_unlocked-Same :
      (write : Store → Store)
      → ((s : Store) → (write s).managed_worktree_claims ≡ s.managed_worktree_claims)
      → Moves SameClaims (persist_unlocked env write)
  unfolding persist_unlocked
  persist_unlocked-Same write h =
      Moves-bind same_order _ _ others_run-Same (λ u. persist-Same write h)

  take_worktree_event_id-Same : Moves SameClaims take_worktree_event_id
  unfolding ◌>>=◌
  take_worktree_event_id-Same = record { at = λ w. refl }

  git_of-Same :
      (repo_root : String) (args : List String) → Moves SameClaims (git_of env repo_root args)
  unfolding git_of ask ◌>>=◌
  git_of-Same repo_root args = record {
    at = λ w.
        rely w.tick (record w { git_calls = (repo_root, args) ∷ w.git_calls; tick = suc w.tick });
  }

  run_git-Same :
      (repo_root : String) (args : List String) (allowed : List ℕ)
      → Moves SameClaims (run_git_for_repo env repo_root args allowed)
  unfolding run_git_for_repo check_output
  run_git-Same repo_root args allowed = search (moves_rules, same_order, git_of-Same) depth 12

  exists-Same : (path : String) → Moves SameClaims (exists env path)
  unfolding exists
  exists-Same path = ask-Same (λ n. ok (env.exists n path))

  pub ensure_enabled-Same : Moves SameClaims (ensure_enabled env)
  unfolding ensure_enabled
  ensure_enabled-Same = search (moves_rules, same_order) depth 8

  pub append_worktree_event-Same :
      (worktree_id kind : String) (payload : Payload) (session_id team_id : Option String)
      → Moves SameClaims (append_worktree_event env worktree_id kind payload session_id team_id)
  unfolding append_worktree_event
  append_worktree_event-Same worktree_id kind payload session_id team_id =
      search
        (
          moves_rules, same_order, take_worktree_event_id-Same, now_ms-Same, others_run-Same,
          append_to_store-Same,
        )
        depth 16

  diagnostic-Same :
      (operation_id team_id : Option String) (code message : String) (payload : Value) (at : ℕ)
      → Moves SameClaims (
          persist_unlocked env
            (append_team_operation_diagnostic operation_id team_id code message payload at))
  unfolding append_team_operation_diagnostic
  diagnostic-Same operation_id team_id code message payload at =
      persist_unlocked-Same
        (append_team_operation_diagnostic operation_id team_id code message payload at) (λ s. refl)

  path_removed-Same :
      (row : ManagedWorktreeRecord) (r : Result Output) → Moves SameClaims (path_removed env row r)
  unfolding path_removed
  path_removed-Same row (ok output) = search (moves_rules, same_order, exists-Same) depth 10
  path_removed-Same row (err e) = search (moves_rules, same_order) depth 8

  remove_path-Same : (row : ManagedWorktreeRecord) → Moves SameClaims (remove_path env row)
  unfolding remove_path
  remove_path-Same row =
      search (moves_rules, same_order, exists-Same, run_git-Same, path_removed-Same) depth 14

  branch_removed-Same :
      (c : Cleaned) (r : Result Output) → Moves SameClaims (branch_removed env c r)
  unfolding branch_removed
  branch_removed-Same c (ok output) = search (moves_rules, same_order) depth 8
  branch_removed-Same c (err e) = search (moves_rules, same_order) depth 8

  branch_looked_up-Same :
      (row : ManagedWorktreeRecord) (c : Cleaned) (r : Result Output)
      → Moves SameClaims (branch_looked_up env row c r)
  unfolding branch_looked_up
  branch_looked_up-Same row c (ok output) =
      search (moves_rules, same_order, run_git-Same, branch_removed-Same) depth 12
  branch_looked_up-Same row c (err e) = search (moves_rules, same_order) depth 8

  remove_branch-Same :
      (row : ManagedWorktreeRecord) (c : Cleaned) → Moves SameClaims (remove_branch env row c)
  unfolding remove_branch
  remove_branch-Same row c =
      search (moves_rules, same_order, run_git-Same, branch_looked_up-Same) depth 12

  report_cleanup-Same :
      (request : WorktreeCleanupRequest) (row : ManagedWorktreeRecord) (c : Cleaned)
      → Moves SameClaims (report_cleanup env request row c)
  unfolding report_cleanup
  report_cleanup-Same request row c =
      search (moves_rules, same_order, now_ms-Same, diagnostic-Same, append_worktree_event-Same)
        depth 16

  delete_worktree-Same :
      (request : WorktreeCleanupRequest) (row : ManagedWorktreeRecord)
      → Moves SameClaims (delete_worktree env request row)
  unfolding delete_worktree
  delete_worktree-Same request row =
      search
        (
          moves_rules, same_order, others_run-Same, remove_path-Same, remove_branch-Same,
          report_cleanup-Same,
        )
        depth 16

  cleanup_found-Same :
      (request : WorktreeCleanupRequest) (row : ManagedWorktreeRecord) (count : ℕ)
      → Moves SameClaims (cleanup_found env request row count)
  unfolding cleanup_found
  cleanup_found-Same request row (suc n) = search (moves_rules, same_order) depth 8
  cleanup_found-Same request row zero =
      search (moves_rules, same_order, delete_worktree-Same) depth 10

  pub get_worktree-Same :
      (id : String) (s : Store) → Moves SameClaims (get_worktree_from_hydrated id s)
  unfolding get_worktree_from_hydrated
  get_worktree-Same id s = search (moves_rules, same_order) depth 8

  pub cleanup_worktree-Same :
      (request : WorktreeCleanupRequest) → Moves SameClaims (cleanup_worktree env request)
  unfolding cleanup_worktree
  cleanup_worktree-Same request =
      search
        (
          moves_rules, same_order, ensure_enabled-Same, others_run-Same, get_worktree-Same,
          cleanup_found-Same,
        )
        depth 16
