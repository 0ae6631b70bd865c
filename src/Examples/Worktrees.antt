-- ===== src/Examples/Worktrees.antt =====
-- The theorems on worktrees at a small state: one worktree, claimed by one of two sessions.
use gooselake.Worktree.{is_record_tombstoned}
use gooselake.Base.{◌≡◌, ◌≢◌, refl, true, false, [], ◌∷◌, none, some}
use gooselake.Records.{ManagedWorktreeRecord, ManagedWorktreeClaimRecord}
use gooselake.World.{World}
use gooselake.Worktree.Claims.{
  WorktreeClaimRequest, WorktreeReleaseRequest, claim_worktree, release_worktree,
}
use gooselake.Worktree.Cleanup.{WorktreeCleanupRequest, cleanup_worktree}
use gooselake.Worktree.Claims.Held.{KeepsExclusive, worktrees-Exclusive}
use gooselake.Worktree.Paths.{derive_unified_workspace_path}
use gooselake.Worktree.Paths.Safe.{AllPlain, derive_unified_workspace_path-plain}
use gooselake.Worktree.Claims.Same.{claims_of}
use gooselake.Worktree.Claims.Others.{is_held_by_other}
use gooselake.Worktree.Claims.Kept.{release_worktree-leaves}
use gooselake.Examples.{calm, world}

abbrev tree : ManagedWorktreeRecord
tree = record {
  id = "wt_1";
  repo_root = "/r";
  worktree_root = "/w/r";
  worktree_cwd = "/w/r/gg--a";
  branch_name = "gg/a";
  worktree_name = "a";
  unified_workspace_path = "r";
  deletion_policy = "delete_on_last_claim";
  created_by_session_id = none;
  created_by_operation_id = none;
  created_at = 1;
  updated_at = 1;
}

abbrev owned : ManagedWorktreeClaimRecord
owned = record {
  worktree_id = "wt_1";
  session_id = "ses_a";
  claim_role = "owner";
  created_at = 2;
  released_at = none;
}

abbrev forest : World
forest = record world {
  store = record world.store {
    managed_worktrees = tree ∷ [];
    managed_worktree_claims = owned ∷ [];
  };
}

abbrev claiming : WorktreeClaimRequest
claiming = record { worktree_id = "wt_1"; session_id = "ses_b"; claim_role = "Consumer" }

abbrev releasing : WorktreeReleaseRequest
releasing = record { worktree_id = "wt_1"; session_id = "ses_a"; cleanup_if_last_claim = some true }

abbrev cleaning : WorktreeCleanupRequest
cleaning = record { worktree_id = "wt_1"; reason = none }

worktrees-Exclusive_example :
    KeepsExclusive forest (claim_worktree calm claiming forest).1
    × KeepsExclusive forest (release_worktree calm releasing forest).1
    × KeepsExclusive forest (cleanup_worktree calm cleaning forest).1
worktrees-Exclusive_example =
    worktrees-Exclusive calm (λ n w. refl) claiming releasing cleaning forest

derive_unified_workspace_path-plain_example :
    AllPlain (derive_unified_workspace_path "/home/a b/repo")
    × (derive_unified_workspace_path "/home/a b/repo" ≢ "")
derive_unified_workspace_path-plain_example = derive_unified_workspace_path-plain "/home/a b/repo"

abbrev consumed : ManagedWorktreeClaimRecord
consumed = record {
  worktree_id = "wt_1";
  session_id = "ses_b";
  claim_role = "consumer";
  created_at = 3;
  released_at = none;
}

-- Both sessions hold the worktree.
abbrev shared : World
shared = record forest {
  store = record forest.store { managed_worktree_claims = owned ∷ consumed ∷ [] };
}

release_worktree-leaves_example :
    (is_held_by_other "wt_1" "ses_a" (claims_of (release_worktree calm releasing shared).1) ≡ true)
    × ((release_worktree calm releasing shared).1.git_calls ≡ [])
release_worktree-leaves_example =
    release_worktree-leaves calm (λ n w. refl) (λ n w. refl) releasing shared refl

-- A row whose repository was marked as removed, and one that has no path.
tombstoned : is_record_tombstoned (record tree { repo_root = "__gg_tombstoned__/r" }) ≡ true
unfolding is_record_tombstoned
tombstoned = refl

empty_root : is_record_tombstoned (record tree { repo_root = "" }) ≡ false
unfolding is_record_tombstoned
empty_root = refl
