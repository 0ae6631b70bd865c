-- ===== src/Store/Worktrees.antt =====
-- crates/runtime-store-sqlite/src/repository_upserts.rs: the tables of worktrees, of claims on them,
-- and of diagnostics. The rows of the first two are kept in the order in which
-- repository_hydration.rs reads them.
use gooselake.Base.{
  ◌+◌, String, ◌==◌, Bool, ◌&&◌, ◌||◌, List, [], ◌∷◌, ◌++◌, Option, none, some, if◌then◌else◌,
  length, ltb, eqb, ℕ,
}
use gooselake.Text.{trim, text_le}
use gooselake.Json.{Value}
use gooselake.Records.{ManagedWorktreeRecord, ManagedWorktreeClaimRecord}
use gooselake.Store.{Store}

-- `ORDER BY created_at ASC, id ASC`.
unfoldable pub worktree_le : ManagedWorktreeRecord → ManagedWorktreeRecord → Bool
worktree_le a b =
    ltb a.created_at b.created_at || (eqb a.created_at b.created_at && text_le a.id b.id)

unfoldable pub insert_worktree :
    ManagedWorktreeRecord → List ManagedWorktreeRecord → List ManagedWorktreeRecord
unfolding worktree_le
insert_worktree r [] = r ∷ []
insert_worktree r (q ∷ rows) = if worktree_le r q then r ∷ q ∷ rows else q ∷ insert_worktree r rows

unfoldable pub drop_worktree : String → List ManagedWorktreeRecord → List ManagedWorktreeRecord
drop_worktree id [] = []
drop_worktree id (q ∷ rows) =
    if q.id == id then drop_worktree id rows else q ∷ drop_worktree id rows

-- `WHERE repo_root = ?1 AND worktree_cwd = ?2 AND branch_name = ?3`.
unfoldable pub same_place : ManagedWorktreeRecord → ManagedWorktreeRecord → Bool
same_place r q =
    q.repo_root == r.repo_root && q.worktree_cwd == r.worktree_cwd && q.branch_name == r.branch_name

unfoldable pub stored_id : ManagedWorktreeRecord → List ManagedWorktreeRecord → Option String
unfolding same_place
stored_id r [] = none
stored_id r (q ∷ rows) = if same_place r q then some q.id else stored_id r rows

unfoldable pub replace_worktree : ManagedWorktreeRecord → Store → Store
unfolding insert_worktree drop_worktree
replace_worktree r s = record s {
  managed_worktrees = insert_worktree r (drop_worktree r.id s.managed_worktrees);
}

-- A row at the same place keeps its id.
unfoldable pub replace_place : ManagedWorktreeRecord → Option String → Store → Store
unfolding replace_worktree
replace_place r none s = replace_worktree r s
replace_place r (some id) s = replace_worktree (record r { id = id }) s

unfoldable pub upsert_managed_worktree : ManagedWorktreeRecord → Store → Store
unfolding replace_place stored_id
upsert_managed_worktree r s = replace_place r (stored_id r s.managed_worktrees) s

-- `ORDER BY created_at ASC, worktree_id ASC, session_id ASC`.
unfoldable pub claim_le : ManagedWorktreeClaimRecord → ManagedWorktreeClaimRecord → Bool
claim_le a b =
    ltb a.created_at b.created_at
    || (eqb a.created_at b.created_at
        && (if a.worktree_id == b.worktree_id
            then text_le a.session_id b.session_id
            else text_le a.worktree_id b.worktree_id))

unfoldable pub insert_claim :
    ManagedWorktreeClaimRecord → List ManagedWorktreeClaimRecord → List ManagedWorktreeClaimRecord
unfolding claim_le
insert_claim r [] = r ∷ []
insert_claim r (q ∷ rows) = if claim_le r q then r ∷ q ∷ rows else q ∷ insert_claim r rows

-- The primary key is `(worktree_id, session_id)`.
unfoldable pub is_claim : String → String → ManagedWorktreeClaimRecord → Bool
is_claim worktree_id session_id q = q.worktree_id == worktree_id && q.session_id == session_id

unfoldable pub drop_claim :
    String → String → List ManagedWorktreeClaimRecord → List ManagedWorktreeClaimRecord
unfolding is_claim
drop_claim worktree_id session_id [] = []
drop_claim worktree_id session_id (q ∷ rows) =
    let rest = drop_claim worktree_id session_id rows in
    if is_claim worktree_id session_id q then rest else q ∷ rest

unfoldable pub upsert_managed_worktree_claim : ManagedWorktreeClaimRecord → Store → Store
unfolding insert_claim drop_claim
upsert_managed_worktree_claim r s = record s {
  managed_worktree_claims =
      insert_claim r (drop_claim r.worktree_id r.session_id s.managed_worktree_claims);
}

unfoldable pub append_team_operation_diagnostic :
    Option String → Option String → String → String → Value → ℕ → Store → Store
append_team_operation_diagnostic operation_id team_id code message payload created_at s = record s {
  team_operation_diagnostics =
      s.team_operation_diagnostics
      ++ (record {
        id = length s.team_operation_diagnostics + 1;
        operation_id = operation_id;
        team_id = team_id;
        code = trim code;
        message = trim message;
        payload = payload;
        created_at = created_at;
      })
        ∷ [];
}
