-- ===== src/Worktree/Claims/Others.antt =====
-- The claims of other sessions in the table of claims.
use gooselake.Base.{
  String, ◌==◌, ◌≡◌, sym, eq_iff, arith, Bool, true, false, not, ◌&&◌, ◌||◌, List, [], ◌∷◌, none,
  some, length, eqb,
}
use gooselake.Records.{ManagedWorktreeRecord, ManagedWorktreeClaimRecord}
use gooselake.Store.Worktrees.{insert_claim, is_claim, drop_claim}
use gooselake.Worktree.{is_active, active_claims_for, find_worktree}
use gooselake.Worktree.Claims.{find_claim}

-- A session other than `session_id` has an active claim on the worktree.
abbrev pub is_held_by_other : String → String → List ManagedWorktreeClaimRecord → Bool
is_held_by_other worktree_id session_id [] = false
is_held_by_other worktree_id session_id (c ∷ claims) =
    (c.worktree_id == worktree_id && is_active c && not (c.session_id == session_id))
    || is_held_by_other worktree_id session_id claims

false-is_not-true : ¬ (false ≡ true)
false-is_not-true h = cc

none-is_not-some : {A : Type 0} {a : A} → none ≡ some a → ⊥
none-is_not-some h = cc

module _ (worktree_id session_id : String) where
  pub held-insert_claim :
      (r : ManagedWorktreeClaimRecord) (rows : List ManagedWorktreeClaimRecord)
      → is_held_by_other worktree_id session_id rows ≡ true
      → is_held_by_other worktree_id session_id (insert_claim r rows) ≡ true
  unfolding insert_claim
  held-insert_claim r [] held = absurd (false-is_not-true held)
  held-insert_claim r (q ∷ rows) held = ground (arith, held-insert_claim r rows)

  pub held-drop_claim :
      (rows : List ManagedWorktreeClaimRecord)
      → is_held_by_other worktree_id session_id rows ≡ true
      → is_held_by_other worktree_id session_id (drop_claim worktree_id session_id rows) ≡ true
  unfolding drop_claim is_claim
  held-drop_claim [] held = held
  held-drop_claim (q ∷ rows) held = ground (arith, held-drop_claim rows)

  pub held-upsert :
      (r : ManagedWorktreeClaimRecord) (at of : String) (rows : List ManagedWorktreeClaimRecord)
      → at ≡ worktree_id
      → of ≡ session_id
      → is_held_by_other worktree_id session_id rows ≡ true
      → is_held_by_other worktree_id session_id (insert_claim r (drop_claim at of rows)) ≡ true
  held-upsert r at of rows at_worktree of_session held =
      rw (at_worktree, of_session)
        (held-insert_claim r (drop_claim worktree_id session_id rows) (held-drop_claim rows held))

  pub held-active :
      (rows : List ManagedWorktreeClaimRecord)
      → is_held_by_other worktree_id session_id rows ≡ true
      → eqb (length (active_claims_for worktree_id rows)) 0 ≡ false
  unfolding active_claims_for
  held-active [] held = sym held
  held-active (c ∷ rows) held = ground (arith, held-active rows)

  pub find_claim-keys :
      (rows : List ManagedWorktreeClaimRecord) (c : ManagedWorktreeClaimRecord)
      → find_claim worktree_id session_id rows ≡ some c
      → (c.worktree_id ≡ worktree_id) × (c.session_id ≡ session_id)
  unfolding find_claim is_claim
  find_claim-keys [] c found = absurd (none-is_not-some found)
  find_claim-keys (q ∷ rows) c found = ground (
    arith,
    eq_iff q.worktree_id worktree_id,
    eq_iff q.session_id session_id,
    find_claim-keys rows c,
  )

pub find_worktree-id :
    (id : String) (rows : List ManagedWorktreeRecord) (row : ManagedWorktreeRecord)
    → find_worktree id rows ≡ some row
    → row.id ≡ id
unfolding find_worktree
find_worktree-id id [] row found = absurd (none-is_not-some found)
find_worktree-id id (q ∷ rows) row found =
    ground (arith, eq_iff q.id id, find_worktree-id id rows row)
