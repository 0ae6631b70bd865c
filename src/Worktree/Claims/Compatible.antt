-- ===== src/Worktree/Claims/Compatible.antt =====
-- Claims that do not stand in each other's way, in the table of claims.
use gooselake.Base.{
  String, ◌==◌, ◌≡◌, sym, eq_iff, arith, Bool, true, false, not, ◌&&◌, List, [], ◌∷◌, All, none,
  some, Bool-cases, inl, inr,
}
use gooselake.Records.{ManagedWorktreeClaimRecord}
use gooselake.Store.Worktrees.{claim_le, insert_claim, is_claim, drop_claim}
use gooselake.Worktree.{is_active}
use gooselake.Worktree.Claims.{find_conflict}

-- Active claims of one session are claims on one worktree.
abbrev pub Compatible : ManagedWorktreeClaimRecord → ManagedWorktreeClaimRecord → Type 0
Compatible c d =
    is_active c ≡ true
    → is_active d ≡ true
    → c.session_id ≡ d.session_id
    → c.worktree_id ≡ d.worktree_id

-- Each two claims of the table.
abbrev pub Exclusive : List ManagedWorktreeClaimRecord → Type 0
Exclusive [] = Unit
Exclusive (c ∷ claims) = All (Compatible c) claims × Exclusive claims

flip : (c d : ManagedWorktreeClaimRecord) → Compatible c d → Compatible d c
flip c d h active active' same = sym (h active' active (sym same))

module _ (P : ManagedWorktreeClaimRecord → Type 0) where
  All-insert_claim :
      (r : ManagedWorktreeClaimRecord) (rows : List ManagedWorktreeClaimRecord)
      → P r
      → All P rows
      → All P (insert_claim r rows)
  unfolding insert_claim
  All-insert_claim r [] p ps = (p, tt)
  All-insert_claim r (q ∷ rows) p (pq, ps) = elim (Bool-cases (claim_le r q)) [
    | inl e ↦ rw e (p, (pq, ps))
    | inr e ↦ rw e (pq, All-insert_claim r rows p ps)
  ]

  pub All-drop_claim :
      (worktree_id session_id : String) (rows : List ManagedWorktreeClaimRecord)
      → All P rows
      → All P (drop_claim worktree_id session_id rows)
  unfolding drop_claim
  All-drop_claim worktree_id session_id [] ps = tt
  All-drop_claim worktree_id session_id (q ∷ rows) (pq, ps) =
      elim (Bool-cases (is_claim worktree_id session_id q)) [
        | inl e ↦ rw e (All-drop_claim worktree_id session_id rows ps)
        | inr e ↦ rw e (pq, All-drop_claim worktree_id session_id rows ps)
      ]

  pub All-always :
      (rows : List ManagedWorktreeClaimRecord)
      → ((c : ManagedWorktreeClaimRecord) → P c)
      → All P rows
  All-always [] h = tt
  All-always (c ∷ rows) h = (h c, All-always rows h)

pub Exclusive-drop_claim :
    (worktree_id session_id : String) (rows : List ManagedWorktreeClaimRecord)
    → Exclusive rows
    → Exclusive (drop_claim worktree_id session_id rows)
unfolding drop_claim
Exclusive-drop_claim worktree_id session_id [] one = tt
Exclusive-drop_claim worktree_id session_id (q ∷ rows) (first, rest) =
    elim (Bool-cases (is_claim worktree_id session_id q)) [
      | inl e ↦ rw e (Exclusive-drop_claim worktree_id session_id rows rest)
      | inr e ↦ rw e (
        All-drop_claim (Compatible q) worktree_id session_id rows first,
        Exclusive-drop_claim worktree_id session_id rows rest,
      )
    ]

pub Exclusive-insert_claim :
    (r : ManagedWorktreeClaimRecord) (rows : List ManagedWorktreeClaimRecord)
    → All (Compatible r) rows
    → Exclusive rows
    → Exclusive (insert_claim r rows)
unfolding insert_claim
Exclusive-insert_claim r [] all one = (tt, tt)
Exclusive-insert_claim r (q ∷ rows) (c, cs) (first, rest) = elim (Bool-cases (claim_le r q)) [
  | inl e ↦ rw e ((c, cs), (first, rest))
  | inr e ↦ rw e (
    All-insert_claim (Compatible q) r rows (flip r q c) first,
    Exclusive-insert_claim r rows cs rest,
  )
]

some-is_not-none : {A : Type 0} {a : A} → some a ≡ none → ⊥
some-is_not-none h = cc

-- `c` is an active claim of the session of `r` on another worktree.
abbrev stands_in_way : ManagedWorktreeClaimRecord → ManagedWorktreeClaimRecord → Bool
stands_in_way r c =
    c.session_id == r.session_id && is_active c && not (c.worktree_id == r.worktree_id)

apart-Compatible :
    (r c : ManagedWorktreeClaimRecord)
    → stands_in_way r c ≡ false
    → is_active c ≡ true
    → r.session_id ≡ c.session_id
    → r.worktree_id ≡ c.worktree_id
apart-Compatible r c apart active same =
    ground (arith, eq_iff c.session_id r.session_id, eq_iff c.worktree_id r.worktree_id)

-- Where no claim stands in its way, a claim is compatible with each.
pub no_conflict-Compatible :
    (r : ManagedWorktreeClaimRecord) (rows : List ManagedWorktreeClaimRecord)
    → find_conflict r.session_id r.worktree_id rows ≡ none
    → All (Compatible r) rows
unfolding find_conflict
no_conflict-Compatible r [] free = tt
no_conflict-Compatible r (c ∷ rows) free = elim (Bool-cases (stands_in_way r c)) [
  | inl e ↦ absurd (some-is_not-none (rw e at free))
  | inr e ↦ (
    λ held active same. apart-Compatible r c e active same,
    no_conflict-Compatible r rows (rw e at free),
  )
]
