-- ===== src/Worktree/Claims/Held.antt =====
-- Claims, releases and cleanups while other tasks leave the table of claims alone.
use gooselake.Base.{ℕ, String, true, false, All, none, some, ◌≡◌, Option-cases, inl, inr}
use gooselake.Error.{Result-cases}
use gooselake.Records.{ManagedWorktreeRecord, ManagedWorktreeClaimRecord}
use gooselake.Store.{Store}
use gooselake.Store.Worktrees.{drop_claim, upsert_managed_worktree_claim}
use gooselake.World.{World, Env, M, ◌>>=◌, gets, others_run, now_ms, persist, written}
use gooselake.World.Moves.{IsPreorder, Moves, Moves-bind, Moves-gets, Moves-pure, moves_rules}
use gooselake.Session.{persist_unlocked}
use gooselake.Worktree.{ensure_enabled, get_worktree_from_hydrated, found_or, find_worktree}
use gooselake.Worktree.Claims.{
  WorktreeClaimRequest, WorktreeReleaseRequest, new_claim, find_conflict, store_claim,
  unless_conflict, claim_worktree, cleanup_released, finish_release, release_found,
  release_worktree,
}
use gooselake.Worktree.Cleanup.{WorktreeCleanupRequest, cleanup_worktree}
use gooselake.Worktree.Claims.Compatible.{
  Compatible, Exclusive, All-drop_claim, All-always, Exclusive-drop_claim, Exclusive-insert_claim,
  no_conflict-Compatible,
}
use gooselake.Worktree.Claims.Same.{
  claims_of, SameClaims, LeavesClaims, same_order, others_run-Same, now_ms-Same,
  ensure_enabled-Same, append_worktree_event-Same, get_worktree-Same, cleanup_worktree-Same,
}

-- Where the claims of the table were compatible, they are.
abbrev pub KeepsExclusive : World → World → Type 0
KeepsExclusive w v = Exclusive (claims_of w) → Exclusive (claims_of v)

keeps_order : IsPreorder KeepsExclusive
keeps_order = record { refl_at = λ w one. one; trans_at = λ u v w f g one. g (f one) }

Same-Keeps : {A : Type 0} (m : M A) → Moves SameClaims m → Moves KeepsExclusive m
Same-Keeps m same = record { at = λ w one. rw (same.at w) one }

-- A claim that is compatible with each claim of the table is written.
upsert-Exclusive :
    (c : ManagedWorktreeClaimRecord) (s : Store)
    → All (Compatible c) s.managed_worktree_claims
    → Exclusive s.managed_worktree_claims
    → Exclusive (upsert_managed_worktree_claim c s).managed_worktree_claims
unfolding upsert_managed_worktree_claim
upsert-Exclusive c s all one =
    Exclusive-insert_claim c (drop_claim c.worktree_id c.session_id s.managed_worktree_claims)
      (All-drop_claim (Compatible c) c.worktree_id c.session_id s.managed_worktree_claims all)
      (Exclusive-drop_claim c.worktree_id c.session_id s.managed_worktree_claims one)

false-is_not-true : ¬ (false ≡ true)
false-is_not-true h = cc

released-Compatible :
    (c d : ManagedWorktreeClaimRecord) (at : ℕ) → Compatible (record c { released_at = some at }) d
released-Compatible c d at active active' same = absurd (false-is_not-true active)

module _ (env : Env) (rely : LeavesClaims env) where
  persist-Exclusive :
      (c : ManagedWorktreeClaimRecord) (w : World)
      → All (Compatible c) (claims_of w)
      → KeepsExclusive w (persist env (upsert_managed_worktree_claim c) w).1
  unfolding persist written
  persist-Exclusive c w all one = elim (Option-cases (env.store_fault w.tick)) [
    | inl e ↦ rw e (upsert-Exclusive c w.store all one)
    | inr (x, e) ↦ rw e one
  ]

  persist_unlocked-Exclusive :
      (c : ManagedWorktreeClaimRecord) (w : World)
      → All (Compatible c) (claims_of w)
      → KeepsExclusive w (persist_unlocked env (upsert_managed_worktree_claim c) w).1
  unfolding persist_unlocked others_run ◌>>=◌
  persist_unlocked-Exclusive c w all one =
      let v = (others_run env w).1 in
      let same : claims_of v ≡ claims_of w = (others_run-Same env rely).at w in
      persist-Exclusive c v (rw same all) (rw same one)

  -- `m` and then more, where `m` starts from a state that is known.
  bind-Exclusive :
      {A B : Type 0} (m : M A) (f : A → M B) (w : World)
      → KeepsExclusive w (m w).1
      → ((a : A) → Moves KeepsExclusive (f a))
      → KeepsExclusive w ((m >>= f) w).1
  unfolding ◌>>=◌
  bind-Exclusive m f w here more one = elim (Result-cases (m w).0) [
    | inl (a, e) ↦ rw e ((more a).at (m w).1 (here one))
    | inr (x, e) ↦ rw e (here one)
  ]

  cleanup_released-Same :
      (request : WorktreeReleaseRequest) (row : ManagedWorktreeRecord) (count : ℕ)
      → Moves SameClaims (cleanup_released env request row count)
  unfolding cleanup_released
  cleanup_released-Same request row count =
      search (moves_rules, same_order, cleanup_worktree-Same env rely) depth 12

  finish_release-Same :
      (request : WorktreeReleaseRequest) (row : ManagedWorktreeRecord)
      (released : ManagedWorktreeClaimRecord)
      → Moves SameClaims (finish_release env request row released)
  unfolding finish_release
  finish_release-Same request row released =
      Moves-bind same_order _ _ (append_worktree_event-Same env rely _ _ _ _ _) (λ u.
        Moves-bind same_order _ _ (others_run-Same env rely) (λ u'.
          Moves-bind same_order _ _ (Moves-gets same_order _) (λ after.
            Moves-bind same_order _ _ (cleanup_released-Same request row _)
              (λ cleanup. Moves-pure same_order _))))

  ensure_enabled-Keeps : Moves KeepsExclusive (ensure_enabled env)
  ensure_enabled-Keeps = Same-Keeps (ensure_enabled env) (ensure_enabled-Same env rely)

  others_run-Keeps : Moves KeepsExclusive (others_run env)
  others_run-Keeps = Same-Keeps (others_run env) (others_run-Same env rely)

  get_worktree-Keeps :
      (id : String) (s : Store) → Moves KeepsExclusive (get_worktree_from_hydrated id s)
  get_worktree-Keeps id s =
      Same-Keeps (get_worktree_from_hydrated id s) (get_worktree-Same env rely id s)

  release_found-Exclusive :
      (request : WorktreeReleaseRequest) (row : ManagedWorktreeRecord)
      (existing : ManagedWorktreeClaimRecord)
      → Moves KeepsExclusive (release_found env request row existing)
  unfolding release_found
  release_found-Exclusive request row existing =
      Moves-bind keeps_order (now_ms env) _ (Same-Keeps _ (now_ms-Same env rely)) (λ at.
        let released = record existing { released_at = some at } in
        Moves-bind keeps_order (persist_unlocked env (upsert_managed_worktree_claim released)) _
          (record {
            at = λ w. persist_unlocked-Exclusive released w (
                All-always (Compatible released) (claims_of w)
                  (λ d. released-Compatible existing d at));
          })
          (λ u. Same-Keeps _ (finish_release-Same request row released)))

  store_claim-Exclusive :
      (request : WorktreeClaimRequest) (row : ManagedWorktreeRecord) (w : World)
      → find_conflict request.session_id request.worktree_id (claims_of w) ≡ none
      → KeepsExclusive w (store_claim env request row w).1
  unfolding store_claim now_ms new_claim ◌>>=◌
  store_claim-Exclusive request row w free =
      let v = (now_ms env w).1 in
      let c = new_claim request (env.clock w.tick) in
      bind-Exclusive (persist_unlocked env (upsert_managed_worktree_claim c)) _ v
        (persist_unlocked-Exclusive c v (no_conflict-Compatible c (claims_of w) free))
        (λ u.
          Same-Keeps _
            (search (moves_rules, same_order, append_worktree_event-Same env rely) depth 12))

  -- The table that is read is the one that the claim is written to.
  claim_read-Exclusive :
      (request : WorktreeClaimRequest)
      → Moves KeepsExclusive (
          gets (λ w. w.store) >>= λ s. get_worktree_from_hydrated request.worktree_id s >>= λ row.
          unless_conflict env request row
            (find_conflict request.session_id request.worktree_id s.managed_worktree_claims))
  unfolding unless_conflict get_worktree_from_hydrated ◌>>=◌
  claim_read-Exclusive request = record {
    at = λ w one.
        elim (Result-cases (
          found_or request.worktree_id
            (find_worktree request.worktree_id w.store.managed_worktrees))) [
              | inr (x, e) ↦ rw e one
              | inl (row, e) ↦
                  elim (Option-cases
                    (find_conflict request.session_id request.worktree_id (claims_of w))) [
                      | inl free ↦ rw (e, free) (store_claim-Exclusive request row w free one)
                      | inr (c, e') ↦ rw (e, e') one
                    ]
            ];
  }

  claim_worktree-Exclusive :
      (request : WorktreeClaimRequest) → Moves KeepsExclusive (claim_worktree env request)
  unfolding claim_worktree
  claim_worktree-Exclusive request =
      Moves-bind keeps_order (ensure_enabled env) _ ensure_enabled-Keeps (λ u.
        Moves-bind keeps_order (others_run env) _ others_run-Keeps
          (λ u'. claim_read-Exclusive request))

  release_worktree-Exclusive :
      (request : WorktreeReleaseRequest) → Moves KeepsExclusive (release_worktree env request)
  unfolding release_worktree
  release_worktree-Exclusive request =
      search
        (
          moves_rules, keeps_order, ensure_enabled-Keeps, others_run-Keeps, get_worktree-Keeps,
          release_found-Exclusive,
        )
        depth 16

  -- While other tasks leave the table of claims alone, and whatever git, the files and the store
  -- do: where active claims of one session are on one worktree before claim_worktree,
  -- release_worktree or cleanup_worktree, they are after it, whatever the result.
  pub worktrees-Exclusive :
      (claiming : WorktreeClaimRequest) (releasing : WorktreeReleaseRequest)
      (cleaning : WorktreeCleanupRequest) (w : World)
      → KeepsExclusive w (claim_worktree env claiming w).1
        × KeepsExclusive w (release_worktree env releasing w).1
        × KeepsExclusive w (cleanup_worktree env cleaning w).1
  worktrees-Exclusive claiming releasing cleaning w = (
    (claim_worktree-Exclusive claiming).at w,
    (release_worktree-Exclusive releasing).at w,
    (Same-Keeps (cleanup_worktree env cleaning) (cleanup_worktree-Same env rely cleaning)).at w,
  )
