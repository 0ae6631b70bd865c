-- ===== src/Worktree/Claims/Kept.antt =====
-- The release of a worktree that another session holds.
use gooselake.Base.{
  ℕ, suc, String, ◌≡◌, refl, sym, ◌∙◌, true, false, Option, none, some, Bool-cases, Option-cases,
  inl, inr, length, eqb, unwrap_or,
}
use mathlib.Core.Path.{subst}
use gooselake.Records.{ManagedWorktreeRecord, ManagedWorktreeClaimRecord}
use gooselake.Store.Worktrees.{upsert_managed_worktree_claim}
use gooselake.Store.{Payload}
use gooselake.World.{World, Env, M, ◌>>=◌, pure, lift, gets, others_run, now_ms, persist, written}
use gooselake.World.Moves.{IsPreorder, Moves, Moves-bind, Moves-attempt, Moves-pure, moves_rules}
use gooselake.Team.Apart.{Bears, others_run-Bears, now_ms-Bears, append_to_store-Bears}
use gooselake.Session.{persist_unlocked}
use gooselake.Worktree.{
  active_claims_for, ensure_enabled, append_worktree_event, take_worktree_event_id,
  get_worktree_from_hydrated, found_or, find_worktree,
}
use gooselake.Worktree.Claims.{
  WorktreeReleaseRequest, WorktreeReleaseResponse, find_claim, claim_or_missing, cleanup_released,
  finish_release, release_found, release_worktree,
}
use gooselake.Worktree.Cleanup.{WorktreeCleanupResponse}
use gooselake.Worktree.Claims.Same.{
  claims_of, SameClaims, LeavesClaims, others_run-Same, now_ms-Same, append_worktree_event-Same,
}
use gooselake.Worktree.Claims.Others.{
  is_held_by_other, held-upsert, held-active, find_claim-keys, find_worktree-id,
}

abbrev SameRuns : World → World → Type 0
SameRuns w v = v.git_calls ≡ w.git_calls

runs_order : IsPreorder SameRuns
runs_order = record { refl_at = λ w. refl; trans_at = λ u v w e e'. e' ∙ e }

-- Other tasks run no git.
abbrev pub LeavesRuns : Env → Type 0
LeavesRuns env = (n : ℕ) (w : World) → (env.others n w).git_calls ≡ w.git_calls

module _ (env : Env) (rely : LeavesClaims env) (idle : LeavesRuns env)
    (request : WorktreeReleaseRequest) where
  abbrev IsHeld : World → Type 0
  IsHeld w = is_held_by_other request.worktree_id request.session_id (claims_of w) ≡ true

  -- A worktree that another session holds stays so, and git is not run.
  abbrev pub LeavesHeld : World → World → Type 0
  LeavesHeld w v = IsHeld w → IsHeld v × SameRuns w v

  held_order : IsPreorder LeavesHeld
  held_order = record {
    refl_at = λ w held. (held, refl);
    trans_at =
        λ u v w f g held. let (held', e) = f held in let (held'', e') = g held' in (held'', e' ∙ e);
  }

  runs_borne : Bears env SameRuns
  runs_borne = record {
    others = λ n w. idle n (record w { tick = suc w.tick });
    asked = λ w. refl;
    stored = λ w s. refl;
    numbered = λ w n. refl;
  }

  Same-Held : {A : Type 0} (m : M A) → Moves SameClaims m → Moves SameRuns m → Moves LeavesHeld m
  Same-Held m same runs = record { at = λ w held. (rw (same.at w) held, runs.at w) }

  take_worktree_event_id-Runs : Moves SameRuns take_worktree_event_id
  unfolding ◌>>=◌
  take_worktree_event_id-Runs = record { at = λ w. refl }

  event-Runs :
      (worktree_id kind : String) (payload : Payload) (session_id team_id : Option String)
      → Moves SameRuns (append_worktree_event env worktree_id kind payload session_id team_id)
  unfolding append_worktree_event
  event-Runs worktree_id kind payload session_id team_id =
      Moves-bind runs_order _ _ take_worktree_event_id-Runs (λ n.
        Moves-bind runs_order _ _ (now_ms-Bears env SameRuns runs_order runs_borne) (λ at.
          Moves-bind runs_order _ _ (others_run-Bears env SameRuns runs_order runs_borne) (λ u.
            Moves-bind runs_order _ _
              (Moves-attempt runs_order _
                (append_to_store-Bears env SameRuns runs_order runs_borne _))
              (λ r. Moves-pure runs_order _))))

  event-Held :
      (worktree_id kind : String) (payload : Payload) (session_id team_id : Option String)
      → Moves LeavesHeld (append_worktree_event env worktree_id kind payload session_id team_id)
  event-Held worktree_id kind payload session_id team_id =
      Same-Held (append_worktree_event env worktree_id kind payload session_id team_id)
        (append_worktree_event-Same env rely worktree_id kind payload session_id team_id)
        (event-Runs worktree_id kind payload session_id team_id)

  others_run-Held : Moves LeavesHeld (others_run env)
  others_run-Held =
      Same-Held (others_run env) (others_run-Same env rely)
        (others_run-Bears env SameRuns runs_order runs_borne)

  now_ms-Held : Moves LeavesHeld (now_ms env)
  now_ms-Held =
      Same-Held (now_ms env) (now_ms-Same env rely)
        (now_ms-Bears env SameRuns runs_order runs_borne)

  persist-Held :
      (c : ManagedWorktreeClaimRecord)
      → c.worktree_id ≡ request.worktree_id
      → c.session_id ≡ request.session_id
      → Moves LeavesHeld (persist env (upsert_managed_worktree_claim c))
  unfolding persist written upsert_managed_worktree_claim
  persist-Held c at_worktree of_session = record {
    at = λ w held. elim (Option-cases (env.store_fault w.tick)) [
      | inl e ↦ rw e (
        held-upsert request.worktree_id request.session_id c c.worktree_id c.session_id
            (claims_of w) at_worktree of_session held,
        refl,
      )
      | inr (x, e) ↦ rw e (held, refl)
    ];
  }

  cleanup_released-Held :
      (row : ManagedWorktreeRecord) (count : ℕ)
      → eqb count 0 ≡ false
      → cleanup_released env request row count ≡ pure none
  unfolding cleanup_released
  cleanup_released-Held row count some_left =
      elim (Bool-cases (unwrap_or request.cleanup_if_last_claim true)) [
        | inl e ↦ rw (e, some_left) refl
        | inr e ↦ rw e refl
      ]

  module _ (row : ManagedWorktreeRecord) (named : row.id ≡ request.worktree_id) where
    -- The count after the release is not 0, and so nothing is cleaned up.
    read-Held :
        (response : ℕ → Option WorktreeCleanupResponse → WorktreeReleaseResponse)
        → Moves LeavesHeld (
            gets (λ w. w.store) >>= λ after.
            cleanup_released env request row
              (length (active_claims_for row.id after.managed_worktree_claims))
            >>= λ cleanup. pure (
                response (length (active_claims_for row.id after.managed_worktree_claims)) cleanup))
    unfolding ◌>>=◌
    read-Held response = record {
      at = λ w held.
          let left : eqb (length (active_claims_for row.id (claims_of w))) 0 ≡ false =
            subst (λ x. eqb (length (active_claims_for x (claims_of w))) 0 ≡ false) (sym named)
              (held-active request.worktree_id request.session_id (claims_of w) held) in
          rw (cleanup_released-Held row (length (active_claims_for row.id (claims_of w))) left)
            (held, refl);
    }

    finish_release-Held :
        (released : ManagedWorktreeClaimRecord)
        → Moves LeavesHeld (finish_release env request row released)
    unfolding finish_release
    finish_release-Held released = Moves-bind held_order _ _ (event-Held _ _ _ _ _) (λ u.
        Moves-bind held_order _ _ others_run-Held (λ u'. read-Held (λ count cleanup. record {
          worktree = row;
          released_claim = released;
          active_claim_count = count;
          cleanup = cleanup;
        })))

    release_found-Held :
        (existing : ManagedWorktreeClaimRecord)
        → existing.worktree_id ≡ request.worktree_id
        → existing.session_id ≡ request.session_id
        → Moves LeavesHeld (release_found env request row existing)
    unfolding release_found persist_unlocked
    release_found-Held existing at_worktree of_session =
        Moves-bind held_order _ _ now_ms-Held (λ at.
          Moves-bind held_order _ _
            (Moves-bind held_order _ _ others_run-Held (λ u.
              persist-Held (record existing { released_at = some at }) at_worktree of_session))
            (λ u. finish_release-Held (record existing { released_at = some at })))

  -- The row and the claim that are released, by the state that is read.
  release_read-Held : Moves LeavesHeld (
      gets (λ w. w.store) >>= λ s. get_worktree_from_hydrated request.worktree_id s >>= λ row.
      lift (
        claim_or_missing request
          (find_claim request.worktree_id request.session_id s.managed_worktree_claims))
      >>= λ existing. release_found env request row existing)
  unfolding get_worktree_from_hydrated found_or claim_or_missing ◌>>=◌
  release_read-Held = record {
    at = λ w held.
        elim (Option-cases (find_worktree request.worktree_id w.store.managed_worktrees)) [
          | inl e ↦ rw e (held, refl)
          | inr (row, e) ↦
              elim (Option-cases
                (find_claim request.worktree_id request.session_id (claims_of w))) [
                  | inl e' ↦ rw (e, e') (held, refl)
                  | inr (c, e') ↦
                      let (at_worktree, of_session) =
                        find_claim-keys request.worktree_id request.session_id (claims_of w) c e' in
                      rw (e, e')
                        ((release_found-Held row
                            (find_worktree-id request.worktree_id w.store.managed_worktrees row e) c
                            at_worktree of_session).at
                          w held)
                ]
        ];
  }

  ensure_enabled-Held : Moves LeavesHeld (ensure_enabled env)
  unfolding ensure_enabled
  ensure_enabled-Held = search (moves_rules, held_order) depth 8

  release_worktree-Held : Moves LeavesHeld (release_worktree env request)
  unfolding release_worktree
  release_worktree-Held =
      Moves-bind held_order (ensure_enabled env) _ ensure_enabled-Held
        (λ u. Moves-bind held_order (others_run env) _ others_run-Held (λ u'. release_read-Held))

-- While other tasks leave the table of claims alone and run no git, and whatever the store does:
-- where a session other than the one of the request has an active claim on the worktree, it has
-- one after release_worktree too, and no git command was run.
pub release_worktree-leaves :
    (env : Env)
    → LeavesClaims env
    → LeavesRuns env
    → (request : WorktreeReleaseRequest) (w : World)
    → is_held_by_other request.worktree_id request.session_id (claims_of w) ≡ true
    → (is_held_by_other request.worktree_id request.session_id
          (claims_of (release_worktree env request w).1)
        ≡ true)
      × ((release_worktree env request w).1.git_calls ≡ w.git_calls)
release_worktree-leaves env rely idle request w held =
    (release_worktree-Held env rely idle request).at w held
