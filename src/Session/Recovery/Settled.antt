-- ===== src/Session/Recovery/Settled.antt =====
-- What a restart leaves a session at work on.
use gooselake.Base.{
  String, ◌==◌, ◌≡◌, refl, eq_iff, Bool, true, false, Option, none, some, Bool-cases, Option-cases,
  inl, inr, List, [], ◌∷◌, ◌&&◌, sym, ◌∙◌, arith,
}
use mathlib.Core.List.{Memᴰ}
use mathlib.Core.List.Memᴰ.{head, tail}
use gooselake.Session.Approvals.{is_pending}
use gooselake.Session.Results.Ended.{IsEnded, IsEnded-is_terminal}
use mathlib.Core.Path.{subst}
use gooselake.Error.{ok, ok-eq}
use gooselake.Map
use gooselake.Map.{Map}
use gooselake.Records.{
  SessionRecord, SessionStatus, TurnRecord, TurnStatus, ApprovalRecord, ApprovalStatus,
}
use gooselake.World.{World, Env, pure}
use gooselake.World.Ensures.{Ensures, ensures_rules}
use gooselake.Session.Started.{ready_unless_ended}
use gooselake.Session.Transcript.{is_terminal_turn_status}
use gooselake.Session.Repairs.{
  Recovering, clear_turn, failed_session, settle_idle, settle_missing, settle_foreign,
  settle_awaited, is_waiting_session, is_waiting_turn, any_awaited, running_unless_ended,
  is_awaited,
}
use gooselake.Session.Recovery.{repair_turn, wait_again, settle_found, settle_turn, settle_active}

-- "turn_running" and "waiting_for_approval".
abbrev is_working : SessionStatus → Bool
is_working SessionStatus.turn_running = true
is_working SessionStatus.waiting_for_approval = true
is_working s = false

module _ (turns : Map TurnRecord) (approvals : Map ApprovalRecord) where
  -- The turn is in the snapshot, is the session's and has not ended; where it waits for an
  -- approval, there is a pending one.
  pub record IsHeld (session_id : String) (turn_id : String) (turn : TurnRecord) : Type 0 where
    pub here : Map.get turn_id turns ≡ some turn
    pub own : turn.session_id ≡ session_id
    pub running : ¬ IsEnded turn.status
    pub awaited :
        turn.status ≡ TurnStatus.waiting_for_approval
        → (a : ApprovalRecord) × Memᴰ a (Map.values approvals)
          × (a.turn_id ≡ turn.id)
          × (a.session_id ≡ session_id)
          × (a.status ≡ ApprovalStatus.pending)

  -- A session works on such a turn, or on none, and then it is not marked as working.
  abbrev pub SettledAt : SessionRecord → Option String → Type 0
  SettledAt s none = is_working s.status ≡ false
  SettledAt s (some turn_id) = (turn : TurnRecord) × IsHeld s.id turn_id turn

  abbrev pub IsSettled : SessionRecord → Type 0
  IsSettled s = SettledAt s s.active_turn_id

  abbrev pub Settled : Recovering → World → Type 0
  Settled r w = IsSettled r.session

ready-idle : (s : SessionStatus) → is_working (ready_unless_ended s) ≡ false
ready-idle SessionStatus.closed = refl
ready-idle SessionStatus.failed = refl
ready-idle SessionStatus.ready = refl
ready-idle SessionStatus.turn_running = refl
ready-idle SessionStatus.waiting_for_approval = refl
ready-idle (SessionStatus.other s) = refl

false-is_not-true : false ≡ true → ⊥
false-is_not-true h = cc

Ensures-pure :
    {A : Type 0} {Q : A → World → Type 0} (a : A) → ((w : World) → Q a w) → Ensures Q (pure a)
unfolding pure
Ensures-pure {A} {Q} a h = record {
  at = λ w b done. subst (λ x. Q x w) (ok-eq (ok a) refl done) (h w);
}

pending-eq : (s : ApprovalStatus) → is_pending s ≡ true → s ≡ ApprovalStatus.pending
pending-eq ApprovalStatus.pending h = refl
pending-eq ApprovalStatus.accept h = cc
pending-eq ApprovalStatus.decline h = cc
pending-eq (ApprovalStatus.other s) h = cc

all_three : {a b c : Bool} → a && b && c ≡ true → (a ≡ true) × (b ≡ true) × (c ≡ true)
all_three h = ground arith

-- A search that finds an approval finds a pending one of the turn and of the session.
any_awaited-Memᴰ :
    (turn_id session_id : String) (others : List ApprovalRecord)
    → any_awaited turn_id session_id others ≡ true
    → (a : ApprovalRecord) × Memᴰ a others
      × (a.turn_id ≡ turn_id)
      × (a.session_id ≡ session_id)
      × (a.status ≡ ApprovalStatus.pending)
unfolding any_awaited is_awaited
any_awaited-Memᴰ turn_id session_id [] h = absurd (false-is_not-true h)
any_awaited-Memᴰ turn_id session_id (a ∷ others) h =
    elim (Bool-cases (is_awaited turn_id session_id a)) [
      | inl e ↦
          let (t, s, p) = all_three e in
          (
            a,
            head refl,
            (eq_iff a.turn_id turn_id).0 t,
            (eq_iff a.session_id session_id).0 s,
            pending-eq a.status p,
          )
      | inr e ↦
          let (b, there, t, s, p) = any_awaited-Memᴰ turn_id session_id others (rw e at h) in
          (b, tail there, t, s, p)
    ]

not_ended : (s : TurnStatus) → is_terminal_turn_status s ≡ false → ¬ IsEnded s
not_ended s live ended = false-is_not-true (sym live ∙ IsEnded-is_terminal s ended)

waiting-is_waiting :
    (s : TurnStatus) → s ≡ TurnStatus.waiting_for_approval → is_waiting_turn s ≡ true
unfolding is_waiting_turn
waiting-is_waiting s e = rw e refl

module _ (env : Env) (turns : Map TurnRecord) (approvals : Map ApprovalRecord)
    (r : Recovering) where
  abbrev LeftSettled : Recovering → World → Type 0
  LeftSettled = Settled turns approvals

  settle_idle-settles :
      (status : SessionStatus)
      → r.session.status ≡ status
      → r.session.active_turn_id ≡ none
      → IsSettled turns approvals (settle_idle status r).session
  unfolding settle_idle
  settle_idle-settles SessionStatus.turn_running e idle = rw idle refl
  settle_idle-settles SessionStatus.waiting_for_approval e idle = rw idle refl
  settle_idle-settles SessionStatus.ready e idle = rw (idle, e) refl
  settle_idle-settles SessionStatus.closed e idle = rw (idle, e) refl
  settle_idle-settles SessionStatus.failed e idle = rw (idle, e) refl
  settle_idle-settles (SessionStatus.other s) e idle = rw (idle, e) refl

  repair_turn-settles : (turn : TurnRecord) → Ensures LeftSettled (repair_turn env turn r)
  unfolding repair_turn clear_turn
  repair_turn-settles turn =
      search (ensures_rules, Ensures-pure, λ (w : World). ready-idle r.session.status) depth 12

  module _ (turn_id : String) (turn : TurnRecord) (active : r.session.active_turn_id ≡ some turn_id)
      (held : IsHeld turns approvals r.session.id turn_id turn) where
    kept :
        (status : SessionStatus) → IsSettled turns approvals (record r.session { status = status })
    kept status = rw active (turn, held)

    wait_again-settles : Ensures LeftSettled (wait_again env turn r)
    unfolding wait_again
    wait_again-settles =
        search
          (ensures_rules, Ensures-pure, λ (w : World). kept (running_unless_ended r.session.status))
          depth 12

    settle_awaited-settles : IsSettled turns approvals (settle_awaited r).session
    unfolding settle_awaited is_waiting_session
    settle_awaited-settles = elim (Bool-cases (is_waiting_session r.session.status)) [
      | inl e ↦ rw e (kept r.session.status)
      | inr e ↦ rw e (kept SessionStatus.waiting_for_approval)
    ]

  settle_found-settles :
      (turn_id : String) (turn : TurnRecord)
      → r.session.active_turn_id ≡ some turn_id
      → Map.get turn_id turns ≡ some turn
      → Ensures LeftSettled (settle_found env approvals turn r)
  unfolding settle_found settle_foreign clear_turn failed_session
  settle_found-settles turn_id turn active here =
      elim (Bool-cases (turn.session_id == r.session.id)) [
        | inr e ↦ rw e (Ensures-pure _ (λ w. refl))
        | inl e ↦ elim (Bool-cases (is_terminal_turn_status turn.status)) [
          | inl e' ↦ rw (e, e') (Ensures-pure _ (λ w. ready-idle r.session.status))
          | inr e' ↦
              let own : turn.session_id ≡ r.session.id =
                (eq_iff turn.session_id r.session.id).0 e in
              elim (Bool-cases (is_waiting_turn turn.status)) [
                | inr e'' ↦
                    rw (e, e', e'')
                      (wait_again-settles turn_id turn active (record {
                        here = here;
                        own = own;
                        running = not_ended turn.status e';
                        awaited = λ h.
                            absurd (false-is_not-true (sym e'' ∙ waiting-is_waiting turn.status h));
                      }))
                | inl e'' ↦
                    elim (Bool-cases (any_awaited turn.id r.session.id (Map.values approvals))) [
                      | inl a ↦
                          rw (e, e', e'', a)
                            (Ensures-pure (settle_awaited r) (λ w.
                              settle_awaited-settles turn_id turn active (record {
                                here = here;
                                own = own;
                                running = not_ended turn.status e';
                                awaited = λ h.
                                    any_awaited-Memᴰ turn.id r.session.id (Map.values approvals) a;
                              })))
                      | inr a ↦ rw (e, e', e'', a) (repair_turn-settles turn)
                    ]
              ]
        ]
      ]

  settle_at-settles :
      (active : Option String)
      → r.session.active_turn_id ≡ active
      → Ensures LeftSettled (settle_active env turns approvals active r)
  unfolding settle_active settle_turn settle_missing clear_turn
  settle_at-settles none idle = Ensures-pure _ (λ w. settle_idle-settles r.session.status refl idle)
  settle_at-settles (some turn_id) active = elim (Option-cases (Map.get turn_id turns)) [
    | inl missing ↦ rw missing (Ensures-pure _ (λ w. ready-idle r.session.status))
    | inr (turn, here) ↦ rw here (settle_found-settles turn_id turn active here)
  ]

  -- Whatever adapters, the store and other tasks do, a walk over a session that gets past its turn
  -- leaves it at work on no turn, and then not marked as working, or on a turn of the snapshot that
  -- is the session's and has not ended, and for which an approval is pending where it waits for one.
  pub settle_active-settles :
      Ensures
        (Settled turns approvals)
        (settle_active env turns approvals r.session.active_turn_id r)
  settle_active-settles = settle_at-settles r.session.active_turn_id refl
