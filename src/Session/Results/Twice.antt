-- ===== src/Session/Results/Twice.antt =====
-- A result that an adapter reports twice.
use gooselake.Base.{
  ℕ, suc, ◌<>◌, ◌==◌, eq_refl, true, false, ◌≡◌, refl, inl, inr, some, Bool-cases, Option-cases,
}
use gooselake.Error.{RuntimeError, Result-cases, ok, err, err-not_ok, not_found, protocol_violation}
use gooselake.Map
use gooselake.Map.Laws.{get-insert}
use gooselake.Records.{TurnRecord}
use gooselake.Provider.{ProviderTurnResult, ProviderTurnStatus, as_turn_status}
use gooselake.World.{World, Env, M, pure, raise, gets, ok_or, modify, ◌>>=◌, now_ms}
use gooselake.Session.{insert_turn}
use gooselake.Session.Transcript.{is_terminal_turn_status}
use gooselake.Session.Results.{
  ended_turn, fail_conflicting, conflict_text, second_end, first_end, apply_to_turn, apply_to_found,
  apply_terminal_result, same_turn_status,
}
use gooselake.Session.Results.Ended.{
  KeepsEnded, same_turns, after_end-KeepsEnded, is_terminal-IsEnded,
}
use gooselake.Team.Apart.{Quiet}
use gooselake.Team.Delivery.Calm.{others_run-quiet}

same_as_reported : (s : ProviderTurnStatus) → same_turn_status (as_turn_status s) s ≡ true
unfolding same_turn_status as_turn_status
same_as_reported ProviderTurnStatus.in_progress = refl
same_as_reported ProviderTurnStatus.completed = refl
same_as_reported ProviderTurnStatus.interrupted = refl
same_as_reported ProviderTurnStatus.failed = refl

then_raise :
    {A B : Type 0} (m : M A) (e : RuntimeError) (b : B) (w : World)
    → ¬ (((m >>= λ _. raise e) w).0 ≡ ok b)
unfolding ◌>>=◌ raise
then_raise m e b w = elim (Result-cases (m w).0) [
  | inl (a, h) ↦ rw h (err-not_ok e b (err e) refl)
  | inr (x, h) ↦ rw h (err-not_ok x b (err x) refl)
]

-- The turn of `r` has ended as `r` says.
record IsSettled (r : ProviderTurnResult) (w : World) : Type 0 where
  turn : TurnRecord
  held : Map.get r.turn_id w.turns ≡ some turn
  own : (turn.session_id == r.runtime_session_id) ≡ true
  same : same_turn_status turn.status r.status ≡ true
  ended : is_terminal_turn_status turn.status ≡ true

module _ (env : Env) (quiet : Quiet env) where
  rely : (n : ℕ) (w : World) → KeepsEnded w (env.others n (record w { tick = suc w.tick }))
  rely n w = rw (quiet n (record w { tick = suc w.tick })) (same_turns w _ refl)

  conflict-not_ok :
      (t : TurnRecord) (r : ProviderTurnResult) (w : World)
      → same_turn_status t.status r.status ≡ false
      → ¬ ((second_end env t r w).0 ≡ ok tt)
  unfolding second_end
  conflict-not_ok t r w f =
      rw f (then_raise (fail_conflicting env t r) (protocol_violation (conflict_text env t r)) tt w)

  first_end-IsSettled :
      (t : TurnRecord) (r : ProviderTurnResult) (w : World)
      → (t.session_id == r.runtime_session_id) ≡ true
      → is_terminal_turn_status (as_turn_status r.status) ≡ true
      → IsSettled r (first_end env t r w).1
  unfolding first_end ◌>>=◌ modify now_ms ended_turn
  first_end-IsSettled t r w own final =
      let new = ended_turn t r (env.clock w.tick) in
      let w' : World = insert_turn r.turn_id new (record w { tick = suc w.tick }) in
      record {
        turn = new;
        held =
            ((after_end-KeepsEnded env rely new r).at w').at r.turn_id new
              (rw (get-insert r.turn_id r.turn_id new w.turns, eq_refl r.turn_id) refl)
              (is_terminal-IsEnded new.status final);
        own = own;
        same = same_as_reported r.status;
        ended = final;
      }

  second_end-IsSettled :
      (t : TurnRecord) (r : ProviderTurnResult) (w : World)
      → (second_end env t r w).0 ≡ ok tt
      → (same_turn_status t.status r.status ≡ true) × ((second_end env t r w).1 ≡ w)
  unfolding second_end pure
  second_end-IsSettled t r w h = elim (Bool-cases (same_turn_status t.status r.status)) [
    | inl s ↦ rw s (refl, refl)
    | inr f ↦ absurd (conflict-not_ok t r w f h)
  ]

  apply-IsSettled :
      (r : ProviderTurnResult) (w : World)
      → is_terminal_turn_status (as_turn_status r.status) ≡ true
      → (apply_to_found env r w).0 ≡ ok tt
      → IsSettled r (apply_to_found env r w).1
  unfolding apply_to_found apply_to_turn ◌>>=◌ gets ok_or raise
  apply-IsSettled r w final h = elim (Option-cases (Map.get r.turn_id w.turns)) [
    | inl e ↦ absurd (err-not_ok (not_found ("turn " <> r.turn_id)) tt _ refl (rw e at h))
    | inr (t, e) ↦ elim (Bool-cases (t.session_id == r.runtime_session_id)) [
      | inr f ↦ absurd (
          err-not_ok
            (protocol_violation ("provider turn ownership mismatch for turn " <> r.turn_id)) tt _
            refl (rw (e, f) at h))
      | inl own ↦ elim (Bool-cases (is_terminal_turn_status t.status)) [
        | inl ended ↦
            let (same, kept) = second_end-IsSettled t r w (rw (e, own, ended) at h) in
            rw (e, own, ended)
              (rw kept (record { turn = t; held = e; own = own; same = same; ended = ended }))
        | inr live ↦ rw (e, own, live) (first_end-IsSettled t r w own final)
      ]
    ]
  ]

  apply_terminal_result-quiet :
      (r : ProviderTurnResult) (w : World)
      → apply_terminal_result env r w ≡ apply_to_found env r (record w { tick = suc w.tick })
  unfolding apply_terminal_result ◌>>=◌
  apply_terminal_result-quiet r w = simp (others_run-quiet env quiet)

  apply-again :
      (r : ProviderTurnResult) (w : World)
      → IsSettled r w
      → apply_terminal_result env r w ≡ (ok tt, record w { tick = suc w.tick })
  unfolding apply_terminal_result apply_to_found apply_to_turn second_end ◌>>=◌ gets ok_or pure
  apply-again r w s = simp (others_run-quiet env quiet, s.held, s.own, s.ended, s.same)

-- While no other task runs, for a result that ends the turn: once it has been applied without an
-- error, applying it again succeeds and changes nothing but the count of questions.
pub apply_terminal_result-twice :
    (env : Env) (quiet : Quiet env) (r : ProviderTurnResult) (w : World)
    → is_terminal_turn_status (as_turn_status r.status) ≡ true
    → (apply_terminal_result env r w).0 ≡ ok tt
    → let w' = (apply_terminal_result env r w).1 in
      apply_terminal_result env r w' ≡ (ok tt, record w' { tick = suc w'.tick })
apply_terminal_result-twice env quiet r w final done =
    let e = apply_terminal_result-quiet env quiet r w in
    apply-again env quiet r (apply_terminal_result env r w).1
      (rw e (apply-IsSettled env quiet r (record w { tick = suc w.tick }) final (rw e at done)))
