-- ===== src/Session/Turns/Owner.antt =====
-- A session and its turn after `send_turn`.
use gooselake.Base.{
  ℕ, suc, String, eq_refl, Bool, true, false, ◌≡◌, refl, ap, ◌∙◌, inl, inr, Option, none, some,
  is_some,
}
use mathlib.Core.Path.{subst}
use gooselake.Error.{RuntimeError, Result, Result-cases, ok, err, err-not_ok, ok-eq}
use gooselake.Map
use gooselake.Map.Laws.{get-insert}
use gooselake.Records.{SessionRecord, TurnRecord, ApprovalRecord}
use gooselake.Provider.{ProviderKind, ProviderTurnAck}
use gooselake.Store.{Payload}
use gooselake.World.{◌>>◌, World, Env, pure, modify, ◌>>=◌}
use gooselake.World.Moves.{IsPreorder, Moves, moves_rules}
use gooselake.World.Ensures.{Ensures, Ensures-bind, ensures_rules}
use gooselake.Session.{insert_session, insert_turn, put_session, put_turn, session_event}
use gooselake.Session.Events.{session_event-Bears}
use gooselake.Session.Transcript.{is_terminal_turn_status}
use gooselake.Session.Started.{
  SendTurnInput, SendTurnAccepted, new_turn, turn_started, running_session, spawn_wait_for_turn,
}
use gooselake.Session.Turns.{
  start_with, send_turn, start_turn, finish_send, record_failed_send, record_accepted_send,
  ask_or_start, start_running, request_approval,
}
use gooselake.Team.Apart.{Bears, bears_rules, Quiet}
use gooselake.Team.Delivery.Calm.{others_run-quiet}

-- Sessions and turns are the same.
pub record SameTables (w v : World) : Type 0 where
  pub sessions : v.sessions ≡ w.sessions
  pub turns : v.turns ≡ w.turns

o : IsPreorder SameTables
o = record {
  refl_at = λ w. record { sessions = refl; turns = refl };
  trans_at = λ u v w p q. record { sessions = q.sessions ∙ p.sessions; turns = q.turns ∙ p.turns };
}

-- The session works on the accepted turn, which is there, is the session's, has the status of the
-- answer and has not ended.
pub record IsOwner (session_id : String) (ack : SendTurnAccepted) (w : World) : Type 0 where
  pub session : SessionRecord
  pub turn : TurnRecord
  pub session_held : Map.get session_id w.sessions ≡ some session
  pub turn_held : Map.get ack.turn_id w.turns ≡ some turn
  pub works : session.active_turn_id ≡ some ack.turn_id
  pub named : ack.session_id ≡ session_id
  pub own : turn.session_id ≡ session_id
  pub same : turn.status ≡ ack.status
  pub live : is_terminal_turn_status turn.status ≡ false

started-live : (b : Bool) → is_terminal_turn_status (turn_started b) ≡ false
unfolding is_terminal_turn_status turn_started
started-live true = refl
started-live false = refl

module _ (env : Env) (quiet : Quiet env) where
  b : Bears env SameTables
  b = record {
    others = λ n w.
        rw (quiet n (record w { tick = suc w.tick })) (record { sessions = refl; turns = refl });
    asked = λ w. record { sessions = refl; turns = refl };
    stored = λ w s. record { sessions = refl; turns = refl };
    numbered = λ w n. record { sessions = refl; turns = refl };
  }

  spawn-SameTables :
      (kind : ProviderKind) (session_id turn_id : String)
      → Moves SameTables (spawn_wait_for_turn kind session_id turn_id)
  unfolding spawn_wait_for_turn modify
  spawn-SameTables kind session_id turn_id = record {
    at = λ w. record { sessions = refl; turns = refl };
  }

  approve-SameTables :
      (id : String) (a : ApprovalRecord)
      → Moves SameTables (modify (λ w. record w { approvals = Map.insert id a w.approvals }))
  unfolding modify
  approve-SameTables id a = record { at = λ w. record { sessions = refl; turns = refl } }

  pub event-SameTables :
      (session_id : String) (turn_id : Option String) (kind : String) (payload : Payload)
      → Moves SameTables (session_event env session_id turn_id kind payload)
  event-SameTables =
      session_event-Bears env SameTables o b (λ w n. record { sessions = refl; turns = refl })

  ask_or_start-SameTables :
      (kind : ProviderKind) (session_id turn_id : String) (now : ℕ) (approval : Option String)
      → Moves SameTables (ask_or_start env kind session_id turn_id now approval)
  unfolding ask_or_start start_running request_approval
  ask_or_start-SameTables kind session_id turn_id now none =
      search (moves_rules, o, event-SameTables, spawn-SameTables) depth 9
  ask_or_start-SameTables kind session_id turn_id now (some id) =
      search (moves_rules, o, b, bears_rules, event-SameTables, approve-SameTables) depth 20

  put_turn-quiet :
      (id : String) (t : TurnRecord) (w : World)
      → put_turn env id t w ≡ (ok tt, insert_turn id t (record w { tick = suc w.tick }))
  unfolding put_turn ◌>>=◌ modify
  put_turn-quiet id t w = simp (others_run-quiet env quiet)

  pub put_session-quiet :
      (id : String) (x : SessionRecord) (w : World)
      → put_session env id x w ≡ (ok tt, insert_session id x (record w { tick = suc w.tick }))
  unfolding put_session ◌>>=◌ modify
  put_session-quiet id x w = simp (others_run-quiet env quiet)

  module _ (kind : ProviderKind) (session_id turn_id : String) (x : SessionRecord)
      (input : SendTurnInput) (now : ℕ) (approval : Option String) where
    turn : TurnRecord
    turn = new_turn session_id turn_id input now (is_some approval)

    ack : SendTurnAccepted
    unfolding turn
    ack = record { session_id = session_id; turn_id = turn_id; status = turn.status }

    answered-IsOwner :
        (w : World) (a : SendTurnAccepted)
        → Map.get session_id w.sessions ≡ some (running_session x turn_id now (is_some approval))
        → Map.get turn_id w.turns ≡ some turn
        → ((ask_or_start env kind session_id turn_id now approval >> pure ack) w).0 ≡ ok a
        → IsOwner session_id a
            ((ask_or_start env kind session_id turn_id now approval >> pure ack) w).1
    unfolding ◌>>=◌ pure turn ack new_turn running_session
    answered-IsOwner w a session_held turn_held done =
        let kept = (ask_or_start-SameTables kind session_id turn_id now approval).at w in
        elim (Result-cases (ask_or_start env kind session_id turn_id now approval w).0) [
          | inr (e, h) ↦ absurd (err-not_ok e a (err e) refl (rw h at done))
          | inl (u, h) ↦ rw h (
              subst
                (λ y.
                  IsOwner session_id y (ask_or_start env kind session_id turn_id now approval w).1)
                (ok-eq (ok ack) refl (rw h at done))
                (record {
                  session = running_session x turn_id now (is_some approval);
                  turn = turn;
                  session_held = ap (Map.get session_id) kept.sessions ∙ session_held;
                  turn_held = ap (Map.get turn_id) kept.turns ∙ turn_held;
                  works = refl;
                  named = refl;
                  own = refl;
                  same = refl;
                  live = started-live (is_some approval);
                }))
        ]

    -- The records in memory, and what follows.
    entered-IsOwner : Ensures (IsOwner session_id) (
        put_turn env turn_id turn
        >> (put_session env session_id (running_session x turn_id now (is_some approval))
            >> (ask_or_start env kind session_id turn_id now approval >> pure ack)))
    unfolding ◌>>=◌
    entered-IsOwner = record {
      at = λ w a done.
          let updated = running_session x turn_id now (is_some approval) in
          let w1 : World = insert_turn turn_id turn (record w { tick = suc w.tick }) in
          let w2 : World = insert_session session_id updated (record w1 { tick = suc w1.tick }) in
          let e : (put_turn env turn_id turn
                  >> (put_session env session_id updated
                      >> (ask_or_start env kind session_id turn_id now approval >> pure ack)))
                w
              ≡ (ask_or_start env kind session_id turn_id now approval >> pure ack) w2 =
            rw (put_turn-quiet turn_id turn w, put_session-quiet session_id updated w1) refl in
          rw e (
            answered-IsOwner w2 a
              (rw (get-insert session_id session_id updated w.sessions, eq_refl session_id) refl)
              (rw (get-insert turn_id turn_id turn w.turns, eq_refl turn_id) refl) (rw e at done));
    }

    accepted-IsOwner :
        Ensures
          (IsOwner session_id)
          (record_accepted_send env kind session_id turn_id x input now approval)
    unfolding record_accepted_send turn ack
    accepted-IsOwner = Ensures-bind _ _ (λ _. Ensures-bind _ _ (λ _. entered-IsOwner))

  failed-IsOwner :
      (session_id turn_id : String) (x : SessionRecord) (input : SendTurnInput) (now : ℕ)
      (e : RuntimeError)
      → Ensures (IsOwner session_id) (record_failed_send env session_id turn_id x input now e)
  unfolding record_failed_send
  failed-IsOwner session_id turn_id x input now e = search ensures_rules depth 20

  finish_send-IsOwner :
      (kind : ProviderKind) (session_id turn_id : String) (x : SessionRecord)
      (input : SendTurnInput) (now : ℕ) (approval : Option String) (answer : Result ProviderTurnAck)
      → Ensures
          (IsOwner session_id)
          (finish_send env kind session_id turn_id x input now approval answer)
  unfolding finish_send
  finish_send-IsOwner kind session_id turn_id x input now approval (err e) =
      failed-IsOwner session_id turn_id x input now e
  finish_send-IsOwner kind session_id turn_id x input now approval (ok a) =
      search (ensures_rules, accepted-IsOwner) depth 9

  start_turn-IsOwner :
      (session_id : String) (x : SessionRecord) (input : SendTurnInput)
      → Ensures (IsOwner session_id) (start_turn env session_id x input)
  unfolding start_turn start_with
  start_turn-IsOwner session_id x input = search (ensures_rules, finish_send-IsOwner) depth 20

  send_turn-Ensures :
      (session_id : String) (input : SendTurnInput)
      → Ensures (IsOwner session_id) (send_turn env session_id input)
  unfolding send_turn
  send_turn-Ensures session_id input = search (ensures_rules, start_turn-IsOwner) depth 12

-- While no other task runs, whatever the adapters and the store answer: where `send_turn` succeeds,
-- the session in memory works on the turn that the answer names, and that turn is in memory, is the
-- session's, has the status of the answer and has not ended.
pub send_turn-IsOwner :
    (env : Env) (quiet : Quiet env) (session_id : String) (input : SendTurnInput) (w : World)
    (ack : SendTurnAccepted)
    → (send_turn env session_id input w).0 ≡ ok ack
    → IsOwner session_id ack (send_turn env session_id input w).1
send_turn-IsOwner env quiet session_id input w ack done =
    (send_turn-Ensures env quiet session_id input).at w ack done
