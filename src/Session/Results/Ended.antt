-- ===== src/Session/Results/Ended.antt =====
-- What the report of a result or of a failure does to the turns that have ended.
use gooselake.Base.{
  ◌⊎◌, ℕ, suc, String, ◌==◌, eq_iff, Bool, true, false, ◌≡◌, refl, sym, ap, ◌∙◌, inl, inr, Option,
  none, some, Bool-cases, Option-cases,
}
use mathlib.Core.Path.{subst}
use gooselake.Error.{RuntimeError, to_string}
use gooselake.Map
use gooselake.Map.Laws.{get-insert}
use gooselake.Records.{SessionRecord, TurnRecord, TurnStatus}
use gooselake.Provider.{ProviderTurnResult}
use gooselake.Store.{Payload, upsert_turn}
use gooselake.World.{World, Env, M, pure, raise, gets, ok_or, modify, ◌>>=◌, now_ms}
use gooselake.World.Moves.{IsPreorder, Moves, moves_rules}
use gooselake.Session.{message_value, insert_turn, insert_session, session_event}
use gooselake.Session.Events.{session_event-Bears}
use gooselake.Session.Transcript.{is_terminal_turn_status}
use gooselake.Session.Results.{
  ended_turn, update_session, update_turn, second_end, end_session, after_end, first_end,
  apply_to_turn, apply_to_found, apply_terminal_result, fail_turn, fail_unless_ended, fail_found,
  fail_session, fail_conflicting, apply_terminal_failure,
}
use gooselake.Team.Apart.{Bears, bears_rules, persist-Bears}

-- "completed", "interrupted" and "failed".
abbrev pub IsEnded : TurnStatus → Type 0
IsEnded status =
    (status ≡ TurnStatus.completed)
    ⊎ (status ≡ TurnStatus.interrupted)
    ⊎ (status ≡ TurnStatus.failed)

-- The code's test tells these.
pub IsEnded-is_terminal : (s : TurnStatus) → IsEnded s → is_terminal_turn_status s ≡ true
unfolding is_terminal_turn_status
IsEnded-is_terminal s (inl e) = rw e refl
IsEnded-is_terminal s (inr (inl e)) = rw e refl
IsEnded-is_terminal s (inr (inr e)) = rw e refl

pub is_terminal-IsEnded : (s : TurnStatus) → is_terminal_turn_status s ≡ true → IsEnded s
unfolding is_terminal_turn_status
is_terminal-IsEnded TurnStatus.completed h = inl refl
is_terminal-IsEnded TurnStatus.interrupted h = inr (inl refl)
is_terminal-IsEnded TurnStatus.failed h = inr (inr refl)
is_terminal-IsEnded TurnStatus.in_progress h = cc
is_terminal-IsEnded TurnStatus.waiting_for_approval h = cc
is_terminal-IsEnded (TurnStatus.other s) h = cc

-- Every turn that had ended is as it was.
pub record KeepsEnded (w v : World) : Type 0 where
  pub at :
      (id : String) (t : TurnRecord)
      → Map.get id w.turns ≡ some t
      → IsEnded t.status
      → Map.get id v.turns ≡ some t

pub same_turns : (w v : World) → v.turns ≡ w.turns → KeepsEnded w v
same_turns w v e = record { at = λ id t found ended. ap (Map.get id) e ∙ found }

o : IsPreorder KeepsEnded
o = record {
  refl_at = λ w. record { at = λ id t found ended. found };
  trans_at =
      λ u v w p q. record { at = λ id t found ended. q.at id t (p.at id t found ended) ended };
}

same_turn :
    (w : World) (id j : String) (old t : TurnRecord)
    → id ≡ j
    → Map.get id w.turns ≡ some old
    → Map.get j w.turns ≡ some t
    → old ≡ t
same_turn w id j old t e found there = cc

no_end : {b : Bool} → b ≡ false → b ≡ true → ⊥
no_end f t = cc

-- A write to a turn that has not ended.
insert-KeepsEnded :
    (w v : World) (id : String) (old new : TurnRecord)
    → Map.get id w.turns ≡ some old
    → is_terminal_turn_status old.status ≡ false
    → v.turns ≡ Map.insert id new w.turns
    → KeepsEnded w v
insert-KeepsEnded w v id old new found live e = record {
  at = λ j t there ended. elim (Bool-cases (id == j)) [
    | inr miss ↦ rw (e, get-insert id j new w.turns, miss) there
    | inl hit ↦ absurd (
        no_end live (
          subst (λ (y : TurnRecord). is_terminal_turn_status y.status ≡ true)
            (sym (same_turn w id j old t ((eq_iff id j).0 hit) found there))
            (IsEnded-is_terminal t.status ended)))
  ];
}

module _ (env : Env)
    (rely : (n : ℕ) (w : World)
      → KeepsEnded w (env.others n (record w { tick = suc w.tick }))) where
  b : Bears env KeepsEnded
  b = record {
    others = rely;
    asked = λ w. same_turns w _ refl;
    stored = λ w s. same_turns w _ refl;
    numbered = λ w n. same_turns w _ refl;
  }

  insert_session-KeepsEnded :
      (id : String) (s : SessionRecord) → Moves KeepsEnded (modify (insert_session id s))
  unfolding modify
  insert_session-KeepsEnded id s = record { at = λ w. same_turns w _ refl }

  session_event-KeepsEnded :
      (session_id : String) (turn_id : Option String) (kind : String) (payload : Payload)
      → Moves KeepsEnded (session_event env session_id turn_id kind payload)
  session_event-KeepsEnded = session_event-Bears env KeepsEnded o b (λ w n. same_turns w _ refl)

  end_session-KeepsEnded :
      (turn : TurnRecord) (r : ProviderTurnResult) (s : Option SessionRecord)
      → Moves KeepsEnded (end_session env turn r s)
  unfolding end_session
  end_session-KeepsEnded turn r none = search (moves_rules, o)
  end_session-KeepsEnded turn r (some s) =
      search (moves_rules, o, b, bears_rules, insert_session-KeepsEnded) depth 12

  pub after_end-KeepsEnded :
      (turn : TurnRecord) (r : ProviderTurnResult) → Moves KeepsEnded (after_end env turn r)
  unfolding after_end
  after_end-KeepsEnded turn r =
      search (moves_rules, o, b, bears_rules, end_session-KeepsEnded, session_event-KeepsEnded)
        depth 15

  first_end-KeepsEnded :
      (turn : TurnRecord) (r : ProviderTurnResult) (w : World)
      → Map.get r.turn_id w.turns ≡ some turn
      → is_terminal_turn_status turn.status ≡ false
      → KeepsEnded w (first_end env turn r w).1
  unfolding first_end ◌>>=◌ modify now_ms
  first_end-KeepsEnded turn r w found live =
      let new = ended_turn turn r (env.clock w.tick) in
      let w' = insert_turn r.turn_id new (record w { tick = suc w.tick }) in
      o.trans_at w w' _ (insert-KeepsEnded w w' r.turn_id turn new found live refl)
        ((after_end-KeepsEnded new r).at w')

  update_session-KeepsEnded :
      (id : String) (change : SessionRecord → M SessionRecord) (s : Option SessionRecord)
      → ((x : SessionRecord) → Moves KeepsEnded (change x))
      → Moves KeepsEnded (update_session env id change s)
  unfolding update_session
  update_session-KeepsEnded id change none h = search (moves_rules, o)
  update_session-KeepsEnded id change (some s) h =
      search (moves_rules, o, b, bears_rules, insert_session-KeepsEnded, h) depth 12

  second_end-KeepsEnded :
      (turn : TurnRecord) (r : ProviderTurnResult) → Moves KeepsEnded (second_end env turn r)
  unfolding second_end fail_conflicting
  second_end-KeepsEnded turn r =
      search (moves_rules, o, b, bears_rules, update_session-KeepsEnded) depth 15

  apply_to_found-KeepsEnded : (r : ProviderTurnResult) → Moves KeepsEnded (apply_to_found env r)
  unfolding apply_to_found apply_to_turn ◌>>=◌ gets ok_or raise
  apply_to_found-KeepsEnded r = record {
    at = λ w. elim (Option-cases (Map.get r.turn_id w.turns)) [
      | inl e ↦ rw e (o.refl_at w)
      | inr (t, e) ↦ elim (Bool-cases (t.session_id == r.runtime_session_id)) [
        | inr f ↦ rw (e, f) (o.refl_at w)
        | inl own ↦ elim (Bool-cases (is_terminal_turn_status t.status)) [
          | inl ended ↦ rw (e, own, ended) ((second_end-KeepsEnded t r).at w)
          | inr live ↦ rw (e, own, live) (first_end-KeepsEnded t r w e live)
        ]
      ]
    ];
  }

  fail_found-KeepsEnded : (id : String) (x : RuntimeError) → Moves KeepsEnded (fail_found env id x)
  unfolding fail_found fail_unless_ended update_turn fail_turn ◌>>=◌ gets modify now_ms pure
  fail_found-KeepsEnded id x = record {
    at = λ w. elim (Option-cases (Map.get id w.turns)) [
      | inl e ↦ rw e (o.refl_at w)
      | inr (t, e) ↦ elim (Bool-cases (is_terminal_turn_status t.status)) [
        | inl ended ↦ rw (e, ended) (o.refl_at w)
        | inr live ↦
            rw (e, live)
              (o.trans_at w (insert_turn id (failed w t) (record w { tick = suc w.tick })) _
                (insert-KeepsEnded w _ id t (failed w t) e live refl)
                ((persist-Bears env KeepsEnded o b (upsert_turn (failed w t))).at _))
      ]
    ];
  }
    where
      failed : World → TurnRecord → TurnRecord
      failed w t = record t {
        status = TurnStatus.failed;
        completed_at = some (env.clock w.tick);
        error = some (message_value (to_string x));
      }

  fail_session-KeepsEnded :
      (id : String) (x : RuntimeError) (s : SessionRecord)
      → Moves KeepsEnded (fail_session env id x s)
  unfolding fail_session
  fail_session-KeepsEnded id x s = search (moves_rules, o, b, bears_rules) depth 9

  apply_terminal_result-KeepsEnded :
      (r : ProviderTurnResult) → Moves KeepsEnded (apply_terminal_result env r)
  unfolding apply_terminal_result
  apply_terminal_result-KeepsEnded r =
      search (moves_rules, o, b, bears_rules, apply_to_found-KeepsEnded) depth 9

  apply_terminal_failure-KeepsEnded :
      (session_id turn_id : String) (x : RuntimeError)
      → Moves KeepsEnded (apply_terminal_failure env session_id turn_id x)
  unfolding apply_terminal_failure
  apply_terminal_failure-KeepsEnded session_id turn_id x =
      search
        (
          moves_rules, o, b, bears_rules, fail_found-KeepsEnded, update_session-KeepsEnded,
          fail_session-KeepsEnded, session_event-KeepsEnded,
        )
        depth 20

  -- Whatever an adapter reports, by a result or by a failure, and whatever the store and other tasks
  -- that keep the same do: a turn that was completed, interrupted or failed stays exactly as it was.
  pub terminal-KeepsEnded :
      (r : ProviderTurnResult) (session_id turn_id : String) (x : RuntimeError) (w : World)
      → KeepsEnded w (apply_terminal_result env r w).1
        × KeepsEnded w (apply_terminal_failure env session_id turn_id x w).1
  terminal-KeepsEnded r session_id turn_id x w = (
    (apply_terminal_result-KeepsEnded r).at w,
    (apply_terminal_failure-KeepsEnded session_id turn_id x).at w,
  )
