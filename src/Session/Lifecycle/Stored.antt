-- ===== src/Session/Lifecycle/Stored.antt =====
-- What the operations on a session leave in memory.
use gooselake.Base.{
  [], ◌∷◌, String, ◌≡◌, refl, sym, ap, ◌∙◌, inl, inr, Option, none, some, eq_refl, suc,
}
use gooselake.Error.{Result-cases, ok, err, err-not_ok, ok-eq}
use gooselake.Map
use gooselake.Map.Laws.{get-insert}
use gooselake.Records.{SessionRecord, SessionStatus}
use gooselake.Store.{Payload, text}
use gooselake.World.{World, Env, pure, ◌>>=◌, ◌>>◌}
use gooselake.World.Ensures.{Ensures, Ensures-bind, Ensures-map, ensures_rules}
use gooselake.Session.{insert_session, put_session, session_event}
use gooselake.Session.Lifecycle.{
  close_found, ResumeSessionInput, finalize_session_close, close_session, force_close_session,
  resume_session, closed_session,
}
use gooselake.Session.Turns.Owner.{event-SameTables, put_session-quiet}
use gooselake.Team.Apart.{Quiet}

-- The session is in memory as it was returned.
abbrev pub IsStored : String → SessionRecord → World → Type 0
IsStored id s w = Map.get id w.sessions ≡ some s

-- The session is in memory as it was returned: closed, and at work on no turn.
pub record IsClosed (id : String) (s : SessionRecord) (w : World) : Type 0 where
  pub stored : IsStored id s w
  pub closed : s.status ≡ SessionStatus.closed
  pub idle : s.active_turn_id ≡ none

module _ (env : Env) (quiet : Quiet env) where
  put_and_report :
      (id : String) (s : SessionRecord) (kind : String) (payload : Payload)
      → Ensures
          (λ t w. (t ≡ s) × IsStored id t w)
          (put_session env id s >> (session_event env id none kind payload >> pure s))
  unfolding ◌>>=◌ pure
  put_and_report id s kind payload = record {
    at = λ w a done.
        let w1 : World = insert_session id s (record w { tick = suc w.tick }) in
        let e : (put_session env id s >> (session_event env id none kind payload >> pure s)) w
            ≡ (session_event env id none kind payload >> pure s) w1 =
          rw (put_session-quiet env quiet id s w) refl in
        rw e (reported w1 a (rw (get-insert id id s w.sessions, eq_refl id) refl) (rw e at done));
  }
    where
      reported :
          (w : World) (a : SessionRecord)
          → Map.get id w.sessions ≡ some s
          → ((session_event env id none kind payload >> pure s) w).0 ≡ ok a
          → (a ≡ s) × IsStored id a ((session_event env id none kind payload >> pure s) w).1
      reported w a held done =
          let kept = (event-SameTables env quiet id none kind payload).at w in
          elim (Result-cases (session_event env id none kind payload w).0) [
            | inr (e, h) ↦ absurd (err-not_ok e a (err e) refl (rw h at done))
            | inl (u, h) ↦
                let same : s ≡ a = ok-eq (ok s) refl (rw h at done) in
                rw h (sym same, ap (Map.get id) kept.sessions ∙ held ∙ ap some same)
          ]

  close_found-IsClosed :
      (id reason : String) (session : SessionRecord)
      → Ensures (IsClosed id) (close_found env id reason session)
  unfolding close_found closed_session
  close_found-IsClosed id reason session = Ensures-bind _ _ (λ closed_at.
      Ensures-bind _ _ (λ updated_at. Ensures-bind _ _ (λ _.
        Ensures-map _
          (λ s w (e, stored). record {
            stored = stored;
            closed = ap (λ (x : SessionRecord). x.status) e;
            idle = ap (λ (x : SessionRecord). x.active_turn_id) e;
          })
          (put_and_report id (closed_session session closed_at updated_at) "session.closed"
            (("reason", text reason) ∷ [])))))

  finalize_session_close-IsClosed :
      (id reason : String) → Ensures (IsClosed id) (finalize_session_close env id reason)
  unfolding finalize_session_close
  finalize_session_close-IsClosed id reason = search (ensures_rules, close_found-IsClosed) depth 5

  close_session-IsClosed :
      (id : String) (reason : Option String) → Ensures (IsClosed id) (close_session env id reason)
  unfolding close_session
  close_session-IsClosed id reason =
      search (ensures_rules, finalize_session_close-IsClosed) depth 15

  pub force_close_session-IsClosed :
      (id : String) (reason : Option String)
      → Ensures (IsClosed id) (force_close_session env id reason)
  unfolding force_close_session
  force_close_session-IsClosed id reason = finalize_session_close-IsClosed id _

  report-IsStored :
      (id : String) (s : SessionRecord) (kind : String) (payload : Payload)
      → Ensures
          (IsStored id)
          (put_session env id s >> (session_event env id none kind payload >> pure s))
  report-IsStored id s kind payload =
      Ensures-map _ (λ s w (e, stored). stored) (put_and_report id s kind payload)

  resume_session-IsStored :
      (id : String) (input : ResumeSessionInput)
      → Ensures (IsStored id) (resume_session env id input)
  unfolding resume_session
  resume_session-IsStored id input = search (ensures_rules, report-IsStored) depth 25

-- While no other task runs, whatever the adapters and the store answer: where close_session or
-- force_close_session succeeds, the session in memory is the one returned, is closed, and works
-- on no turn; where resume_session succeeds, the session in memory is the one returned.
pub sessions-IsStored :
    (env : Env) (quiet : Quiet env) (id : String) (reason : Option String)
    (input : ResumeSessionInput)
    → Ensures (IsClosed id) (close_session env id reason)
      × Ensures (IsClosed id) (force_close_session env id reason)
      × Ensures (IsStored id) (resume_session env id input)
sessions-IsStored env quiet id reason input = (
  close_session-IsClosed env quiet id reason,
  force_close_session-IsClosed env quiet id reason,
  resume_session-IsStored env quiet id input,
)
