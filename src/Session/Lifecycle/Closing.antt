-- ===== src/Session/Lifecycle/Closing.antt =====
-- A forced close, from the first look-up to the end.
use gooselake.Base.{ℕ, suc, refl, String, ◌≡◌, Option, none, some, unwrap_or}
use gooselake.Error.{ok}
use gooselake.Map
use gooselake.Records.{SessionRecord}
use gooselake.Store.{Payload}
use gooselake.World.{World, Env, ◌>>=◌}
use gooselake.World.Succeeds.{Succeeds, succeeds_rules}
use gooselake.Session.{
  take_id, allocate_id, append_event, session_event, get_session, persist_unlocked, store_session,
  put_session,
}
use gooselake.Session.Lifecycle.{close_found, finalize_session_close, force_close_session}
use gooselake.Session.Lifecycle.Stored.{IsClosed, force_close_session-IsClosed}
use gooselake.Team.Apart.{Quiet}
use gooselake.Team.Delivery.Calm.{others_run-quiet}

module _ (env : Env) (healthy : (n : ℕ) → env.store_fault n ≡ none) where
  pub take_id-Succeeds : Succeeds take_id
  unfolding take_id
  take_id-Succeeds = record { at = λ w. (w.next_id, refl) }

  pub session_event-Succeeds :
      (session_id : String) (turn_id : Option String) (kind : String) (payload : Payload)
      → Succeeds (session_event env session_id turn_id kind payload)
  unfolding session_event append_event allocate_id
  session_event-Succeeds session_id turn_id kind payload =
      search (succeeds_rules, take_id-Succeeds, healthy) depth 25

  pub store_session-Succeeds : (s : SessionRecord) → Succeeds (store_session env s)
  unfolding store_session persist_unlocked
  store_session-Succeeds s = search (succeeds_rules, healthy) depth 12

  pub put_session-Succeeds : (id : String) (s : SessionRecord) → Succeeds (put_session env id s)
  unfolding put_session
  put_session-Succeeds id s = search (succeeds_rules, healthy) depth 12

  close_found-Succeeds :
      (id reason : String) (s : SessionRecord) → Succeeds (close_found env id reason s)
  unfolding close_found
  close_found-Succeeds id reason s =
      search
        (
          succeeds_rules, healthy, store_session-Succeeds, put_session-Succeeds,
          session_event-Succeeds,
        )
        depth 25

pub get_session-quiet :
    (env : Env)
    → Quiet env
    → (id : String) (s : SessionRecord) (w : World) → Map.get id w.sessions ≡ some s
    → get_session env id w ≡ (ok s, record w { tick = suc w.tick })
unfolding get_session ◌>>=◌
get_session-quiet env quiet id s w found = simp (others_run-quiet env quiet, found)

forced :
    (env : Env) (quiet : Quiet env) (healthy : (n : ℕ) → env.store_fault n ≡ none) (id : String)
    (reason : Option String) (s : SessionRecord) (w : World)
    → Map.get id w.sessions ≡ some s
    → (t : SessionRecord) × ((force_close_session env id reason w).0 ≡ ok t)
unfolding force_close_session finalize_session_close ◌>>=◌
forced env quiet healthy id reason s w found =
    rw (get_session-quiet env quiet id s w found)
      ((close_found-Succeeds env healthy id (unwrap_or reason "closed_by_runtime_rollback") s).at _)

-- While no other task runs and the store does not fail, a forced close of a session that is in memory
-- succeeds, whatever the session's status; the session in memory is then the one returned, is closed,
-- and works on no turn.
pub force_close_session-succeeds :
    (env : Env) (quiet : Quiet env) (healthy : (n : ℕ) → env.store_fault n ≡ none) (id : String)
    (reason : Option String) (s : SessionRecord) (w : World)
    → Map.get id w.sessions ≡ some s
    → (t : SessionRecord) × ((force_close_session env id reason w).0 ≡ ok t)
      × IsClosed id t (force_close_session env id reason w).1
force_close_session-succeeds env quiet healthy id reason s w found =
    let (t, e) = forced env quiet healthy id reason s w found in
    (t, e, (force_close_session-IsClosed env quiet id reason).at w t e)
