-- ===== src/Session/Events.antt =====
-- Events of sessions and fresh ids: a relation that bears the environment and the counter of ids
-- bears them.
use gooselake.Base.{ℕ, String, Option}
use gooselake.Store.{Payload}
use gooselake.World.{World, Env}
use gooselake.World.Moves.{IsPreorder, Moves, moves_rules}
use gooselake.Session.{take_id, allocate_id, append_event, session_event}
use gooselake.Team.Apart.{Bears, bears_rules}

module _ (env : Env) (R : World → World → Type 0) (o : IsPreorder R) (b : Bears env R)
    (taken : (w : World) (n : ℕ) → R w (record w { next_id = n })) where
  take_id-Bears : Moves R take_id
  unfolding take_id
  take_id-Bears = record { at = λ w. taken w _ }

  pub allocate_id-Bears : (prefix suffix : String) → Moves R (allocate_id env prefix suffix)
  unfolding allocate_id
  allocate_id-Bears prefix suffix = search (moves_rules, o, b, bears_rules, take_id-Bears) depth 9

  pub session_event-Bears :
      (session_id : String) (turn_id : Option String) (kind : String) (payload : Payload)
      → Moves R (session_event env session_id turn_id kind payload)
  unfolding session_event append_event
  session_event-Bears session_id turn_id kind payload =
      search (moves_rules, o, b, bears_rules, allocate_id-Bears) depth 20
