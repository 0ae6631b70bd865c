-- ===== src/Team/Apart.antt =====
-- What the team service does beside its own state: it asks for the time, writes to the store and
-- numbers its events. A relation that bears those bears every event of a team.
use gooselake.Base.{ℕ, suc, String, Option, ◌≡◌, refl, ap, ◌∙◌}
use gooselake.Store.{Store, Payload, NewRuntimeEvent}
use gooselake.World.Frame.{persist-frame, append_to_store-frame}
use gooselake.World.{TeamCommsState, World, Env, others_run, now_ms, persist, append_to_store}
use gooselake.World.Moves.{IsPreorder, Moves, moves_rules}
use gooselake.Session.{persist_unlocked}
use gooselake.Session.Apart.{CommsOrder, OnComms, Rely}
use gooselake.Team.{append_team_event, take_event_id}

pub record Bears (env : Env) (R : World → World → Type 0) : Type 0 where
  pub others : (n : ℕ) (w : World) → R w (env.others n (record w { tick = suc w.tick }))
  pub asked : (w : World) → R w (record w { tick = suc w.tick })
  pub stored : (w : World) (s : Store) → R w (record w { store = s; tick = suc w.tick })
  pub numbered : (w : World) (n : ℕ) → R w (record w { next_event_id = n })

module _ (env : Env) (R : World → World → Type 0) (o : IsPreorder R) (b : Bears env R) where
  pub others_run-Bears : Moves R (others_run env)
  unfolding others_run
  others_run-Bears = record { at = λ w. b.others w.tick w }

  pub now_ms-Bears : Moves R (now_ms env)
  unfolding now_ms
  now_ms-Bears = record { at = λ w. b.asked w }

  pub persist-Bears : (write : Store → Store) → Moves R (persist env write)
  persist-Bears write = record { at = λ w. rw (persist-frame env write w) (b.stored w _) }

  pub append_to_store-Bears : (event : NewRuntimeEvent) → Moves R (append_to_store env event)
  append_to_store-Bears event = record {
    at = λ w. rw (append_to_store-frame env event w) (b.stored w _);
  }

  take_event_id-Bears : Moves R take_event_id
  unfolding take_event_id
  take_event_id-Bears = record { at = λ w. b.numbered w _ }

  pub persist_unlocked-Bears : (write : Store → Store) → Moves R (persist_unlocked env write)
  unfolding persist_unlocked
  persist_unlocked-Bears write = search (moves_rules, o, others_run-Bears, persist-Bears) depth 9

  pub append_team_event-Bears :
      (team_id kind : String) (payload : Payload) (session_id : Option String)
      → Moves R (append_team_event env team_id kind payload session_id)
  unfolding append_team_event
  append_team_event-Bears team_id kind payload session_id =
      search
        (moves_rules, o, take_event_id-Bears, now_ms-Bears, others_run-Bears, append_to_store-Bears)
        depth 12

pub ruleset bears_rules = (
  others_run-Bears, now_ms-Bears, persist-Bears, persist_unlocked-Bears, append_to_store-Bears,
  append_team_event-Bears,
)

pub OnComms-Bears :
    (env : Env) {Q : TeamCommsState → TeamCommsState → Type 0}
    → CommsOrder Q
    → Rely env Q
    → Bears env (OnComms Q)
OnComms-Bears env q rely = record {
  others = rely;
  asked = λ w. q.refl_at w.comms;
  stored = λ w s. q.refl_at w.comms;
  numbered = λ w n. q.refl_at w.comms;
}

-- The state of the team service is the same.
abbrev pub SameComms : World → World → Type 0
SameComms w v = v.comms ≡ w.comms

-- The sessions, their turns and approvals, and the tasks that wait for turns are the same.
pub record SameSessions (w v : World) : Type 0 where
  pub sessions : v.sessions ≡ w.sessions
  pub turns : v.turns ≡ w.turns
  pub approvals : v.approvals ≡ w.approvals
  pub waits : v.waits ≡ w.waits

pub SameComms-IsPreorder : IsPreorder SameComms
SameComms-IsPreorder = record { refl_at = λ w. refl; trans_at = λ u v w p q. q ∙ p }

pub SameSessions-IsPreorder : IsPreorder SameSessions
SameSessions-IsPreorder = record {
  refl_at = λ w. record { sessions = refl; turns = refl; approvals = refl; waits = refl };
  trans_at = λ u v w p q. record {
    sessions = q.sessions ∙ p.sessions;
    turns = q.turns ∙ p.turns;
    approvals = q.approvals ∙ p.approvals;
    waits = q.waits ∙ p.waits;
  };
}

-- No other task runs.
abbrev pub Quiet : Env → Type 0
Quiet env = (n : ℕ) (w : World) → env.others n w ≡ w

module _ (env : Env) (quiet : Quiet env) where
  pub SameComms-Bears : Bears env SameComms
  SameComms-Bears = record {
    others = λ n w. ap (λ (v : World). v.comms) (quiet n (record w { tick = suc w.tick }));
    asked = λ w. refl;
    stored = λ w s. refl;
    numbered = λ w n. refl;
  }

  pub SameSessions-Bears : Bears env SameSessions
  SameSessions-Bears = record {
    others = λ n w. rw (quiet n (record w { tick = suc w.tick })) same;
    asked = λ w. same;
    stored = λ w s. same;
    numbered = λ w n. same;
  }
    where
      same :
          {w : World} {t n : ℕ} {s : Store}
          → SameSessions w (record w { tick = t; store = s; next_event_id = n })
      same = record { sessions = refl; turns = refl; approvals = refl; waits = refl }
