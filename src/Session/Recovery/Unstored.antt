-- ===== src/Session/Recovery/Unstored.antt =====
-- The status of a session whose turn still runs after a restart.
use gooselake.Base.{suc, ◌≡◌, refl, false, ◌∷◌, some}
use gooselake.Error.{ok}
use gooselake.Records.{TurnRecord}
use gooselake.Provider.{ProviderKind, kind_from_str}
use gooselake.World.{World, Env, ◌>>=◌}
use gooselake.Session.{provider_kind_of}
use gooselake.Session.Repairs.{Recovering}
use gooselake.Session.Started.{spawn_wait_for_turn}
use gooselake.Session.Recovery.{wait_again, store_recovered}

-- For a session that has changed in nothing else and has a known provider, whose turn still runs:
-- the walk waits for the turn again, but no session is written, neither in memory nor in the
-- store, so that a session that was ready or waiting for an approval does not become "turn_running".
pub wait_again-unstored :
    (env : Env) (r : Recovering) (turn : TurnRecord) (kind : ProviderKind) (w : World)
    → kind_from_str r.session.provider ≡ some kind
    → r.changed ≡ false
    → let (result, w') = (wait_again env turn r >>= store_recovered env) w in
      (result ≡ ok (record r.summary { resumed_waits = suc r.summary.resumed_waits }))
      × (w'.sessions ≡ w.sessions)
      × (w'.store ≡ w.store)
      × (w'.waits
          ≡ record { provider = kind; session_id = r.session.id; turn_id = turn.id } ∷ w.waits)
unfolding wait_again store_recovered provider_kind_of spawn_wait_for_turn ◌>>=◌
wait_again-unstored env r turn kind w known same = simp (known, same) (refl, refl, refl, refl)
