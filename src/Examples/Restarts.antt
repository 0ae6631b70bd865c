-- ===== src/Examples/Restarts.antt =====
-- The theorems on restarts at the small state.
use gooselake.Base.{refl, ◌≡◌, false, [], ◌∷◌, some}
use gooselake.Error.{ok}
use gooselake.Provider.{ProviderKind, kind_from_str}
use gooselake.Text.{to_ascii_lowercase, trim}
use gooselake.World.{◌>>=◌}
use gooselake.World.Ensures.{Ensures}
use gooselake.Records.{SessionStatus, TeamRecord, DeliveryStatus}
use gooselake.Session.Repairs.{Recovering, StartupRecoverySummary}
use gooselake.Session.Recovery.{settle_active, wait_again, store_recovered}
use gooselake.Session.Recovery.Settled.{Settled, settle_active-settles}
use gooselake.Session.Recovery.Unstored.{wait_again-unstored}
use gooselake.Team.Hydration.{hydrate}
use gooselake.Team.Hydration.Held.{Holds, hydrate-Holds, hydrate-living}
use gooselake.Examples.{calm, busy, running, session_of, team, member_of, hello, delivery_of}

abbrev nothing_yet : StartupRecoverySummary
nothing_yet = record {
  started_at = 1;
  completed_at = 0;
  sessions_scanned = 1;
  turns_scanned = 1;
  approvals_scanned = 0;
  sessions_reconciled = 0;
  turns_reconciled = 0;
  approvals_reconciled = 0;
  resumed_sessions = 1;
  resumed_waits = 0;
  deferred_deliveries_retried = 0;
  provider_status = [];
  notes = [];
}

abbrev ready_at_work : Recovering
ready_at_work = record {
  session = record (session_of "ses_a" SessionStatus.ready) { active_turn_id = some "turn_1" };
  changed = false;
  summary = nothing_yet;
}

settle_active-settles_example :
    Ensures (Settled busy.turns []) (settle_active calm busy.turns [] (some "turn_1") ready_at_work)
settle_active-settles_example = settle_active-settles calm busy.turns [] ready_at_work

wait_again-unstored_example :
    let (result, w) = (wait_again calm running ready_at_work >>= store_recovered calm) busy in
    (result ≡ ok (record nothing_yet { resumed_waits = 1 }))
    × (w.sessions ≡ busy.sessions)
    × (w.store ≡ busy.store)
    × (w.waits
        ≡ record { provider = ProviderKind.codex; session_id = "ses_a"; turn_id = "turn_1" } ∷ [])
unfolding kind_from_str to_ascii_lowercase trim
wait_again-unstored_example =
    wait_again-unstored calm ready_at_work running ProviderKind.codex busy refl refl

hydrate-Holds_example : Holds (
    hydrate
      (team ∷ [])
      (member_of "ses_a" ∷ [])
      (hello ∷ [])
      (delivery_of "team_delivery_1" DeliveryStatus.pending ∷ []))
hydrate-Holds_example =
    hydrate-Holds (team ∷ []) (member_of "ses_a" ∷ []) (hello ∷ [])
      (delivery_of "team_delivery_1" DeliveryStatus.pending ∷ [])

-- The team with the greatest number, after it was deleted.
abbrev deleted : TeamRecord
deleted = record team { id = "team_9"; deleted_at = some 5 }

hydrate-living_example :
    hydrate (team ∷ deleted ∷ []) (member_of "ses_a" ∷ []) (hello ∷ []) []
    ≡ hydrate (team ∷ []) (member_of "ses_a" ∷ []) (hello ∷ []) []
hydrate-living_example =
    hydrate-living (team ∷ deleted ∷ []) (member_of "ses_a" ∷ []) (hello ∷ []) []
