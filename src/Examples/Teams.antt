-- ===== src/Examples/Teams.antt =====
-- The theorems on the team service at the small state.
use gooselake.Base.{String, ◌≡◌, refl, inr, List, [], ◌∷◌, none, some, ◌⊎◌, ◌↔◌, if◌then◌else◌}
use gooselake.Error.{RuntimeError, ok, err, invalid_state}
use gooselake.Text.{trim, to_ascii_lowercase}
use gooselake.Map
use gooselake.Records.{
  SessionStatus, TeamDeliveryRecord, DeliveryStatus, delivery_status_text, is_unavailable,
}
use gooselake.World.{World}
use gooselake.Team.Apart.{SameSessions}
use gooselake.Team.Control.{cancel_stored}
use gooselake.Team.Control.Cancel.{AllWaiting, is_in, cancelled_if_there, cancel_stored-atomic}
use gooselake.Team.Transition.{queue, first_blocker, find_recipient_queue_blocker}
use gooselake.Team.Delivery.{inject_delivery, resume_deferred_for_recipient}
use gooselake.Team.Members.{create_team, join_team, remove_team_member, set_team_lead}
use gooselake.Team.Control.{delete_team}
use gooselake.Team.Members.Leads.{StaysLed}
use gooselake.Team.Members.Leadership.{members-StaysLed}
use gooselake.Team.Drafts.{TeamMessageAck, existing}
use gooselake.Team.Messages.{find_or_enter}
use gooselake.Team.Messages.Resend.{find_or_enter-again}
use gooselake.Team.Helpers.{is_attemptable, is_terminal_status, normalize_policy}
use gooselake.Team.Delivery.Attempts.{inject-Follows}
use gooselake.Team.Delivery.Calm.{status_of}
use gooselake.Team.Delivery.Fifo.{AllEnded, first_blocker-none_iff, inject-blocked}
use gooselake.Team.Delivery.Gone.{inject-gone}
use gooselake.Team.Delivery.Routes.{Follows, Follows-order}
use gooselake.Team.Queries.{page_limit, messages_at}
use gooselake.Team.Queries.Paging.{follow, follow-all}
use gooselake.Examples.{
  calm, calm-Quiet, session_of, hello, delivery_of, comms, world, draft, header, new_team, joining,
}

inject-Follows_example :
    Follows comms (inject_delivery calm "dlv_1" queue world).1.comms
    × Follows comms (resume_deferred_for_recipient calm "ses_b" queue world).1.comms
inject-Follows_example =
    inject-Follows calm (λ n w. Follows-order.refl_at w.comms) "dlv_1" "ses_b" queue world

first_blocker-none_iff_example :
    (first_blocker "dlv_2" comms ("dlv_1" ∷ "dlv_2" ∷ []) ≡ none) ↔ AllEnded comms ("dlv_1" ∷ [])
first_blocker-none_iff_example = first_blocker-none_iff comms "dlv_2" ("dlv_1" ∷ []) [] (refl, tt)

waits : ¬ AllEnded comms ("dlv_1" ∷ [])
unfolding Map.get is_terminal_status
waits (h, _) = cc (h (delivery_of "dlv_1" DeliveryStatus.deferred) refl)

inject-blocked_example :
    SameSessions world (inject_delivery calm "dlv_2" queue world).1
    × (status_of "dlv_2" (inject_delivery calm "dlv_2" queue world).1.comms
        ≡ some DeliveryStatus.deferred)
unfolding Map.get is_attemptable
inject-blocked_example =
    inject-blocked calm calm-Quiet queue world (delivery_of "dlv_2" DeliveryStatus.pending) hello
      ("dlv_1" ∷ []) [] refl refl refl refl (refl, tt) waits

inject-gone_example : inject_delivery calm "dlv_1" queue world ≡ (
  err (invalid_state "invalid delivery transition deferred -> failed"),
  record world { tick = 5 },
)
unfolding Map.get is_attemptable find_recipient_queue_blocker first_blocker normalize_policy
    delivery_status_text is_unavailable to_ascii_lowercase trim
inject-gone_example =
    inject-gone calm calm-Quiet queue world (delivery_of "dlv_1" DeliveryStatus.deferred) hello
      "non_interrupting" refl refl refl refl refl
      (inr (session_of "ses_b" SessionStatus.closed, refl, refl))

cancel_stored-atomic_example :
    ((e : RuntimeError) × (cancel_stored calm "team_1" "msg_1" world ≡ (err e, world)))
    ⊎ ((ds : List TeamDeliveryRecord) × (w' : World) × (cancel_stored calm "team_1" "msg_1" world
          ≡ (ok ds, w'))
        × AllWaiting comms ("dlv_1" ∷ "dlv_2" ∷ [])
        × ((j : String)
            → status_of j w'.comms ≡ (
                if is_in j ("dlv_1" ∷ "dlv_2" ∷ [])
                then cancelled_if_there (status_of j comms)
                else status_of j comms)))
unfolding Map.get
cancel_stored-atomic_example = cancel_stored-atomic calm "team_1" "msg_1" world

find_or_enter-again_example :
    ((e : RuntimeError) × (find_or_enter calm draft header (("ses_b", "codex") ∷ []) world
        ≡ (err e, world)))
    ⊎ ((ack ack' : TeamMessageAck) × (w' : World) × (find_or_enter calm draft header
            (("ses_b", "codex") ∷ [])
            world
          ≡ (ok ack, w'))
        × (find_or_enter calm draft header (("ses_b", "codex") ∷ []) w' ≡ (ok ack', w'))
        × (ack'.message ≡ ack.message)
        × (ack'.disposition ≡ existing))
find_or_enter-again_example =
    find_or_enter-again calm draft header "key" (("ses_b", "codex") ∷ []) world refl

members-StaysLed_example :
    StaysLed comms (create_team calm new_team world).1.comms
    × StaysLed comms (join_team calm joining world).1.comms
    × StaysLed comms (remove_team_member calm "team_1" "ses_a" world).1.comms
    × StaysLed comms (set_team_lead calm "team_1" "ses_a" world).1.comms
    × StaysLed comms (delete_team calm "team_1" world).1.comms
members-StaysLed_example =
    members-StaysLed calm (λ n w h. h) new_team joining "team_1" "ses_a" world

follow-all_example :
    follow 2 comms ("msg_1" ∷ []) 0 (page_limit none) ≡ some (messages_at comms ("msg_1" ∷ []))
unfolding Map.get
follow-all_example = follow-all comms ("msg_1" ∷ []) none (tt, tt) ((hello, refl, refl), tt)
