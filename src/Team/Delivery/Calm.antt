-- ===== src/Team/Delivery/Calm.antt =====
-- Attempts while no other task runs.
use gooselake.Base.{suc, String, eq_refl, true, ◌≡◌, refl, Option, none, some}
use gooselake.Error.{ok}
use gooselake.Map
use gooselake.Records.{TeamDeliveryRecord, TeamMessageRecord, DeliveryStatus}
use gooselake.World.{World, TeamCommsState, Env, ◌>>=◌, others_run, modify, now_ms}
use gooselake.World.Moves.{IsPreorder, Moves, moves_rules}
use gooselake.Team.{insert_delivery, set_comms}
use gooselake.Team.Apart.{
  Quiet, Bears, bears_rules, SameComms, SameComms-IsPreorder, SameComms-Bears,
}
use gooselake.Team.Helpers.{same_status, is_valid_transition}
use gooselake.Team.Transition.{
  Trigger, moved, transition_delivery_status, compare_and_move, commit_move,
}
use gooselake.Team.Delivery.{attempt_delivery, inject_delivery, require_delivery}
use gooselake.Team.Delivery.Publish.{publish_move-Moves}

status_at : Option TeamDeliveryRecord → Option DeliveryStatus
status_at none = none
status_at (some d) = some d.status

-- The status of the delivery of an id.
unfoldable pub status_of : String → TeamCommsState → Option DeliveryStatus
unfolding status_at
status_of id c = status_at (Map.get id c.deliveries)

same_status_refl : (s : DeliveryStatus) → same_status s s ≡ true
unfolding same_status
same_status_refl (DeliveryStatus.other s) = eq_refl s
same_status_refl s = refl

pub others_run-quiet :
    (env : Env)
    → Quiet env
    → (w : World) → others_run env w ≡ (ok tt, record w { tick = suc w.tick })
unfolding others_run
others_run-quiet env quiet w = rw (quiet w.tick (record w { tick = suc w.tick }))

module _ (env : Env) (quiet : Quiet env) where
  pub inject_delivery-quiet :
      (id : String) (trigger : Trigger) (w : World) (d : TeamDeliveryRecord) (m : TeamMessageRecord)
      → Map.get id w.comms.deliveries ≡ some d
      → Map.get d.message_id w.comms.messages ≡ some m
      → inject_delivery env id trigger w
        ≡ attempt_delivery env d m trigger (record w { tick = suc (suc (suc w.tick)) })
  unfolding inject_delivery require_delivery ◌>>=◌
  inject_delivery-quiet id trigger w d m hd hm = simp (others_run-quiet env quiet, hd, hm)

  -- The delivery as the caller has it moves; nothing else of the team service changes.
  pub transition-quiet :
      (d : TeamDeliveryRecord) (next : DeliveryStatus) (strategy code message : Option String)
      (trigger : Trigger) (w : World)
      → is_valid_transition d.status next ≡ true
      → Map.get d.id w.comms.deliveries ≡ some d
      → (transition_delivery_status env d next strategy code message trigger w).1.comms
        ≡ insert_delivery d.id (moved d next strategy code message (env.clock (suc w.tick))) w.comms
  unfolding transition_delivery_status compare_and_move commit_move ◌>>=◌ modify now_ms
  transition-quiet d next strategy code message trigger w valid found =
      simp (valid, others_run-quiet env quiet, found, same_status_refl)
        ((publish_move-Moves env SameComms SameComms-IsPreorder (SameComms-Bears env quiet) d _ next
            trigger).at
          _)

module _ (env : Env) where
  module _ (R : World → World → Type 0) (o : IsPreorder R) (b : Bears env R)
      (written : (w : World) (c : TeamCommsState) → R w (set_comms c w)) where
    commit_move-Moves :
        (current stored : TeamDeliveryRecord) (next : DeliveryStatus)
        (strategy code message : Option String) (trigger : Trigger)
        → Moves R (commit_move env current stored next strategy code message trigger)
    unfolding commit_move modify
    commit_move-Moves current stored next strategy code message trigger =
        search (moves_rules, o, b, bears_rules, publish_move-Moves, write-Moves) depth 12
      where
        write-Moves : (f : World → TeamCommsState) → Moves R (modify (λ w. set_comms (f w) w))
        write-Moves f = record { at = λ w. written w (f w) }

    pub transition-Moves :
        (current : TeamDeliveryRecord) (next : DeliveryStatus)
        (strategy code message : Option String) (trigger : Trigger)
        → Moves R (transition_delivery_status env current next strategy code message trigger)
    unfolding transition_delivery_status compare_and_move
    transition-Moves current next strategy code message trigger =
        search (moves_rules, o, b, bears_rules, commit_move-Moves) depth 15
