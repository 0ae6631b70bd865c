-- ===== src/Team/Delivery/Publish.antt =====
-- The write and the report of a delivery that moved.
use gooselake.Records.{TeamDeliveryRecord, DeliveryStatus}
use gooselake.World.{World, Env}
use gooselake.World.Moves.{IsPreorder, Moves, moves_rules}
use gooselake.Team.Apart.{Bears, bears_rules}
use gooselake.Team.Transition.{Trigger, report_move, publish_move, publish_turn_id}

module _ (env : Env) (R : World → World → Type 0) (o : IsPreorder R) (b : Bears env R) where
  report_move-Moves :
      (current updated : TeamDeliveryRecord) (next : DeliveryStatus) (trigger : Trigger)
      → Moves R (report_move env current updated next trigger)
  unfolding report_move
  report_move-Moves current updated next trigger = search (moves_rules, o, b, bears_rules) depth 15

  pub publish_move-Moves :
      (current updated : TeamDeliveryRecord) (next : DeliveryStatus) (trigger : Trigger)
      → Moves R (publish_move env current updated next trigger)
  unfolding publish_move
  publish_move-Moves current updated next trigger =
      search (moves_rules, o, b, bears_rules, report_move-Moves) depth 15

  pub publish_turn_id-Moves : (d : TeamDeliveryRecord) → Moves R (publish_turn_id env d)
  unfolding publish_turn_id
  publish_turn_id-Moves d = search (moves_rules, o, b, bears_rules) depth 15
