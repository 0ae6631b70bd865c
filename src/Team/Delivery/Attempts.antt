-- ===== src/Team/Delivery/Attempts.antt =====
-- Attempts, and the table of `is_valid_transition`.
use gooselake.Base.{
  String, Bool, true, ◌≡◌, refl, inl, inr, Option, none, some, List, [], ◌∷◌, if◌then◌else◌,
  Bool-cases,
}
use gooselake.Error.{RuntimeError, Result, ok, err, invalid_state}
use gooselake.Map
use gooselake.Records.{SessionRecord, TeamDeliveryRecord, TeamMessageRecord, DeliveryStatus}
use gooselake.World.{World, Env, pure, raise, modify, gets, ok_or, ◌>>=◌, now_ms, others_run}
use gooselake.World.Moves.{
  IsPreorder, Moves, Moves-bind, Moves-attempt, Moves-pure, Moves-raise, moves_rules,
}
use gooselake.Session.Apart.{OnComms, OnComms-IsPreorder, Rely, apart_rules}
use gooselake.Session.Started.{SendTurnAccepted}
use gooselake.Team.Apart.{Bears, OnComms-Bears}
use gooselake.Team.Helpers.{is_valid_transition, same_status}
use gooselake.Team.Transition.{
  Trigger, moved, compare_and_move, commit_move, transition_delivery_status, set_turn_id,
  transition_delivery_with_turn_id,
}
use gooselake.Team.Delivery.{
  after_send, inject_now, interrupt_failed, interrupt_first, defer_delivery, by_policy,
  with_recipient, unless_blocked, attempt_delivery, require_delivery, inject_delivery, inject_all,
  resume_deferred_for_recipient,
}
use gooselake.Team.Delivery.Publish.{publish_move-Moves, publish_turn_id-Moves}
use gooselake.Team.Delivery.Routes.{
  stay, step, same_status-eq, Follows, Follows-order, insert-Follows,
}

module _ (env : Env) (rely : Rely env Follows) where
  order : IsPreorder (OnComms Follows)
  order = OnComms-IsPreorder Follows-order

  bears : Bears env (OnComms Follows)
  bears = OnComms-Bears env Follows-order rely

  commit_move-Follows :
      (current stored : TeamDeliveryRecord) (next : DeliveryStatus)
      (strategy code message : Option String) (trigger : Trigger) (w : World)
      → Map.get current.id w.comms.deliveries ≡ some stored
      → is_valid_transition stored.status next ≡ true
      → OnComms Follows w (commit_move env current stored next strategy code message trigger w).1
  unfolding commit_move ◌>>=◌ now_ms modify moved
  commit_move-Follows current stored next strategy code message trigger w found valid =
      Follows-order.trans_at _ _ _
        (insert-Follows w.comms current.id stored _ found (step stay valid))
        ((publish_move-Moves env (OnComms Follows) order bears current _ next trigger).at _)

  -- The comparison under the lock: only the status that the caller saw moves.
  compare_and_move-Follows :
      (current : TeamDeliveryRecord) (next : DeliveryStatus) (strategy code message : Option String)
      (trigger : Trigger) (w : World) (found : Option TeamDeliveryRecord)
      → Map.get current.id w.comms.deliveries ≡ found
      → is_valid_transition current.status next ≡ true
      → OnComms Follows w
          (compare_and_move env current next strategy code message trigger found w).1
  unfolding compare_and_move ◌>>=◌ ok_or
  compare_and_move-Follows current next strategy code message trigger w none e valid =
      Follows-order.refl_at _
  compare_and_move-Follows current next strategy code message trigger w (some stored) e valid =
      elim (Bool-cases (same_status stored.status current.status)) [
        | inl same ↦ rw same (
            commit_move-Follows current stored next strategy code message trigger w e
              (rw (same_status-eq stored.status current.status same) valid))
        | inr other ↦ rw other (Follows-order.refl_at _)
      ]

  refused_move-Moves :
      (b : Bool) (d : TeamDeliveryRecord) (e : RuntimeError)
      → Moves (OnComms Follows) (if b then pure d else raise e)
  refused_move-Moves b d e = search (moves_rules, order) depth 9

  found_move-Follows :
      (current : TeamDeliveryRecord) (next : DeliveryStatus) (strategy code message : Option String)
      (trigger : Trigger) (w : World)
      → is_valid_transition current.status next ≡ true
      → OnComms Follows w
          ((others_run env >>= λ _. gets (λ v. Map.get current.id v.comms.deliveries) >>= λ found.
              compare_and_move env current next strategy code message trigger found)
            w).1
  unfolding ◌>>=◌ others_run gets
  found_move-Follows current next strategy code message trigger w valid =
      Follows-order.trans_at _ _ _ (rely w.tick w)
        (compare_and_move-Follows current next strategy code message trigger _ _ refl valid)

  transition-Moves :
      (current : TeamDeliveryRecord) (next : DeliveryStatus) (strategy code message : Option String)
      (trigger : Trigger)
      → Moves
          (OnComms Follows)
          (transition_delivery_status env current next strategy code message trigger)
  unfolding transition_delivery_status
  transition-Moves current next strategy code message trigger = record {
    at = λ w. elim (Bool-cases (is_valid_transition current.status next)) [
      | inl valid ↦ rw valid (found_move-Follows current next strategy code message trigger w valid)
      | inr invalid ↦ rw invalid ((refused_move-Moves _ current _).at w)
    ];
  }

  set_turn_id-Follows :
      (id turn_id : String) (found : Option TeamDeliveryRecord) (w : World)
      → Map.get id w.comms.deliveries ≡ found
      → OnComms Follows w (set_turn_id env id turn_id found w).1
  unfolding set_turn_id ◌>>=◌ now_ms modify
  set_turn_id-Follows id turn_id none w e = Follows-order.refl_at _
  set_turn_id-Follows id turn_id (some d) w e =
      Follows-order.trans_at _ _ _ (insert-Follows w.comms id d _ e stay)
        ((publish_turn_id-Moves env (OnComms Follows) order bears _).at _)

  with_turn_id-Moves :
      (id turn_id : String)
      → Moves (OnComms Follows) (transition_delivery_with_turn_id env id turn_id)
  unfolding transition_delivery_with_turn_id ◌>>=◌ others_run gets
  with_turn_id-Moves id turn_id = record {
    at =
        λ w. Follows-order.trans_at _ _ _ (rely w.tick w) (set_turn_id-Follows id turn_id _ _ refl);
  }

  after_send-Moves :
      (injecting : TeamDeliveryRecord) (trigger : Trigger) (answer : Result SendTurnAccepted)
      → Moves (OnComms Follows) (after_send env injecting trigger answer)
  unfolding after_send
  after_send-Moves injecting trigger (ok ack) =
      search (moves_rules, order, transition-Moves, with_turn_id-Moves) depth 12
  after_send-Moves injecting trigger (err (invalid_state s)) = transition-Moves _ _ _ _ _ _
  after_send-Moves injecting trigger (err e) = transition-Moves _ _ _ _ _ _

  inject_now-Moves :
      (d : TeamDeliveryRecord) (message : TeamMessageRecord) (session : SessionRecord)
      (trigger : Trigger)
      → Moves (OnComms Follows) (inject_now env d message session trigger)
  unfolding inject_now
  inject_now-Moves d message session trigger =
      search
        (moves_rules, order, Follows-order, rely, apart_rules, transition-Moves, after_send-Moves)
        depth 12

  interrupt_failed-Moves :
      (policy : String) (d : TeamDeliveryRecord) (answer : Result (Unit {0}))
      → Moves (OnComms Follows) (interrupt_failed env policy d answer)
  unfolding interrupt_failed
  interrupt_failed-Moves policy d (ok _) = Moves-pure order tt
  interrupt_failed-Moves policy d (err e) = Moves-raise order _

  interrupt_first-Moves :
      (policy : String) (d : TeamDeliveryRecord) (session : SessionRecord) (turn_id : String)
      → Moves (OnComms Follows) (interrupt_first env policy d session turn_id)
  unfolding interrupt_first
  interrupt_first-Moves policy d session turn_id =
      search (moves_rules, order, Follows-order, rely, apart_rules, interrupt_failed-Moves) depth 12

  defer_delivery-Moves :
      (d : TeamDeliveryRecord) (trigger : Trigger)
      → Moves (OnComms Follows) (defer_delivery env d trigger)
  unfolding defer_delivery
  defer_delivery-Moves d trigger = transition-Moves _ _ _ _ _ _

  by_policy-Moves :
      (policy : String) (d : TeamDeliveryRecord) (message : TeamMessageRecord)
      (session : SessionRecord) (trigger : Trigger) (active : Option String)
      → Moves (OnComms Follows) (by_policy env policy d message session trigger active)
  unfolding by_policy
  by_policy-Moves policy d message session trigger none = inject_now-Moves d message session trigger
  by_policy-Moves policy d message session trigger (some turn_id) =
      search (moves_rules, order, interrupt_first-Moves, inject_now-Moves, defer_delivery-Moves)
        depth 15

  with_recipient-Moves :
      (policy : String) (d : TeamDeliveryRecord) (message : TeamMessageRecord) (trigger : Trigger)
      (r : Result SessionRecord)
      → Moves (OnComms Follows) (with_recipient env policy d message trigger r)
  unfolding with_recipient
  with_recipient-Moves policy d message trigger (err e) = transition-Moves _ _ _ _ _ _
  with_recipient-Moves policy d message trigger (ok session) =
      search (moves_rules, order, transition-Moves, by_policy-Moves) depth 9

  unless_blocked-Moves :
      (d : TeamDeliveryRecord) (message : TeamMessageRecord) (trigger : Trigger)
      (blocker : Option String)
      → Moves (OnComms Follows) (unless_blocked env d message trigger blocker)
  unfolding unless_blocked
  unless_blocked-Moves d message trigger (some b) =
      search (moves_rules, order, transition-Moves) depth 9
  unless_blocked-Moves d message trigger none =
      search (moves_rules, order, Follows-order, rely, apart_rules, with_recipient-Moves) depth 12

  attempt_delivery-Moves :
      (d : TeamDeliveryRecord) (message : TeamMessageRecord) (trigger : Trigger)
      → Moves (OnComms Follows) (attempt_delivery env d message trigger)
  unfolding attempt_delivery
  attempt_delivery-Moves d message trigger =
      search (moves_rules, order, Follows-order, rely, apart_rules, unless_blocked-Moves) depth 12

  require_delivery-Moves : (id : String) → Moves (OnComms Follows) (require_delivery env id)
  unfolding require_delivery
  require_delivery-Moves id = search (moves_rules, order, Follows-order, rely, apart_rules) depth 12

  inject_delivery-Moves :
      (id : String) (trigger : Trigger) → Moves (OnComms Follows) (inject_delivery env id trigger)
  unfolding inject_delivery
  inject_delivery-Moves id trigger =
      search
        (
          moves_rules, order, Follows-order, rely, apart_rules, require_delivery-Moves,
          attempt_delivery-Moves,
        )
        depth 15

  inject_all-Moves :
      (ids : List String) (trigger : Trigger) → Moves (OnComms Follows) (inject_all env ids trigger)
  unfolding inject_all
  inject_all-Moves [] trigger = Moves-pure order tt
  inject_all-Moves (id ∷ ids) trigger =
      Moves-bind order _ _ (Moves-attempt order _ (inject_delivery-Moves id trigger))
        (λ _. inject_all-Moves ids trigger)

  -- For inject_delivery and resume_deferred_for_recipient, by any trigger and whatever the
  -- adapters, the store and other tasks that follow the table of is_valid_transition do: every
  -- delivery that there was is still there afterwards, and its status got where it is by moves of
  -- the table.
  pub inject-Follows :
      (id recipient : String) (trigger : Trigger) (w : World)
      → Follows w.comms (inject_delivery env id trigger w).1.comms
        × Follows w.comms (resume_deferred_for_recipient env recipient trigger w).1.comms
  unfolding resume_deferred_for_recipient
  inject-Follows id recipient trigger w =
      ((inject_delivery-Moves id trigger).at w, (resume-Moves recipient trigger).at w)
    where
      resume-Moves :
          (r : String) (t : Trigger)
          → Moves (OnComms Follows) (resume_deferred_for_recipient env r t)
      resume-Moves r t =
          search (moves_rules, order, Follows-order, rely, apart_rules, inject_all-Moves) depth 12
