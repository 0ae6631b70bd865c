-- ===== src/Team/Delivery.antt =====
-- crates/runtime-core/src/team_comms/delivery.rs: one attempt to inject a delivery into the session
-- of its recipient, and the moves of its status.
pub mod Publish
pub mod Routes
pub mod Attempts
pub mod Calm
pub mod Fifo
pub mod Gone
use gooselake.Base.{
  ℕ, String, ◌<>◌, ◌==◌, Bool, true, false, ◌||◌, not, List, [], ◌∷◌, Option, none, some,
  if◌then◌else◌, unwrap_or, is_some,
}
use gooselake.Error.{
  RuntimeError, Result, ok, err, to_string, configuration, provider_already_registered,
  provider_not_registered, not_found, invalid_state, protocol_violation, unsupported, bootstrap, io,
}
use gooselake.Json.{of_list, obj, field, str, end}
use gooselake.Map
use gooselake.Records.{
  SessionRecord, TeamDeliveryRecord, TeamMessageRecord, DeliveryStatus, is_unavailable,
  session_status_text, delivery_status_text,
}
use gooselake.Store.{PayloadItem, text, delivery as delivery_item, upsert_team_delivery}
use gooselake.World.{
  World, TeamCommsState, Env, M, pure, raise, lift, gets, ok_or, attempt, modify, ◌>>=◌, ◌>>◌,
  others_run, now_ms,
}
use gooselake.Session.{get_session, persist_unlocked}
use gooselake.Session.Started.{SendTurnInput, SendTurnAccepted}
use gooselake.Session.Turns.{send_turn, interrupt_turn}
use gooselake.Team.{set_comms, insert_delivery, append_team_event}
use gooselake.Team.Helpers.{
  is_terminal_status, is_valid_transition, same_status, is_attemptable, normalize_policy,
  build_injected_input,
}
use gooselake.Team.Transition.{
  Trigger, queue, retry, turn_completed_boundary, startup_recovery, trigger_text, at_boundary,
  status_kind, if_failed, if_injected, or_keep, moved, is_ended, all_ended, message_terminal_state,
  blocker_at, first_blocker, find_recipient_queue_blocker, deferred_id, deferred_ids, report_move,
  publish_move, commit_move, compare_and_move, transition_delivery_status, publish_turn_id,
  set_turn_id, transition_delivery_with_turn_id,
}

module _ (env : Env) where
  -- How `send_turn` went: a session that another turn owns defers the delivery, every other error
  -- ends it.
  unfoldable pub after_send :
      TeamDeliveryRecord → Trigger → Result SendTurnAccepted → M TeamDeliveryRecord
  after_send injecting trigger (ok ack) = do
    injected ←
        transition_delivery_status env injecting DeliveryStatus.injected (some "runtime_send_turn")
          none none trigger
    attempt (transition_delivery_with_turn_id env injected.id ack.turn_id)
    pure injected
  after_send injecting trigger (err (invalid_state s)) =
      transition_delivery_status env injecting DeliveryStatus.deferred none
        (some "turn_ownership_rejected") (some (to_string (invalid_state s))) trigger
  after_send injecting trigger (err e) =
      transition_delivery_status env injecting DeliveryStatus.failed none (some "provider_rejected")
        (some (to_string e)) trigger

  unfoldable pub inject_now :
      TeamDeliveryRecord → TeamMessageRecord → SessionRecord → Trigger → M TeamDeliveryRecord
  inject_now d message session trigger = do
    injecting ← transition_delivery_status env d DeliveryStatus.injecting none none none trigger
    answer ← attempt (
        send_turn env session.id (record {
          input = of_list (build_injected_input message session.id);
          expected_turn_id = none;
          permission_mode = none;
        }))
    after_send injecting trigger answer

  unfoldable pub interrupt_failed : String → TeamDeliveryRecord → Result (Unit {0}) → M (Unit {0})
  interrupt_failed policy d (ok _) = pure tt
  interrupt_failed policy d (err e) =
      raise (invalid_state (policy <> (" failed for delivery " <> (d.id <> (": " <> to_string e)))))

  unfoldable pub interrupt_first :
      String → TeamDeliveryRecord → SessionRecord → String → M (Unit {0})
  unfolding interrupt_failed
  interrupt_first policy d session turn_id = do
    answer ← attempt (interrupt_turn env session.id turn_id)
    interrupt_failed policy d answer

  unfoldable pub defer_delivery : TeamDeliveryRecord → Trigger → M TeamDeliveryRecord
  defer_delivery d trigger =
      transition_delivery_status env d DeliveryStatus.deferred none none none trigger

  -- `match policy.as_str()` while a turn is active.
  unfoldable pub by_policy :
      String
      → TeamDeliveryRecord
      → TeamMessageRecord
      → SessionRecord
      → Trigger
      → Option String
      → M TeamDeliveryRecord
  unfolding interrupt_first defer_delivery
  by_policy policy d message session trigger none = inject_now d message session trigger
  by_policy policy d message session trigger (some turn_id) =
      if policy == "non_interrupting" || policy == "start_new_turn_only"
      then defer_delivery d trigger
      else if policy == "interrupt_after_tool_boundary"
      then if at_boundary trigger
        then interrupt_first policy d session turn_id >> inject_now d message session trigger
        else defer_delivery d trigger
      else if policy == "immediate_interrupt"
      then interrupt_first policy d session turn_id >> inject_now d message session trigger
      else defer_delivery d trigger

  unfoldable pub with_recipient :
      String
      → TeamDeliveryRecord
      → TeamMessageRecord
      → Trigger
      → Result SessionRecord
      → M TeamDeliveryRecord
  unfolding by_policy
  with_recipient policy d message trigger (err e) =
      transition_delivery_status env d DeliveryStatus.failed none
        (some "recipient_session_not_found") (some (to_string e)) trigger
  with_recipient policy d message trigger (ok session) =
      if is_unavailable session.status
      then transition_delivery_status env d DeliveryStatus.failed none
          (some "recipient_session_closed")
          (some (
            "recipient session "
            <> (session.id <> (" unavailable in status " <> session_status_text session.status))))
          trigger
      else by_policy policy d message session trigger session.active_turn_id

  -- An earlier delivery to the same recipient has not ended.
  unfoldable pub unless_blocked :
      TeamDeliveryRecord → TeamMessageRecord → Trigger → Option String → M TeamDeliveryRecord
  unfolding with_recipient
  unless_blocked d message trigger (some blocker) =
      if same_status d.status DeliveryStatus.pending
      then transition_delivery_status env d DeliveryStatus.deferred none none none trigger
      else pure d
  unless_blocked d message trigger none = do
    policy ← lift (normalize_policy (unwrap_or d.effective_policy message.policy))
    session ← attempt (get_session env d.recipient_agent_id)
    with_recipient policy d message trigger session

  unfoldable pub attempt_delivery :
      TeamDeliveryRecord → TeamMessageRecord → Trigger → M TeamDeliveryRecord
  unfolding unless_blocked
  attempt_delivery d message trigger =
      if is_attemptable d.status
      then (do
        others_run env
        blocker ← gets (λ w. find_recipient_queue_blocker d w.comms)
        unless_blocked d message trigger blocker)
      else pure d

  unfoldable pub require_delivery : String → M TeamDeliveryRecord
  require_delivery delivery_id = do
    others_run env
    found ← gets (λ w. Map.get delivery_id w.comms.deliveries)
    ok_or found (not_found ("delivery " <> delivery_id))

  -- The recipient's guard is taken between the two look-ups.
  unfoldable pub inject_delivery : String → Trigger → M TeamDeliveryRecord
  unfolding require_delivery attempt_delivery
  inject_delivery delivery_id trigger = do
    require_delivery delivery_id
    others_run env
    d ← require_delivery delivery_id
    found ← gets (λ w. Map.get d.message_id w.comms.messages)
    message ←
        ok_or found (
          invalid_state ("delivery " <> (d.id <> (" references missing message " <> d.message_id))))
    attempt_delivery d message trigger

  unfoldable pub inject_all : List String → Trigger → M (Unit {0})
  inject_all [] trigger = pure tt
  inject_all (id ∷ ids) trigger = do attempt (inject_delivery id trigger); inject_all ids trigger

  unfoldable pub resume_deferred_for_recipient : String → Trigger → M (Unit {0})
  unfolding inject_all
  resume_deferred_for_recipient recipient trigger = do
    others_run env
    ids ← gets (λ w.
        deferred_ids w.comms (unwrap_or (Map.get recipient w.comms.recipient_delivery_ids) []))
    inject_all ids trigger
