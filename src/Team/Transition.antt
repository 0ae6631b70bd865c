-- ===== src/Team/Transition.antt =====
-- crates/runtime-core/src/team_comms/delivery.rs: the moves of a delivery's status, the queue of a
-- recipient, and when a message is done.
use gooselake.Base.{
  ℕ, String, ◌<>◌, ◌==◌, Bool, true, false, not, List, [], ◌∷◌, Option, none, some, if◌then◌else◌,
  unwrap_or,
}
use gooselake.Error.{not_found, invalid_state}
use gooselake.Map
use gooselake.Records.{TeamDeliveryRecord, DeliveryStatus, delivery_status_text}
use gooselake.Store.{text, delivery as delivery_item, upsert_team_delivery}
use gooselake.World.{
  TeamCommsState, Env, M, pure, raise, gets, ok_or, attempt, modify, ◌>>=◌, ◌>>◌, others_run,
  now_ms,
}
use gooselake.Session.{persist_unlocked}
use gooselake.Team.{set_comms, insert_delivery, append_team_event}
use gooselake.Team.Helpers.{is_terminal_status, is_valid_transition, same_status}

-- `DeliveryAttemptTrigger` (team_comms/state.rs).
pub data Trigger : Type 0 where
  queue retry turn_completed_boundary startup_recovery : Trigger

-- `format!("{:?}", trigger).to_ascii_lowercase()`.
unfoldable pub trigger_text : Trigger → String
trigger_text queue = "queue"
trigger_text retry = "retry"
trigger_text turn_completed_boundary = "turncompletedboundary"
trigger_text startup_recovery = "startuprecovery"

abbrev pub at_boundary : Trigger → Bool
at_boundary turn_completed_boundary = true
at_boundary t = false

unfoldable pub status_kind : DeliveryStatus → String
status_kind DeliveryStatus.pending = "team_delivery.pending"
status_kind DeliveryStatus.deferred = "team_delivery.deferred"
status_kind DeliveryStatus.injecting = "team_delivery.injecting"
status_kind DeliveryStatus.injected = "team_delivery.injected"
status_kind DeliveryStatus.failed = "team_delivery.failed"
status_kind DeliveryStatus.cancelled = "team_delivery.cancelled"
status_kind (DeliveryStatus.other s) = "team_delivery.updated"

-- `next == FAILED`, and `next == INJECTED`: what keeps a value, and else clears it.
abbrev pub if_failed : DeliveryStatus → Option String → Option String
if_failed DeliveryStatus.failed value = value
if_failed next value = none

abbrev pub if_injected : DeliveryStatus → Option String → Option String
if_injected DeliveryStatus.injected value = value
if_injected next value = none

abbrev pub or_keep : Option String → Option String → Option String
or_keep none old = old
or_keep (some new) old = some new

-- The delivery behind the move.
unfoldable pub moved :
    TeamDeliveryRecord
    → DeliveryStatus
    → Option String
    → Option String
    → Option String
    → ℕ
    → TeamDeliveryRecord
moved d next strategy code message now = record d {
  status = next;
  updated_at = now;
  injection_strategy = or_keep strategy d.injection_strategy;
  last_error_code = if_failed next code;
  last_error_message = if_failed next message;
  injected_turn_id = if_injected next d.injected_turn_id;
}

unfoldable pub is_ended : Option TeamDeliveryRecord → Bool
is_ended none = false
is_ended (some d) = is_terminal_status d.status

unfoldable pub all_ended : TeamCommsState → List String → Bool
unfolding is_ended
all_ended c [] = true
all_ended c (id ∷ ids) =
    let rest = all_ended c ids in if is_ended (Map.get id c.deliveries) then rest else false

unfoldable pub message_terminal_state : String → TeamCommsState → Bool
message_terminal_state message_id c =
    all_ended c (unwrap_or (Map.get message_id c.message_delivery_ids) [])

unfoldable pub blocker_at : Option TeamDeliveryRecord → Option String → Option String
blocker_at none rest = rest
blocker_at (some d) rest = if is_terminal_status d.status then rest else some d.id

-- The first of `ids` that stands before `delivery_id` and has not ended. An id without a delivery
-- is passed over.
unfoldable pub first_blocker : String → TeamCommsState → List String → Option String
unfolding blocker_at
first_blocker delivery_id c [] = none
first_blocker delivery_id c (id ∷ ids) =
    let rest = first_blocker delivery_id c ids in
    if id == delivery_id then none else blocker_at (Map.get id c.deliveries) rest

unfoldable pub find_recipient_queue_blocker : TeamDeliveryRecord → TeamCommsState → Option String
find_recipient_queue_blocker d c =
    first_blocker d.id c (unwrap_or (Map.get d.recipient_agent_id c.recipient_delivery_ids) [])

unfoldable pub deferred_id : Option TeamDeliveryRecord → List String → List String
deferred_id none ids = ids
deferred_id (some d) ids = if same_status d.status DeliveryStatus.deferred then d.id ∷ ids else ids

-- The deferred deliveries of `ids`, in that order.
unfoldable pub deferred_ids : TeamCommsState → List String → List String
unfolding deferred_id
deferred_ids c [] = []
deferred_ids c (id ∷ ids) = deferred_id (Map.get id c.deliveries) (deferred_ids c ids)

module _ (env : Env) where
  unfoldable pub report_move :
      TeamDeliveryRecord → TeamDeliveryRecord → DeliveryStatus → Trigger → M (Unit {0})
  unfolding status_kind trigger_text
  report_move current updated next trigger = do
    attempt (
        append_team_event env updated.team_id (status_kind next)
          (("delivery", delivery_item updated) ∷ ("trigger", text (trigger_text trigger)) ∷ [])
          (some current.recipient_agent_id))
    others_run env
    done ← gets (λ w. message_terminal_state current.message_id w.comms)
    if done
        then (do
          attempt (
              append_team_event env current.team_id "team_message.completed"
                (("message_id", text current.message_id) ∷ ("team_id", text current.team_id) ∷ [])
                (some current.recipient_agent_id))
          pure tt)
        else pure tt

  unfoldable pub publish_move :
      TeamDeliveryRecord → TeamDeliveryRecord → DeliveryStatus → Trigger → M TeamDeliveryRecord
  publish_move current updated next trigger = do
    persist_unlocked env (upsert_team_delivery updated)
    report_move current updated next trigger
    pure updated

  -- The delivery as it is now has the status that the caller saw: it moves.
  unfoldable pub commit_move :
      TeamDeliveryRecord
      → TeamDeliveryRecord
      → DeliveryStatus
      → Option String
      → Option String
      → Option String
      → Trigger
      → M TeamDeliveryRecord
  unfolding publish_move
  commit_move current stored next strategy code message trigger = do
    now ← now_ms env
    let updated = moved stored next strategy code message now
    modify (λ w. set_comms (insert_delivery current.id updated w.comms) w)
    publish_move current updated next trigger

  -- Under the lock of the state.
  unfoldable pub compare_and_move :
      TeamDeliveryRecord
      → DeliveryStatus
      → Option String
      → Option String
      → Option String
      → Trigger
      → Option TeamDeliveryRecord
      → M TeamDeliveryRecord
  compare_and_move current next strategy code message trigger found = do
    stored ← ok_or found (not_found ("delivery " <> current.id))
    if same_status stored.status current.status
        then commit_move current stored next strategy code message trigger
        else pure stored

  unfoldable pub transition_delivery_status :
      TeamDeliveryRecord
      → DeliveryStatus
      → Option String
      → Option String
      → Option String
      → Trigger
      → M TeamDeliveryRecord
  unfolding compare_and_move
  transition_delivery_status current next strategy code message trigger =
      if not (is_valid_transition current.status next)
      then if same_status current.status next
        then pure current
        else raise (
            invalid_state (
              "invalid delivery transition "
              <> (delivery_status_text current.status <> (" -> " <> delivery_status_text next))))
      else do
        others_run env
        found ← gets (λ w. Map.get current.id w.comms.deliveries)
        compare_and_move current next strategy code message trigger found

  unfoldable pub publish_turn_id : TeamDeliveryRecord → M (Unit {0})
  publish_turn_id updated = do
    persist_unlocked env (upsert_team_delivery updated)
    attempt (
        append_team_event env updated.team_id "team_delivery.injected"
          (("delivery", delivery_item updated) ∷ []) (some updated.recipient_agent_id))
    pure tt

  unfoldable pub set_turn_id : String → String → Option TeamDeliveryRecord → M (Unit {0})
  set_turn_id delivery_id turn_id none = pure tt
  set_turn_id delivery_id turn_id (some d) = do
    now ← now_ms env
    let updated = record d { injected_turn_id = some turn_id; updated_at = now }
    modify (λ w. set_comms (insert_delivery delivery_id updated w.comms) w)
    publish_turn_id updated

  unfoldable pub transition_delivery_with_turn_id : String → String → M (Unit {0})
  unfolding set_turn_id
  transition_delivery_with_turn_id delivery_id turn_id = do
    others_run env
    found ← gets (λ w. Map.get delivery_id w.comms.deliveries)
    set_turn_id delivery_id turn_id found
