-- ===== src/Team/Control.antt =====
-- crates/runtime-core/src/team_comms/service_impl.rs: `retry_delivery`, `cancel_message` and
-- `delete_team`.
pub mod Cancel
use gooselake.Base.{
  ℕ, String, ◌<>◌, ◌==◌, Bool, true, false, not, List, [], ◌∷◌, ◌++◌, Option, none, some,
  if◌then◌else◌, unwrap_or, starts_with,
}
use gooselake.Error.{not_found, invalid_state}
use gooselake.Map
use gooselake.Map.{Map}
use gooselake.Records.{
  DeliveryStatus, TeamRecord, TeamMessageRecord, TeamDeliveryRecord, delivery_status_text,
}
use gooselake.Store.{
  text, team as team_item, delivery as delivery_item, upsert_team, upsert_team_delivery,
}
use gooselake.World.{
  TeamCommsState, Env, M, pure, raise, lift, gets, ok_or, attempt, modify, ◌>>=◌, ◌>>◌, others_run,
  now_ms,
}
use gooselake.Session.{persist_unlocked}
use gooselake.Team.{set_comms, insert_delivery, ensure_enabled, append_team_event}
use gooselake.Team.Helpers.{
  normalize_non_empty, normalized_non_empty, is_attemptable, remove_delivery_from_recipient_index,
  idempotency_index_key,
}
use gooselake.Team.Transition.{retry}
use gooselake.Team.Delivery.{inject_delivery}

-- `matches!(status, FAILED | DEFERRED)`.
unfoldable pub is_retryable : DeliveryStatus → Bool
is_retryable DeliveryStatus.failed = true
is_retryable DeliveryStatus.deferred = true
is_retryable s = false

unfoldable pub reset_delivery : TeamDeliveryRecord → ℕ → TeamDeliveryRecord
reset_delivery d now = record d {
  status = DeliveryStatus.pending;
  injection_strategy = none;
  injected_turn_id = none;
  last_error_code = none;
  last_error_message = none;
  updated_at = now;
}

unfoldable pub cancelled_delivery : TeamDeliveryRecord → ℕ → TeamDeliveryRecord
cancelled_delivery d now = record d { status = DeliveryStatus.cancelled; updated_at = now }

-- The first delivery of `ids` that may not be cancelled.
refusal : Option TeamDeliveryRecord → Option TeamDeliveryRecord → Option TeamDeliveryRecord
refusal none rest = rest
refusal (some d) rest = if is_attemptable d.status then rest else some d

unfoldable pub first_refusal : TeamCommsState → List String → Option TeamDeliveryRecord
unfolding refusal
first_refusal c [] = none
first_refusal c (id ∷ ids) = refusal (Map.get id c.deliveries) (first_refusal c ids)

module _ (env : Env) where
  reset_stored : String → String → TeamDeliveryRecord → M TeamDeliveryRecord
  reset_stored team_id delivery_id d =
      if not (d.team_id == team_id)
      then raise
          (invalid_state ("delivery " <> (delivery_id <> (" does not belong to team " <> team_id))))
      else if not (is_retryable d.status)
      then raise (
          invalid_state
            ("delivery " <> (delivery_id <> " can only be retried from failed/deferred state")))
      else do
        now ← now_ms env
        let updated = reset_delivery d now
        modify (λ w. set_comms (insert_delivery delivery_id updated w.comms) w)
        pure updated

  unfoldable pub retry_delivery : String → String → M TeamDeliveryRecord
  unfolding reset_stored
  retry_delivery request_team request_delivery = do
    ensure_enabled env
    team_id ← lift (normalize_non_empty request_team "team_id")
    delivery_id ← lift (normalize_non_empty request_delivery "delivery_id")
    others_run env
    found ← gets (λ w. Map.get delivery_id w.comms.deliveries)
    d ← ok_or found (not_found ("delivery " <> delivery_id))
    updated ← reset_stored team_id delivery_id d
    persist_unlocked env (upsert_team_delivery updated)
    attempt (
        append_team_event env team_id "team_delivery.pending"
          (("delivery", delivery_item updated) ∷ []) (some updated.recipient_agent_id))
    inject_delivery env delivery_id retry

  cancel_one : String → Option TeamDeliveryRecord → M (List TeamDeliveryRecord)
  cancel_one id none = pure []
  cancel_one id (some d) = do
    now ← now_ms env
    let updated = cancelled_delivery d now
    modify (λ w. set_comms (insert_delivery id updated w.comms) w)
    pure (updated ∷ [])

  unfoldable pub cancel_each : List String → M (List TeamDeliveryRecord)
  unfolding cancel_one
  cancel_each [] = pure []
  cancel_each (id ∷ ids) = do
    found ← gets (λ w. Map.get id w.comms.deliveries)
    updated ← cancel_one id found
    rest ← cancel_each ids
    pure (updated ++ rest)

  unfoldable pub cancel_unless_refused :
      String → List String → Option TeamDeliveryRecord → M (List TeamDeliveryRecord)
  cancel_unless_refused message_id ids none = cancel_each ids
  cancel_unless_refused message_id ids (some d) = raise (
      invalid_state (
        "message "
        <> (message_id
            <> (" cannot be cancelled because delivery "
                <> (d.id <> (" is in " <> delivery_status_text d.status))))))

  -- Under the lock of the state.
  unfoldable pub cancel_stored : String → String → M (List TeamDeliveryRecord)
  unfolding cancel_unless_refused
  cancel_stored team_id message_id = do
    found ← gets (λ w. Map.get message_id w.comms.messages)
    message ← ok_or found (not_found ("message " <> message_id))
    if message.team_id == team_id
        then (do
          ids ← gets (λ w. unwrap_or (Map.get message_id w.comms.message_delivery_ids) [])
          refused ← gets (λ w. first_refusal w.comms ids)
          cancel_unless_refused message_id ids refused)
        else raise
            (invalid_state ("message " <> (message_id <> (" does not belong to team " <> team_id))))

  unfoldable pub report_cancelled : String → List TeamDeliveryRecord → M (Unit {0})
  report_cancelled team_id [] = pure tt
  report_cancelled team_id (d ∷ ds) = do
    persist_unlocked env (upsert_team_delivery d)
    attempt (
        append_team_event env team_id "team_delivery.cancelled" (("delivery", delivery_item d) ∷ [])
          (some d.recipient_agent_id))
    report_cancelled team_id ds

  unfoldable pub cancel_message : String → String → M (List TeamDeliveryRecord)
  unfolding report_cancelled
  cancel_message request_team request_message = do
    ensure_enabled env
    team_id ← lift (normalize_non_empty request_team "team_id")
    message_id ← lift (normalize_non_empty request_message "message_id")
    others_run env
    cancelled ← cancel_stored team_id message_id
    report_cancelled team_id cancelled
    attempt (
        append_team_event env team_id "team_message.completed"
          (("message_id", text message_id) ∷ []) none)
    pure cancelled

forget_key : TeamMessageRecord → Option String → Map String → Map String
forget_key message none index = index
forget_key message (some key) index =
    Map.remove (idempotency_index_key message.team_id message.sender_agent_id message.scope key)
      index

unfoldable pub forget_message : String → Option TeamMessageRecord → TeamCommsState → TeamCommsState
unfolding forget_key
forget_message id none c = c
forget_message id (some message) c = record c {
  messages = Map.remove id c.messages;
  idempotency_index =
      forget_key message (normalized_non_empty message.idempotency_key) c.idempotency_index;
}

unfoldable pub forget_messages : List String → TeamCommsState → TeamCommsState
unfolding forget_message
forget_messages [] c = c
forget_messages (id ∷ ids) c = forget_messages ids (forget_message id (Map.get id c.messages) c)

-- The deliveries that the index of each message names; the entries of the index go.
unfoldable pub delivery_ids_of : List String → Map (List String) → List String
delivery_ids_of [] index = []
delivery_ids_of (id ∷ ids) index =
    unwrap_or (Map.get id index) [] ++ delivery_ids_of ids (Map.remove id index)

unfoldable pub remove_keys : List String → Map (List String) → Map (List String)
remove_keys [] index = index
remove_keys (id ∷ ids) index = remove_keys ids (Map.remove id index)

unfoldable pub drop_team_keys : String → Map String → Map String
drop_team_keys prefix [] = []
drop_team_keys prefix ((k, v) ∷ index) =
    let rest = drop_team_keys prefix index in if starts_with k prefix then rest else (k, v) ∷ rest

module _ (env : Env) where
  unfoldable pub drop_one : String → Option TeamDeliveryRecord → M (List TeamDeliveryRecord)
  drop_one id none = pure []
  drop_one id (some d) = do
    modify (λ w.
        set_comms
          (record w.comms {
            deliveries = Map.remove id w.comms.deliveries;
            recipient_delivery_ids =
                remove_delivery_from_recipient_index w.comms.recipient_delivery_ids
                  d.recipient_agent_id d.id;
          })
          w)
    if is_attemptable d.status
        then (do now ← now_ms env; pure (cancelled_delivery d now ∷ []))
        else pure []

  -- A second mention of an id finds nothing, as a set would hold it once.
  unfoldable pub drop_each : List String → M (List TeamDeliveryRecord)
  unfolding drop_one
  drop_each [] = pure []
  drop_each (id ∷ ids) = do
    found ← gets (λ w. Map.get id w.comms.deliveries)
    cancelled ← drop_one id found
    rest ← drop_each ids
    pure (cancelled ++ rest)

  -- Under the lock of the state.
  unfoldable pub drop_team : String → TeamRecord → M (TeamRecord × List TeamDeliveryRecord)
  drop_team team_id team = do
    c ← gets (λ w. w.comms)
    let message_ids = unwrap_or (Map.get team_id c.team_message_ids) []
    let delivery_ids = unwrap_or (Map.get team_id c.team_delivery_ids) []
    modify (λ w.
        set_comms
          (forget_messages message_ids (record w.comms {
            teams = Map.remove team_id w.comms.teams;
            members_by_team = Map.remove team_id w.comms.members_by_team;
            team_message_ids = Map.remove team_id w.comms.team_message_ids;
            team_delivery_ids = Map.remove team_id w.comms.team_delivery_ids;
            message_delivery_ids = remove_keys message_ids w.comms.message_delivery_ids;
          }))
          w)
    cancelled ← drop_each (delivery_ids ++ delivery_ids_of message_ids c.message_delivery_ids)
    modify (λ w.
        set_comms
          (record w.comms {
            idempotency_index = drop_team_keys (team_id <> "|") w.comms.idempotency_index;
          })
          w)
    deleted_at ← now_ms env
    updated_at ← now_ms env
    pure (record team { deleted_at = some deleted_at; updated_at = updated_at }, cancelled)

  -- Under the lock of the state.
  unfoldable pub drop_found : String → M (TeamRecord × List TeamDeliveryRecord)
  drop_found team_id = do
    found ← gets (λ w. Map.get team_id w.comms.teams)
    team ← ok_or found (not_found ("team " <> team_id))
    drop_team team_id team

  unfoldable pub delete_team : String → M (Unit {0})
  delete_team request_team = do
    ensure_enabled env
    team_id ← lift (normalize_non_empty request_team "team_id")
    others_run env
    dropped ← drop_found team_id
    persist_unlocked env (upsert_team dropped.0)
    report_cancelled env team_id dropped.1
    attempt (
        append_team_event env team_id "team.deleted" (("team", team_item dropped.0) ∷ [])
          (some dropped.0.created_by))
    pure tt
