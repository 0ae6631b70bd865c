-- ===== src/Team/Messages.antt =====
-- crates/runtime-core/src/team_comms: messages are created and sent (`create_message_and_deliveries`
-- of mod.rs, `send_direct` and `broadcast` of service_impl.rs).
pub mod Resend
use gooselake.Base.{
  ℕ, String, ◌<>◌, ◌==◌, Bool, true, false, List, [], ◌∷◌, ◌++◌, map, Option, none, some,
  if◌then◌else◌, unwrap_or, ltb, length,
}
use gooselake.Text.{decimal}
use gooselake.Error.{not_found, invalid_state}
use gooselake.Json.{Value, arr, str, of_list}
use gooselake.Map
use gooselake.Map.{Map}
use gooselake.Records.{DeliveryStatus, TeamMemberRecord, TeamMessageRecord, TeamDeliveryRecord}
use gooselake.Store.{
  message as message_item, delivery as delivery_item, deliveries as deliveries_item,
  upsert_team_message, upsert_team_delivery,
}
use gooselake.World.{
  TeamCommsState, Env, M, pure, raise, lift, gets, ok_or, attempt, modify, ◌>>=◌, ◌>>◌, others_run,
  now_ms,
}
use gooselake.Session.{persist_unlocked}
use gooselake.Team.{
  set_comms, insert_delivery, allocate_message_id, allocate_delivery_id, ensure_enabled,
  append_team_event, require_session_active,
}
use gooselake.Team.Helpers.{
  ensure_member, normalize_non_empty, normalized_non_empty, normalize_non_empty_input,
  normalize_scope, normalize_priority, normalize_policy, idempotency_index_key, retain_not,
}
use gooselake.Team.Transition.{queue}
use gooselake.Team.Delivery.{inject_delivery}
use gooselake.Text.{text_le}
use gooselake.Team.Drafts.{
  Draft, Header, Disposition, created, existing, TeamMessageAck, Recipient, is_among, recipient_ids,
  new_message, new_delivery, push_id, enter_message, index_key, index_message, enter_key,
  enter_delivery, enter_deliveries, delivery_of, deliveries_at, existing_ack, ack_at, find_existing,
}

module _ (env : Env) where
  unfoldable pub read_header : Draft → M Header
  read_header draft = do
    scope ← lift (normalize_scope draft.scope)
    policy ← lift (normalize_policy draft.policy)
    sender ← lift (normalize_non_empty draft.sender_agent_id "sender_agent_id")
    pure (record {
      scope = scope;
      priority = normalize_priority draft.priority;
      policy = policy;
      sender = sender;
      key = normalized_non_empty draft.idempotency_key;
    })

  -- Each recipient once, in the order of its first mention, with a session that is available.
  unfoldable pub collect_recipients : List String → List Recipient → M (List Recipient)
  collect_recipients [] seen = pure seen
  collect_recipients (r ∷ rs) seen = do
    recipient ← lift (normalize_non_empty r "recipient_agent_id")
    if is_among recipient seen then collect_recipients rs seen else do
      session ← require_session_active env recipient
      collect_recipients rs (seen ++ (recipient, session.provider) ∷ [])

  unfoldable pub ensure_members :
      Option (Map TeamMemberRecord) → String → List Recipient → M (Unit {0})
  ensure_members members team_id [] = pure tt
  ensure_members members team_id ((id, p) ∷ rs) = do
    lift (ensure_member members id team_id)
    ensure_members members team_id rs

  unfoldable pub make_deliveries :
      TeamMessageRecord → ℕ → List Recipient → M (List TeamDeliveryRecord)
  make_deliveries message now [] = pure []
  make_deliveries message now (r ∷ rs) = do
    id ← allocate_delivery_id
    rest ← make_deliveries message now rs
    pure (new_delivery message r id now ∷ rest)

  unfoldable pub enter_new : Draft → Header → String → List Recipient → M TeamMessageAck
  enter_new draft h team_id recipients = do
    now ← now_ms env
    message_id ← allocate_message_id
    let message = new_message draft h recipients team_id message_id now
    deliveries ← make_deliveries message now recipients
    modify (λ w.
        set_comms
          (enter_deliveries deliveries
            (enter_key h draft.team_id message_id (enter_message message w.comms)))
          w)
    pure (record { message = message; deliveries = deliveries; disposition = created })

  unfoldable pub unless_existing :
      Draft → Header → String → List Recipient → Option TeamMessageAck → M TeamMessageAck
  unless_existing draft h team_id recipients (some ack) = pure ack
  unless_existing draft h team_id recipients none = enter_new draft h team_id recipients

  -- Under the lock of the state.
  unfoldable pub find_or_enter : Draft → Header → List Recipient → M TeamMessageAck
  unfolding unless_existing
  find_or_enter draft h recipients = do
    found ← gets (λ w. Map.get draft.team_id w.comms.teams)
    team ← ok_or found (not_found ("team " <> draft.team_id))
    members ← gets (λ w. Map.get draft.team_id w.comms.members_by_team)
    lift (ensure_member members h.sender draft.team_id)
    ensure_members members draft.team_id recipients
    old ← gets (λ w. find_existing h draft.team_id h.key w.comms)
    unless_existing draft h team.id recipients old

  persist_deliveries : List TeamDeliveryRecord → M (Unit {0})
  persist_deliveries [] = pure tt
  persist_deliveries (d ∷ ds) = do
    persist_unlocked env (upsert_team_delivery d)
    persist_deliveries ds

  report_pending : String → List TeamDeliveryRecord → M (Unit {0})
  report_pending team_id [] = pure tt
  report_pending team_id (d ∷ ds) = do
    attempt (
        append_team_event env team_id "team_delivery.pending" (("delivery", delivery_item d) ∷ [])
          (some d.recipient_agent_id))
    report_pending team_id ds

  -- An existing message is returned as it is; a new one is written to the store and reported.
  finish_create : String → String → TeamMessageAck → Disposition → M TeamMessageAck
  unfolding persist_deliveries report_pending
  finish_create team_id sender ack existing = pure ack
  finish_create team_id sender ack created = do
    persist_unlocked env (upsert_team_message ack.message)
    persist_deliveries ack.deliveries
    attempt (
        append_team_event env team_id "team_message.created"
          (("message", message_item ack.message)
            ∷ ("deliveries", deliveries_item ack.deliveries)
            ∷ [])
          (some sender))
    report_pending team_id ack.deliveries
    pure ack

  unfoldable pub create_message_and_deliveries : Draft → M TeamMessageAck
  unfolding finish_create
  create_message_and_deliveries draft = do
    h ← read_header draft
    if ltb env.max_pending_deliveries (length draft.recipient_agent_ids)
        then raise (
            invalid_state (
              "recipient count exceeds max_pending_deliveries ("
              <> (decimal env.max_pending_deliveries <> ")")))
        else do
          recipients ← collect_recipients draft.recipient_agent_ids []
          others_run env
          ack ← find_or_enter draft h recipients
          finish_create draft.team_id h.sender ack ack.disposition

  unfoldable pub queue_and_attempt_delivery : List TeamDeliveryRecord → M (Unit {0})
  queue_and_attempt_delivery [] = pure tt
  queue_and_attempt_delivery (d ∷ ds) = do
    attempt (inject_delivery env d.id queue)
    queue_and_attempt_delivery ds

  attempt_new : TeamMessageAck → Disposition → M TeamMessageAck
  attempt_new ack existing = pure ack
  attempt_new ack created = do queue_and_attempt_delivery ack.deliveries; pure ack

  unfoldable pub send_direct : Draft → String → M TeamMessageAck
  unfolding attempt_new
  send_direct request recipient_agent_id = do
    ensure_enabled env
    team_id ← lift (normalize_non_empty request.team_id "team_id")
    sender ← lift (normalize_non_empty request.sender_agent_id "sender_agent_id")
    recipient ← lift (normalize_non_empty recipient_agent_id "recipient_agent_id")
    input ← lift (normalize_non_empty_input request.input)
    ack ← create_message_and_deliveries (record request {
      team_id = team_id;
      scope = "direct";
      sender_agent_id = sender;
      recipient_agent_ids = recipient ∷ [];
      input = input;
    })
    attempt_new ack ack.disposition

insert_text : String → List String → List String
insert_text a [] = a ∷ []
insert_text a (b ∷ bs) = if text_le a b then a ∷ b ∷ bs else b ∷ insert_text a bs

unfoldable pub sort_texts : List String → List String
unfolding insert_text
sort_texts [] = []
sort_texts (a ∷ rest) = insert_text a (sort_texts rest)

broadcast_to : List String → String → Bool → List String
broadcast_to ids sender true = sort_texts ids
broadcast_to ids sender false = retain_not sender (sort_texts ids)

module _ (env : Env) where
  unfoldable pub broadcast : Draft → Bool → M TeamMessageAck
  unfolding attempt_new broadcast_to
  broadcast request include_sender = do
    ensure_enabled env
    team_id ← lift (normalize_non_empty request.team_id "team_id")
    sender ← lift (normalize_non_empty request.sender_agent_id "sender_agent_id")
    input ← lift (normalize_non_empty_input request.input)
    others_run env
    found ← gets (λ w. Map.get team_id w.comms.members_by_team)
    members ← ok_or found (not_found ("team " <> team_id))
    ack ← create_message_and_deliveries env (record request {
      team_id = team_id;
      scope = "broadcast";
      sender_agent_id = sender;
      recipient_agent_ids = broadcast_to (Map.keys members) sender include_sender;
      input = input;
      reply_to_message_id = none;
    })
    attempt_new env ack ack.disposition
