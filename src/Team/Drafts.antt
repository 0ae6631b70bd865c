-- ===== src/Team/Drafts.antt =====
-- crates/runtime-core/src/team_comms/mod.rs: what `create_message_and_deliveries` builds, and how it enters
-- the state.
use gooselake.Base.{
  ℕ, String, ◌==◌, Bool, true, false, List, [], ◌∷◌, ◌++◌, map, Option, none, some, if◌then◌else◌,
  unwrap_or,
}
use gooselake.Json.{Value, arr, str, of_list}
use gooselake.Map
use gooselake.Map.{Map}
use gooselake.Records.{DeliveryStatus, TeamMessageRecord, TeamDeliveryRecord}
use gooselake.World.{TeamCommsState}
use gooselake.Team.{insert_delivery}
use gooselake.Team.Helpers.{idempotency_index_key}

-- What `send_direct` and `broadcast` hand over.
pub record Draft : Type 0 where
  pub team_id : String
  pub scope : String
  pub sender_agent_id : String
  pub recipient_agent_ids : List String
  pub input : Value
  pub image_paths : List String
  pub priority : String
  pub policy : String
  pub correlation_id : Option String
  pub reply_to_message_id : Option String
  pub idempotency_key : Option String

-- The draft's normalised words.
pub record Header : Type 0 where
  pub scope : String
  pub priority : String
  pub policy : String
  pub sender : String
  pub key : Option String

pub data Disposition : Type 0 where
  created existing : Disposition

pub record TeamMessageAck : Type 0 where
  pub message : TeamMessageRecord
  pub deliveries : List TeamDeliveryRecord
  pub disposition : Disposition

-- A recipient and the provider of its session.
abbrev pub Recipient : Type 0
Recipient = String × String

unfoldable pub is_among : String → List Recipient → Bool
is_among id [] = false
is_among id ((j, p) ∷ rs) = let rest = is_among id rs in if j == id then true else rest

unfoldable pub recipient_ids : List Recipient → List String
recipient_ids [] = []
recipient_ids ((id, p) ∷ rs) = id ∷ recipient_ids rs

unfoldable pub new_message :
    Draft → Header → List Recipient → String → String → ℕ → TeamMessageRecord
unfolding recipient_ids
new_message draft h recipients team_id id now = record {
  id = id;
  team_id = team_id;
  scope = h.scope;
  sender_agent_id = h.sender;
  recipient_agent_ids = arr (of_list (map str (recipient_ids recipients)));
  input = draft.input;
  image_paths = arr (of_list (map str draft.image_paths));
  priority = h.priority;
  policy = h.policy;
  correlation_id = draft.correlation_id;
  reply_to_message_id = draft.reply_to_message_id;
  idempotency_key = h.key;
  created_at = now;
}

unfoldable pub new_delivery : TeamMessageRecord → Recipient → String → ℕ → TeamDeliveryRecord
new_delivery message (recipient, provider) id now = record {
  id = id;
  message_id = message.id;
  team_id = message.team_id;
  recipient_agent_id = recipient;
  provider = provider;
  status = DeliveryStatus.pending;
  effective_policy = some message.policy;
  injection_strategy = none;
  injected_turn_id = none;
  last_error_code = none;
  last_error_message = none;
  created_at = now;
  updated_at = now;
}

-- `map.entry(key).or_default().push(id)`.
unfoldable pub push_id : String → String → Map (List String) → Map (List String)
push_id key id m = Map.insert key (unwrap_or (Map.get key m) [] ++ id ∷ []) m

unfoldable pub enter_message : TeamMessageRecord → TeamCommsState → TeamCommsState
unfolding push_id
enter_message message c = record c {
  messages = Map.insert message.id message c.messages;
  team_message_ids = push_id message.team_id message.id c.team_message_ids;
}

unfoldable pub index_key : Header → String → String → String
index_key h team_id key = idempotency_index_key team_id h.sender h.scope key

unfoldable pub index_message : Header → String → String → Option String → Map String → Map String
unfolding index_key
index_message h team_id message_id none m = m
index_message h team_id message_id (some key) m = Map.insert (index_key h team_id key) message_id m

unfoldable pub enter_key : Header → String → String → TeamCommsState → TeamCommsState
unfolding index_message
enter_key h team_id message_id c = record c {
  idempotency_index = index_message h team_id message_id h.key c.idempotency_index;
}

unfoldable pub enter_delivery : TeamDeliveryRecord → TeamCommsState → TeamCommsState
unfolding push_id
enter_delivery d c = record (insert_delivery d.id d c) {
  team_delivery_ids = push_id d.team_id d.id c.team_delivery_ids;
  message_delivery_ids = push_id d.message_id d.id c.message_delivery_ids;
  recipient_delivery_ids = push_id d.recipient_agent_id d.id c.recipient_delivery_ids;
}

unfoldable pub enter_deliveries : List TeamDeliveryRecord → TeamCommsState → TeamCommsState
enter_deliveries [] c = c
enter_deliveries (d ∷ ds) c = enter_deliveries ds (enter_delivery d c)

unfoldable pub delivery_of :
    Option TeamDeliveryRecord → List TeamDeliveryRecord → List TeamDeliveryRecord
delivery_of none ds = ds
delivery_of (some d) ds = d ∷ ds

-- The deliveries of a list of ids; an id without one is passed over.
unfoldable pub deliveries_at : TeamCommsState → List String → List TeamDeliveryRecord
unfolding delivery_of
deliveries_at c [] = []
deliveries_at c (id ∷ ids) = delivery_of (Map.get id c.deliveries) (deliveries_at c ids)

unfoldable pub existing_ack :
    TeamCommsState → String → Option TeamMessageRecord → Option TeamMessageAck
existing_ack c id none = none
existing_ack c id (some message) = some (record {
  message = message;
  deliveries = deliveries_at c (unwrap_or (Map.get id c.message_delivery_ids) []);
  disposition = existing;
})

unfoldable pub ack_at : TeamCommsState → Option String → Option TeamMessageAck
unfolding existing_ack
ack_at c none = none
ack_at c (some id) = existing_ack c id (Map.get id c.messages)

-- The message that the draft's idempotency key already made.
unfoldable pub find_existing :
    Header → String → Option String → TeamCommsState → Option TeamMessageAck
unfolding ack_at index_key
find_existing h team_id none c = none
find_existing h team_id (some key) c =
    ack_at c (Map.get (index_key h team_id key) c.idempotency_index)
