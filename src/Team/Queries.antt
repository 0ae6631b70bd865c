-- ===== src/Team/Queries.antt =====
-- crates/runtime-core/src/team_comms/service_impl.rs: pages of messages, and deliveries.
pub mod Cuts
pub mod Paging
use gooselake.Base.{
  ℕ, zero, suc, ◌-◌, String, ◌<>◌, ◌==◌, List, [], ◌∷◌, Option, none, some, if◌then◌else◌,
  unwrap_or, ltb, length,
}
use gooselake.Error.{not_found, invalid_state}
use gooselake.Map
use gooselake.Records.{TeamMessageRecord, TeamDeliveryRecord}
use gooselake.World.{TeamCommsState, Env, M, pure, lift, gets, ok_or, ◌>>=◌, ◌>>◌, others_run}
use gooselake.Team.{ensure_enabled}
use gooselake.Team.Helpers.{normalize_non_empty, normalized_non_empty}
use gooselake.Team.Drafts.{deliveries_at}

pub record TeamListMessagesResponse : Type 0 where
  pub messages : List TeamMessageRecord
  pub next_cursor : Option String

pub record TeamGetDeliveriesRequest : Type 0 where
  pub team_id : String
  pub message_id : Option String
  pub recipient_agent_id : Option String

-- `limit.unwrap_or(100).clamp(1, 500)`.
unfoldable pub page_limit : Option ℕ → ℕ
page_limit none = 100
page_limit (some n) = if ltb n 1 then 1 else if ltb 500 n then 500 else n

unfoldable pub one_more : Option ℕ → Option ℕ
one_more none = none
one_more (some n) = some (suc n)

-- `ids.iter().position(|id| id == cursor).map(|index| index + 1)`.
unfoldable pub position_after : String → List String → Option ℕ
unfolding one_more
position_after cursor [] = none
position_after cursor (id ∷ ids) =
    if id == cursor then some 1 else one_more (position_after cursor ids)

unfoldable pub skip : ℕ → List String → List String
skip zero ids = ids
skip (suc n) [] = []
skip (suc n) (id ∷ ids) = skip n ids

unfoldable pub take : ℕ → List String → List String
take zero ids = []
take (suc n) [] = []
take (suc n) (id ∷ ids) = id ∷ take n ids

unfoldable pub message_of :
    Option TeamMessageRecord → List TeamMessageRecord → List TeamMessageRecord
message_of none ms = ms
message_of (some m) ms = m ∷ ms

-- The messages of a list of ids; an id without one is passed over.
unfoldable pub messages_at : TeamCommsState → List String → List TeamMessageRecord
unfolding message_of
messages_at c [] = []
messages_at c (id ∷ ids) = message_of (Map.get id c.messages) (messages_at c ids)

unfoldable pub last_id : List TeamMessageRecord → Option String
last_id [] = none
last_id (m ∷ []) = some m.id
last_id (m ∷ n ∷ ms) = last_id (n ∷ ms)

-- The page behind `start`. There is more if fewer messages were found than ids are left.
unfoldable pub page : TeamCommsState → List String → ℕ → ℕ → TeamListMessagesResponse
page c ids start limit =
    let found = messages_at c (take limit (skip start ids)) in
    record {
      messages = found;
      next_cursor = if ltb (length found) (length ids - start) then last_id found else none;
    }

unfoldable pub message_ids_of : String → TeamCommsState → List String
message_ids_of team_id c = unwrap_or (Map.get team_id c.team_message_ids) []

for_recipient : Option String → List TeamDeliveryRecord → List TeamDeliveryRecord
for_recipient none ds = ds
for_recipient (some r) [] = []
for_recipient (some r) (d ∷ ds) =
    let rest = for_recipient (some r) ds in if d.recipient_agent_id == r then d ∷ rest else rest

module _ (env : Env) where
  start_of : String → List String → Option String → M ℕ
  start_of team_id ids none = pure 0
  start_of team_id ids (some cursor) =
      ok_or (position_after cursor ids)
        (invalid_state ("cursor message " <> (cursor <> (" not found for team " <> team_id))))

  unfoldable pub list_messages : String → Option String → Option ℕ → M TeamListMessagesResponse
  unfolding start_of
  list_messages request_team cursor limit = do
    ensure_enabled env
    team_id ← lift (normalize_non_empty request_team "team_id")
    others_run env
    c ← gets (λ w. w.comms)
    start ← start_of team_id (message_ids_of team_id c) (normalized_non_empty cursor)
    pure (page c (message_ids_of team_id c) start (page_limit limit))

  source_of : String → TeamCommsState → Option String → M (List TeamDeliveryRecord)
  source_of team_id c none =
      pure (deliveries_at c (unwrap_or (Map.get team_id c.team_delivery_ids) []))
  source_of team_id c (some message_id) = do
    message ← ok_or (Map.get message_id c.messages) (not_found ("message " <> message_id))
    if message.team_id == team_id
        then pure (deliveries_at c (unwrap_or (Map.get message_id c.message_delivery_ids) []))
        else pure []

  unfoldable pub get_deliveries : TeamGetDeliveriesRequest → M (List TeamDeliveryRecord)
  unfolding source_of for_recipient
  get_deliveries request = do
    ensure_enabled env
    team_id ← lift (normalize_non_empty request.team_id "team_id")
    others_run env
    c ← gets (λ w. w.comms)
    rows ← source_of team_id c request.message_id
    pure (for_recipient request.recipient_agent_id rows)
