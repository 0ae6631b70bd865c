-- ===== src/Team/Hydration.antt =====
-- crates/runtime-core/src/team_comms/mod.rs, `new` and `recover_startup_deferred_deliveries`: the
-- team service after a restart. The rows are those that the store hands over, in its order.
pub mod Held
use gooselake.Base.{
  ℕ, suc, ◌+◌, ◌%◌, String, ◌==◌, Bool, true, false, ◌&&◌, List, [], ◌∷◌, Option, none, some,
  is_some, unwrap_or, leb, if◌then◌else◌,
}
use gooselake.Error.{Result, ok, err}
use gooselake.Map
use gooselake.Map.{Map}
use gooselake.Records.{
  TeamRecord, TeamMemberRecord, TeamMessageRecord, TeamDeliveryRecord, DeliveryStatus,
  SessionRecord, is_unavailable,
}
use gooselake.World.{
  World, TeamCommsState, Env, M, pure, gets, attempt, modify, ◌>>=◌, ◌>>◌, others_run, u64_mod,
}
use gooselake.Session.{get_session}
use gooselake.Team.{ensure_enabled}
use gooselake.Team.Helpers.{parse_counter, normalized_non_empty, idempotency_index_key}
use gooselake.Team.Drafts.{enter_message, enter_delivery}
use gooselake.Team.Transition.{Trigger, startup_recovery, deferred_ids}
use gooselake.Team.Delivery.{inject_delivery}
use gooselake.Team.Roster.{insert_team, insert_members}

-- `state` and the greatest number of each kind of id so far.
pub record Hydrating : Type 0 where
  pub state : TeamCommsState
  pub max_team_id : ℕ
  pub max_message_id : ℕ
  pub max_delivery_id : ℕ

-- `TeamCommsState::default()`.
abbrev pub empty_state : TeamCommsState
empty_state = record {
  teams = [];
  members_by_team = [];
  messages = [];
  deliveries = [];
  team_message_ids = [];
  team_delivery_ids = [];
  message_delivery_ids = [];
  recipient_delivery_ids = [];
  idempotency_index = [];
}

abbrev pub maximum : ℕ → ℕ → ℕ
maximum a b = if leb a b then b else a

-- `parse_counter(id).unwrap_or(0)`.
abbrev pub counter_of : String → ℕ
counter_of id = unwrap_or (parse_counter id) 0

-- A team that was deleted is left out.
unfoldable pub hydrate_team : TeamRecord → Hydrating → Hydrating
hydrate_team team h = if is_some team.deleted_at then h else record h {
  state = insert_team team.id team h.state;
  max_team_id = maximum h.max_team_id (counter_of team.id);
}

unfoldable pub hydrate_member : TeamMemberRecord → Hydrating → Hydrating
hydrate_member member h =
    if is_some (Map.get member.team_id h.state.teams)
    then record h {
      state =
          insert_members member.team_id
            (Map.insert member.agent_id member
              (unwrap_or (Map.get member.team_id h.state.members_by_team) []))
            h.state;
    }
    else h

unfoldable pub hydrate_key : TeamMessageRecord → Option String → Map String → Map String
hydrate_key message none index = index
hydrate_key message (some key) index =
    Map.insert (idempotency_index_key message.team_id message.sender_agent_id message.scope key)
      message.id index

unfoldable pub hydrate_message : TeamMessageRecord → Hydrating → Hydrating
unfolding hydrate_key normalized_non_empty
hydrate_message message h =
    if is_some (Map.get message.team_id h.state.teams)
    then record h {
      state = enter_message message (record h.state {
        idempotency_index =
            hydrate_key message (normalized_non_empty message.idempotency_key)
              h.state.idempotency_index;
      });
      max_message_id = maximum h.max_message_id (counter_of message.id);
    }
    else h

unfoldable pub hydrate_delivery : TeamDeliveryRecord → Hydrating → Hydrating
hydrate_delivery d h =
    if is_some (Map.get d.team_id h.state.teams) && is_some (Map.get d.message_id h.state.messages)
    then record h {
      state = enter_delivery d h.state;
      max_delivery_id = maximum h.max_delivery_id (counter_of d.id);
    }
    else h

-- One loop: `for row in rows { … }`.
unfoldable pub each : {A : Type 0} → (A → Hydrating → Hydrating) → List A → Hydrating → Hydrating
each step [] h = h
each step (a ∷ rest) h = each step rest (step a h)

unfoldable pub hydrate :
    List TeamRecord
    → List TeamMemberRecord
    → List TeamMessageRecord
    → List TeamDeliveryRecord
    → Hydrating
unfolding each
hydrate teams members messages deliveries = each hydrate_delivery deliveries (
    each hydrate_message messages (
      each hydrate_member members (
        each hydrate_team teams (record {
          state = empty_state;
          max_team_id = 0;
          max_message_id = 0;
          max_delivery_id = 0;
        }))))

-- `new`: the state and the counters of the service.
unfoldable pub start_service :
    List TeamRecord
    → List TeamMemberRecord
    → List TeamMessageRecord
    → List TeamDeliveryRecord
    → World
    → World
start_service teams members messages deliveries w =
    let h = hydrate teams members messages deliveries in
    record w {
      comms = h.state;
      next_team_id = (h.max_team_id + 1) % u64_mod;
      next_message_id = (h.max_message_id + 1) % u64_mod;
      next_delivery_id = (h.max_delivery_id + 1) % u64_mod;
      next_event_id = 1;
    }

is_deferred : DeliveryStatus → Bool
is_deferred DeliveryStatus.deferred = true
is_deferred s = false

unfoldable pub was_retried : Result TeamDeliveryRecord → ℕ → ℕ
unfolding is_deferred
was_retried (ok d) n = if is_deferred d.status then n else suc n
was_retried (err e) n = n

module _ (env : Env) where
  unfoldable pub retry_each : List String → ℕ → M ℕ
  retry_each [] n = pure n
  retry_each (id ∷ ids) n = do
    updated ← attempt (inject_delivery env id Trigger.startup_recovery)
    retry_each ids (was_retried updated n)

  -- A recipient whose session is gone, has ended or works on a turn is passed over.
  unfoldable pub retry_recipient : String → Result SessionRecord → ℕ → M ℕ
  unfolding retry_each deferred_ids
  retry_recipient recipient (err e) n = pure n
  retry_recipient recipient (ok session) n =
      if is_unavailable session.status
      then pure n
      else if is_some session.active_turn_id
      then pure n
      else (do
        others_run env
        ids ← gets (λ w.
            deferred_ids w.comms (unwrap_or (Map.get recipient w.comms.recipient_delivery_ids) []))
        retry_each ids n)

  unfoldable pub retry_recipients : List String → ℕ → M ℕ
  retry_recipients [] n = pure n
  retry_recipients (recipient ∷ rest) n = do
    session ← attempt (get_session env recipient)
    retried ← retry_recipient recipient session n
    retry_recipients rest retried

  unfoldable pub recover_startup_deferred_deliveries : M ℕ
  unfolding retry_recipients
  recover_startup_deferred_deliveries = do
    ensure_enabled env
    others_run env
    recipients ← gets (λ w. Map.keys w.comms.recipient_delivery_ids)
    retry_recipients recipients 0
