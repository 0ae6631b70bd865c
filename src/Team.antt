-- ===== src/Team.antt =====
-- crates/runtime-core/src/team_comms: the team service. What all of its files use: its guards, its
-- events and its ids (team_comms/mod.rs).
pub mod Helpers
pub mod Apart
pub mod Counters
pub mod Hydration
pub mod Transition
pub mod Delivery
pub mod Roster
pub mod Members
pub mod Drafts
pub mod Messages
pub mod Queries
pub mod Control
use gooselake.Base.{
  ℕ, zero, suc, ◌+◌, ◌%◌, String, ◌<>◌, ◌==◌, Bool, List, Option, none, some, if◌then◌else◌,
  is_some, length,
}
use gooselake.Text.{decimal}
use gooselake.Error.{ok, unsupported, invalid_state}
use gooselake.Map
use gooselake.Map.{Map}
use gooselake.Records.{
  SessionRecord, TeamRecord, TeamMemberRecord, TeamMessageRecord, TeamDeliveryRecord,
  RuntimeEventScope, RuntimeEventCriticality, is_unavailable, session_status_text,
}
use gooselake.Store.{Payload, RuntimeEventRecord}
use gooselake.World.{
  World, TeamCommsState, Env, M, pure, raise, ◌>>=◌, ◌>>◌, others_run, now_ms, append_to_store,
  u64_mod,
}
use gooselake.Session.{get_session}

abbrev pub set_comms : TeamCommsState → World → World
set_comms c w = record w { comms = c }

abbrev pub insert_delivery : String → TeamDeliveryRecord → TeamCommsState → TeamCommsState
insert_delivery id d c = record c { deliveries = Map.insert id d c.deliveries }

-- `loop { … fetch_add(1) … if !map.contains_key(&id) { return id } }`: the first id of the counter
-- that `taken` does not hold, with the counter behind it. `tries` bounds the rounds; the last id
-- is returned untested.
unfoldable pub first_free : ℕ → String → (String → Bool) → ℕ → String × ℕ
first_free zero prefix taken n = (prefix <> decimal n, (n + 1) % u64_mod)
first_free (suc tries) prefix taken n =
    let next = first_free tries prefix taken ((n + 1) % u64_mod) in
    if taken (prefix <> decimal n) then next else (prefix <> decimal n, (n + 1) % u64_mod)

-- One try more than the map has entries.
unfoldable pub allocate {ℓ} : {V : Type ℓ} → String → Map V → ℕ → String × ℕ
unfolding first_free
allocate prefix m n = first_free (length (Map.keys m)) prefix (λ id. is_some (Map.get id m)) n

unfoldable pub allocate_team_id : M String
unfolding allocate
allocate_team_id w =
    let (id, next) = allocate "team_" w.comms.teams w.next_team_id in
    (ok id, record w { next_team_id = next })

unfoldable pub allocate_message_id : M String
unfolding allocate
allocate_message_id w =
    let (id, next) = allocate "msg_" w.comms.messages w.next_message_id in
    (ok id, record w { next_message_id = next })

unfoldable pub allocate_delivery_id : M String
unfolding allocate
allocate_delivery_id w =
    let (id, next) = allocate "dlv_" w.comms.deliveries w.next_delivery_id in
    (ok id, record w { next_delivery_id = next })

unfoldable pub take_event_id : M ℕ
take_event_id w = (ok w.next_event_id, record w { next_event_id = (w.next_event_id + 1) % u64_mod })

module _ (env : Env) where
  unfoldable pub ensure_enabled : M (Unit {0})
  ensure_enabled =
      if env.enabled then pure tt else raise (unsupported "team comms service is disabled")

  unfoldable pub append_team_event :
      String → String → Payload → Option String → M RuntimeEventRecord
  unfolding take_event_id
  append_team_event team_id kind payload session_id = do
    n ← take_event_id
    now ← now_ms env
    others_run env
    append_to_store env (record {
      event_id = "evt_team_" <> (team_id <> ("_" <> (env.event_id_nonce <> ("_" <> decimal n))));
      scope = RuntimeEventScope.team;
      scope_id = team_id;
      session_id = session_id;
      team_id = some team_id;
      turn_id = none;
      kind = kind;
      criticality = RuntimeEventCriticality.critical;
      payload = payload;
      created_at = now;
    })

  unfoldable pub require_session_active : String → M SessionRecord
  require_session_active session_id = do
    session ← get_session env session_id
    if is_unavailable session.status
        then raise (
            invalid_state (
              "session "
              <> (session_id
                  <> (" is not available in status " <> session_status_text session.status))))
        else pure session
