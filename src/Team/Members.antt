-- ===== src/Team/Members.antt =====
-- crates/runtime-core/src/team_comms/service_impl.rs: teams and their members.
pub mod Rosters
pub mod Leads
pub mod Leadership
use gooselake.Base.{
  ℕ, String, ◌<>◌, ◌==◌, Bool, true, false, ◌||◌, ◌&&◌, not, List, [], ◌∷◌, Option, none, some,
  if◌then◌else◌, unwrap_or, is_some, ltb, eqb, leb, length,
}
use gooselake.Error.{not_found, invalid_state}
use gooselake.Map
use gooselake.Map.{Map}
use gooselake.Records.{TeamRecord, TeamMemberRecord}
use gooselake.Store.{
  text, team as team_item, member as member_item, members as members_item, upsert_team,
  upsert_team_member, delete_team_member,
}
use gooselake.World.{
  TeamCommsState, Env, M, pure, raise, lift, gets, ok_or, attempt, modify, ◌>>=◌, ◌>>◌, others_run,
  now_ms,
}
use gooselake.Session.{persist_unlocked}
use gooselake.Team.{
  set_comms, allocate_team_id, ensure_enabled, append_team_event, require_session_active,
}
use gooselake.Team.Helpers.{ensure_member, normalize_non_empty, normalized_non_empty}
use gooselake.Team.Roster.{
  TeamCreateRequest, TeamJoinRequest, TeamWithMembers, member_le, insert_member, sort_members,
  earlier, min_member, insert_team, insert_members, new_member, add_members, first_members,
  new_team, joined_member, agent_of, next_lead,
}

module _ (env : Env) where
  unfoldable pub team_with_members : String → M TeamWithMembers
  team_with_members team_id = do
    others_run env
    found ← gets (λ w. Map.get team_id w.comms.teams)
    team ← ok_or found (not_found ("team " <> team_id))
    members ← gets (λ w. unwrap_or (Map.get team_id w.comms.members_by_team) [])
    pure (record { team = team; members = sort_members (Map.values members) })

  unfoldable pub require_all : List String → M (Unit {0})
  require_all [] = pure tt
  require_all (a ∷ rest) = do require_session_active env a; require_all rest

  unfoldable pub persist_members : List TeamMemberRecord → M (Unit {0})
  persist_members [] = pure tt
  persist_members (m ∷ ms) = do persist_unlocked env (upsert_team_member m); persist_members ms

  -- Under the lock of the state.
  unfoldable pub enter_team : String → String → List String → String → ℕ → M TeamRecord
  enter_team name lead member_ids by now = do
    team_id ← allocate_team_id
    let team = new_team team_id name lead by now
    modify (λ w.
        set_comms
          (insert_members team_id (first_members team_id lead now by member_ids)
            (insert_team team_id team w.comms))
          w)
    pure team

  unfoldable pub create_team : TeamCreateRequest → M TeamWithMembers
  unfolding require_all persist_members
  create_team request = do
    ensure_enabled env
    name ← lift (normalize_non_empty request.name "name")
    lead ← lift (normalize_non_empty request.lead_agent_id "lead_agent_id")
    let by = unwrap_or request.created_by "user"
    now ← now_ms env
    require_session_active env lead
    require_all request.member_agent_ids
    others_run env
    team ← enter_team name lead request.member_agent_ids by now
    persist_unlocked env (upsert_team team)
    others_run env
    entered ← gets (λ w. Map.values (unwrap_or (Map.get team.id w.comms.members_by_team) []))
    persist_members entered
    attempt (
        append_team_event env team.id "team.created"
          (("team", team_item team) ∷ ("members", members_item entered) ∷ [])
          (some team.lead_agent_id))
    team_with_members team.id

  unfoldable pub enter_member :
      TeamJoinRequest → String → String → ℕ → TeamRecord → M (TeamRecord × TeamMemberRecord)
  unfolding joined_member
  enter_member request team_id agent_id now team = do
    members ← gets (λ w. unwrap_or (Map.get team_id w.comms.members_by_team) [])
    if is_some (Map.get agent_id members)
        then raise
            (invalid_state ("agent " <> (agent_id <> (" is already a member of team " <> team_id))))
        else do
          let member = joined_member request team_id agent_id team.lead_agent_id now
          let updated = record team { updated_at = now }
          modify (λ w.
              set_comms
                (insert_team team_id updated
                  (insert_members team_id (Map.insert agent_id member members) w.comms))
                w)
          pure (updated, member)

  -- Under the lock of the state.
  unfoldable pub enter_found :
      TeamJoinRequest → String → String → ℕ → M (TeamRecord × TeamMemberRecord)
  enter_found request team_id agent_id now = do
    found ← gets (λ w. Map.get team_id w.comms.teams)
    team ← ok_or found (not_found ("team " <> team_id))
    enter_member request team_id agent_id now team

  unfoldable pub join_team : TeamJoinRequest → M TeamWithMembers
  unfolding enter_member
  join_team request = do
    ensure_enabled env
    team_id ← lift (normalize_non_empty request.team_id "team_id")
    agent_id ← lift (normalize_non_empty request.agent_id "agent_id")
    require_session_active env agent_id
    now ← now_ms env
    others_run env
    entered ← enter_found request team_id agent_id now
    persist_unlocked env (upsert_team entered.0)
    persist_unlocked env (upsert_team_member entered.1)
    attempt (
        append_team_event env team_id "team.member_joined"
          (("team", team_item entered.0) ∷ ("member", member_item entered.1) ∷ []) (some agent_id))
    team_with_members team_id

  -- The members without `agent_id` are written before the next lead is sought.
  unfoldable pub take_out : String → String → TeamRecord → Map TeamMemberRecord → M TeamRecord
  take_out team_id agent_id team members =
      if not (is_some (Map.get agent_id members))
      then raise (not_found ("agent " <> (agent_id <> (" not in team " <> team_id))))
      else if leb (length (Map.keys members)) 1
      then raise (
          invalid_state
            ("cannot remove last member from team " <> (team_id <> "; delete team instead")))
      else do
        let rest = Map.remove agent_id members
        modify (λ w. set_comms (insert_members team_id rest w.comms) w)
        lead ←
            ok_or (next_lead team.lead_agent_id agent_id rest)
              (invalid_state ("team " <> (team_id <> " lost lead during removal")))
        now ← now_ms env
        let updated = record team { lead_agent_id = lead; updated_at = now }
        modify (λ w. set_comms (insert_team team_id updated w.comms) w)
        pure updated

  -- Under the lock of the state.
  unfoldable pub take_out_found : String → String → M TeamRecord
  take_out_found team_id agent_id = do
    found ← gets (λ w. Map.get team_id w.comms.teams)
    team ← ok_or found (not_found ("team " <> team_id))
    found_members ← gets (λ w. Map.get team_id w.comms.members_by_team)
    members ← ok_or found_members (not_found ("team " <> (team_id <> " members")))
    take_out team_id agent_id team members

  unfoldable pub remove_team_member : String → String → M TeamWithMembers
  remove_team_member request_team request_agent = do
    ensure_enabled env
    team_id ← lift (normalize_non_empty request_team "team_id")
    agent_id ← lift (normalize_non_empty request_agent "agent_id")
    others_run env
    updated ← take_out_found team_id agent_id
    persist_unlocked env (upsert_team updated)
    persist_unlocked env (delete_team_member team_id agent_id)
    attempt (
        append_team_event env team_id "team.member_left"
          (("team", team_item updated) ∷ ("agent_id", text agent_id) ∷ []) (some agent_id))
    team_with_members team_id

  -- Nothing, if the agent leads the team already.
  unfoldable pub change_lead : String → String → TeamRecord → M (Option TeamRecord)
  change_lead team_id lead team = if team.lead_agent_id == lead then pure none else do
    now ← now_ms env
    let updated = record team { lead_agent_id = lead; updated_at = now }
    modify (λ w. set_comms (insert_team team_id updated w.comms) w)
    pure (some updated)

  -- Under the lock of the state.
  unfoldable pub change_lead_found : String → String → M (Option TeamRecord)
  change_lead_found team_id lead = do
    members ← gets (λ w. Map.get team_id w.comms.members_by_team)
    lift (ensure_member members lead team_id)
    found ← gets (λ w. Map.get team_id w.comms.teams)
    team ← ok_or found (not_found ("team " <> team_id))
    change_lead team_id lead team

  unfoldable pub report_lead : String → String → Option TeamRecord → M TeamWithMembers
  report_lead team_id lead none = team_with_members team_id
  report_lead team_id lead (some updated) = do
    persist_unlocked env (upsert_team updated)
    attempt (
        append_team_event env team_id "team.lead_changed"
          (("team", team_item updated) ∷ ("lead_agent_id", text lead) ∷ []) (some lead))
    team_with_members team_id

  unfoldable pub set_team_lead : String → String → M TeamWithMembers
  unfolding report_lead
  set_team_lead request_team request_lead = do
    ensure_enabled env
    team_id ← lift (normalize_non_empty request_team "team_id")
    lead ← lift (normalize_non_empty request_lead "lead_agent_id")
    others_run env
    changed ← change_lead_found team_id lead
    report_lead team_id lead changed
