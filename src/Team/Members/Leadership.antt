-- ===== src/Team/Members/Leadership.antt =====
-- The operations on teams, and the leads of the teams.
use gooselake.Base.{
  String, ◌==◌, true, ◌≡◌, refl, sym, ap, ◌∙◌, inl, inr, List, [], ◌∷◌, Option, none, some,
  Bool-cases, unwrap_or,
}
use gooselake.Map
use gooselake.Map.{Map}
use gooselake.Map.Laws.{get-remove}
use gooselake.Records.{TeamRecord, TeamMemberRecord}
use gooselake.World.{World, TeamCommsState, Env, modify}
use gooselake.World.Moves.{IsPreorder, Moves, Moves-bind, moves_rules}
use gooselake.Session.Apart.{OnComms, OnComms-IsPreorder, Rely, apart_rules}
use gooselake.Team.{set_comms, require_session_active, ensure_enabled}
use gooselake.Team.Apart.{Bears, OnComms-Bears, bears_rules}
use gooselake.Team.Roster.{TeamJoinRequest, TeamCreateRequest}
use gooselake.Team.Members.{
  team_with_members, require_all, persist_members, report_lead, create_team, join_team,
  remove_team_member, set_team_lead,
}
use gooselake.Team.Members.Leads.{
  StaysLed, StaysLed-order, enter_team-StaysLed, enter_found-StaysLed, take_out_found-StaysLed,
  change_lead_found-StaysLed,
}
use gooselake.World.Moves.{Moves-attempt}
use gooselake.Team.Apart.{persist_unlocked-Bears, append_team_event-Bears}
use gooselake.Records.{TeamDeliveryRecord, TeamMessageRecord}
use gooselake.Team.Control.{
  forget_messages, forget_message, drop_each, drop_one, drop_team, drop_found, delete_team,
  report_cancelled,
}

o : IsPreorder (OnComms StaysLed)
o = OnComms-IsPreorder StaysLed-order

-- Only the teams and their members count.
same-StaysLed :
    (c c' : TeamCommsState)
    → c'.teams ≡ c.teams
    → c'.members_by_team ≡ c.members_by_team
    → StaysLed c c'
same-StaysLed c c' teams members all id team found =
    let l = all id team (ap (Map.get id) (sym teams) ∙ found) in
    record {
      members = l.members;
      held = ap (Map.get id) members ∙ l.held;
      roster = l.roster;
      leads = l.leads;
    }

forget_message-StaysLed :
    (id : String) (m : Option TeamMessageRecord) (c : TeamCommsState)
    → StaysLed c (forget_message id m c)
unfolding forget_message
forget_message-StaysLed id none c h = h
forget_message-StaysLed id (some m) c h = same-StaysLed c _ refl refl h

forget_messages-StaysLed :
    (ids : List String) (c : TeamCommsState) → StaysLed c (forget_messages ids c)
unfolding forget_messages
forget_messages-StaysLed [] c h = h
forget_messages-StaysLed (id ∷ ids) c h =
    forget_messages-StaysLed ids _ (forget_message-StaysLed id (Map.get id c.messages) c h)

modify-StaysLed :
    (f : World → TeamCommsState)
    → ((w : World) → StaysLed w.comms (f w))
    → Moves (OnComms StaysLed) (modify (λ w. set_comms (f w) w))
unfolding modify
modify-StaysLed f h = record { at = λ w. h w }

remove-StaysLed :
    (c c' : TeamCommsState) (id : String)
    → c'.teams ≡ Map.remove id c.teams
    → c'.members_by_team ≡ Map.remove id c.members_by_team
    → StaysLed c c'
remove-StaysLed c c' id teams members all j t found = elim (Bool-cases (id == j)) [
  | inl same ↦ absurd (gone same)
  | inr other ↦
      let l = all j t (rw (teams, get-remove id j c.teams, other) at found) in
      record {
        members = l.members;
        held = rw (members, get-remove id j c.members_by_team, other) l.held;
        roster = l.roster;
        leads = l.leads;
      }
]
  where
    gone : (id == j) ≡ true → ⊥
    gone same =
        let found' : none ≡ some t = rw (teams, get-remove id j c.teams, same) at found in cc

module _ (env : Env) (rely : Rely env StaysLed) where
  b : Bears env (OnComms StaysLed)
  b = OnComms-Bears env StaysLed-order rely

  drop_one-StaysLed :
      (id : String) (d : Option TeamDeliveryRecord) → Moves (OnComms StaysLed) (drop_one env id d)
  unfolding drop_one
  drop_one-StaysLed id none = search (moves_rules, o)
  drop_one-StaysLed id (some d) =
      Moves-bind o _ _ (modify-StaysLed _ (λ w. same-StaysLed w.comms _ refl refl))
        (λ _. search (moves_rules, o, b, bears_rules) depth 9)

  drop_each-StaysLed : (ids : List String) → Moves (OnComms StaysLed) (drop_each env ids)
  unfolding drop_each
  drop_each-StaysLed [] = search (moves_rules, o)
  drop_each-StaysLed (id ∷ ids) = Moves-bind o _ _ (search (moves_rules, o)) (λ found.
      Moves-bind o _ _ (drop_one-StaysLed id found)
        (λ cancelled. Moves-bind o _ _ (drop_each-StaysLed ids) (λ rest. search (moves_rules, o))))

  -- The team goes from both tables in one write.
  drop_team-StaysLed :
      (id : String) (team : TeamRecord) → Moves (OnComms StaysLed) (drop_team env id team)
  unfolding drop_team
  drop_team-StaysLed id team = Moves-bind o _ _ (search (moves_rules, o)) (λ c.
      Moves-bind o _ _
        (modify-StaysLed _ (λ w h.
          forget_messages-StaysLed (unwrap_or (Map.get id c.team_message_ids) []) _
            (remove-StaysLed w.comms _ id refl refl h)))
        (λ _. Moves-bind o _ _ (drop_each-StaysLed _) (λ cancelled.
          Moves-bind o _ _ (modify-StaysLed _ (λ w. same-StaysLed w.comms _ refl refl))
            (λ _. search (moves_rules, o, b, bears_rules) depth 12))))

  drop_found-StaysLed : (id : String) → Moves (OnComms StaysLed) (drop_found env id)
  unfolding drop_found
  drop_found-StaysLed id = search (moves_rules, o, drop_team-StaysLed) depth 9

  ensure_enabled-StaysLed : Moves (OnComms StaysLed) (ensure_enabled env)
  unfolding ensure_enabled
  ensure_enabled-StaysLed = search (moves_rules, o) depth 5

  require_session_active-StaysLed :
      (id : String) → Moves (OnComms StaysLed) (require_session_active env id)
  unfolding require_session_active
  require_session_active-StaysLed id =
      search (moves_rules, o, StaysLed-order, rely, apart_rules) depth 9

  require_all-StaysLed : (ids : List String) → Moves (OnComms StaysLed) (require_all env ids)
  unfolding require_all
  require_all-StaysLed [] = search (moves_rules, o)
  require_all-StaysLed (id ∷ ids) =
      Moves-bind o _ _ (require_session_active-StaysLed id) (λ _. require_all-StaysLed ids)

  persist_members-StaysLed :
      (ms : List TeamMemberRecord) → Moves (OnComms StaysLed) (persist_members env ms)
  unfolding persist_members
  persist_members-StaysLed [] = search (moves_rules, o)
  persist_members-StaysLed (m ∷ ms) =
      Moves-bind o _ _ (persist_unlocked-Bears env _ o b _) (λ _. persist_members-StaysLed ms)

  team_with_members-StaysLed : (id : String) → Moves (OnComms StaysLed) (team_with_members env id)
  unfolding team_with_members
  team_with_members-StaysLed id = search (moves_rules, o, b, bears_rules) depth 12

  create_team-StaysLed : (r : TeamCreateRequest) → Moves (OnComms StaysLed) (create_team env r)
  unfolding create_team
  create_team-StaysLed r =
      search
        (
          moves_rules, o, b, bears_rules, ensure_enabled-StaysLed, require_session_active-StaysLed,
          require_all-StaysLed, persist_members-StaysLed, team_with_members-StaysLed,
          enter_team-StaysLed,
        )
        depth 25

  join_team-StaysLed : (r : TeamJoinRequest) → Moves (OnComms StaysLed) (join_team env r)
  unfolding join_team
  join_team-StaysLed r =
      search
        (
          moves_rules, o, b, bears_rules, ensure_enabled-StaysLed, require_session_active-StaysLed,
          team_with_members-StaysLed, enter_found-StaysLed,
        )
        depth 25

  remove_team_member-StaysLed :
      (team agent : String) → Moves (OnComms StaysLed) (remove_team_member env team agent)
  unfolding remove_team_member
  remove_team_member-StaysLed team agent =
      search
        (
          moves_rules, o, b, bears_rules, ensure_enabled-StaysLed, team_with_members-StaysLed,
          take_out_found-StaysLed,
        )
        depth 25

  report_lead-StaysLed :
      (team_id lead : String) (t : Option TeamRecord)
      → Moves (OnComms StaysLed) (report_lead env team_id lead t)
  unfolding report_lead
  report_lead-StaysLed team_id lead none = team_with_members-StaysLed team_id
  report_lead-StaysLed team_id lead (some t) =
      search (moves_rules, o, b, bears_rules, team_with_members-StaysLed) depth 15

  set_team_lead-StaysLed :
      (team lead : String) → Moves (OnComms StaysLed) (set_team_lead env team lead)
  unfolding set_team_lead
  set_team_lead-StaysLed team lead =
      search
        (
          moves_rules, o, b, bears_rules, ensure_enabled-StaysLed, change_lead_found-StaysLed,
          report_lead-StaysLed,
        )
        depth 25

  report_cancelled-StaysLed :
      (team_id : String) (ds : List TeamDeliveryRecord)
      → Moves (OnComms StaysLed) (report_cancelled env team_id ds)
  unfolding report_cancelled
  report_cancelled-StaysLed team_id [] = search (moves_rules, o)
  report_cancelled-StaysLed team_id (d ∷ ds) =
      Moves-bind o _ _ (persist_unlocked-Bears env _ o b _) (λ _.
        Moves-bind o _ _ (Moves-attempt o _ (append_team_event-Bears env _ o b _ _ _ _))
          (λ _. report_cancelled-StaysLed team_id ds))

  delete_team-StaysLed : (team : String) → Moves (OnComms StaysLed) (delete_team env team)
  unfolding delete_team
  delete_team-StaysLed team =
      search
        (
          moves_rules, o, b, bears_rules, ensure_enabled-StaysLed, drop_found-StaysLed,
          report_cancelled-StaysLed,
        )
        depth 25

  -- create_team, join_team, remove_team_member, set_team_lead and delete_team each keep every
  -- team led by one of its members, with every member under its own id and once, whatever the
  -- result, if the tasks that run in between keep it too.
  pub members-StaysLed :
      (create : TeamCreateRequest) (join : TeamJoinRequest) (team agent : String) (w : World)
      → StaysLed w.comms (create_team env create w).1.comms
        × StaysLed w.comms (join_team env join w).1.comms
        × StaysLed w.comms (remove_team_member env team agent w).1.comms
        × StaysLed w.comms (set_team_lead env team agent w).1.comms
        × StaysLed w.comms (delete_team env team w).1.comms
  members-StaysLed create join team agent w = (
    (create_team-StaysLed create).at w,
    (join_team-StaysLed join).at w,
    (remove_team_member-StaysLed team agent).at w,
    (set_team_lead-StaysLed team agent).at w,
    (delete_team-StaysLed team).at w,
  )
