-- ===== src/Team/Members/Leads.antt =====
-- Teams, and their leads among their members.
use gooselake.Base.{
  ℕ, String, ◌==◌, eq_iff, true, ◌≡◌, refl, sym, ◌∙◌, inl, inr, List, some, Option-cases,
  Bool-cases, some-eq, is_some, length, leb,
}
use mathlib.Core.Path.{subst}
use gooselake.Error.{RuntimeError, Result, Result-cases, ok, err}
use gooselake.Map
use gooselake.Map.{Map}
use gooselake.Map.Laws.{get-insert}
use gooselake.Records.{TeamRecord, TeamMemberRecord}
use gooselake.World.{
  World, TeamCommsState, Env, ◌>>=◌, gets, pure, raise, lift, ok_or, modify, now_ms,
}
use gooselake.World.Moves.{Moves}
use gooselake.Session.Apart.{CommsOrder, OnComms}
use gooselake.Team.{allocate, allocate_team_id}
use gooselake.Team.Helpers.{ensure_member, has_member}
use gooselake.Team.Roster.{
  TeamJoinRequest, insert_team, insert_members, joined_member, new_team, first_members,
}
use gooselake.Team.Members.{
  enter_team, enter_member, take_out, change_lead, enter_found, take_out_found, change_lead_found,
}
use gooselake.Team.Members.Rosters.{
  IsRoster, insert-IsRoster, remove-IsRoster, insert-keeps, next_lead-is_in, first_members-IsRoster,
}

-- The team has a roster, and its lead is in it.
pub record IsLed (c : TeamCommsState) (id : String) (team : TeamRecord) : Type 0 where
  pub members : Map TeamMemberRecord
  pub held : Map.get id c.members_by_team ≡ some members
  pub roster : IsRoster members
  pub leads : is_some (Map.get team.lead_agent_id members) ≡ true

-- Every team that the state holds is led by one of its members.
abbrev pub AllLed : TeamCommsState → Type 0
AllLed c = (id : String) (team : TeamRecord) → Map.get id c.teams ≡ some team → IsLed c id team

abbrev pub StaysLed : TeamCommsState → TeamCommsState → Type 0
StaysLed c c' = AllLed c → AllLed c'

pub StaysLed-order : CommsOrder StaysLed
StaysLed-order = record { refl_at = λ c h. h; trans_at = λ a b c p q h. q (p h) }

-- A team and its roster are written together.
put-led :
    (c : TeamCommsState) (id : String) (team : TeamRecord) (members : Map TeamMemberRecord)
    → IsRoster members
    → is_some (Map.get team.lead_agent_id members) ≡ true
    → StaysLed c (insert_team id team (insert_members id members c))
unfolding insert_team insert_members
put-led c id team members roster leads all j t found = elim (Bool-cases (id == j)) [
  | inl same ↦
      subst (λ x. IsLed (insert_team id team (insert_members id members c)) j x)
        (some-eq (rw (get-insert id j team c.teams, same) at found))
        (record {
          members = members;
          held = rw (get-insert id j members c.members_by_team, same) refl;
          roster = roster;
          leads = leads;
        })
  | inr other ↦
      let l = all j t (rw (get-insert id j team c.teams, other) at found) in
      record {
        members = l.members;
        held = rw (get-insert id j members c.members_by_team, other) l.held;
        roster = l.roster;
        leads = l.leads;
      }
]

put-team :
    (c : TeamCommsState) (id : String) (team : TeamRecord) (members : Map TeamMemberRecord)
    → Map.get id c.members_by_team ≡ some members
    → IsRoster members
    → is_some (Map.get team.lead_agent_id members) ≡ true
    → StaysLed c (insert_team id team c)
unfolding insert_team
put-team c id team members held roster leads all j t found = elim (Bool-cases (id == j)) [
  | inl same ↦
      subst (λ x. IsLed (insert_team id team c) j x)
        (some-eq (rw (get-insert id j team c.teams, same) at found))
        (record {
          members = members;
          held =
              subst (λ k. Map.get k c.members_by_team ≡ some members) ((eq_iff id j).0 same) held;
          roster = roster;
          leads = leads;
        })
  | inr other ↦
      let l = all j t (rw (get-insert id j team c.teams, other) at found) in
      record { members = l.members; held = l.held; roster = l.roster; leads = l.leads }
]

refused : (e : RuntimeError) (r : Result (Unit {0})) → r ≡ err e → ¬ (r ≡ ok tt)
refused e r h h' = cc

ensured :
    (agent_id team_id : String) (members : Map TeamMemberRecord)
    → ensure_member (some members) agent_id team_id ≡ ok tt
    → is_some (Map.get agent_id members) ≡ true
unfolding ensure_member has_member
ensured agent_id team_id members h = elim (Bool-cases (is_some (Map.get agent_id members))) [
  | inl t ↦ t
  | inr f ↦ absurd (refused _ _ refl (rw f at h))
]

module _ (env : Env) where
  pub enter_team-StaysLed :
      (name lead : String) (ids : List String) (by : String) (now : ℕ)
      → Moves (OnComms StaysLed) (enter_team env name lead ids by now)
  unfolding enter_team ◌>>=◌ modify pure allocate_team_id new_team insert_members insert_team
  enter_team-StaysLed name lead ids by now = record {
    at = λ w.
        let id = (allocate "team_" w.comms.teams w.next_team_id).0 in
        let (roster, leads) = first_members-IsRoster id lead now by ids in
        put-led w.comms id (new_team id name lead by now) (first_members id lead now by ids) roster
          leads;
  }

  enter_member-StaysLed :
      (r : TeamJoinRequest) (team_id agent_id : String) (now : ℕ) (team : TeamRecord) (w : World)
      → Map.get team_id w.comms.teams ≡ some team
      → StaysLed w.comms (enter_member env r team_id agent_id now team w).1.comms
  unfolding enter_member ◌>>=◌ gets modify pure raise joined_member
  enter_member-StaysLed r team_id agent_id now team w found all =
      let l = all team_id team found in
      rw l.held (elim (Bool-cases (is_some (Map.get agent_id l.members))) [
        | inl t ↦ rw t all
        | inr f ↦ rw f (
            put-led w.comms team_id (record team { updated_at = now })
              (Map.insert agent_id (joined_member r team_id agent_id team.lead_agent_id now)
                l.members)
              (insert-IsRoster agent_id (joined_member r team_id agent_id team.lead_agent_id now)
                l.members refl l.roster)
              (insert-keeps agent_id team.lead_agent_id
                (joined_member r team_id agent_id team.lead_agent_id now) l.members l.leads)
              all)
      ])

  take_out-StaysLed :
      (team_id agent_id : String) (team : TeamRecord) (members : Map TeamMemberRecord) (w : World)
      → Map.get team_id w.comms.teams ≡ some team
      → Map.get team_id w.comms.members_by_team ≡ some members
      → StaysLed w.comms (take_out env team_id agent_id team members w).1.comms
  unfolding take_out ◌>>=◌ modify pure raise ok_or now_ms
  take_out-StaysLed team_id agent_id team members w found held all =
      let l = all team_id team found in
      let e : l.members ≡ members = some-eq (sym l.held ∙ held) in
      elim (Bool-cases (is_some (Map.get agent_id members))) [
        | inr f ↦ rw f all
        | inl t ↦ elim (Bool-cases (leb (length (Map.keys members)) 1)) [
          | inl last ↦ rw (t, last) all
          | inr two ↦
              let roster = subst (λ m. IsRoster m) e l.roster in
              let (next, e', there) =
                next_lead-is_in team.lead_agent_id agent_id members roster two (
                  subst
                    (λ (m : Map TeamMemberRecord). is_some (Map.get team.lead_agent_id m) ≡ true) e
                    l.leads) in
              rw (t, two, e')
                (put-led w.comms team_id
                  (record team { lead_agent_id = next; updated_at = env.clock w.tick })
                  (Map.remove agent_id members) (remove-IsRoster agent_id members roster) there all)
        ]
      ]

  change_lead-StaysLed :
      (team_id lead : String) (team : TeamRecord) (w : World)
      → Map.get team_id w.comms.teams ≡ some team
      → ensure_member (Map.get team_id w.comms.members_by_team) lead team_id ≡ ok tt
      → StaysLed w.comms (change_lead env team_id lead team w).1.comms
  unfolding change_lead ◌>>=◌ modify pure now_ms
  change_lead-StaysLed team_id lead team w found checked all =
      let l = all team_id team found in
      elim (Bool-cases (team.lead_agent_id == lead)) [
        | inl t ↦ rw t all
        | inr f ↦ rw f (
            put-team w.comms team_id
              (record team { lead_agent_id = lead; updated_at = env.clock w.tick }) l.members l.held
              l.roster (ensured lead team_id l.members (rw l.held at checked)) all)
      ]

  pub enter_found-StaysLed :
      (r : TeamJoinRequest) (team_id agent_id : String) (now : ℕ)
      → Moves (OnComms StaysLed) (enter_found env r team_id agent_id now)
  unfolding enter_found ◌>>=◌ gets ok_or
  enter_found-StaysLed r team_id agent_id now = record {
    at = λ w. elim (Option-cases (Map.get team_id w.comms.teams)) [
      | inl e ↦ rw e (λ h. h)
      | inr (team, e) ↦ rw e (enter_member-StaysLed r team_id agent_id now team w e)
    ];
  }

  pub take_out_found-StaysLed :
      (team_id agent_id : String) → Moves (OnComms StaysLed) (take_out_found env team_id agent_id)
  unfolding take_out_found ◌>>=◌ gets ok_or
  take_out_found-StaysLed team_id agent_id = record {
    at = λ w. elim (Option-cases (Map.get team_id w.comms.teams)) [
      | inl e ↦ rw e (λ h. h)
      | inr (team, e) ↦ elim (Option-cases (Map.get team_id w.comms.members_by_team)) [
        | inl e' ↦ rw (e, e') (λ h. h)
        | inr (members, e') ↦ rw (e, e') (take_out-StaysLed team_id agent_id team members w e e')
      ]
    ];
  }

  pub change_lead_found-StaysLed :
      (team_id lead : String) → Moves (OnComms StaysLed) (change_lead_found env team_id lead)
  unfolding change_lead_found ◌>>=◌ gets ok_or lift
  change_lead_found-StaysLed team_id lead = record {
    at = λ w.
        elim (Result-cases (ensure_member (Map.get team_id w.comms.members_by_team) lead team_id)) [
          | inr (x, e) ↦ rw e (λ h. h)
          | inl (tt, e) ↦ elim (Option-cases (Map.get team_id w.comms.teams)) [
            | inl e' ↦ rw (e, e') (λ h. h)
            | inr (team, e') ↦ rw (e, e') (change_lead-StaysLed team_id lead team w e' e)
          ]
        ];
  }
