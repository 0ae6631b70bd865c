-- ===== src/Team/Roster.antt =====
-- crates/runtime-core/src/team_comms/service_impl.rs: teams and their members as data.
use gooselake.Base.{
  ℕ, String, ◌==◌, Bool, ◌||◌, ◌&&◌, List, [], ◌∷◌, Option, none, some, if◌then◌else◌, unwrap_or,
  ltb, eqb,
}
use gooselake.Text.{text_le}
use gooselake.Map
use gooselake.Map.{Map}
use gooselake.Records.{TeamRecord, TeamMemberRecord}
use gooselake.World.{TeamCommsState}
use gooselake.Team.Helpers.{normalized_non_empty}

pub record TeamCreateRequest : Type 0 where
  pub name : String
  pub lead_agent_id : String
  pub member_agent_ids : List String
  pub created_by : Option String

pub record TeamJoinRequest : Type 0 where
  pub team_id : String
  pub agent_id : String
  pub title : Option String
  pub added_by : Option String
  pub creator_agent_id : Option String
  pub creator_compaction_subscription : Option String
  pub worktree_id : Option String

pub record TeamWithMembers : Type 0 where
  pub team : TeamRecord
  pub members : List TeamMemberRecord

-- By `joined_at`, then by `agent_id`.
unfoldable pub member_le : TeamMemberRecord → TeamMemberRecord → Bool
unfolding text_le
member_le a b =
    ltb a.joined_at b.joined_at || (eqb a.joined_at b.joined_at && text_le a.agent_id b.agent_id)

unfoldable pub insert_member : TeamMemberRecord → List TeamMemberRecord → List TeamMemberRecord
insert_member a [] = a ∷ []
insert_member a (b ∷ bs) = if member_le a b then a ∷ b ∷ bs else b ∷ insert_member a bs

unfoldable pub sort_members : List TeamMemberRecord → List TeamMemberRecord
unfolding insert_member member_le
sort_members [] = []
sort_members (a ∷ rest) = insert_member a (sort_members rest)

unfoldable pub earlier : TeamMemberRecord → Option TeamMemberRecord → TeamMemberRecord
earlier a none = a
earlier a (some b) = if member_le a b then a else b

-- `members.values().min_by(…)`.
unfoldable pub min_member : List TeamMemberRecord → Option TeamMemberRecord
unfolding earlier member_le
min_member [] = none
min_member (a ∷ rest) = some (earlier a (min_member rest))

unfoldable pub insert_team : String → TeamRecord → TeamCommsState → TeamCommsState
insert_team id t c = record c { teams = Map.insert id t c.teams }

unfoldable pub insert_members : String → Map TeamMemberRecord → TeamCommsState → TeamCommsState
insert_members id m c = record c { members_by_team = Map.insert id m c.members_by_team }

unfoldable pub new_member : String → String → ℕ → String → TeamMemberRecord
new_member team_id agent_id now added_by = record {
  team_id = team_id;
  agent_id = agent_id;
  title = none;
  joined_at = now;
  added_by = added_by;
  creator_agent_id = none;
  creator_compaction_subscription = "auto";
  worktree_id = none;
}

-- The requested members behind the lead; the lead is not entered twice.
unfoldable pub add_members :
    String → String → ℕ → String → List String → Map TeamMemberRecord → Map TeamMemberRecord
unfolding new_member
add_members team_id lead now by [] m = m
add_members team_id lead now by (a ∷ rest) m =
    add_members team_id lead now by rest
      (if a == lead then m else Map.insert a (new_member team_id a now by) m)

unfoldable pub first_members : String → String → ℕ → String → List String → Map TeamMemberRecord
unfolding new_member
first_members team_id lead now by rest =
    add_members team_id lead now by rest (Map.insert lead (new_member team_id lead now by) [])

unfoldable pub new_team : String → String → String → String → ℕ → TeamRecord
new_team id name lead by now = record {
  id = id;
  name = name;
  lead_agent_id = lead;
  created_by = by;
  created_at = now;
  updated_at = now;
  deleted_at = none;
}

unfoldable pub joined_member : TeamJoinRequest → String → String → String → ℕ → TeamMemberRecord
joined_member r team_id agent_id lead now = record {
  team_id = team_id;
  agent_id = agent_id;
  title = normalized_non_empty r.title;
  joined_at = now;
  added_by = unwrap_or r.added_by lead;
  creator_agent_id = r.creator_agent_id;
  creator_compaction_subscription = unwrap_or r.creator_compaction_subscription "auto";
  worktree_id = r.worktree_id;
}

unfoldable pub agent_of : Option TeamMemberRecord → Option String
agent_of none = none
agent_of (some m) = some m.agent_id

-- The lead after `agent_id` left: the member who joined first, if it was the lead who left.
unfoldable pub next_lead : String → String → Map TeamMemberRecord → Option String
unfolding agent_of
next_lead lead agent_id rest =
    if lead == agent_id then agent_of (min_member (Map.values rest)) else some lead
