-- ===== src/Store.antt =====
-- crates/runtime-store-sqlite: the tables that the services write, with `upsert` as the SQL states
-- it (repository_upserts.rs) and the event log (repository.rs). SQLite itself, its faults and the
-- JSON text of a column are not modelled here: a fault is an answer of the environment (World).
pub mod EventLog
pub mod Worktrees
use gooselake.Base.{
  ℕ, ◌+◌, String, ◌==◌, ◌&&◌, Bool, true, false, zero, suc, List, [], ◌∷◌, ◌++◌, Option, none, some,
  if◌then◌else◌, length, ltb, leb,
}
use gooselake.Error.{Result, ok, err, bootstrap}
use gooselake.Json.{Value}
use gooselake.Map
use gooselake.Map.{Map}
use gooselake.Records.{
  SessionRecord, TurnRecord, ApprovalRecord, TeamRecord, TeamMemberRecord, TeamMessageRecord,
  TeamDeliveryRecord, ProcessRecord, ManagedWorktreeRecord, ManagedWorktreeClaimRecord,
  TeamOperationDiagnosticRecord, RuntimeEventScope, RuntimeEventCriticality, scope_text,
}

-- What a `json!({ "key": item, … })` payload is made of.
pub data PayloadItem : Type 0 where
  json : Value → PayloadItem
  text : String → PayloadItem
  team : TeamRecord → PayloadItem
  member : TeamMemberRecord → PayloadItem
  members : List TeamMemberRecord → PayloadItem
  message : TeamMessageRecord → PayloadItem
  delivery : TeamDeliveryRecord → PayloadItem
  deliveries : List TeamDeliveryRecord → PayloadItem
  sessions : List String → List String → PayloadItem
  worktree : ManagedWorktreeRecord → PayloadItem
  claim : ManagedWorktreeClaimRecord → PayloadItem

abbrev pub Payload : Type 0
Payload = List (String × PayloadItem)

pub record NewRuntimeEvent : Type 0 where
  pub event_id : String
  pub scope : RuntimeEventScope
  pub scope_id : String
  pub session_id : Option String
  pub team_id : Option String
  pub turn_id : Option String
  pub kind : String
  pub criticality : RuntimeEventCriticality
  pub payload : Payload
  pub created_at : ℕ

pub record RuntimeEventRecord : Type 0 where
  pub row_id : ℕ
  pub seq : ℕ
  pub event : NewRuntimeEvent
  pub open event use *

pub record Store : Type 0 where
  pub sessions : Map SessionRecord
  pub turns : Map TurnRecord
  pub approvals : Map ApprovalRecord
  pub teams : Map TeamRecord
  pub team_members : List TeamMemberRecord
  pub team_messages : Map TeamMessageRecord
  pub team_deliveries : Map TeamDeliveryRecord
  pub processes : Map ProcessRecord
  pub managed_worktrees : List ManagedWorktreeRecord
  pub managed_worktree_claims : List ManagedWorktreeClaimRecord
  pub team_operation_diagnostics : List TeamOperationDiagnosticRecord
  pub events : List RuntimeEventRecord

-- `ON CONFLICT(id) DO UPDATE` leaves `created_at` as it was.
keep_session_created : Option SessionRecord → SessionRecord → SessionRecord
keep_session_created none r = r
keep_session_created (some old) r = record r { created_at = old.created_at }

unfoldable pub upsert_session : SessionRecord → Store → Store
unfolding keep_session_created
upsert_session r s = record s {
  sessions = Map.insert r.id (keep_session_created (Map.get r.id s.sessions) r) s.sessions;
}

unfoldable pub upsert_turn : TurnRecord → Store → Store
upsert_turn r s = record s { turns = Map.insert r.id r s.turns }

keep_approval_created : Option ApprovalRecord → ApprovalRecord → ApprovalRecord
keep_approval_created none r = r
keep_approval_created (some old) r = record r { created_at = old.created_at }

unfoldable pub upsert_approval : ApprovalRecord → Store → Store
unfolding keep_approval_created
upsert_approval r s = record s {
  approvals = Map.insert r.id (keep_approval_created (Map.get r.id s.approvals) r) s.approvals;
}

keep_team_created : Option TeamRecord → TeamRecord → TeamRecord
keep_team_created none r = r
keep_team_created (some old) r = record r { created_at = old.created_at }

unfoldable pub upsert_team : TeamRecord → Store → Store
unfolding keep_team_created
upsert_team r s = record s {
  teams = Map.insert r.id (keep_team_created (Map.get r.id s.teams) r) s.teams;
}

same_member : String → String → TeamMemberRecord → Bool
same_member team_id agent_id m = m.team_id == team_id && m.agent_id == agent_id

put_member : TeamMemberRecord → List TeamMemberRecord → List TeamMemberRecord
unfolding same_member
put_member r [] = r ∷ []
put_member r (m ∷ ms) = if same_member r.team_id r.agent_id m then r ∷ ms else m ∷ put_member r ms

unfoldable pub upsert_team_member : TeamMemberRecord → Store → Store
unfolding put_member
upsert_team_member r s = record s { team_members = put_member r s.team_members }

drop_member : String → String → List TeamMemberRecord → List TeamMemberRecord
unfolding same_member
drop_member team_id agent_id [] = []
drop_member team_id agent_id (m ∷ ms) =
    let rest = drop_member team_id agent_id ms in
    if same_member team_id agent_id m then rest else m ∷ rest

unfoldable pub delete_team_member : String → String → Store → Store
unfolding drop_member
delete_team_member team_id agent_id s = record s {
  team_members = drop_member team_id agent_id s.team_members;
}

-- The row that already holds the message's idempotency key: `SELECT id … WHERE team_id = … AND
-- sender_agent_id = … AND scope = … AND idempotency_key = …`.
same_key : Option String → String → Bool
same_key none key = false
same_key (some k) key = k == key

find_by_key : TeamMessageRecord → String → Map TeamMessageRecord → Option String
unfolding same_key
find_by_key r key [] = none
find_by_key r key ((id, m) ∷ ms) =
    if m.team_id == r.team_id
      && m.sender_agent_id == r.sender_agent_id
      && m.scope == r.scope
      && same_key m.idempotency_key key
    then some id
    else find_by_key r key ms

row_for : TeamMessageRecord → Option String → Map TeamMessageRecord → Option String
unfolding find_by_key
row_for r none ms = none
row_for r (some key) ms = find_by_key r key ms

write_message : TeamMessageRecord → Option String → Store → Store
write_message r none s = record s { team_messages = Map.insert r.id r s.team_messages }
write_message r (some id) s = record s {
  team_messages = Map.insert id (record r { id = id }) s.team_messages;
}

unfoldable pub upsert_team_message : TeamMessageRecord → Store → Store
unfolding row_for write_message
upsert_team_message r s = write_message r (row_for r r.idempotency_key s.team_messages) s

unfoldable pub upsert_team_delivery : TeamDeliveryRecord → Store → Store
upsert_team_delivery r s = record s { team_deliveries = Map.insert r.id r s.team_deliveries }

unfoldable pub upsert_process : ProcessRecord → Store → Store
upsert_process r s = record s { processes = Map.insert r.id r s.processes }

-- The event log, oldest first.
unfoldable pub in_scope : RuntimeEventScope → String → RuntimeEventRecord → Bool
in_scope scope scope_id e = scope_text e.scope == scope_text scope && e.scope_id == scope_id

unfoldable pub find_event : String → List RuntimeEventRecord → Option RuntimeEventRecord
find_event id [] = none
find_event id (e ∷ es) = if e.event_id == id then some e else find_event id es

-- `COALESCE(MAX(seq), 0)` over the events of the scope.
unfoldable pub max_seq : RuntimeEventScope → String → List RuntimeEventRecord → ℕ
unfolding in_scope
max_seq scope scope_id [] = 0
max_seq scope scope_id (e ∷ es) =
    let rest = max_seq scope scope_id es in
    if in_scope scope scope_id e then (if leb e.seq rest then rest else e.seq) else rest

-- The row that a new event becomes.
unfoldable pub new_row : NewRuntimeEvent → Store → RuntimeEventRecord
new_row event s = record {
  row_id = length s.events + 1;
  seq = max_seq event.scope event.scope_id s.events + 1;
  event = event;
}

unfoldable pub add_event :
    NewRuntimeEvent → Store → Option RuntimeEventRecord → RuntimeEventRecord × Store
add_event event s (some existing) = (existing, s)
add_event event s none = (new_row event s, record s { events = s.events ++ new_row event s ∷ [] })

unfoldable pub append_runtime_event : NewRuntimeEvent → Store → RuntimeEventRecord × Store
unfolding add_event
append_runtime_event event s = add_event event s (find_event event.event_id s.events)

-- `WHERE scope = … AND scope_id = … AND seq > after ORDER BY seq ASC LIMIT limit`.
unfoldable pub after_seq : Option ℕ → RuntimeEventRecord → Bool
after_seq none e = true
after_seq (some seq) e = ltb seq e.seq

unfoldable pub select :
    RuntimeEventScope → String → Option ℕ → List RuntimeEventRecord → List RuntimeEventRecord
unfolding in_scope after_seq
select scope scope_id after [] = []
select scope scope_id after (e ∷ es) =
    let rest = select scope scope_id after es in
    if in_scope scope scope_id e && after_seq after e then e ∷ rest else rest

unfoldable pub insert_by_seq :
    RuntimeEventRecord → List RuntimeEventRecord → List RuntimeEventRecord
insert_by_seq e [] = e ∷ []
insert_by_seq e (x ∷ xs) = if leb e.seq x.seq then e ∷ x ∷ xs else x ∷ insert_by_seq e xs

unfoldable pub order_by_seq : List RuntimeEventRecord → List RuntimeEventRecord
unfolding insert_by_seq
order_by_seq [] = []
order_by_seq (e ∷ es) = insert_by_seq e (order_by_seq es)

unfoldable pub limit_rows : ℕ → List RuntimeEventRecord → List RuntimeEventRecord
limit_rows zero es = []
limit_rows (suc n) [] = []
limit_rows (suc n) (e ∷ es) = e ∷ limit_rows n es

-- `WHERE id > after ORDER BY id ASC`, where no scope is named.
unfoldable pub after_id : Option ℕ → List RuntimeEventRecord → List RuntimeEventRecord
after_id none es = es
after_id (some id) [] = []
after_id (some id) (e ∷ es) =
    let rest = after_id (some id) es in if ltb id e.row_id then e ∷ rest else rest

unfoldable pub insert_by_id : RuntimeEventRecord → List RuntimeEventRecord → List RuntimeEventRecord
insert_by_id e [] = e ∷ []
insert_by_id e (x ∷ xs) = if leb e.row_id x.row_id then e ∷ x ∷ xs else x ∷ insert_by_id e xs

unfoldable pub order_by_id : List RuntimeEventRecord → List RuntimeEventRecord
unfolding insert_by_id
order_by_id [] = []
order_by_id (e ∷ es) = insert_by_id e (order_by_id es)

unfoldable pub query_events :
    Option (RuntimeEventScope × String)
    → Option ℕ
    → List RuntimeEventRecord
    → List RuntimeEventRecord
unfolding select order_by_seq after_id order_by_id
query_events (some (scope, scope_id)) after es = order_by_seq (select scope scope_id after es)
query_events none after es = order_by_id (after_id after es)

-- The limit is a `usize`, which has to fit an `i64`.
unfoldable pub list_runtime_events :
    Option (RuntimeEventScope × String) → Option ℕ → ℕ → Store → Result (List RuntimeEventRecord)
unfolding query_events limit_rows
list_runtime_events scope after limit s =
    if leb limit 9223372036854775807
    then ok (limit_rows limit (query_events scope after s.events))
    else err (bootstrap "runtime event query limit overflow")
