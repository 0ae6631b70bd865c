-- ===== src/Team/Hydration/Held.antt =====
-- What the team service holds after a restart.
use gooselake.Base.{
  ℕ, ◌≤◌, String, ◌==◌, ◌≡◌, refl, sym, ap, ◌∙◌, arith, true, false, List, [], ◌∷◌, none, some,
  some-eq, is_some, unwrap_or, Option-cases, Bool-cases, inl, inr, eq_iff, if◌then◌else◌,
}
use gooselake.Map
use gooselake.Map.{Map}
use gooselake.Map.Laws.{get-insert}
use gooselake.Records.{TeamRecord, TeamMemberRecord, TeamMessageRecord, TeamDeliveryRecord}
use gooselake.Team.Drafts.{enter_message, enter_delivery}
use gooselake.Team.Roster.{insert_team, insert_members}
use gooselake.Team.Hydration.{
  Hydrating, empty_state, maximum, counter_of, hydrate_team, hydrate_member, hydrate_message,
  hydrate_delivery, each, hydrate,
}

-- Every entry of a map, with its key.
module _ {V : Type 0} where
  abbrev pub Every : (String → V → Type 0) → Map V → Type 0
  Every P m = (k : String) (v : V) → Map.get k m ≡ some v → P k v

  Every-insert :
      (P : String → V → Type 0) (k : String) (v : V) (m : Map V)
      → P k v
      → Every P m
      → Every P (Map.insert k v m)
  Every-insert P k v m here rest j u found = elim (Bool-cases (k == j)) [
    | inl same ↦
        let e = some-eq (rw same at (sym (get-insert k j v m) ∙ found)) in
        let names = (eq_iff k j).0 same in rw (← e, ← names) here
    | inr other ↦ rest j u (rw other at (sym (get-insert k j v m) ∙ found))
  ]

  is_some-insert :
      (k j : String) (v : V) (m : Map V)
      → is_some (Map.get j m) ≡ true
      → is_some (Map.get j (Map.insert k v m)) ≡ true
  is_some-insert k j v m h = elim (Bool-cases (k == j)) [
    | inl same ↦ rw (get-insert k j v m, same) refl
    | inr other ↦ rw (get-insert k j v m, other) h
  ]

le-maximum : (a b : ℕ) → a ≤ maximum a b
le-maximum a b = ground arith

maximum-le : (a b : ℕ) → b ≤ maximum a b
maximum-le a b = ground arith

-- A team is there under its own id, is not deleted, and its number is not above the greatest.
abbrev HoldsTeam : Hydrating → String → TeamRecord → Type 0
HoldsTeam h k t = (t.id ≡ k) × (is_some t.deleted_at ≡ false) × (counter_of k ≤ h.max_team_id)

-- A message is there under its own id, with its team.
abbrev HoldsMessage : Hydrating → String → TeamMessageRecord → Type 0
HoldsMessage h k m =
    (m.id ≡ k)
    × (is_some (Map.get m.team_id h.state.teams) ≡ true)
    × (counter_of k ≤ h.max_message_id)

-- A delivery is there under its own id, with its team and its message.
abbrev HoldsDelivery : Hydrating → String → TeamDeliveryRecord → Type 0
HoldsDelivery h k d =
    (d.id ≡ k)
    × (is_some (Map.get d.team_id h.state.teams) ≡ true)
    × (is_some (Map.get d.message_id h.state.messages) ≡ true)
    × (counter_of k ≤ h.max_delivery_id)

-- A member is there under its own id, among the members of its own team.
abbrev HoldsMember : String → String → TeamMemberRecord → Type 0
HoldsMember team_id k m = (m.agent_id ≡ k) × (m.team_id ≡ team_id)

-- The members of a team, which is there.
abbrev HoldsMembers : Hydrating → String → Map TeamMemberRecord → Type 0
HoldsMembers h k ms = (is_some (Map.get k h.state.teams) ≡ true) × Every (HoldsMember k) ms

pub record Holds (h : Hydrating) : Type 0 where
  pub teams : Every (HoldsTeam h) h.state.teams
  pub members : Every (HoldsMembers h) h.state.members_by_team
  pub messages : Every (HoldsMessage h) h.state.messages
  pub deliveries : Every (HoldsDelivery h) h.state.deliveries

hydrate_team-Holds : (t : TeamRecord) (h : Hydrating) → Holds h → Holds (hydrate_team t h)
unfolding hydrate_team insert_team
hydrate_team-Holds t h held = elim (Bool-cases (is_some t.deleted_at)) [
  | inl gone ↦ rw gone held
  | inr live ↦ rw live (record {
    teams =
        Every-insert _ t.id t h.state.teams (refl, live, maximum-le h.max_team_id (counter_of t.id))
          (λ k v f.
            let (own, kept, low) = held.teams k v f in
            (own, kept, omega (arith, low, le-maximum h.max_team_id (counter_of t.id))));
    members = λ k v f.
        let (team, own) = held.members k v f in (is_some-insert t.id k t h.state.teams team, own);
    messages = λ k v f.
        let (own, team, low) = held.messages k v f in
        (own, is_some-insert t.id v.team_id t h.state.teams team, low);
    deliveries = λ k v f.
        let (own, team, message, low) = held.deliveries k v f in
        (own, is_some-insert t.id v.team_id t h.state.teams team, message, low);
  })
]

none-is_not-some : {A : Type 0} {a : A} → none ≡ some a → ⊥
none-is_not-some h = cc

-- The members that are known of a team; none where the team has no entry.
known-members :
    (m : TeamMemberRecord) (h : Hydrating)
    → Holds h
    → Every (HoldsMember m.team_id) (unwrap_or (Map.get m.team_id h.state.members_by_team) [])
unfolding Map.get
known-members m h held = elim (Option-cases (Map.get m.team_id h.state.members_by_team)) [
  | inl e ↦ rw e (λ k v f. absurd (none-is_not-some f))
  | inr (ms, e) ↦ rw e (held.members m.team_id ms e).1
]

hydrate_member-Holds : (m : TeamMemberRecord) (h : Hydrating) → Holds h → Holds (hydrate_member m h)
unfolding hydrate_member insert_members
hydrate_member-Holds m h held = elim (Bool-cases (is_some (Map.get m.team_id h.state.teams))) [
  | inr gone ↦ rw gone held
  | inl live ↦ rw live (record {
    teams = held.teams;
    members =
        Every-insert (HoldsMembers h) m.team_id
          (Map.insert m.agent_id m (unwrap_or (Map.get m.team_id h.state.members_by_team) []))
          h.state.members_by_team
          (
            live,
            Every-insert (HoldsMember m.team_id) m.agent_id m
                (unwrap_or (Map.get m.team_id h.state.members_by_team) []) (refl, refl)
                (known-members m h held),
          )
          held.members;
    messages = held.messages;
    deliveries = held.deliveries;
  })
]

hydrate_message-Holds :
    (m : TeamMessageRecord) (h : Hydrating) → Holds h → Holds (hydrate_message m h)
unfolding hydrate_message enter_message
hydrate_message-Holds m h held = elim (Bool-cases (is_some (Map.get m.team_id h.state.teams))) [
  | inr gone ↦ rw gone held
  | inl live ↦ rw live (record {
    teams = held.teams;
    members = held.members;
    messages =
        Every-insert _ m.id m h.state.messages
          (refl, live, maximum-le h.max_message_id (counter_of m.id))
          (λ k v f.
            let (own, team, low) = held.messages k v f in
            (own, team, omega (arith, low, le-maximum h.max_message_id (counter_of m.id))));
    deliveries = λ k v f.
        let (own, team, message, low) = held.deliveries k v f in
        (own, team, is_some-insert m.id v.message_id m h.state.messages message, low);
  })
]

hydrate_delivery-Holds :
    (d : TeamDeliveryRecord) (h : Hydrating) → Holds h → Holds (hydrate_delivery d h)
unfolding hydrate_delivery enter_delivery
hydrate_delivery-Holds d h held = elim (Bool-cases (is_some (Map.get d.team_id h.state.teams))) [
  | inr gone ↦ rw gone held
  | inl live ↦ elim (Bool-cases (is_some (Map.get d.message_id h.state.messages))) [
    | inr gone ↦ rw (live, gone) held
    | inl sent ↦
        rw (live, sent)
          (record {
            teams = held.teams;
            members = held.members;
            messages = held.messages;
            deliveries =
                Every-insert _ d.id d h.state.deliveries
                  (refl, live, sent, maximum-le h.max_delivery_id (counter_of d.id))
                  (λ k v f.
                    let (own, team, message, low) = held.deliveries k v f in
                    (
                      own,
                      team,
                      message,
                      omega (arith, low, le-maximum h.max_delivery_id (counter_of d.id)),
                    ));
          })
  ]
]

each-Holds :
    {A : Type 0} (step : A → Hydrating → Hydrating)
    → ((a : A) (h : Hydrating) → Holds h → Holds (step a h))
    → (rows : List A) (h : Hydrating) → Holds h
    → Holds (each step rows h)
unfolding each
each-Holds step keeps [] h held = held
each-Holds step keeps (a ∷ rows) h held = each-Holds step keeps rows (step a h) (keeps a h held)

nothing-Holds :
    Holds (record { state = empty_state; max_team_id = 0; max_message_id = 0; max_delivery_id = 0 })
unfolding Map.get
nothing-Holds = record {
  teams = λ k v f. absurd (none-is_not-some f);
  members = λ k v f. absurd (none-is_not-some f);
  messages = λ k v f. absurd (none-is_not-some f);
  deliveries = λ k v f. absurd (none-is_not-some f);
}

-- Whatever rows the store hands over: what is held after a restart is under its own id, and each
-- member among those of its own team; no team of it is deleted, members and messages belong to teams
-- that are held, deliveries to teams and messages that are held, and the counters are not below the
-- number of any id that is held.
pub hydrate-Holds :
    (teams : List TeamRecord) (members : List TeamMemberRecord) (messages : List TeamMessageRecord)
    (deliveries : List TeamDeliveryRecord)
    → Holds (hydrate teams members messages deliveries)
unfolding hydrate
hydrate-Holds teams members messages deliveries =
    each-Holds hydrate_delivery hydrate_delivery-Holds deliveries _ (
      each-Holds hydrate_message hydrate_message-Holds messages _ (
        each-Holds hydrate_member hydrate_member-Holds members _
          (each-Holds hydrate_team hydrate_team-Holds teams _ nothing-Holds)))

-- The teams that are not deleted.
abbrev living : List TeamRecord → List TeamRecord
living [] = []
living (t ∷ ts) = if is_some t.deleted_at then living ts else t ∷ living ts

living-cons :
    (t : TeamRecord) (ts : List TeamRecord)
    → is_some t.deleted_at ≡ false
    → living (t ∷ ts) ≡ t ∷ living ts
living-cons t ts live = rw live refl

living-each :
    (ts : List TeamRecord) (h : Hydrating)
    → each hydrate_team ts h ≡ each hydrate_team (living ts) h
unfolding each hydrate_team
living-each [] h = refl
living-each (t ∷ ts) h = elim (Bool-cases (is_some t.deleted_at)) [
  | inl gone ↦ rw gone (living-each ts h)
  | inr live ↦
      living-each ts (hydrate_team t h)
      ∙ ap (λ (l : List TeamRecord). each hydrate_team l h) (sym (living-cons t ts live))
]

-- The rows of teams that were deleted change nothing of the state after a restart, and nothing of
-- the counters that the next ids come from.
pub hydrate-living :
    (teams : List TeamRecord) (members : List TeamMemberRecord) (messages : List TeamMessageRecord)
    (deliveries : List TeamDeliveryRecord)
    → hydrate teams members messages deliveries ≡ hydrate (living teams) members messages deliveries
unfolding hydrate
hydrate-living teams members messages deliveries =
    ap
      (λ (h : Hydrating).
        each hydrate_delivery deliveries
          (each hydrate_message messages (each hydrate_member members h)))
      (living-each teams _)
