-- ===== src/Team/Members/Rosters.antt =====
-- The members of one team, by their ids.
use gooselake.Base.{
  ℕ, String, ◌==◌, eq_iff, eq_refl, Bool, true, false, ◌≡◌, refl, inl, inr, List, [], ◌∷◌, Option,
  none, some, arith, if◌then◌else◌, Option-cases, Bool-cases, some-eq, is_some, length, leb,
}
use mathlib.Core.Path.{subst}
use gooselake.Map
use gooselake.Map.{Map}
use gooselake.Map.Laws.{get-insert, get-remove}
use gooselake.Records.{TeamMemberRecord}
use gooselake.Team.Roster.{
  min_member, earlier, member_le, agent_of, next_lead, first_members, add_members, new_member,
}

-- Every member has its own id as key, and no key comes twice.
abbrev pub IsRoster : Map TeamMemberRecord → Type 0
IsRoster [] = Unit
IsRoster ((k, v) ∷ m) = (v.agent_id ≡ k) × (Map.get k m ≡ none) × IsRoster m

pub insert-IsRoster :
    (k : String) (v : TeamMemberRecord) (m : Map TeamMemberRecord)
    → v.agent_id ≡ k
    → IsRoster m
    → IsRoster (Map.insert k v m)
unfolding Map.insert Map.get
insert-IsRoster k v [] own h = (own, refl, tt)
insert-IsRoster k v ((j, w) ∷ m) own (own_j, once, h) = elim (Bool-cases (j == k)) [
  | inl t ↦
      let e : j ≡ k = (eq_iff j k).0 t in rw t (own, subst (λ x. Map.get x m ≡ none) e once, h)
  | inr f ↦
      let f' : (k == j) ≡ false = ground (arith, eq_iff j k, eq_iff k j) in
      rw f (own_j, rw (get-insert k j v m, f') once, insert-IsRoster k v m own h)
]

pub remove-IsRoster :
    (k : String) (m : Map TeamMemberRecord) → IsRoster m → IsRoster (Map.remove k m)
unfolding Map.remove Map.get
remove-IsRoster k [] h = tt
remove-IsRoster k ((j, w) ∷ m) (own, once, h) = elim (Bool-cases (j == k)) [
  | inl t ↦ rw t (remove-IsRoster k m h)
  | inr f ↦
      let f' : (k == j) ≡ false = ground (arith, eq_iff j k, eq_iff k j) in
      rw f (own, rw (get-remove k j m, f') once, remove-IsRoster k m h)
]

some-or :
    (b : Bool) (v : TeamMemberRecord) (o : Option TeamMemberRecord)
    → is_some o ≡ true
    → is_some (if b then some v else o) ≡ true
some-or true v o h = refl
some-or false v o h = h

found-first :
    (k : String) (v x : TeamMemberRecord) (m : Map TeamMemberRecord)
    → v.agent_id ≡ k
    → v ≡ x
    → is_some (Map.get x.agent_id ((k, v) ∷ m)) ≡ true
unfolding Map.get
found-first k v x m own e =
    subst
      (λ (y : TeamMemberRecord).
        is_some (if k == y.agent_id then some v else Map.get y.agent_id m) ≡ true)
      e (rw (own, eq_refl k) refl)

found-later :
    (k : String) (v x y : TeamMemberRecord) (m : Map TeamMemberRecord)
    → is_some (Map.get y.agent_id m) ≡ true
    → y ≡ x
    → is_some (Map.get x.agent_id ((k, v) ∷ m)) ≡ true
unfolding Map.get
found-later k v x y m there e =
    some-or (k == x.agent_id) v _
      (subst (λ (z : TeamMemberRecord). is_some (Map.get z.agent_id m) ≡ true) e there)

-- The member who joined first is one of the members.
min_member-is_in :
    (m : Map TeamMemberRecord) (x : TeamMemberRecord)
    → IsRoster m
    → min_member (Map.values m) ≡ some x
    → is_some (Map.get x.agent_id m) ≡ true
unfolding min_member earlier Map.values
min_member-is_in [] x h e = cc
min_member-is_in ((k, v) ∷ m) x (own, once, h) e = elim (Option-cases (min_member (Map.values m))) [
  | inl alone ↦ found-first k v x m own (some-eq (rw alone at e))
  | inr (y, found) ↦ elim (Bool-cases (member_le v y)) [
    | inl t ↦ found-first k v x m own (some-eq (rw (found, t) at e))
    | inr f ↦ found-later k v x y m (min_member-is_in m y h found) (some-eq (rw (found, f) at e))
  ]
]

-- Two members or more: one is left without any one of them.
remove-nonempty :
    (k : String) (m : Map TeamMemberRecord)
    → IsRoster m
    → leb (length (Map.keys m)) 1 ≡ false
    → (x : TeamMemberRecord) × (min_member (Map.values (Map.remove k m)) ≡ some x)
unfolding Map.keys Map.remove Map.values Map.get min_member
remove-nonempty k [] h two = absurd (ground arith)
remove-nonempty k ((i, v) ∷ []) h two = absurd (ground arith)
remove-nonempty k ((i, v) ∷ (j, w) ∷ m) (own, once, h) two = elim (Bool-cases (i == k)) [
  | inr f ↦ rw f (_, refl)
  | inl t ↦
      let f : (j == k) ≡ false = ground (arith, eq_iff i k, eq_iff j k, eq_iff j i) in
      rw (t, f) (_, refl)
]

-- After a member has left a roster of two or more, the next lead is a member of what is left.
pub next_lead-is_in :
    (lead agent : String) (m : Map TeamMemberRecord)
    → IsRoster m
    → leb (length (Map.keys m)) 1 ≡ false
    → is_some (Map.get lead m) ≡ true
    → (next : String) × (next_lead lead agent (Map.remove agent m) ≡ some next)
      × (is_some (Map.get next (Map.remove agent m)) ≡ true)
unfolding next_lead agent_of
next_lead-is_in lead agent m h two leads = elim (Bool-cases (lead == agent)) [
  | inl t ↦
      let (x, first) = remove-nonempty agent m h two in
      rw (t, first) (x.agent_id, refl, min_member-is_in _ x (remove-IsRoster agent m h) first)
  | inr f ↦
      let f' : (agent == lead) ≡ false = ground (arith, eq_iff lead agent, eq_iff agent lead) in
      rw f (lead, refl, rw (get-remove agent lead m, f') leads)
]

pub insert-keeps :
    (k j : String) (v : TeamMemberRecord) (m : Map TeamMemberRecord)
    → is_some (Map.get j m) ≡ true
    → is_some (Map.get j (Map.insert k v m)) ≡ true
insert-keeps k j v m h = rw (get-insert k j v m) (some-or (k == j) v _ h)

add_members-kept :
    (team_id lead : String) (now : ℕ) (by : String) (rest : List String) (m : Map TeamMemberRecord)
    → IsRoster m
    → is_some (Map.get lead m) ≡ true
    → IsRoster (add_members team_id lead now by rest m)
      × (is_some (Map.get lead (add_members team_id lead now by rest m)) ≡ true)
unfolding add_members new_member
add_members-kept team_id lead now by [] m h leads = (h, leads)
add_members-kept team_id lead now by (a ∷ rest) m h leads = elim (Bool-cases (a == lead)) [
  | inl t ↦ rw t (add_members-kept team_id lead now by rest m h leads)
  | inr f ↦ rw f (
      add_members-kept team_id lead now by rest _
        (insert-IsRoster a (new_member team_id a now by) m refl h)
        (insert-keeps a lead (new_member team_id a now by) m leads))
]

-- The roster of a new team holds its lead.
pub first_members-IsRoster :
    (team_id lead : String) (now : ℕ) (by : String) (rest : List String)
    → IsRoster (first_members team_id lead now by rest)
      × (is_some (Map.get lead (first_members team_id lead now by rest)) ≡ true)
unfolding first_members new_member
first_members-IsRoster team_id lead now by rest =
    add_members-kept team_id lead now by rest _
      (insert-IsRoster lead (new_member team_id lead now by) [] refl tt)
      (rw (get-insert lead lead (new_member team_id lead now by) [], eq_refl lead) refl)
