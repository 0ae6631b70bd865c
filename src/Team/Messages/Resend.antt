-- ===== src/Team/Messages/Resend.antt =====
-- A message that is sent again with its idempotency key.
use gooselake.Base.{
  ℕ, suc, String, ◌<>◌, eq_refl, ◌≡◌, refl, sym, ap, ◌∙◌, ◌⊎◌, inl, inr, List, [], ◌∷◌, Option,
  none, some, unwrap_or, Option-cases, some-eq,
}
use gooselake.Error.{RuntimeError, Result, Result-cases, ok, err, not_found}
use gooselake.Map
use gooselake.Map.{Map}
use gooselake.Map.Laws.{get-insert}
use gooselake.Records.{TeamMemberRecord, TeamDeliveryRecord, TeamMessageRecord}
use gooselake.World.{World, TeamCommsState, Env, ◌>>=◌, gets, pure, lift, ok_or, modify, now_ms}
use gooselake.Team.{set_comms, allocate, allocate_message_id, allocate_delivery_id}
use gooselake.Team.Helpers.{ensure_member}
use gooselake.Team.Drafts.{
  Draft, Header, Recipient, TeamMessageAck, created, existing, find_existing, new_message,
  enter_message, enter_key, enter_deliveries, enter_delivery, existing_ack, ack_at, index_key,
  index_message, deliveries_at, new_delivery,
}
use gooselake.Team.Messages.{
  find_or_enter, unless_existing, enter_new, make_deliveries, ensure_members,
}

-- What the deliveries of a new message leave as it was.
record Kept (c c' : TeamCommsState) : Type 0 where
  teams : c'.teams ≡ c.teams
  members : c'.members_by_team ≡ c.members_by_team
  messages : c'.messages ≡ c.messages
  keys : c'.idempotency_index ≡ c.idempotency_index

enter_deliveries-Kept :
    (ds : List TeamDeliveryRecord) (c : TeamCommsState) → Kept c (enter_deliveries ds c)
unfolding enter_deliveries enter_delivery
enter_deliveries-Kept [] c = record { teams = refl; members = refl; messages = refl; keys = refl }
enter_deliveries-Kept (d ∷ ds) c =
    let k = enter_deliveries-Kept ds (enter_delivery d c) in
    record { teams = k.teams; members = k.members; messages = k.messages; keys = k.keys }

index_message-get :
    (h : Header) (team_id id key : String) (k : Option String) (m : Map String)
    → k ≡ some key
    → Map.get (index_key h team_id key) (index_message h team_id id k m) ≡ some id
unfolding index_message
index_message-get h team_id id key none m e = cc
index_message-get h team_id id key (some k) m e =
    rw
      (
        some-eq e,
        get-insert (index_key h team_id key) (index_key h team_id key) id m,
        eq_refl (index_key h team_id key),
      )
      refl

existing_ack-existing :
    (c : TeamCommsState) (id : String) (o : Option TeamMessageRecord) (ack : TeamMessageAck)
    → existing_ack c id o ≡ some ack
    → ack.disposition ≡ existing
unfolding existing_ack
existing_ack-existing c id none ack e = cc
existing_ack-existing c id (some m) ack e =
    sym (ap (λ (x : TeamMessageAck). x.disposition) (some-eq e))

ack_at-existing :
    (c : TeamCommsState) (id : Option String) (ack : TeamMessageAck)
    → ack_at c id ≡ some ack
    → ack.disposition ≡ existing
unfolding ack_at
ack_at-existing c none ack e = cc
ack_at-existing c (some id) ack e = existing_ack-existing c id _ ack e

find_existing-existing :
    (h : Header) (team_id : String) (key : Option String) (c : TeamCommsState)
    (ack : TeamMessageAck)
    → find_existing h team_id key c ≡ some ack
    → ack.disposition ≡ existing
unfolding find_existing
find_existing-existing h team_id none c ack e = cc
find_existing-existing h team_id (some key) c ack e = ack_at-existing c _ ack e

module _ (env : Env) where
  making :
      (m : TeamMessageRecord) (now : ℕ) (rs : List Recipient) (w : World)
      → (ds : List TeamDeliveryRecord) × (w' : World) × (make_deliveries env m now rs w
          ≡ (ok ds, w'))
        × (w'.comms ≡ w.comms)
  unfolding make_deliveries ◌>>=◌ pure allocate_delivery_id
  making m now [] w = ([], w, refl, refl)
  making m now (r ∷ rs) w =
      let (id, next) = allocate "dlv_" w.comms.deliveries w.next_delivery_id in
      let (ds, w', run, same) = making m now rs (record w { next_delivery_id = next }) in
      (new_delivery m r id now ∷ ds, w', rw run refl, same)

  checking :
      (members : Option (Map TeamMemberRecord)) (team_id : String) (rs : List Recipient)
      → (r : Result (Unit {0})) × ((w : World) → ensure_members env members team_id rs w ≡ (r, w))
  unfolding ensure_members ◌>>=◌ pure lift
  checking members team_id [] = (ok tt, λ w. refl)
  checking members team_id ((id, p) ∷ rs) = elim (Result-cases (ensure_member members id team_id)) [
    | inl (u, h) ↦ let (r, run) = checking members team_id rs in (r, λ w. rw (h, run w) refl)
    | inr (e, h) ↦ (err e, λ w. rw h refl)
  ]

  entering :
      (draft : Draft) (h : Header) (team_id key : String) (rs : List Recipient) (w : World)
      → h.key ≡ some key
      → (ack : TeamMessageAck) × (w' : World) × (enter_new env draft h team_id rs w ≡ (ok ack, w'))
        × (w'.comms.teams ≡ w.comms.teams)
        × (w'.comms.members_by_team ≡ w.comms.members_by_team)
        × (Map.get (index_key h draft.team_id key) w'.comms.idempotency_index ≡ some ack.message.id)
        × (Map.get ack.message.id w'.comms.messages ≡ some ack.message)
  unfolding enter_new ◌>>=◌ pure now_ms modify allocate_message_id enter_key enter_message
      new_message index_message
  entering draft h team_id key rs w keyed =
      let (id, next) = allocate "msg_" w.comms.messages w.next_message_id in
      let now = env.clock w.tick in
      let m = new_message draft h rs team_id id now in
      let (ds, w', run, same) =
        making m now rs (record w { tick = suc w.tick; next_message_id = next }) in
      let c = enter_key h draft.team_id id (enter_message m w'.comms) in
      let k = enter_deliveries-Kept ds c in
      (
        record { message = m; deliveries = ds; disposition = created },
        set_comms (enter_deliveries ds c) w',
        rw run refl,
        k.teams ∙ ap (λ (x : TeamCommsState). x.teams) same,
        k.members ∙ ap (λ (x : TeamCommsState). x.members_by_team) same,
        ap (Map.get (index_key h draft.team_id key)) k.keys
            ∙ index_message-get h draft.team_id id key h.key w'.comms.idempotency_index keyed,
        rw (k.messages, get-insert id id m w'.comms.messages, eq_refl id) refl,
      )

  -- The second time, with the message of the first in the index.
  finding :
      (draft : Draft) (h : Header) (key : String) (m : TeamMessageRecord) (c : TeamCommsState)
      → Map.get (index_key h draft.team_id key) c.idempotency_index ≡ some m.id
      → Map.get m.id c.messages ≡ some m
      → (ack : TeamMessageAck) × (find_existing h draft.team_id (some key) c ≡ some ack)
        × (ack.message ≡ m)
        × (ack.disposition ≡ existing)
  unfolding find_existing ack_at existing_ack
  finding draft h key m c indexed stored = (
    record {
      message = m;
      deliveries = deliveries_at c (unwrap_or (Map.get m.id c.message_delivery_ids) []);
      disposition = existing;
    },
    rw (indexed, stored) refl,
    refl,
    refl,
  )

  -- The locked section of create_message_and_deliveries, for a draft with an idempotency key, is
  -- refused without a change or answered; once answered, the same draft again is answered with
  -- the same message, marked existing, and changes nothing.
  pub find_or_enter-again :
      (draft : Draft) (h : Header) (key : String) (rs : List Recipient) (w : World)
      → h.key ≡ some key
      → ((e : RuntimeError) × (find_or_enter env draft h rs w ≡ (err e, w)))
        ⊎ ((ack ack' : TeamMessageAck) × (w' : World) × (find_or_enter env draft h rs w
              ≡ (ok ack, w'))
            × (find_or_enter env draft h rs w' ≡ (ok ack', w'))
            × (ack'.message ≡ ack.message)
            × (ack'.disposition ≡ existing))
  unfolding find_or_enter unless_existing ◌>>=◌ gets pure lift ok_or
  find_or_enter-again draft h key rs w keyed =
      elim (Option-cases (Map.get draft.team_id w.comms.teams)) [
        | inl e ↦ inl (not_found ("team " <> draft.team_id), simp e)
        | inr (team, e) ↦
            let members = Map.get draft.team_id w.comms.members_by_team in
            let (r, check) = checking members draft.team_id rs in
            elim (Result-cases (ensure_member members h.sender draft.team_id)) [
              | inr (x, s) ↦ inl (x, simp (e, s))
              | inl (u, s) ↦ elim (Result-cases r) [
                | inr (x, bad) ↦ inl (x, simp (e, s, check w, bad))
                | inl (v, good) ↦
                    elim (Option-cases (find_existing h draft.team_id h.key w.comms)) [
                      | inr (ack, old) ↦ inr (
                        ack,
                        ack,
                        w,
                        simp (e, s, check w, good, old),
                        simp (e, s, check w, good, old),
                        refl,
                        find_existing-existing h draft.team_id h.key w.comms ack old,
                      )
                      | inl new ↦
                          let (ack, w', run, teams, ms, indexed, stored) =
                            entering draft h team.id key rs w keyed in
                          let (ack', old, same, is) =
                            finding draft h key ack.message w'.comms indexed stored in
                          inr (
                            ack,
                            ack',
                            w',
                            simp (e, s, check w, good, new, run),
                            simp (teams, ms, e, s, check w', good, keyed, old),
                            same,
                            is,
                          )
                    ]
              ]
            ]
      ]
