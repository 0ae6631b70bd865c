-- ===== src/Team/Control/Cancel.antt =====
-- What the cancellation of a message does to its deliveries.
use gooselake.Base.{
  ℕ, suc, String, ◌<>◌, ◌==◌, eq_iff, Bool, true, false, ◌≡◌, refl, sym, ap, ◌∙◌, ◌⊎◌, inl, inr,
  List, [], ◌∷◌, Option, none, some, arith, if◌then◌else◌, unwrap_or, Option-cases, Bool-cases,
  some-eq,
}
use mathlib.Core.Path.{subst}
use gooselake.Error.{RuntimeError, ok, err, invalid_state, not_found}
use gooselake.Map
use gooselake.Map.Laws.{get-insert}
use gooselake.Records.{DeliveryStatus, TeamDeliveryRecord, delivery_status_text}
use gooselake.World.{World, TeamCommsState, Env, ◌>>=◌, gets, pure, raise, ok_or, modify, now_ms}
use gooselake.Team.{insert_delivery}
use gooselake.Team.Helpers.{is_attemptable}
use gooselake.Team.Delivery.Calm.{status_of}
use gooselake.Team.Control.{
  cancel_stored, cancel_each, cancel_one, cancel_unless_refused, first_refusal, refusal,
  cancelled_delivery,
}

unfoldable pub is_in : String → List String → Bool
is_in j [] = false
is_in j (id ∷ ids) = let rest = is_in j ids in if id == j then true else rest

-- The status `cancelled` if there is a delivery.
unfoldable pub cancelled_if_there : Option DeliveryStatus → Option DeliveryStatus
cancelled_if_there none = none
cancelled_if_there (some s) = some DeliveryStatus.cancelled

-- The deliveries of `ids` that are there have not left the queue.
abbrev pub AllWaiting : TeamCommsState → List String → Type 0
AllWaiting c [] = Unit
AllWaiting c (id ∷ ids) =
    ((d : TeamDeliveryRecord) → Map.get id c.deliveries ≡ some d → is_attemptable d.status ≡ true)
    × AllWaiting c ids

refusal-none :
    (o rest : Option TeamDeliveryRecord)
    → refusal o rest ≡ none
    → ((d : TeamDeliveryRecord) → o ≡ some d → is_attemptable d.status ≡ true) × (rest ≡ none)
unfolding refusal
refusal-none none rest h = (λ d p. cc, h)
refusal-none (some d) rest h = elim (Bool-cases (is_attemptable d.status)) [
  | inl t ↦ (
    λ x p. subst (λ (y : TeamDeliveryRecord). is_attemptable y.status ≡ true) (some-eq p) t,
    rw t at h,
  )
  | inr f ↦ absurd (ground arith)
]

first_refusal-none :
    (c : TeamCommsState) (ids : List String) → first_refusal c ids ≡ none → AllWaiting c ids
unfolding first_refusal
first_refusal-none c [] h = tt
first_refusal-none c (id ∷ ids) h =
    let (waiting, rest) = refusal-none (Map.get id c.deliveries) (first_refusal c ids) h in
    (waiting, first_refusal-none c ids rest)

status-missing :
    (c : TeamCommsState) (id j : String)
    → Map.get id c.deliveries ≡ none
    → (id == j) ≡ true
    → status_of j c ≡ none
unfolding status_of
status-missing c id j missing same =
    let e : id ≡ j = (eq_iff id j).0 same in rw (sym e, missing) refl

status-found :
    (c : TeamCommsState) (id j : String) (d : TeamDeliveryRecord)
    → Map.get id c.deliveries ≡ some d
    → (id == j) ≡ true
    → status_of j c ≡ some d.status
unfolding status_of
status-found c id j d found same = let e : id ≡ j = (eq_iff id j).0 same in rw (sym e, found) refl

insert-changed :
    (w : World) (id : String) (d : TeamDeliveryRecord) (now : ℕ) (j : String)
    → (id == j) ≡ true
    → status_of j (insert_delivery id (cancelled_delivery d now) w.comms)
      ≡ some DeliveryStatus.cancelled
unfolding insert_delivery cancelled_delivery status_of
insert-changed w id d now j t =
    rw (get-insert id j (cancelled_delivery d now) w.comms.deliveries, t) refl

insert-kept :
    (w : World) (id : String) (d : TeamDeliveryRecord) (now : ℕ) (j : String)
    → (id == j) ≡ false
    → status_of j (insert_delivery id (cancelled_delivery d now) w.comms) ≡ status_of j w.comms
unfolding insert_delivery status_of
insert-kept w id d now j f =
    rw (get-insert id j (cancelled_delivery d now) w.comms.deliveries, f) refl

status-cancelled :
    (w : World) (id : String) (d : TeamDeliveryRecord) (now : ℕ) (j : String)
    → Map.get id w.comms.deliveries ≡ some d
    → status_of j (insert_delivery id (cancelled_delivery d now) w.comms)
      ≡ (if id == j then cancelled_if_there (status_of j w.comms) else status_of j w.comms)
unfolding cancelled_if_there
status-cancelled w id d now j found = elim (Bool-cases (id == j)) [
  | inl t ↦ rw (t, status-found w.comms id j d found t) (insert-changed w id d now j t)
  | inr f ↦ rw f (insert-kept w id d now j f)
]

again :
    (s : Option DeliveryStatus) → cancelled_if_there (cancelled_if_there s) ≡ cancelled_if_there s
unfolding cancelled_if_there
again none = refl
again (some s) = refl

marked :
    (b rest : Bool) (s t : Option DeliveryStatus)
    → t ≡ (if b then cancelled_if_there s else s)
    → (if rest then cancelled_if_there t else t)
      ≡ (if if b then true else rest then cancelled_if_there s else s)
marked true true s t e = rw e (again s)
marked true false s t e = e
marked false true s t e = ap cancelled_if_there e
marked false false s t e = e

unmarked :
    (b : Bool) (s : Option DeliveryStatus)
    → (b ≡ true → s ≡ none)
    → s ≡ (if b then cancelled_if_there s else s)
unfolding cancelled_if_there
unmarked true s h = rw (h refl) refl
unmarked false s h = refl

module _ (env : Env) where
  -- The result and the world of a list of cancellations.
  cancelling :
      (ids : List String) (w : World)
      → (ds : List TeamDeliveryRecord) × (w' : World) × (cancel_each env ids w ≡ (ok ds, w'))
        × ((j : String)
            → status_of j w'.comms ≡ (
                if is_in j ids
                then cancelled_if_there (status_of j w.comms)
                else status_of j w.comms))
  unfolding cancel_each cancel_one ◌>>=◌ gets pure modify now_ms is_in
  cancelling [] w = ([], w, refl, λ j. refl)
  cancelling (id ∷ ids) w = elim (Option-cases (Map.get id w.comms.deliveries)) [
    | inl e ↦
        let (ds, w', run, after) = cancelling ids w in
        (
          ds,
          w',
          simp (e, run),
          λ j.
              after j
              ∙ marked (id == j) (is_in j ids) _ _
                  (unmarked (id == j) _ (status-missing w.comms id j e)),
        )
    | inr (d, e) ↦
        let w1 : World = record w {
          tick = suc w.tick;
          comms = insert_delivery id (cancelled_delivery d (env.clock w.tick)) w.comms;
        } in
        let (ds, w', run, after) = cancelling ids w1 in
        (
          cancelled_delivery d (env.clock w.tick) ∷ ds,
          w',
          simp (e, run),
          λ j.
              after j
              ∙ marked (id == j) (is_in j ids) _ _ (status-cancelled w id d (env.clock w.tick) j e),
        )
  ]

-- The locked section of cancel_message is refused without any change, or succeeds; then every
-- delivery of the message that is there was pending or deferred and is cancelled, and every other
-- delivery has the status it had.
pub cancel_stored-atomic :
    (env : Env) (team_id message_id : String) (w : World)
    → let ids = unwrap_or (Map.get message_id w.comms.message_delivery_ids) [] in
      ((e : RuntimeError) × (cancel_stored env team_id message_id w ≡ (err e, w)))
      ⊎ ((ds : List TeamDeliveryRecord) × (w' : World) × (cancel_stored env team_id message_id w
            ≡ (ok ds, w'))
          × AllWaiting w.comms ids
          × ((j : String)
              → status_of j w'.comms ≡ (
                  if is_in j ids
                  then cancelled_if_there (status_of j w.comms)
                  else status_of j w.comms)))
unfolding cancel_stored cancel_unless_refused ◌>>=◌ gets raise ok_or
cancel_stored-atomic env team_id message_id w =
    elim (Option-cases (Map.get message_id w.comms.messages)) [
      | inl e ↦ inl (not_found ("message " <> message_id), simp e)
      | inr (m, e) ↦ elim (Bool-cases (m.team_id == team_id)) [
        | inr f ↦ inl (
          invalid_state ("message " <> (message_id <> (" does not belong to team " <> team_id))),
          simp (e, f),
        )
        | inl t ↦
            let ids = unwrap_or (Map.get message_id w.comms.message_delivery_ids) [] in
            elim (Option-cases (first_refusal w.comms ids)) [
              | inr (d, r) ↦ inl (
                invalid_state (
                    "message "
                    <> (message_id
                        <> (" cannot be cancelled because delivery "
                            <> (d.id <> (" is in " <> delivery_status_text d.status))))),
                simp (e, t, r),
              )
              | inl r ↦
                  let (ds, w', run, after) = cancelling env ids w in
                  inr (ds, w', simp (e, t, r, run), first_refusal-none w.comms ids r, after)
            ]
      ]
    ]
