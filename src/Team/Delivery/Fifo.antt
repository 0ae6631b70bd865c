-- ===== src/Team/Delivery/Fifo.antt =====
-- The search for a delivery that blocks another, and an attempt that is blocked.
use gooselake.Base.{
  suc, String, ◌==◌, eq_refl, true, false, ◌≡◌, ◌↔◌, refl, sym, ap, ◌∙◌, inl, inr, Option, none,
  some, List, [], ◌∷◌, ◌++◌, arith, Bool-cases, Option-cases, some-eq,
}
use mathlib.Core.Path.{subst}
use gooselake.Map
use gooselake.Map.Laws.{get-insert}
use gooselake.Records.{TeamDeliveryRecord, TeamMessageRecord, DeliveryStatus}
use gooselake.World.{World, TeamCommsState, Env, ◌>>=◌, pure}
use gooselake.World.Moves.{Moves, moves_rules}
use gooselake.Team.Apart.{Quiet, SameSessions, SameSessions-IsPreorder, SameSessions-Bears}
use gooselake.Team.Delivery.Calm.{
  status_of, inject_delivery-quiet, others_run-quiet, transition-quiet, transition-Moves,
}
use gooselake.Team.Helpers.{is_terminal_status, is_attemptable, same_status, is_valid_transition}
use gooselake.Team.Transition.{
  Trigger, first_blocker, blocker_at, find_recipient_queue_blocker, transition_delivery_status,
  moved,
}
use gooselake.Team.Delivery.{attempt_delivery, inject_delivery, unless_blocked}

-- The delivery of `id`, if it is there, has ended.
abbrev pub HasEnded : TeamCommsState → String → Type 0
HasEnded c id =
    (e : TeamDeliveryRecord) → Map.get id c.deliveries ≡ some e → is_terminal_status e.status ≡ true

abbrev pub AllEnded : TeamCommsState → List String → Type 0
AllEnded c [] = Unit
AllEnded c (id ∷ ids) = HasEnded c id × AllEnded c ids

-- `id` is not among `ids`.
abbrev pub IsNew : String → List String → Type 0
IsNew id [] = Unit
IsNew id (x ∷ xs) = ((x == id) ≡ false) × IsNew id xs

ended-blocker :
    (c : TeamCommsState) (id : String) (rest : Option String)
    → HasEnded c id
    → blocker_at (Map.get id c.deliveries) rest ≡ rest
unfolding blocker_at
ended-blocker c id rest h = elim (Option-cases (Map.get id c.deliveries)) [
  | inl e ↦ rw e
  | inr (d, e) ↦ rw (e, h d e)
]

blocker-none-ended :
    (c : TeamCommsState) (id : String) (rest : Option String) (o : Option TeamDeliveryRecord)
    → Map.get id c.deliveries ≡ o
    → blocker_at o rest ≡ none
    → HasEnded c id × (rest ≡ none)
unfolding blocker_at
blocker-none-ended c id rest none e h = (λ d p. cc, h)
blocker-none-ended c id rest (some d) e h = elim (Bool-cases (is_terminal_status d.status)) [
  | inl t ↦ (
    λ x p.
        subst (λ (y : TeamDeliveryRecord). is_terminal_status y.status ≡ true) (some-eq (sym e ∙ p))
          t,
    rw t at h,
  )
  | inr f ↦ absurd (ground arith)
]

-- Where the delivery is not earlier in the queue, the search for a blocker finds none exactly if
-- every delivery before it in the queue that is there has ended.
pub first_blocker-none_iff :
    (c : TeamCommsState) (id : String) (before after : List String)
    → IsNew id before
    → (first_blocker id c (before ++ id ∷ after) ≡ none) ↔ AllEnded c before
unfolding first_blocker
first_blocker-none_iff c id [] after new = (λ _. tt, λ _. rw (eq_refl id))
first_blocker-none_iff c id (x ∷ xs) after (miss, new) =
    let ih = first_blocker-none_iff c id xs after new in
    rw miss (
      λ h.
          let (ended, rest) = blocker-none-ended c x _ (Map.get x c.deliveries) refl h in
          (ended, ih.0 rest),
      λ (ended, rest). ended-blocker c x _ ended ∙ ih.1 rest,
    )

blocker-found :
    (c : TeamCommsState) (d : TeamDeliveryRecord) (before after : List String)
    → Map.get d.recipient_agent_id c.recipient_delivery_ids ≡ some (before ++ d.id ∷ after)
    → IsNew d.id before
    → ¬ AllEnded c before
    → (b : String) × (find_recipient_queue_blocker d c ≡ some b)
unfolding find_recipient_queue_blocker
blocker-found c d before after queued new waits =
    elim (Option-cases (first_blocker d.id c (before ++ d.id ∷ after))) [
      | inl free ↦ absurd (waits ((first_blocker-none_iff c d.id before after new).0 free))
      | inr (b, e) ↦ (b, rw queued e)
    ]

module _ (env : Env) (quiet : Quiet env) (trigger : Trigger) where
  deferral :
      (d : TeamDeliveryRecord)
      → Moves SameSessions
          (transition_delivery_status env d DeliveryStatus.deferred none none none trigger)
  deferral d =
      transition-Moves env SameSessions SameSessions-IsPreorder (SameSessions-Bears env quiet)
        (λ w c. record { sessions = refl; turns = refl; approvals = refl; waits = refl }) d _ _ _ _
        trigger

  is_valid_pending : is_valid_transition DeliveryStatus.pending DeliveryStatus.deferred ≡ true
  unfolding is_valid_transition
  is_valid_pending = refl

  unless_blocked-status :
      (w : World) (d : TeamDeliveryRecord) (m : TeamMessageRecord) (b : String) (s : DeliveryStatus)
      → d.status ≡ s
      → Map.get d.id w.comms.deliveries ≡ some d
      → is_attemptable s ≡ true
      → status_of d.id (unless_blocked env d m trigger (some b) w).1.comms
        ≡ some DeliveryStatus.deferred
  unfolding unless_blocked is_attemptable same_status pure status_of moved
  unless_blocked-status w d m b DeliveryStatus.pending e found ready =
      let test : same_status d.status DeliveryStatus.pending ≡ true = rw e refl in
      rw (test, unless_blocked)
        (rw
          (
            transition-quiet env quiet d DeliveryStatus.deferred none none none trigger w
                (rw e is_valid_pending) found,
            status_of,
          )
          (rw (get-insert d.id d.id _ w.comms.deliveries, eq_refl d.id)))
  unless_blocked-status w d m b DeliveryStatus.deferred e found ready =
      let test : same_status d.status DeliveryStatus.pending ≡ false = rw e refl in
      rw (test, unless_blocked) (rw (found, status_of) (ap some e))
  unless_blocked-status w d m b _ e found ready = cc

  unless_blocked-SameSessions :
      (w : World) (d : TeamDeliveryRecord) (m : TeamMessageRecord) (b : String)
      → SameSessions w (unless_blocked env d m trigger (some b) w).1
  unfolding unless_blocked
  unless_blocked-SameSessions w d m b = moves.at w
    where
      moves : Moves SameSessions (unless_blocked env d m trigger (some b))
      moves = search (moves_rules, SameSessions-IsPreorder, deferral)

  attempt-blocked :
      (w : World) (d : TeamDeliveryRecord) (m : TeamMessageRecord) (b : String)
      → Map.get d.id w.comms.deliveries ≡ some d
      → is_attemptable d.status ≡ true
      → find_recipient_queue_blocker d w.comms ≡ some b
      → attempt_delivery env d m trigger w
        ≡ unless_blocked env d m trigger (some b) (record w { tick = suc w.tick })
  unfolding attempt_delivery ◌>>=◌
  attempt-blocked w d m b found ready blocked = simp (ready, others_run-quiet env quiet, blocked)

-- Without other tasks, an attempt on a pending or deferred delivery that waits behind a delivery
-- to the same recipient that has not ended leaves sessions, turns, approvals and waiting tasks as
-- they are, and the delivery is deferred afterwards.
pub inject-blocked :
    (env : Env) (quiet : Quiet env) (trigger : Trigger) (w : World) (d : TeamDeliveryRecord)
    (m : TeamMessageRecord) (before after : List String)
    → Map.get d.id w.comms.deliveries ≡ some d
    → Map.get d.message_id w.comms.messages ≡ some m
    → is_attemptable d.status ≡ true
    → Map.get d.recipient_agent_id w.comms.recipient_delivery_ids ≡ some (before ++ d.id ∷ after)
    → IsNew d.id before
    → ¬ AllEnded w.comms before
    → SameSessions w (inject_delivery env d.id trigger w).1
      × (status_of d.id (inject_delivery env d.id trigger w).1.comms ≡ some DeliveryStatus.deferred)
inject-blocked env quiet trigger w d m before after hd hm ready queued new waits =
    let (b, blocked) = blocker-found w.comms d before after queued new waits in
    let w' : World = record w { tick = suc (suc (suc w.tick)) } in
    let w'' : World = record w { tick = suc (suc (suc (suc w.tick))) } in
    rw
      (
        inject_delivery-quiet env quiet d.id trigger w d m hd hm,
        attempt-blocked env quiet trigger w' d m b hd ready blocked,
      )
      (
        SameSessions-IsPreorder.trans_at w w'' _
            (record { sessions = refl; turns = refl; approvals = refl; waits = refl })
            (unless_blocked-SameSessions env quiet trigger w'' d m b),
        unless_blocked-status env quiet trigger w'' d m b d.status refl hd ready,
      )
