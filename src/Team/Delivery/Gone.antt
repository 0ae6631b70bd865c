-- ===== src/Team/Delivery/Gone.antt =====
-- A delivery whose recipient's session is missing, closed or failed.
use gooselake.Base.{
  suc, String, ◌<>◌, true, false, ◌≡◌, ◌⊎◌, inl, inr, Option, none, some, arith, unwrap_or,
}
use gooselake.Error.{ok, err, invalid_state}
use gooselake.Map
use gooselake.Records.{
  SessionRecord, TeamDeliveryRecord, TeamMessageRecord, DeliveryStatus, is_unavailable,
  delivery_status_text,
}
use gooselake.World.{World, Env, ◌>>=◌, attempt, lift}
use gooselake.Session.{get_session}
use gooselake.Team.Apart.{Quiet}
use gooselake.Team.Helpers.{is_attemptable, is_valid_transition, same_status, normalize_policy}
use gooselake.Team.Transition.{Trigger, transition_delivery_status, find_recipient_queue_blocker}
use gooselake.Team.Delivery.{with_recipient, unless_blocked, attempt_delivery, inject_delivery}
use gooselake.Team.Delivery.Calm.{others_run-quiet, inject_delivery-quiet}

-- There is no session of this id that can take a turn.
abbrev pub IsGone : World → String → Type 0
IsGone w id =
    (Map.get id w.sessions ≡ none)
    ⊎ ((s : SessionRecord) × (Map.get id w.sessions ≡ some s) × (is_unavailable s.status ≡ true))

attemptable-not_failed :
    (s : DeliveryStatus)
    → is_attemptable s ≡ true
    → (is_valid_transition s DeliveryStatus.failed ≡ false)
      × (same_status s DeliveryStatus.failed ≡ false)
unfolding is_attemptable is_valid_transition same_status
attemptable-not_failed s h = ground arith

module _ (env : Env) (quiet : Quiet env) (trigger : Trigger) where
  failing-refused :
      (w : World) (d : TeamDeliveryRecord) (code message : Option String)
      → is_attemptable d.status ≡ true
      → transition_delivery_status env d DeliveryStatus.failed none code message trigger w ≡ (
        err (
            invalid_state (
              "invalid delivery transition "
              <> (delivery_status_text d.status
                  <> (" -> " <> delivery_status_text DeliveryStatus.failed)))),
        w,
      )
  unfolding transition_delivery_status ◌>>=◌
  failing-refused w d code message ready =
      let (invalid, other) = attemptable-not_failed d.status ready in simp (invalid, other)

  with_recipient-gone :
      (w : World) (d : TeamDeliveryRecord) (m : TeamMessageRecord) (policy : String)
      → is_attemptable d.status ≡ true
      → IsGone w d.recipient_agent_id
      → (attempt (get_session env d.recipient_agent_id) >>= (with_recipient env policy d m trigger))
          w
        ≡ (
          err (
              invalid_state (
                "invalid delivery transition "
                <> (delivery_status_text d.status
                    <> (" -> " <> delivery_status_text DeliveryStatus.failed)))),
          record w { tick = suc w.tick },
        )
  unfolding get_session ◌>>=◌ with_recipient attempt
  with_recipient-gone w d m policy ready (inl gone) =
      simp (others_run-quiet env quiet, gone) (failing-refused _ d _ _ ready)
  with_recipient-gone w d m policy ready (inr (s, found, closed)) =
      simp (others_run-quiet env quiet, found, closed) (failing-refused _ d _ _ ready)

  unless_blocked-gone :
      (w : World) (d : TeamDeliveryRecord) (m : TeamMessageRecord) (policy : String)
      → is_attemptable d.status ≡ true
      → normalize_policy (unwrap_or d.effective_policy m.policy) ≡ ok policy
      → IsGone w d.recipient_agent_id
      → unless_blocked env d m trigger none w ≡ (
        err (
            invalid_state (
              "invalid delivery transition "
              <> (delivery_status_text d.status
                  <> (" -> " <> delivery_status_text DeliveryStatus.failed)))),
        record w { tick = suc w.tick },
      )
  unfolding unless_blocked ◌>>=◌ lift
  unless_blocked-gone w d m policy ready known gone =
      rw known (with_recipient-gone w d m policy ready gone)

  attempt-gone :
      (w : World) (d : TeamDeliveryRecord) (m : TeamMessageRecord) (policy : String)
      → is_attemptable d.status ≡ true
      → find_recipient_queue_blocker d w.comms ≡ none
      → normalize_policy (unwrap_or d.effective_policy m.policy) ≡ ok policy
      → IsGone w d.recipient_agent_id
      → attempt_delivery env d m trigger w ≡ (
        err (
            invalid_state (
              "invalid delivery transition "
              <> (delivery_status_text d.status
                  <> (" -> " <> delivery_status_text DeliveryStatus.failed)))),
        record w { tick = suc (suc w.tick) },
      )
  unfolding attempt_delivery ◌>>=◌
  attempt-gone w d m policy ready free known gone =
      simp (ready, others_run-quiet env quiet, free)
        (unless_blocked-gone (record w { tick = suc w.tick }) d m policy ready known gone)

-- Without other tasks, an attempt on a pending or deferred delivery that nothing blocks, with a
-- known policy, to a session that is missing, closed or failed ends in the error that the move to
-- failed is invalid, and changes nothing but the count of questions to the environment.
pub inject-gone :
    (env : Env) (quiet : Quiet env) (trigger : Trigger) (w : World) (d : TeamDeliveryRecord)
    (m : TeamMessageRecord) (policy : String)
    → Map.get d.id w.comms.deliveries ≡ some d
    → Map.get d.message_id w.comms.messages ≡ some m
    → is_attemptable d.status ≡ true
    → find_recipient_queue_blocker d w.comms ≡ none
    → normalize_policy (unwrap_or d.effective_policy m.policy) ≡ ok policy
    → IsGone w d.recipient_agent_id
    → inject_delivery env d.id trigger w ≡ (
      err (
          invalid_state (
            "invalid delivery transition "
            <> (delivery_status_text d.status
                <> (" -> " <> delivery_status_text DeliveryStatus.failed)))),
      record w { tick = suc (suc (suc (suc (suc w.tick)))) },
    )
inject-gone env quiet trigger w d m policy hd hm ready free known gone =
    rw (inject_delivery-quiet env quiet d.id trigger w d m hd hm) (
      attempt-gone env quiet trigger (record w { tick = suc (suc (suc w.tick)) }) d m policy ready
        free known gone)
