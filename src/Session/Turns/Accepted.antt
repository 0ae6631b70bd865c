-- ===== src/Session/Turns/Accepted.antt =====
-- A turn that the adapter accepts, from the first look-up to the answer.
use gooselake.Base.{ℕ, String, eq_refl, Bool, true, false, ◌≡◌, refl, Option, none, some, is_some}
use gooselake.Error.{ok}
use gooselake.Map
use gooselake.Records.{SessionRecord, TurnRecord, is_unavailable}
use gooselake.Provider.{ProviderKind, ProviderSendTurnRequest, kind_from_str}
use gooselake.World.{World, Env, ◌>>=◌, attempt, ask, lift, pure, ok_or}
use gooselake.World.Succeeds.{
  Succeeds, Succeeds-bind, Succeeds-pure, now_ms-Succeeds, succeeds_rules,
}
use gooselake.Session.{allocate_id, persist_unlocked, put_turn, provider_kind_of, require_provider}
use gooselake.Session.Lifecycle.Closing.{
  take_id-Succeeds, session_event-Succeeds, store_session-Succeeds, put_session-Succeeds,
  get_session-quiet,
}
use gooselake.Session.Started.{SendTurnInput, SendTurnAccepted, spawn_wait_for_turn}
use gooselake.Session.Turns.{
  send_turn, start_turn, start_with, finish_send, record_accepted_send, ask_or_start, start_running,
  request_approval, allocate_approval, dispatch_send_turn_with_resume_fallback, after_first_send,
}
use gooselake.Session.Turns.Owner.{IsOwner, send_turn-IsOwner}
use gooselake.Team.Apart.{Quiet}

-- Every adapter is there and accepts every turn.
abbrev pub IsObliging : Env → Type 0
IsObliging env =
    ((k : ProviderKind) → env.registered k ≡ true)
    × ((n : ℕ) (k : ProviderKind) (r : ProviderSendTurnRequest)
        → env.send_turn n k r
          ≡ ok (record { runtime_session_id = r.runtime_session_id; turn_id = r.turn_id }))

module _ (env : Env) (healthy : (n : ℕ) → env.store_fault n ≡ none) where
  allocate_id-Succeeds : (prefix suffix : String) → Succeeds (allocate_id env prefix suffix)
  unfolding allocate_id
  allocate_id-Succeeds prefix suffix =
      Succeeds-bind _ _ (take_id-Succeeds env healthy)
        (λ seq. Succeeds-bind _ _ (now_ms-Succeeds env) (λ now. Succeeds-pure _))

  spawn-Succeeds : (k : ProviderKind) (s t : String) → Succeeds (spawn_wait_for_turn k s t)
  unfolding spawn_wait_for_turn
  spawn-Succeeds k s t = search succeeds_rules

  put_turn-Succeeds : (id : String) (t : TurnRecord) → Succeeds (put_turn env id t)
  unfolding put_turn
  put_turn-Succeeds id t = search succeeds_rules depth 9

  ask_or_start-Succeeds :
      (k : ProviderKind) (s t : String) (now : ℕ) (approval : Option String)
      → Succeeds (ask_or_start env k s t now approval)
  unfolding ask_or_start start_running request_approval persist_unlocked
  ask_or_start-Succeeds k s t now none =
      search (succeeds_rules, healthy, session_event-Succeeds, spawn-Succeeds) depth 9
  ask_or_start-Succeeds k s t now (some id) =
      search (succeeds_rules, healthy, session_event-Succeeds) depth 20

  accepted-Succeeds :
      (k : ProviderKind) (s t : String) (x : SessionRecord) (input : SendTurnInput) (now : ℕ)
      (approval : Option String)
      → Succeeds (record_accepted_send env k s t x input now approval)
  unfolding record_accepted_send persist_unlocked
  accepted-Succeeds k s t x input now approval =
      search
        (
          succeeds_rules, healthy, store_session-Succeeds, put_session-Succeeds, put_turn-Succeeds,
          ask_or_start-Succeeds,
        )
        depth 20

  allocate_approval-Succeeds : (k : ProviderKind) (b : Bool) → Succeeds (allocate_approval env k b)
  unfolding allocate_approval
  allocate_approval-Succeeds k true = search (succeeds_rules, healthy, allocate_id-Succeeds) depth 5
  allocate_approval-Succeeds k false = search succeeds_rules

  module _ (obliging : IsObliging env) where
    answered-Succeeds :
        (k : ProviderKind) (r : ProviderSendTurnRequest) (x : SessionRecord) (input : SendTurnInput)
        (now : ℕ) (approval : Option String)
        → Succeeds (
            attempt (dispatch_send_turn_with_resume_fallback env k r x)
            >>= (finish_send env k r.runtime_session_id r.turn_id x input now approval))
    unfolding ◌>>=◌ attempt dispatch_send_turn_with_resume_fallback require_provider ask
        after_first_send lift finish_send pure
    answered-Succeeds k r x input now approval = record {
      at = λ w.
          rw (obliging.0 k, obliging.1 w.tick k r)
            (rw (eq_refl r.runtime_session_id, eq_refl r.turn_id)
              ((accepted-Succeeds k r.runtime_session_id r.turn_id x input now approval).at _));
    }

    start_with-Succeeds :
        (k : ProviderKind) (id : String) (x : SessionRecord) (input : SendTurnInput)
        → Succeeds (start_with env k id x input)
    unfolding start_with
    start_with-Succeeds k id x input = Succeeds-bind _ _ (allocate_id-Succeeds _ _) (λ turn_id.
        Succeeds-bind _ _ (search succeeds_rules) (λ now.
          Succeeds-bind _ _ (allocate_approval-Succeeds k _)
            (λ approval. answered-Succeeds k _ x input now approval)))

-- While no other task runs, the store does not fail and the adapters accept every turn: a turn that
-- is sent to a session that is neither closed nor failed, works on nothing, and has a known provider
-- is accepted, and the session works on it.
pub send_turn-succeeds :
    (env : Env) (quiet : Quiet env) (healthy : (n : ℕ) → env.store_fault n ≡ none)
    (obliging : IsObliging env) (id : String) (input : SendTurnInput) (s : SessionRecord)
    (k : ProviderKind) (w : World)
    → Map.get id w.sessions ≡ some s
    → is_unavailable s.status ≡ false
    → s.active_turn_id ≡ none
    → kind_from_str s.provider ≡ some k
    → (ack : SendTurnAccepted) × ((send_turn env id input w).0 ≡ ok ack)
      × IsOwner id ack (send_turn env id input w).1
unfolding send_turn start_turn provider_kind_of ok_or ◌>>=◌
send_turn-succeeds env quiet healthy obliging id input s k w found ready idle known =
    (accepted.0, accepted.1, (send_turn-IsOwner env quiet id input w accepted.0 accepted.1))
  where
    accepted : (ack : SendTurnAccepted) × ((send_turn env id input w).0 ≡ ok ack)
    accepted =
        let free : is_some s.active_turn_id ≡ false = rw idle refl in
        rw (get_session-quiet env quiet id s w found) (
          rw (ready, free)
            (rw known ((start_with-Succeeds env healthy obliging k id s input).at _)))
