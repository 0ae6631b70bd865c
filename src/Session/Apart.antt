-- ===== src/Session/Apart.antt =====
-- What the session manager does to the state of the team service.
use gooselake.Base.{ℕ, suc, String, Bool, true, false, Option, none, some, ap, ◌≡◌, refl}
use gooselake.Error.{RuntimeError, Result, ok, err, not_found}
use gooselake.Records.{SessionRecord, TurnRecord}
use gooselake.Provider.{ProviderKind, ProviderSendTurnRequest, ProviderTurnAck}
use gooselake.Store.{Store, Payload, NewRuntimeEvent}
use gooselake.World.{
  World, TeamCommsState, Env, M, modify, ◌>>=◌, others_run, now_ms, ask, persist, append_to_store,
}
use gooselake.World.Frame.{persist-frame, append_to_store-frame}
use gooselake.World.Moves.{IsPreorder, Moves, Moves-bind, Moves-lift, Moves-pure, moves_rules}
use gooselake.Session.{
  allocate_id, append_event, session_event, get_session, provider_kind_of, require_provider,
  store_session, persist_unlocked, put_session, put_turn,
}
use gooselake.Session.Started.{SendTurnInput, spawn_wait_for_turn}
use gooselake.Session.Turns.{
  start_with, after_first_send, request_approval, ask_or_start, allocate_approval, finish_send,
  start_turn, dispatch_send_turn_with_resume_fallback, record_failed_send, record_accepted_send,
  send_turn, interrupt_turn,
}

-- A relation between the states of the team service that is reflexive and transitive.
pub record CommsOrder (Q : TeamCommsState → TeamCommsState → Type 0) : Type 0 where
  pub refl_at : (c : TeamCommsState) → Q c c
  pub trans_at : (a b c : TeamCommsState) → Q a b → Q b c → Q a c

abbrev pub OnComms : (TeamCommsState → TeamCommsState → Type 0) → World → World → Type 0
OnComms Q w v = Q w.comms v.comms

pub OnComms-IsPreorder :
    {Q : TeamCommsState → TeamCommsState → Type 0} → CommsOrder Q → IsPreorder (OnComms Q)
OnComms-IsPreorder q = record {
  refl_at = λ w. q.refl_at w.comms;
  trans_at = λ u v w. q.trans_at u.comms v.comms w.comms;
}

-- What a theorem assumes of the other tasks.
abbrev pub Rely : Env → (TeamCommsState → TeamCommsState → Type 0) → Type 0
Rely env Q = (n : ℕ) (w : World) → Q w.comms (env.others n (record w { tick = suc w.tick })).comms

module _ (Q : TeamCommsState → TeamCommsState → Type 0) (q : CommsOrder Q) where
  order : IsPreorder (OnComms Q)
  order = OnComms-IsPreorder q

  -- A step that does not write the team state.
  Moves-quiet :
      {A : Type 0} (m : M A) → ((w : World) → Q w.comms (m w).1.comms) → Moves (OnComms Q) m
  Moves-quiet m h = record { at = h }

  module _ (env : Env) (rely : Rely env Q) where
    pub others_run-Moves : Moves (OnComms Q) (others_run env)
    unfolding others_run
    others_run-Moves = record { at = λ w. rely w.tick w }

    ask-Moves : {A : Type 0} (answer : ℕ → Result A) → Moves (OnComms Q) (ask env answer)
    unfolding ask
    ask-Moves answer = record { at = λ w. rely w.tick w }

    pub now_ms-Moves : Moves (OnComms Q) (now_ms env)
    unfolding now_ms
    now_ms-Moves = record { at = λ w. q.refl_at w.comms }

    persist-Moves : (write : Store → Store) → Moves (OnComms Q) (persist env write)
    persist-Moves write = record {
      at = λ w. rw (ap (λ (v : World). v.comms) (persist-frame env write w)) (q.refl_at w.comms);
    }

    pub append_to_store-Moves :
        (event : NewRuntimeEvent) → Moves (OnComms Q) (append_to_store env event)
    append_to_store-Moves event = record {
      at = λ w.
          rw (ap (λ (v : World). v.comms) (append_to_store-frame env event w)) (q.refl_at w.comms);
    }

    allocate_id-Moves : (prefix suffix : String) → Moves (OnComms Q) (allocate_id env prefix suffix)
    unfolding allocate_id ◌>>=◌ now_ms
    allocate_id-Moves prefix suffix = record { at = λ w. q.refl_at w.comms }

    session_event-Moves :
        (session_id : String) (turn_id : Option String) (kind : String) (payload : Payload)
        → Moves (OnComms Q) (session_event env session_id turn_id kind payload)
    unfolding session_event append_event
    session_event-Moves session_id turn_id kind payload =
        search
          (
            moves_rules, order, allocate_id-Moves, now_ms-Moves, others_run-Moves,
            append_to_store-Moves,
          )
          depth 9

    pub get_session-Moves : (id : String) → Moves (OnComms Q) (get_session env id)
    unfolding get_session
    get_session-Moves id = search (moves_rules, order, others_run-Moves) depth 9

    require_provider-Moves : (kind : ProviderKind) → Moves (OnComms Q) (require_provider env kind)
    unfolding require_provider
    require_provider-Moves kind = search (moves_rules, order) depth 9

    provider_kind_of-Moves : (s : SessionRecord) → Moves (OnComms Q) (provider_kind_of env s)
    unfolding provider_kind_of
    provider_kind_of-Moves s = search (moves_rules, order) depth 9

    pub persist_unlocked-Moves :
        (write : Store → Store) → Moves (OnComms Q) (persist_unlocked env write)
    unfolding persist_unlocked
    persist_unlocked-Moves write =
        search (moves_rules, order, others_run-Moves, persist-Moves) depth 9

    store_session-Moves : (s : SessionRecord) → Moves (OnComms Q) (store_session env s)
    unfolding store_session
    store_session-Moves s = persist_unlocked-Moves _

    modify-Moves :
        (f : World → World) → ((w : World) → (f w).comms ≡ w.comms) → Moves (OnComms Q) (modify f)
    unfolding modify
    modify-Moves f h = record { at = λ w. rw (h w) (q.refl_at w.comms) }

    put_session-Moves :
        (key : String) (s : SessionRecord) → Moves (OnComms Q) (put_session env key s)
    unfolding put_session
    put_session-Moves key s =
        Moves-bind order (others_run env) _ others_run-Moves (λ _. modify-Moves _ (λ w. refl))

    put_turn-Moves : (key : String) (t : TurnRecord) → Moves (OnComms Q) (put_turn env key t)
    unfolding put_turn
    put_turn-Moves key t =
        Moves-bind order (others_run env) _ others_run-Moves (λ _. modify-Moves _ (λ w. refl))

    spawn-Moves :
        (kind : ProviderKind) (sid tid : String)
        → Moves (OnComms Q) (spawn_wait_for_turn kind sid tid)
    unfolding spawn_wait_for_turn
    spawn-Moves kind sid tid = modify-Moves _ (λ w. refl)

    after_first_send-Moves :
        (kind : ProviderKind) (r : ProviderSendTurnRequest) (s : SessionRecord)
        (answer : Result ProviderTurnAck)
        → Moves (OnComms Q) (after_first_send env kind r s answer)
    unfolding after_first_send
    after_first_send-Moves kind r s (err (not_found t)) =
        search (moves_rules, order, ask-Moves) depth 9
    after_first_send-Moves kind r s _ = Moves-lift order _

    dispatch-Moves :
        (kind : ProviderKind) (r : ProviderSendTurnRequest) (s : SessionRecord)
        → Moves (OnComms Q) (dispatch_send_turn_with_resume_fallback env kind r s)
    unfolding dispatch_send_turn_with_resume_fallback
    dispatch-Moves kind r s =
        search (moves_rules, order, ask-Moves, require_provider-Moves, after_first_send-Moves) depth
          9

    record_failed_send-Moves :
        (sid tid : String) (s : SessionRecord) (input : SendTurnInput) (now : ℕ) (e : RuntimeError)
        → Moves (OnComms Q) (record_failed_send env sid tid s input now e)
    unfolding record_failed_send
    record_failed_send-Moves sid tid s input now e =
        search
          (
            moves_rules, order, now_ms-Moves, persist_unlocked-Moves, store_session-Moves,
            put_turn-Moves, put_session-Moves, session_event-Moves,
          )
          depth 20

    request_approval-Moves :
        (sid tid : String) (now : ℕ) (aid : String)
        → Moves (OnComms Q) (request_approval env sid tid now aid)
    unfolding request_approval
    request_approval-Moves sid tid now aid =
        search
          (
            moves_rules, order, others_run-Moves, persist_unlocked-Moves, modify-Moves,
            session_event-Moves,
          )
          depth 20

    ask_or_start-Moves :
        (kind : ProviderKind) (sid tid : String) (now : ℕ) (aid : Option String)
        → Moves (OnComms Q) (ask_or_start env kind sid tid now aid)
    unfolding ask_or_start
    ask_or_start-Moves kind sid tid now none =
        search (moves_rules, order, session_event-Moves, spawn-Moves) depth 9
    ask_or_start-Moves kind sid tid now (some aid) = request_approval-Moves sid tid now aid

    record_accepted_send-Moves :
        (kind : ProviderKind) (sid tid : String) (s : SessionRecord) (input : SendTurnInput)
        (now : ℕ) (aid : Option String)
        → Moves (OnComms Q) (record_accepted_send env kind sid tid s input now aid)
    unfolding record_accepted_send
    record_accepted_send-Moves kind sid tid s input now aid =
        search
          (
            moves_rules, order, persist_unlocked-Moves, store_session-Moves, put_turn-Moves,
            put_session-Moves, ask_or_start-Moves,
          )
          depth 20

    allocate_approval-Moves :
        (kind : ProviderKind) (b : Bool) → Moves (OnComms Q) (allocate_approval env kind b)
    unfolding allocate_approval
    allocate_approval-Moves kind false = Moves-pure order none
    allocate_approval-Moves kind true = search (moves_rules, order, allocate_id-Moves) depth 9

    finish_send-Moves :
        (kind : ProviderKind) (sid tid : String) (s : SessionRecord) (input : SendTurnInput)
        (now : ℕ) (aid : Option String) (r : Result ProviderTurnAck)
        → Moves (OnComms Q) (finish_send env kind sid tid s input now aid r)
    unfolding finish_send
    finish_send-Moves kind sid tid s input now aid (err e) =
        record_failed_send-Moves sid tid s input now e
    finish_send-Moves kind sid tid s input now aid (ok ack) =
        search (moves_rules, order, record_accepted_send-Moves) depth 9

    start_turn-Moves :
        (sid : String) (s : SessionRecord) (input : SendTurnInput)
        → Moves (OnComms Q) (start_turn env sid s input)
    unfolding start_turn start_with
    start_turn-Moves sid s input =
        search
          (
            moves_rules, order, provider_kind_of-Moves, allocate_id-Moves, now_ms-Moves,
            allocate_approval-Moves, dispatch-Moves, finish_send-Moves,
          )
          depth 20

    pub send_turn-Moves :
        (sid : String) (input : SendTurnInput) → Moves (OnComms Q) (send_turn env sid input)
    unfolding send_turn
    send_turn-Moves sid input =
        search (moves_rules, order, get_session-Moves, start_turn-Moves) depth 12

    pub interrupt_turn-Moves : (sid tid : String) → Moves (OnComms Q) (interrupt_turn env sid tid)
    unfolding interrupt_turn
    interrupt_turn-Moves sid tid =
        search
          (
            moves_rules, order, get_session-Moves, provider_kind_of-Moves, require_provider-Moves,
            ask-Moves, session_event-Moves,
          )
          depth 20

-- The accesses that the team service makes itself.
pub ruleset apart_rules = (
  others_run-Moves, now_ms-Moves, get_session-Moves, persist_unlocked-Moves, append_to_store-Moves,
  send_turn-Moves, interrupt_turn-Moves,
)
