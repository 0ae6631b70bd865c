-- ===== src/Examples/Sessions.antt =====
-- The theorems on sessions and the log of events at the small state.
use gooselake.Base.{arith, Option, String, none, suc, ◌≡◌, refl, [], ◌∷◌, some}
use gooselake.Error.{ok, unsupported}
use gooselake.Map
use gooselake.Records.{RuntimeEventScope}
use gooselake.Session.{session_event, append_event, allocate_id}
use gooselake.Session.Results.{apply_to_found, apply_to_turn}
use gooselake.World.{◌>>=◌, others_run, now_ms, persist, append_to_store}
use gooselake.Provider.{as_turn_status}
use gooselake.Records.{RuntimeEventScope}
use gooselake.Store.{find_event, append_runtime_event, list_runtime_events, max_seq}
use gooselake.Store.EventLog.{append_runtime_event-again, list_runtime_events-next}
use gooselake.Session.Transcript.{is_terminal_turn_status}
use gooselake.Session.Results.{apply_terminal_result, apply_terminal_failure}
use gooselake.Session.Results.Ended.{KeepsEnded, same_turns, terminal-KeepsEnded}
use gooselake.Session.Results.Twice.{apply_terminal_result-twice}
use gooselake.Session.Turns.{send_turn}
use gooselake.Session.Turns.Owner.{IsOwner, send_turn-IsOwner}
use gooselake.Text.{decimal, to_ascii_lowercase, trim}
use gooselake.Provider.{kind_from_str, kind_text}
use gooselake.World.{ask}
use gooselake.Session.{
  get_session, provider_kind_of, require_provider, persist_unlocked, store_session, put_session,
  put_turn,
}
use gooselake.Session.Started.{spawn_wait_for_turn}
use gooselake.Session.Turns.{dispatch_send_turn_with_resume_fallback, record_accepted_send}
use gooselake.World.Ensures.{Ensures}
use gooselake.Session.Lifecycle.{close_session, force_close_session, resume_session}
use gooselake.Session.Lifecycle.Stored.{IsClosed, IsStored, sessions-IsStored}
use gooselake.Records.{SessionRecord, SessionStatus}
use gooselake.Session.Lifecycle.Closing.{force_close_session-succeeds}
use gooselake.Records.{is_unavailable}
use gooselake.Session.Turns.Accepted.{send_turn-succeeds}
use gooselake.Session.Started.{SendTurnAccepted}
use gooselake.Provider.{ProviderKind}
use gooselake.Session.Turns.{start_with}
use gooselake.Examples.{
  session_of, resuming, obliging, accepted, asking, calm, calm-Quiet, world, busy, finished,
  started,
}

terminal-KeepsEnded_example :
    KeepsEnded busy (apply_terminal_result calm finished busy).1
    × KeepsEnded busy (apply_terminal_failure calm "ses_a" "turn_1" (unsupported "wait") busy).1
terminal-KeepsEnded_example =
    terminal-KeepsEnded calm (λ n w. same_turns w _ refl) finished "ses_a" "turn_1"
      (unsupported "wait") busy

apply_terminal_result-twice_example :
    apply_terminal_result calm finished (apply_terminal_result calm finished busy).1 ≡ (
      ok tt,
      record (apply_terminal_result calm finished busy).1 {
        tick = suc (apply_terminal_result calm finished busy).1.tick;
      },
    )
unfolding apply_terminal_result Map.get is_terminal_turn_status as_turn_status ◌>>=◌ others_run
    apply_to_found apply_to_turn now_ms persist session_event append_event allocate_id
    append_to_store
apply_terminal_result-twice_example =
    apply_terminal_result-twice calm calm-Quiet finished busy refl refl

append_runtime_event-again_example :
    append_runtime_event started (append_runtime_event started world.store).1
    ≡ append_runtime_event started world.store
append_runtime_event-again_example = append_runtime_event-again started world.store

list_runtime_events-next_example :
    let scope : Option (RuntimeEventScope × String) = some (RuntimeEventScope.session, "ses_a") in
    let (row, s') = append_runtime_event started world.store in
    (list_runtime_events scope (some 0) 5 world.store ≡ ok [])
    × (list_runtime_events scope (some 0) 5 s' ≡ ok (row ∷ []))
unfolding find_event max_seq
list_runtime_events-next_example = list_runtime_events-next started world.store 4 (omega arith) refl

send_turn-IsOwner_example : IsOwner "ses_a" accepted (send_turn obliging "ses_a" asking world).1
unfolding send_turn start_with ◌>>=◌ get_session others_run Map.get provider_kind_of kind_from_str
    allocate_id now_ms dispatch_send_turn_with_resume_fallback require_provider ask kind_text
    decimal record_accepted_send persist_unlocked persist store_session put_session put_turn
    session_event append_event append_to_store spawn_wait_for_turn to_ascii_lowercase trim
send_turn-IsOwner_example = send_turn-IsOwner obliging calm-Quiet "ses_a" asking world accepted refl

sessions-IsStored_example :
    Ensures (IsClosed "ses_a") (close_session calm "ses_a" none)
    × Ensures (IsClosed "ses_a") (force_close_session calm "ses_a" none)
    × Ensures (IsStored "ses_a") (resume_session calm "ses_a" resuming)
sessions-IsStored_example = sessions-IsStored calm calm-Quiet "ses_a" none resuming

force_close_session-succeeds_example :
    (t : SessionRecord) × ((force_close_session calm "ses_a" none world).0 ≡ ok t)
    × IsClosed "ses_a" t (force_close_session calm "ses_a" none world).1
unfolding Map.get
force_close_session-succeeds_example =
    force_close_session-succeeds calm calm-Quiet (λ n. refl) "ses_a" none
      (session_of "ses_a" SessionStatus.ready) world refl

send_turn-succeeds_example :
    (ack : SendTurnAccepted) × ((send_turn obliging "ses_a" asking world).0 ≡ ok ack)
    × IsOwner "ses_a" ack (send_turn obliging "ses_a" asking world).1
unfolding Map.get is_unavailable kind_from_str to_ascii_lowercase trim
send_turn-succeeds_example =
    send_turn-succeeds obliging calm-Quiet (λ n. refl) (λ k. refl, λ n k r. refl) "ses_a" asking
      (session_of "ses_a" SessionStatus.ready) ProviderKind.codex world refl refl refl refl
