-- ===== src/Process/Details/Visible.antt =====
-- The processes that a list is asked for.
use gooselake.Base.{
  String, some-eq, eq_iff, false, sym, ap, ◌∙◌, ◌≢◌, Bool, Option, none, some, ◌≡◌, refl, arith,
  true, ◌&&◌, Bool-cases, inl, inr,
}
use gooselake.Records.{ProcessStatus}
use gooselake.Process.{ManagedProcess}
use gooselake.Process.Details.{
  ProcessSummary, ProcessListRequest, is_callers, is_completed, is_listed, summary_of,
}

-- None of the four ends of a process.
abbrev HasNotEnded : ProcessStatus → Type 0
HasNotEnded s =
    (s ≢ ProcessStatus.completed)
    × (s ≢ ProcessStatus.failed)
    × (s ≢ ProcessStatus.timed_out)
    × (s ≢ ProcessStatus.killed)

-- The process is the caller's, where one is named, and it has none of the four ends, unless
-- ended ones are asked for.
pub record IsVisible (request : ProcessListRequest) (s : ProcessSummary) : Type 0 where
  pub own : (caller : String) → request.caller_session_id ≡ some caller → s.session_id ≡ some caller
  pub live : request.include_completed ≡ false → HasNotEnded s.status

pub true-is_not-false : ¬ (true ≡ false)
true-is_not-false h = cc

pub none-is_not-some : {A : Type 0} {a : A} → none ≡ some a → ⊥
none-is_not-some h = cc

is_callers-own :
    (caller : Option String) (session_id : Option String) (c : String)
    → is_callers caller session_id ≡ true
    → caller ≡ some c
    → session_id ≡ some c
unfolding is_callers
is_callers-own none session_id c h e = absurd (cc)
is_callers-own (some caller) none c h e = absurd (true-is_not-false (sym h))
is_callers-own (some caller) (some session_id) c h e = ap some ((eq_iff session_id caller).0 h) ∙ e

own-is_callers :
    (caller : Option String) (session_id : Option String)
    → ((c : String) → caller ≡ some c → session_id ≡ some c)
    → is_callers caller session_id ≡ true
unfolding is_callers
own-is_callers none session_id h = refl
own-is_callers (some caller) none h = absurd (none-is_not-some (h caller refl))
own-is_callers (some caller) (some session_id) h =
    (eq_iff session_id caller).1 (some-eq (h caller refl))

is_completed-HasNotEnded : (s : ProcessStatus) → is_completed s ≡ false → HasNotEnded s
unfolding is_completed
is_completed-HasNotEnded ProcessStatus.completed h = absurd (true-is_not-false h)
is_completed-HasNotEnded ProcessStatus.failed h = absurd (true-is_not-false h)
is_completed-HasNotEnded ProcessStatus.timed_out h = absurd (true-is_not-false h)
is_completed-HasNotEnded ProcessStatus.killed h = absurd (true-is_not-false h)
is_completed-HasNotEnded ProcessStatus.queued h = (λ e. cc, λ e. cc, λ e. cc, λ e. cc)
is_completed-HasNotEnded ProcessStatus.running h = (λ e. cc, λ e. cc, λ e. cc, λ e. cc)
is_completed-HasNotEnded (ProcessStatus.other s) h = (λ e. cc, λ e. cc, λ e. cc, λ e. cc)

HasNotEnded-is_completed : (s : ProcessStatus) → HasNotEnded s → is_completed s ≡ false
unfolding is_completed
HasNotEnded-is_completed ProcessStatus.completed (h, b, c, d) = absurd (h refl)
HasNotEnded-is_completed ProcessStatus.failed (a, h, c, d) = absurd (h refl)
HasNotEnded-is_completed ProcessStatus.timed_out (a, b, h, d) = absurd (h refl)
HasNotEnded-is_completed ProcessStatus.killed (a, b, c, h) = absurd (h refl)
HasNotEnded-is_completed ProcessStatus.queued h = refl
HasNotEnded-is_completed ProcessStatus.running h = refl
HasNotEnded-is_completed (ProcessStatus.other s) h = refl

and-split : (a b : Bool) → a && b ≡ true → (a ≡ true) × (b ≡ true)
and-split true b h = (refl, h)
and-split false b h = absurd (true-is_not-false (sym h))

pub is_listed-IsVisible :
    (request : ProcessListRequest) (p : ManagedProcess)
    → is_listed request.caller_session_id request.include_completed p ≡ true
    → IsVisible request (summary_of p.row)
unfolding is_listed summary_of
is_listed-IsVisible request p h =
    let (own, live) = and-split (is_callers request.caller_session_id p.row.session_id) _ h in
    record {
      own = λ caller e. is_callers-own request.caller_session_id p.row.session_id caller own e;
      live = λ e. is_completed-HasNotEnded p.row.status (ground (arith, live, e));
    }

pub IsVisible-is_listed :
    (request : ProcessListRequest) (p : ManagedProcess)
    → IsVisible request (summary_of p.row)
    → is_listed request.caller_session_id request.include_completed p ≡ true
unfolding is_listed summary_of
IsVisible-is_listed request p v =
    let own = own-is_callers request.caller_session_id p.row.session_id v.own in
    elim (Bool-cases request.include_completed) [
      | inl e ↦ rw (own, e) refl
      | inr e ↦ rw (own, e, HasNotEnded-is_completed p.row.status (v.live e)) refl
    ]
