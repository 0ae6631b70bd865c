-- ===== src/Store/EventLog.antt =====
-- Events that are written, and read by their numbers.
use gooselake.Base.{
  ℕ, ap, ◌≤◌, zero, suc, ◌+◌, String, ◌==◌, eq_refl, Bool, true, false, ◌&&◌, ◌≡◌, refl, inl, inr,
  List, [], ◌∷◌, ◌++◌, Option, none, some, arith, if◌then◌else◌, Bool-cases, Option-cases, ltb, leb,
}
use gooselake.Records.{RuntimeEventScope, scope_text}
use gooselake.Store.{
  Store, NewRuntimeEvent, RuntimeEventRecord, in_scope, find_event, max_seq, new_row, add_event,
  append_runtime_event, after_seq, select, insert_by_seq, order_by_seq, limit_rows,
  list_runtime_events, query_events,
}
use gooselake.Error.{ok}

find_event-append :
    (id : String) (es : List RuntimeEventRecord) (e : RuntimeEventRecord)
    → find_event id es ≡ none
    → (e.event_id == id) ≡ true
    → find_event id (es ++ e ∷ []) ≡ some e
unfolding find_event
find_event-append id [] e h same = rw same refl
find_event-append id (x ∷ xs) e h same = elim (Bool-cases (x.event_id == id)) [
  | inl t ↦ absurd (ground arith)
  | inr f ↦ rw f (find_event-append id xs e (rw f at h) same)
]

-- An event that is written again, by its id, leaves the log as it is and returns the row of the
-- first time.
pub append_runtime_event-again :
    (event : NewRuntimeEvent) (s : Store)
    → append_runtime_event event (append_runtime_event event s).1 ≡ append_runtime_event event s
unfolding append_runtime_event add_event new_row
append_runtime_event-again event s = elim (Option-cases (find_event event.event_id s.events)) [
  | inr (old, e) ↦ rw (e, e) refl
  | inl e ↦
      rw (e, find_event-append event.event_id s.events (new_row event s) e (eq_refl event.event_id))
        refl
]

select-append :
    (scope : RuntimeEventScope) (id : String) (after : Option ℕ) (es : List RuntimeEventRecord)
    (e : RuntimeEventRecord)
    → select scope id after es ≡ []
    → in_scope scope id e && after_seq after e ≡ true
    → select scope id after (es ++ e ∷ []) ≡ e ∷ []
unfolding select
select-append scope id after [] e h fits = rw fits refl
select-append scope id after (x ∷ xs) e h fits =
    elim (Bool-cases (in_scope scope id x && after_seq after x)) [
      | inl t ↦ absurd (ground arith)
      | inr f ↦ rw f (select-append scope id after xs e (rw f at h) fits)
    ]

seen_first :
    (b : Bool) (seq rest k : ℕ)
    → leb (if b then (if leb seq rest then rest else seq) else rest) k ≡ true
    → (leb rest k ≡ true) × (b && ltb k seq ≡ false)
seen_first b seq rest k h = ground arith

-- Nothing of a scope comes after its last number.
select-seen :
    (scope : RuntimeEventScope) (id : String) (k : ℕ) (es : List RuntimeEventRecord)
    → leb (max_seq scope id es) k ≡ true
    → select scope id (some k) es ≡ []
unfolding select max_seq after_seq
select-seen scope id k [] h = refl
select-seen scope id k (x ∷ xs) h =
    let (below, seen) = seen_first (in_scope scope id x) x.seq (max_seq scope id xs) k h in
    rw seen (select-seen scope id k xs below)

leb_refl : (n : ℕ) → leb n n ≡ true
leb_refl n = ground arith

ltb_next : (n : ℕ) → ltb n (n + 1) ≡ true
ltb_next n = ground arith

new_row-fits :
    (event : NewRuntimeEvent) (s : Store)
    → in_scope event.scope event.scope_id (new_row event s)
        && after_seq (some (max_seq event.scope event.scope_id s.events)) (new_row event s)
      ≡ true
unfolding in_scope after_seq new_row
new_row-fits event s =
    rw
      (
        eq_refl (scope_text event.scope),
        eq_refl event.scope_id,
        ltb_next (max_seq event.scope event.scope_id s.events),
      )
      refl

limit_one :
    (n : ℕ) (row : RuntimeEventRecord) → limit_rows (suc n) (order_by_seq (row ∷ [])) ≡ row ∷ []
unfolding limit_rows order_by_seq insert_by_seq
limit_one zero row = refl
limit_one (suc n) row = refl

-- A reader of a scope who has seen its last number reads exactly the row of the next new event, by
-- any positive limit that fits an i64, and nothing before it.
pub list_runtime_events-next :
    (event : NewRuntimeEvent) (s : Store) (n : ℕ)
    → suc n ≤ 9223372036854775807
    → find_event event.event_id s.events ≡ none
    → let last = max_seq event.scope event.scope_id s.events in
      let (row, s') = append_runtime_event event s in
      let scope : Option (RuntimeEventScope × String) = some (event.scope, event.scope_id) in
      (list_runtime_events scope (some last) (suc n) s ≡ ok [])
      × (list_runtime_events scope (some last) (suc n) s' ≡ ok (row ∷ []))
unfolding append_runtime_event add_event list_runtime_events query_events order_by_seq insert_by_seq
    limit_rows
list_runtime_events-next event s n small new =
    let last = max_seq event.scope event.scope_id s.events in
    let seen = select-seen event.scope event.scope_id last s.events (leb_refl last) in
    let fits : leb (suc n) 9223372036854775807 ≡ true = ground arith in
    (
      rw (fits, seen) refl,
      rw (new, fits)
          (rw
            (select-append event.scope event.scope_id (some last) s.events (new_row event s) seen
              (new_row-fits event s))
            (ap ok (limit_one n (new_row event s)))),
    )
