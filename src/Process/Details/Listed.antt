-- ===== src/Process/Details/Listed.antt =====
-- What a list of processes holds.
use gooselake.Base.{
  Option-cases, ◌==◌, String, eq_iff, sym, some, ℕ, ◌≤◌, ◌≡◌, refl, arith, true, List, [], ◌∷◌, All,
  leb, Bool-cases, inl, inr,
}
use gooselake.Error.{ok, Result-cases, err-not_ok}
use mathlib.Core.List.{Memᴰ}
use mathlib.Core.List.Memᴰ.{head, tail}
use gooselake.Map
use gooselake.Map.{Map}
use gooselake.Process.{ManagedProcess, contains, Manager, ProcessEnv, M, ◌>>=◌, others_run, gets}
use gooselake.Process.Details.{
  ProcessSummary, ProcessListRequest, is_listed, listed, summary_of, insert_row, sort_rows,
  objects_at, with_object, list_processes, cleanup_expired_terminal,
}
use gooselake.Process.Details.Visible.{
  IsVisible, true-is_not-false, is_listed-IsVisible, IsVisible-is_listed,
}

abbrev NoNewer : ℕ → ProcessSummary → Type 0
NoNewer start s = s.started_at ≤ start

-- The processes that started last come first.
abbrev pub IsNewestFirst : List ProcessSummary → Type 0
IsNewestFirst [] = Unit
IsNewestFirst (s ∷ rest) = All (NoNewer s.started_at) rest × IsNewestFirst rest

module _ (P : ProcessSummary → Type 0) where
  All-insert_row :
      (s : ProcessSummary) (rows : List ProcessSummary)
      → P s
      → All P rows
      → All P (insert_row s rows)
  unfolding insert_row
  All-insert_row s [] h _ = (h, tt)
  All-insert_row s (x ∷ xs) h (hx, hs) = elim (Bool-cases (leb x.started_at s.started_at)) [
    | inl e ↦ rw e (h, (hx, hs))
    | inr e ↦ rw e (hx, All-insert_row s xs h hs)
  ]

  All-sort_rows : (rows : List ProcessSummary) → All P rows → All P (sort_rows rows)
  unfolding sort_rows
  All-sort_rows [] _ = tt
  All-sort_rows (x ∷ xs) (h, hs) = All-insert_row x (sort_rows xs) h (All-sort_rows xs hs)

NoNewer-weaken :
    (a b : ℕ) (rows : List ProcessSummary) → a ≤ b → All (NoNewer a) rows → All (NoNewer b) rows
NoNewer-weaken a b [] h _ = tt
NoNewer-weaken a b (x ∷ xs) h (hx, hs) = (omega arith, NoNewer-weaken a b xs h hs)

insert_row-IsNewestFirst :
    (s : ProcessSummary) (rows : List ProcessSummary)
    → IsNewestFirst rows
    → IsNewestFirst (insert_row s rows)
unfolding insert_row
insert_row-IsNewestFirst s [] _ = (tt, tt)
insert_row-IsNewestFirst s (x ∷ xs) (hx, hs) = elim (Bool-cases (leb x.started_at s.started_at)) [
  | inl e ↦
      let le : x.started_at ≤ s.started_at = ground arith in
      rw e ((le, NoNewer-weaken x.started_at s.started_at xs le hx), (hx, hs))
  | inr e ↦
      let le : s.started_at ≤ x.started_at = ground arith in
      rw e (All-insert_row (NoNewer x.started_at) s xs le hx, insert_row-IsNewestFirst s xs hs)
]

sort_rows-IsNewestFirst : (rows : List ProcessSummary) → IsNewestFirst (sort_rows rows)
unfolding sort_rows
sort_rows-IsNewestFirst [] = tt
sort_rows-IsNewestFirst (x ∷ xs) =
    insert_row-IsNewestFirst x (sort_rows xs) (sort_rows-IsNewestFirst xs)

listed-IsVisible :
    (request : ProcessListRequest) (ps : List ManagedProcess)
    → All (IsVisible request) (listed request.caller_session_id request.include_completed ps)
unfolding listed
listed-IsVisible request [] = tt
listed-IsVisible request (p ∷ ps) =
    elim (Bool-cases (is_listed request.caller_session_id request.include_completed p)) [
      | inl e ↦ rw e (is_listed-IsVisible request p e, listed-IsVisible request ps)
      | inr e ↦ rw e (listed-IsVisible request ps)
    ]

-- The way of a process into the list.
mem-objects_at :
    (id : String) (ids : List String) (objects : Map ManagedProcess) (p : ManagedProcess)
    → contains id ids ≡ true
    → Map.get id objects ≡ some p
    → Memᴰ p (objects_at ids objects)
unfolding objects_at contains with_object
mem-objects_at id [] objects p h e = absurd (true-is_not-false (sym h))
mem-objects_at id (x ∷ ids) objects p h e = elim (Bool-cases (x == id)) [
  | inl here ↦ rw ((eq_iff x id).0 here, e) (head refl)
  | inr other ↦
      let rest = mem-objects_at id ids objects p (rw other at h) e in
      elim (Option-cases (Map.get x objects)) [
        | inl e' ↦ rw e' rest
        | inr (q, e') ↦ rw e' (tail rest)
      ]
]

mem-listed :
    (request : ProcessListRequest) (p : ManagedProcess) (ps : List ManagedProcess)
    → IsVisible request (summary_of p.row)
    → Memᴰ p ps
    → Memᴰ (summary_of p.row) (listed request.caller_session_id request.include_completed ps)
unfolding listed
mem-listed request p [] v there = elim there [ ]
mem-listed request p (q ∷ ps) v (head e) = rw (← e, IsVisible-is_listed request p v) (head refl)
mem-listed request p (q ∷ ps) v (tail there) =
    let rest = mem-listed request p ps v there in
    elim (Bool-cases (is_listed request.caller_session_id request.include_completed q)) [
      | inl e ↦ rw e (tail rest)
      | inr e ↦ rw e rest
    ]

mem-insert_row :
    (s r : ProcessSummary) (rows : List ProcessSummary)
    → Memᴰ s (r ∷ rows)
    → Memᴰ s (insert_row r rows)
unfolding insert_row
mem-insert_row s r [] m = m
mem-insert_row s r (x ∷ xs) (head e) = elim (Bool-cases (leb x.started_at r.started_at)) [
  | inl first ↦ rw first (head e)
  | inr later ↦ rw later (tail (mem-insert_row s r xs (head e)))
]
mem-insert_row s r (x ∷ xs) (tail (head e)) = elim (Bool-cases (leb x.started_at r.started_at)) [
  | inl first ↦ rw first (tail (head e))
  | inr later ↦ rw later (head e)
]
mem-insert_row s r (x ∷ xs) (tail (tail d)) = elim (Bool-cases (leb x.started_at r.started_at)) [
  | inl first ↦ rw first (tail (tail d))
  | inr later ↦ rw later (tail (mem-insert_row s r xs (tail d)))
]

mem-sort_rows :
    (s : ProcessSummary) (rows : List ProcessSummary) → Memᴰ s rows → Memᴰ s (sort_rows rows)
unfolding sort_rows
mem-sort_rows s [] there = elim there [ ]
mem-sort_rows s (r ∷ rows) (head e) = mem-insert_row s r (sort_rows rows) (head e)
mem-sort_rows s (r ∷ rows) (tail d) =
    mem-insert_row s r (sort_rows rows) (tail (mem-sort_rows s rows d))

>>=-ok :
    {A B : Type 0} (op : M A) (f : A → M B) (m : Manager) {b : B}
    → ((op >>= f) m).0 ≡ ok b
    → (a : A) × ((op m).0 ≡ ok a) × ((f a (op m).1).0 ≡ ok b)
unfolding ◌>>=◌
>>=-ok op f m h = elim (Result-cases (op m).0) [
  | inl (a, e) ↦ (a, e, rw e at h)
  | inr (x, e) ↦ absurd (err-not_ok x _ _ refl (rw e at h))
]

ok-inj : {A : Type 0} {a b : A} → ok a ≡ ok b → a ≡ b
ok-inj h = cc

-- Whatever other tasks do: a list of processes has only processes of the caller, where one is named,
-- only such as are not completed, failed, timed out or killed unless it asks for those too, and the
-- latest started first; and it has every such process that the map of processes leads to.
pub list_processes-lists :
    (env : ProcessEnv) (request : ProcessListRequest) (m : Manager) (rows : List ProcessSummary)
    → (list_processes env request m).0 ≡ ok rows
    → let m' = (list_processes env request m).1 in
      All (IsVisible request) rows
      × IsNewestFirst rows
      × ((id : String) (p : ManagedProcess)
          → contains id m'.processes ≡ true
          → Map.get id m'.objects ≡ some p
          → IsVisible request (summary_of p.row)
          → Memᴰ (summary_of p.row) rows)
unfolding list_processes others_run gets ◌>>=◌
list_processes-lists env request m rows h =
    let (u, ran, h') = >>=-ok (cleanup_expired_terminal env) _ m h in
    let m' = env.others (cleanup_expired_terminal env m).1.tick _ in
    let ps = objects_at m'.processes m'.objects in
    let all = listed request.caller_session_id request.include_completed ps in
    let e : sort_rows all ≡ rows = ok-inj h' in
    rw (ran, ← e)
      (
        All-sort_rows (IsVisible request) all (listed-IsVisible request ps),
        sort_rows-IsNewestFirst all,
        λ id p known found v.
            mem-sort_rows (summary_of p.row) all
              (mem-listed request p ps v (mem-objects_at id m'.processes m'.objects p known found)),
      )
