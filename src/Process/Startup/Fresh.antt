-- ===== src/Process/Startup/Fresh.antt =====
-- The processes that a restart leaves, and the number of the next one.
use gooselake.Base.{
  ℕ, true, suc, ◌+◌, ◌%◌, ◌<◌, ◌≤◌, String, ◌<>◌, ◌≡◌, ◌≢◌, refl, sym, ap, ◌∙◌, arith, List, [],
  ◌∷◌, All, Option, none, some, some-eq, false, Bool-cases, Option-cases, inl, inr, ◌==◌,
}
use mathlib.Core.Path.{subst}
use gooselake.Text.{decimal, max_u64}
use gooselake.Text.RoundTrip.{parse_u64-decimal, strip_prefix-append}
use gooselake.Error.{RuntimeError, ok, err, Result-cases}
use gooselake.Map
use gooselake.Map.Laws.{get-insert}
use gooselake.Records.{ProcessRecord, ProcessStatus}
use gooselake.Process.{
  Manager, ManagedProcess, managed, ProcessEnv, ◌>>=◌, now_ms, persist, written,
}
use gooselake.Process.Startup.{
  parse_process_sequence, max_with, is_live, enter_process, recover_process, hydrate_processes, new,
}

parse_process_sequence-decimal :
    (n : ℕ) → n ≤ max_u64 → parse_process_sequence ("proc_" <> decimal n) ≡ some n
unfolding parse_process_sequence
parse_process_sequence-decimal n h =
    rw (strip_prefix-append "proc_" (decimal n)) (parse_u64-decimal n h)

-- The greatest sequence of the rows, and of `seq`.
abbrev max_sequence : List ProcessRecord → ℕ → ℕ
max_sequence [] seq = seq
max_sequence (row ∷ rows) seq = max_sequence rows (max_with seq (parse_process_sequence row.id))

-- The number of a process, where its id has one, is not the greatest there is.
abbrev IsCounted : ProcessRecord → Type 0
IsCounted row = (k : ℕ) → parse_process_sequence row.id ≡ some k → k < max_u64

le-max_with : (m : ℕ) (o : Option ℕ) → m ≤ max_with m o
unfolding max_with
le-max_with m none = omega arith
le-max_with m (some k) = ground arith

some-le-max_with : (m k : ℕ) → k ≤ max_with m (some k)
unfolding max_with
some-le-max_with m k = ground arith

max_with-lt :
    (m : ℕ) (o : Option ℕ)
    → m < max_u64
    → ((k : ℕ) → o ≡ some k → k < max_u64)
    → max_with m o < max_u64
unfolding max_with
max_with-lt m none h f = h
max_with-lt m (some k) h f = ground (arith, f k refl)

le-max_sequence : (rows : List ProcessRecord) (seq : ℕ) → seq ≤ max_sequence rows seq
le-max_sequence [] seq = omega arith
le-max_sequence (row ∷ rows) seq = omega (
  arith,
  le-max_with seq (parse_process_sequence row.id),
  le-max_sequence rows (max_with seq (parse_process_sequence row.id)),
)

max_sequence-lt :
    (rows : List ProcessRecord) (seq : ℕ)
    → All IsCounted rows
    → seq < max_u64
    → max_sequence rows seq < max_u64
max_sequence-lt [] seq _ h = h
max_sequence-lt (row ∷ rows) seq (c, cs) h =
    max_sequence-lt rows _ cs (max_with-lt seq (parse_process_sequence row.id) h c)

-- A number above the greatest sequence makes an id that no row has.
fresh-ids :
    (rows : List ProcessRecord) (seq n : ℕ)
    → max_sequence rows seq < n
    → n ≤ max_u64
    → All (λ (row : ProcessRecord). "proc_" <> decimal n ≢ row.id) rows
fresh-ids [] seq n h fits = tt
fresh-ids (row ∷ rows) seq n h fits = (differs, fresh-ids rows _ n h fits)
  where
    differs : "proc_" <> decimal n ≢ row.id
    differs e =
        let parsed : parse_process_sequence row.id ≡ some n =
          ap parse_process_sequence (sym e) ∙ parse_process_sequence-decimal n fits in
        let low : n ≤ max_with seq (parse_process_sequence row.id) =
          rw parsed (some-le-max_with seq n) in
        absurd
          (omega (arith, low, le-max_sequence rows (max_with seq (parse_process_sequence row.id))))

err-is_not-ok : {A : Type 0} {e : RuntimeError} {a : A} → err e ≡ ok a → ⊥
err-is_not-ok h = cc

none-is_not-some : {A : Type 0} {a : A} → none ≡ some a → ⊥
none-is_not-some h = cc

ok-inj : {A : Type 0} {a b : A} → ok a ≡ ok b → a ≡ b
ok-inj h = cc

abbrev IsNotLive : ProcessStatus → Type 0
IsNotLive status = (status ≢ ProcessStatus.running) × (status ≢ ProcessStatus.queued)

-- No process that is known is running or queued.
abbrev pub AllEnded : Manager → Type 0
AllEnded m =
    (id : String) (p : ManagedProcess) → Map.get id m.objects ≡ some p → IsNotLive p.row.status

true-is_not-false : ¬ (true ≡ false)
true-is_not-false h = cc

is_live-IsNotLive : (status : ProcessStatus) → is_live status ≡ false → IsNotLive status
is_live-IsNotLive ProcessStatus.running h = absurd (true-is_not-false h)
is_live-IsNotLive ProcessStatus.queued h = absurd (true-is_not-false h)
is_live-IsNotLive ProcessStatus.completed h = (λ e. cc, λ e. cc)
is_live-IsNotLive ProcessStatus.failed h = (λ e. cc, λ e. cc)
is_live-IsNotLive ProcessStatus.timed_out h = (λ e. cc, λ e. cc)
is_live-IsNotLive ProcessStatus.killed h = (λ e. cc, λ e. cc)
is_live-IsNotLive (ProcessStatus.other s) h = (λ e. cc, λ e. cc)

enter_process-AllEnded :
    (row : ProcessRecord) (m : Manager)
    → IsNotLive row.status
    → AllEnded m
    → AllEnded (enter_process row m)
unfolding enter_process managed
enter_process-AllEnded row m h all id p e = elim (Bool-cases (row.id == id)) [
  | inl same ↦
      subst (λ (z : ManagedProcess). IsNotLive z.row.status)
        (some-eq (rw same at (sym (get-insert row.id id (managed row none) m.objects) ∙ e))) h
  | inr other ↦ all id p (rw other at (sym (get-insert row.id id (managed row none) m.objects) ∙ e))
]

module _ (env : ProcessEnv) where
  hydrate_processes-ok :
      (rows : List ProcessRecord) (seq x : ℕ) (m : Manager)
      → (hydrate_processes env rows seq m).0 ≡ ok x
      → x ≡ max_sequence rows seq
  unfolding hydrate_processes ◌>>=◌
  hydrate_processes-ok [] seq x m h = cc
  hydrate_processes-ok (row ∷ rows) seq x m h = elim (Result-cases (recover_process env row m).0) [
    | inl (r, e) ↦
        hydrate_processes-ok rows (max_with seq (parse_process_sequence row.id)) x
          (enter_process r (recover_process env row m).1) (rw e at h)
    | inr (x', e) ↦ absurd (err-is_not-ok (rw e at h))
  ]

  recover_process-ok :
      (row r : ProcessRecord) (m : Manager)
      → (recover_process env row m).0 ≡ ok r
      → (is_live r.status ≡ false) × ((recover_process env row m).1.objects ≡ m.objects)
  unfolding recover_process now_ms persist written ◌>>=◌
  recover_process-ok row r m h = elim (Bool-cases (is_live row.status)) [
    | inl e ↦ elim (Option-cases (env.store_fault (suc m.tick))) [
      | inl e' ↦
          rw (e, e')
            (ap (λ (z : ProcessRecord). is_live z.status) (sym (ok-inj (rw (e, e') at h))), refl)
      | inr (x, e') ↦ absurd (err-is_not-ok (rw (e, e') at h))
    ]
    | inr e ↦ rw e (rw (← ok-inj (rw e at h)) e, refl)
  ]

  hydrate_processes-AllEnded :
      (rows : List ProcessRecord) (seq x : ℕ) (m : Manager)
      → (hydrate_processes env rows seq m).0 ≡ ok x
      → AllEnded m
      → AllEnded (hydrate_processes env rows seq m).1
  unfolding hydrate_processes ◌>>=◌
  hydrate_processes-AllEnded [] seq x m h all = all
  hydrate_processes-AllEnded (row ∷ rows) seq x m h all =
      elim (Result-cases (recover_process env row m).0) [
        | inl (r, e) ↦
            let (ended, same) = recover_process-ok row r m e in
            let m' = (recover_process env row m).1 in
            rw e (
              hydrate_processes-AllEnded rows (max_with seq (parse_process_sequence row.id)) x
                (enter_process r m') (rw e at h)
                (enter_process-AllEnded r m' (is_live-IsNotLive r.status ended)
                  (rw (← same) at all)))
        | inr (x', e) ↦ absurd (err-is_not-ok (rw e at h))
      ]

  module _ (m : Manager) (started : (new env m).0 ≡ ok tt) where
    -- Where `new` succeeds on a store none of whose ids has the greatest number there is: no process
    -- that was in the store has the id that the next process gets.
    pub new-fresh :
        All IsCounted (Map.values m.store.processes)
        → All
            (λ (row : ProcessRecord). "proc_" <> decimal (new env m).1.next_process_id ≢ row.id)
            (Map.values m.store.processes)
    unfolding new ◌>>=◌
    new-fresh counted =
        let rows = Map.values m.store.processes in
        elim (Result-cases (hydrate_processes env (Map.values m.store.processes) 0 m).0) [
          | inl (x, e) ↦
              let total = hydrate_processes-ok rows 0 x m e in
              let bound = max_sequence-lt rows 0 counted (omega arith) in
              rw e (
                fresh-ids rows 0 ((x + 1) % 18446744073709551616) (omega (arith, total, bound))
                  (omega arith))
          | inr (x', e) ↦ absurd (err-is_not-ok (rw e at started))
        ]

    -- Where `new` succeeds from no known process: no process that it knows is running or queued.
    pub new-ended : m.objects ≡ [] → AllEnded (new env m).1
    unfolding new Map.get ◌>>=◌
    new-ended none_known =
        let rows = Map.values m.store.processes in
        elim (Result-cases (hydrate_processes env (Map.values m.store.processes) 0 m).0) [
          | inl (x, e) ↦ rw e (
              hydrate_processes-AllEnded rows 0 x m e
                (λ id p h. absurd (none-is_not-some (rw none_known at h))))
          | inr (x', e) ↦ absurd (err-is_not-ok (rw e at started))
        ]
