-- ===== src/Process/Output/Limit.antt =====
-- What a stream's log file holds in the end.
use gooselake.Base.{
  ℕ, suc, ◌+◌, ◌-◌, ◌≤◌, String, ◌≡◌, eq_refl, refl, ◌∙◌, ap, sym, Bool, true, ◌||◌, List, [], ◌∷◌,
  ◌++◌, Option, none, some, ltb, leb, if◌then◌else◌, length, arith, Bool-cases, inl, inr,
}
use mathlib.Core.List.{append-nil}
use gooselake.Records.{RuntimeEventCriticality}
use gooselake.Store.{Payload}
use gooselake.Process.Told.{append_process_event-told}
use gooselake.Error.{ok}
use gooselake.Map
use gooselake.Map.Laws.{get-insert}
use gooselake.Process.{
  ManagedProcess, Manager, ProcessEnv, pure, ◌>>=◌, ◌>>◌, others_run, append_process_event,
}
use gooselake.Process.Logs.{take}
use gooselake.Process.Output.{
  Stream, stdout, stderr, used_bytes, is_truncated, file_at, write_chunk, report_chunk, pump_chunk,
  pump_stream, pump_chunks, open_file, saturating_add, written_of, to_write, account, append_file,
}
use gooselake.Process.Output.Progress.{
  concat, counts, progress, write, write_all, take-all, length-take, Progress-ext, write_all-closed,
}

-- Other tasks leave the progress of this stream alone.
abbrev Untouched : ProcessEnv → Stream → String → String → Type 0
Untouched env stream id path =
    (n : ℕ) (m : Manager) → progress stream id path (env.others n m) ≡ progress stream id path m

-- Every write to the file puts all of its bytes into it.
abbrev WritesAll : ProcessEnv → String → Type 0
WritesAll env path = (n : ℕ) (bytes : List ℕ) → env.write_log n path bytes ≡ length bytes

module _ (env : ProcessEnv) (stream : Stream) (id : String) (session_id : Option String)
    (path : String) where
  append_file-progress :
      (writes : WritesAll env path) (n : ℕ) (chunk : List ℕ) (m : Manager)
      → let m' = if leb 1 n then append_file env path (take n chunk) m else m in
        (file_at path m' ≡ file_at path m ++ take n chunk)
        × (m'.config ≡ m.config)
        × (m'.objects ≡ m.objects)
  unfolding append_file take
  append_file-progress writes n chunk m = elim (Bool-cases (leb 1 n)) [
    | inl e ↦ rw e (
      rw
          (
            get-insert,
            eq_refl,
            writes m.tick (take n chunk),
            take-all (length (take n chunk)) (take n chunk) (omega arith),
          )
          refl,
      refl,
      refl,
    )
    | inr e ↦
        let z : n ≡ 0 = ground arith in rw e (rw z (sym (append-nil (file_at path m))), refl, refl)
  ]

  write_chunk-progress :
      (writes : WritesAll env path) (s : Stream) (chunk : List ℕ) (m : Manager)
      (p : Option ManagedProcess)
      → Map.get id m.objects ≡ p
      → progress s id path (write_chunk env s id path chunk p m)
        ≡ write chunk (progress s id path m)
  unfolding write_chunk account used_bytes is_truncated
  write_chunk-progress writes s chunk m none e = rw e refl
  write_chunk-progress writes stdout chunk m (some p) e =
      let (f, c, o) =
        append_file-progress writes
          (to_write m.config.max_output_bytes_per_process p.stdout_bytes (length chunk)) chunk m in
      rw e (simp (f, c, o, get-insert, eq_refl))
  write_chunk-progress writes stderr chunk m (some p) e =
      let (f, c, o) =
        append_file-progress writes
          (to_write m.config.max_output_bytes_per_process p.stderr_bytes (length chunk)) chunk m in
      rw e (simp (f, c, o, get-insert, eq_refl))

  told-progress :
      (kind : String) (criticality : RuntimeEventCriticality) (payload : Payload) (m : Manager)
      → let told = append_process_event env id session_id kind criticality payload in
        (((told >> pure {A = ℕ} 0) m).0 ≡ ok 0)
        × (progress stream id path ((told >> pure {A = ℕ} 0) m).1 ≡ progress stream id path m)
  unfolding ◌>>=◌
  told-progress kind criticality payload m =
      let (s, e) = append_process_event-told env id session_id kind criticality payload m in
      rw e (refl, refl)

  pub report_chunk-progress :
      (budget size n : ℕ) (m : Manager)
      → let r = report_chunk env stream id session_id budget size n m in
        ((b : ℕ) × (r.0 ≡ ok b)) × (progress stream id path r.1 ≡ progress stream id path m)
  unfolding report_chunk ◌>>=◌
  report_chunk-progress budget size n m =
      elim (Bool-cases (
        leb
          (if leb m.config.output_event_sample_bytes 1
            then 1
            else m.config.output_event_sample_bytes)
          (saturating_add budget size)
        || ltb n size)) [
          | inl e ↦ rw e (let (a, b) = told-progress "process.output" _ _ m in ((0, a), b))
          | inr e ↦ rw e ((saturating_add budget size, refl), refl)
        ]

  module _ (untouched : Untouched env stream id path) (writes : WritesAll env path) where
    pump_chunk-progress :
        (chunk : List ℕ) (budget : ℕ) (m : Manager)
        → let r = pump_chunk env stream id session_id path chunk budget m in
          ((b : ℕ) × (r.0 ≡ ok b))
          × (progress stream id path r.1 ≡ write chunk (progress stream id path m))
    unfolding pump_chunk others_run ◌>>=◌
    pump_chunk-progress chunk budget m =
        let m' = env.others m.tick (record m { tick = suc m.tick }) in
        let p = Map.get id m'.objects in
        let (done, same) =
          report_chunk-progress budget (length chunk)
            (written_of stream m'.config.max_output_bytes_per_process chunk p)
            (write_chunk env stream id path chunk p m') in
        (
          done,
          same
              ∙ write_chunk-progress writes stream chunk m' p refl
              ∙ ap (write chunk) (untouched m.tick (record m { tick = suc m.tick })),
        )

    pump_chunks-progress :
        (chunks : List (List ℕ)) (budget : ℕ) (m : Manager)
        → let r = pump_chunks env stream id session_id path chunks budget m in
          (r.0 ≡ ok tt)
          × (progress stream id path r.1 ≡ write_all chunks (progress stream id path m))
    unfolding pump_chunks ◌>>=◌
    pump_chunks-progress [] budget m = (refl, refl)
    pump_chunks-progress (chunk ∷ chunks) budget m =
        let ((next, ran), same) = pump_chunk-progress chunk budget m in
        let (done, rest) =
          pump_chunks-progress chunks next
            (pump_chunk env stream id session_id path chunk budget m).1 in
        rw ran (done, rest ∙ ap (write_all chunks) same)

open_file-progress :
    (env : ProcessEnv) (stream : Stream) (id path : String) (m : Manager)
    → env.open_log m.tick path ≡ true
    → let r = open_file env path m in progress stream id path r.1 ≡ progress stream id path m
unfolding open_file
open_file-progress env stream id path m e = rw e (simp (get-insert, eq_refl))

pub pump_stream-opened :
    (env : ProcessEnv) (stream : Stream) (id : String) (session_id : Option String) (path : String)
    (chunks : List (List ℕ)) (m : Manager)
    → env.open_log m.tick path ≡ true
    → pump_stream env stream id session_id path chunks m
      ≡ pump_chunks env stream id session_id path chunks 0 (open_file env path m).1
unfolding pump_stream open_file ◌>>=◌
pump_stream-opened env stream id session_id path chunks m opens =
    ap
      (λ (b : Bool).
        (if b then pump_chunks env stream id session_id path chunks 0 else pure tt)
          (open_file env path m).1)
      opens

-- While other tasks leave the stream's counts and file alone, the log file can be opened, and each
-- write puts its bytes into it, `pump_stream` succeeds, whatever the store does: it appends to the
-- log file as many of the bytes read as the limit leaves room for, counts them, so that the count
-- stays within the limit, and marks the stream as truncated exactly if it dropped a byte now or had
-- before.
pub pump_stream-writes :
    (env : ProcessEnv) (stream : Stream) (id : String) (session_id : Option String) (path : String)
    → Untouched env stream id path
    → WritesAll env path
    → (chunks : List (List ℕ)) (m : Manager) (p : ManagedProcess) → env.open_log m.tick path ≡ true
    → Map.get id m.objects ≡ some p
    → used_bytes stream p ≤ m.config.max_output_bytes_per_process
    → let room = m.config.max_output_bytes_per_process - used_bytes stream p in
      let bytes = concat chunks in
      let (r, m') = pump_stream env stream id session_id path chunks m in
      (r ≡ ok tt)
      × (progress stream id path m' ≡ record {
        limit = m.config.max_output_bytes_per_process;
        counted = some (
          used_bytes stream p + length (take room bytes),
          ltb room (length bytes) || is_truncated stream p,
        );
        file = file_at path m ++ take room bytes;
      })
      × (used_bytes stream p + length (take room bytes) ≤ m.config.max_output_bytes_per_process)
unfolding to_write
pump_stream-writes env stream id session_id path untouched writes chunks m p opens e h =
    let room = m.config.max_output_bytes_per_process - used_bytes stream p in
    let size = length-take room (concat chunks) in
    let same = open_file-progress env stream id path m opens in
    let (done, all) =
      pump_chunks-progress env stream id session_id path untouched writes chunks 0
        (open_file env path m).1 in
    rw (pump_stream-opened env stream id session_id path chunks m opens) (
      done,
      all
          ∙ ap (write_all chunks) same
          ∙ ap
              (λ (c : Option ManagedProcess). write_all chunks (record {
                limit = m.config.max_output_bytes_per_process;
                counted = counts stream c;
                file = file_at path m;
              }))
              e
          ∙ write_all-closed chunks m.config.max_output_bytes_per_process (used_bytes stream p)
              (is_truncated stream p) (file_at path m) h
          ∙ Progress-ext (ground (arith, size)) refl refl,
      ground (arith, size),
    )
