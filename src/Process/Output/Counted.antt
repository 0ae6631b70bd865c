-- ===== src/Process/Output/Counted.antt =====
-- What a stream's pump counts where writes to the log file may fail.
use gooselake.Base.{
  ℕ, suc, true, ◌+◌, ◌-◌, ◌≤◌, String, ◌≡◌, eq_refl, refl, ◌∙◌, ap, sym, Bool, ◌||◌, List, [], ◌∷◌,
  Option, none, some, ltb, leb, if◌then◌else◌, length, arith, Bool-cases, inl, inr,
}
use gooselake.Error.{ok}
use gooselake.Map
use gooselake.Map.Laws.{get-insert}
use gooselake.Process.{ManagedProcess, Manager, ProcessEnv, ◌>>=◌, others_run}
use gooselake.Process.Logs.{take}
use gooselake.Process.Output.{
  Stream, stdout, stderr, used_bytes, is_truncated, write_chunk, pump_chunk, pump_chunks,
  pump_stream, open_file, written_of, to_write, account, append_file,
}
use gooselake.Process.Output.Limit.{report_chunk-progress, pump_stream-opened}
use gooselake.Process.Output.Progress.{
  concat, Progress, counts, write, write_all, write_all-closed, length-take, Progress-ext,
}

-- The progress without the file.
abbrev forget : Progress → Progress
forget v = record v { file = [] }

-- The limit, the bytes counted, and whether output was dropped.
abbrev pub tally : Stream → String → Manager → Progress
tally stream id m = record {
  limit = m.config.max_output_bytes_per_process;
  counted = counts stream (Map.get id m.objects);
  file = [];
}

-- Other tasks leave the counts of this stream alone.
abbrev Uncounted : ProcessEnv → Stream → String → Type 0
Uncounted env stream id =
    (n : ℕ) (m : Manager) → tally stream id (env.others n m) ≡ tally stream id m

forget-write :
    (chunk : List ℕ) (limit : ℕ) (c : Option (ℕ × Bool)) (file : List ℕ)
    → forget (write chunk (record { limit = limit; counted = c; file = file }))
      ≡ forget (write chunk (record { limit = limit; counted = c; file = [] }))
forget-write chunk limit none file = refl
forget-write chunk limit (some (used, dropped)) file = refl

forget-write_all :
    (chunks : List (List ℕ)) (v v' : Progress)
    → forget v ≡ forget v'
    → forget (write_all chunks v) ≡ forget (write_all chunks v')
forget-write_all [] v v' e = e
forget-write_all (chunk ∷ chunks) v v' e =
    forget-write_all chunks (write chunk v) (write chunk v') (
      forget-write chunk v.limit v.counted v.file
      ∙ ap (λ x. forget (write chunk x)) e
      ∙ sym (forget-write chunk v'.limit v'.counted v'.file))

module _ (env : ProcessEnv) (stream : Stream) (id : String) (session_id : Option String)
    (path : String) where
  append_file-tally :
      (n : ℕ) (bytes : List ℕ) (m : Manager)
      → let m' = if leb 1 n then append_file env path bytes m else m in m'.config ≡ m.config
  unfolding append_file
  append_file-tally n bytes m = elim (Bool-cases (leb 1 n)) [
    | inl e ↦ rw e refl
    | inr e ↦ rw e refl
  ]

  write_chunk-tally :
      (s : Stream) (chunk : List ℕ) (m : Manager) (p : Option ManagedProcess)
      → Map.get id m.objects ≡ p
      → tally s id (write_chunk env s id path chunk p m) ≡ forget (write chunk (tally s id m))
  unfolding write_chunk account used_bytes is_truncated
  write_chunk-tally s chunk m none e = rw e refl
  write_chunk-tally stdout chunk m (some p) e =
      let n = to_write m.config.max_output_bytes_per_process p.stdout_bytes (length chunk) in
      let c = append_file-tally n (take n chunk) m in rw e (simp (c, get-insert, eq_refl))
  write_chunk-tally stderr chunk m (some p) e =
      let n = to_write m.config.max_output_bytes_per_process p.stderr_bytes (length chunk) in
      let c = append_file-tally n (take n chunk) m in rw e (simp (c, get-insert, eq_refl))

  module _ (uncounted : Uncounted env stream id) where
    pump_chunk-tally :
        (chunk : List ℕ) (budget : ℕ) (m : Manager)
        → let r = pump_chunk env stream id session_id path chunk budget m in
          ((b : ℕ) × (r.0 ≡ ok b))
          × (tally stream id r.1 ≡ forget (write chunk (tally stream id m)))
    unfolding pump_chunk others_run ◌>>=◌
    pump_chunk-tally chunk budget m =
        let m' = env.others m.tick (record m { tick = suc m.tick }) in
        let p = Map.get id m'.objects in
        let (done, same) =
          report_chunk-progress env stream id session_id path budget (length chunk)
            (written_of stream m'.config.max_output_bytes_per_process chunk p)
            (write_chunk env stream id path chunk p m') in
        (
          done,
          ap forget same
              ∙ write_chunk-tally stream chunk m' p refl
              ∙ ap (λ v. forget (write chunk v))
                  (uncounted m.tick (record m { tick = suc m.tick })),
        )

    pump_chunks-tally :
        (chunks : List (List ℕ)) (budget : ℕ) (m : Manager)
        → let r = pump_chunks env stream id session_id path chunks budget m in
          (r.0 ≡ ok tt) × (tally stream id r.1 ≡ forget (write_all chunks (tally stream id m)))
    unfolding pump_chunks ◌>>=◌
    pump_chunks-tally [] budget m = (refl, refl)
    pump_chunks-tally (chunk ∷ chunks) budget m =
        let ((next, ran), same) = pump_chunk-tally chunk budget m in
        let (done, rest) =
          pump_chunks-tally chunks next
            (pump_chunk env stream id session_id path chunk budget m).1 in
        rw ran (done, rest ∙ forget-write_all chunks _ (write chunk (tally stream id m)) same)

open_file-tally :
    (env : ProcessEnv) (stream : Stream) (id path : String) (m : Manager)
    → tally stream id (open_file env path m).1 ≡ tally stream id m
unfolding open_file
open_file-tally env stream id path m = refl

-- While other tasks leave the stream's counts alone and the log file can be opened, whatever the
-- writes to it come to and whatever the store does: `pump_stream` succeeds, counts as many of the
-- bytes read as the limit leaves room for, those of failed writes too, so that the count stays within
-- the limit, and marks the stream as truncated exactly if it dropped a byte now or had before.
pub pump_stream-counts :
    (env : ProcessEnv) (stream : Stream) (id : String) (session_id : Option String) (path : String)
    → Uncounted env stream id
    → (chunks : List (List ℕ)) (m : Manager) (p : ManagedProcess) → env.open_log m.tick path ≡ true
    → Map.get id m.objects ≡ some p
    → used_bytes stream p ≤ m.config.max_output_bytes_per_process
    → let room = m.config.max_output_bytes_per_process - used_bytes stream p in
      let bytes = concat chunks in
      let (r, m') = pump_stream env stream id session_id path chunks m in
      (r ≡ ok tt)
      × (tally stream id m' ≡ record {
        limit = m.config.max_output_bytes_per_process;
        counted = some (
          used_bytes stream p + length (take room bytes),
          ltb room (length bytes) || is_truncated stream p,
        );
        file = [];
      })
      × (used_bytes stream p + length (take room bytes) ≤ m.config.max_output_bytes_per_process)
unfolding to_write
pump_stream-counts env stream id session_id path uncounted chunks m p opens e h =
    let room = m.config.max_output_bytes_per_process - used_bytes stream p in
    let size = length-take room (concat chunks) in
    let (done, all) =
      pump_chunks-tally env stream id session_id path uncounted chunks 0 (open_file env path m).1 in
    rw (pump_stream-opened env stream id session_id path chunks m opens) (
      done,
      all
          ∙ ap (λ v. forget (write_all chunks v)) (open_file-tally env stream id path m)
          ∙ ap
              (λ (c : Option ManagedProcess). forget (
                write_all chunks (record {
                  limit = m.config.max_output_bytes_per_process;
                  counted = counts stream c;
                  file = [];
                })))
              e
          ∙ ap forget (
              write_all-closed chunks m.config.max_output_bytes_per_process (used_bytes stream p)
                (is_truncated stream p) [] h)
          ∙ Progress-ext (ground (arith, size)) refl refl,
      ground (arith, size),
    )
