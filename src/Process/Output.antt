-- ===== src/Process/Output.antt =====
-- crates/runtime-tools/src/process.rs, `pump_stream`: a child's output goes to a log file, up to a
-- limit, with an event now and then. A chunk is what one `read` returns. A log file may not open, and
-- a write may fail after any number of bytes; the source does not look at the result of a write.
pub mod Progress
pub mod Limit
pub mod Counted
use gooselake.Base.{
  ℕ, suc, ◌+◌, ◌-◌, String, Bool, ◌||◌, List, [], ◌∷◌, ◌++◌, Option, none, some, ltb, leb,
  if◌then◌else◌, length, unwrap_or,
}
use gooselake.Text.{max_u64}
use gooselake.Json.{num, bool}
use gooselake.Error.{ok}
use gooselake.Map
use gooselake.Map.{Map}
use gooselake.Records.{RuntimeEventCriticality}
use gooselake.Store.{json, text}
use gooselake.Process.{
  ManagedProcess, Manager, ProcessEnv, M, pure, gets, modify, ◌>>=◌, ◌>>◌, others_run,
  append_process_event, put_object,
}
use gooselake.Process.Logs.{take}

pub data Stream : Type 0 where
  stdout stderr : Stream

unfoldable stream_name : Stream → String
stream_name stdout = "stdout"
stream_name stderr = "stderr"

unfoldable pub used_bytes : Stream → ManagedProcess → ℕ
used_bytes stdout p = p.stdout_bytes
used_bytes stderr p = p.stderr_bytes

unfoldable pub is_truncated : Stream → ManagedProcess → Bool
is_truncated stdout p = p.stdout_truncated
is_truncated stderr p = p.stderr_truncated

-- `n` more bytes are written, and output was dropped where `truncated` says so.
unfoldable pub account : Stream → ℕ → Bool → ManagedProcess → ManagedProcess
account stdout n truncated p = record p {
  stdout_bytes = p.stdout_bytes + n;
  stdout_truncated = truncated || p.stdout_truncated;
}
account stderr n truncated p = record p {
  stderr_bytes = p.stderr_bytes + n;
  stderr_truncated = truncated || p.stderr_truncated;
}

-- `remaining.min(chunk.len())`.
unfoldable pub to_write : ℕ → ℕ → ℕ → ℕ
to_write max_bytes used size = if leb size (max_bytes - used) then size else max_bytes - used

abbrev pub file_at : String → Manager → List ℕ
file_at path m = unwrap_or (Map.get path m.files) []

-- `write_all`, whose result is not looked at: some of the bytes reach the file.
unfoldable pub append_file : ProcessEnv → String → List ℕ → Manager → Manager
append_file env path bytes m = record m {
  files = Map.insert path (file_at path m ++ take (env.write_log m.tick path bytes) bytes) m.files;
  tick = suc m.tick;
}

abbrev pub saturating_add : ℕ → ℕ → ℕ
saturating_add a b = if leb (a + b) max_u64 then a + b else max_u64

-- What one chunk changes: the file, the count of bytes and the flag, under the count's lock.
unfoldable pub write_chunk :
    ProcessEnv → Stream → String → String → List ℕ → Option ManagedProcess → Manager → Manager
unfolding used_bytes account to_write append_file
write_chunk env stream id path chunk none m = m
write_chunk env stream id path chunk (some p) m =
    let n = to_write m.config.max_output_bytes_per_process (used_bytes stream p) (length chunk) in
    put_object id (account stream n (ltb n (length chunk)) p)
      (if leb 1 n then append_file env path (take n chunk) m else m)

unfoldable pub written_of : Stream → ℕ → List ℕ → Option ManagedProcess → ℕ
written_of stream max_bytes chunk none = 0
written_of stream max_bytes chunk (some p) = to_write max_bytes (used_bytes stream p) (length chunk)

-- The log file is opened to append to it, and made if it is not there.
unfoldable pub open_file : ProcessEnv → String → M Bool
open_file env path m =
    let opened = env.open_log m.tick path in
    (
      ok opened,
      record m {
        files = if opened then Map.insert path (file_at path m) m.files else m.files;
        tick = suc m.tick;
      },
    )

module _ (env : ProcessEnv) (stream : Stream) (id : String) (session_id : Option String) where
  -- `budget` is the count of bytes since the last event.
  unfoldable pub report_chunk : ℕ → ℕ → ℕ → M ℕ
  unfolding stream_name
  report_chunk budget size n = do
    sample ← gets (λ m. m.config.output_event_sample_bytes)
    let seen = saturating_add budget size
    if leb (if leb sample 1 then 1 else sample) seen || ltb n size
        then (do
          append_process_event env id session_id "process.output" RuntimeEventCriticality.droppable
              (("process_id", text id)
                ∷ ("stream", text (stream_name stream))
                ∷ ("bytes_seen", json (num size))
                ∷ ("bytes_written", json (num n))
                ∷ ("truncated", json (bool (ltb n size)))
                ∷ [])
          pure 0)
        else pure seen

  unfoldable pub pump_chunk : String → List ℕ → ℕ → M ℕ
  unfolding write_chunk written_of
  pump_chunk path chunk budget = do
    others_run env
    m ← gets (λ m. m)
    let p = Map.get id m.objects
    modify (write_chunk env stream id path chunk p)
    report_chunk budget (length chunk)
        (written_of stream m.config.max_output_bytes_per_process chunk p)

  -- The loop: a read of no bytes and an error both end it.
  unfoldable pub pump_chunks : String → List (List ℕ) → ℕ → M (Unit {0})
  pump_chunks path [] budget = pure tt
  pump_chunks path (chunk ∷ chunks) budget = do
    next ← pump_chunk path chunk budget
    pump_chunks path chunks next

  unfoldable pub pump_stream : String → List (List ℕ) → M (Unit {0})
  unfolding open_file pump_chunks
  pump_stream path chunks = do
    opened ← open_file env path
    if opened then pump_chunks path chunks 0 else pure tt
