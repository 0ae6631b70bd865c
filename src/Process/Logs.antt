-- ===== src/Process/Logs.antt =====
-- crates/runtime-tools/src/process.rs, `read_process_logs`: the first and the last lines of a
-- process's log files.
pub mod Shown
use gooselake.Base.{
  ℕ, zero, suc, ◌-◌, String, ◌<>◌, ◌==◌, Bool, false, ◌&&◌, ◌||◌, List, [], ◌∷◌, ◌++◌, Option, none,
  some, ltb, if◌then◌else◌, length, unwrap_or,
}
use gooselake.Text.Words.{lines, byte_length, drop_bytes}
use gooselake.Error.{Result, ok, err, invalid_state}
use gooselake.Process.{ProcessEnv, M, pure, raise, ◌>>=◌, ◌>>◌, process_from_id, ensure_ownership}
use gooselake.Process.Details.{ProcessDetails, detail_from_process}

pub record ProcessLogReadRequest : Type 0 where
  pub process_id : String
  pub caller_session_id : Option String
  pub stream : Option String
  pub head_lines : Option ℕ
  pub tail_lines : Option ℕ
  pub max_bytes : Option ℕ

pub record ProcessLogsChunk : Type 0 where
  pub process_id : String
  pub stream : String
  pub content : String
  pub head_lines : ℕ
  pub tail_lines : ℕ
  pub truncated : Bool
  pub bytes : ℕ

-- A stream's name, its log file, and whether output was dropped.
pub record LogFile : Type 0 where
  pub name : String
  pub path : Option String
  pub truncated : Bool

stdout_file : ProcessDetails → LogFile
stdout_file d = record { name = "stdout"; path = d.stdout_path; truncated = d.stdout_truncated }

stderr_file : ProcessDetails → LogFile
stderr_file d = record { name = "stderr"; path = d.stderr_path; truncated = d.stderr_truncated }

unfoldable pub streams_of : Option String → ProcessDetails → Result (List LogFile)
unfolding stdout_file stderr_file
streams_of none d = ok (stdout_file d ∷ stderr_file d ∷ [])
streams_of (some other) d =
    if other == "stdout"
    then ok (stdout_file d ∷ [])
    else if other == "stderr"
    then ok (stderr_file d ∷ [])
    else err (invalid_state ("unsupported stream " <> other))

module _ {ℓ} {A : Type ℓ} where
  unfoldable pub take : ℕ → List A → List A
  take zero xs = []
  take (suc n) [] = []
  take (suc n) (x ∷ xs) = x ∷ take n xs

  unfoldable pub drop : ℕ → List A → List A
  drop zero xs = xs
  drop (suc n) [] = []
  drop (suc n) (x ∷ xs) = drop n xs

-- Whether lines between the head and the tail are left out.
unfoldable pub has_gap : ℕ → ℕ → List String → Bool
has_gap head tail content = ltb 0 head && ltb head (length content - tail)

-- The lines that are shown, with a line of dots for those that are left out.
unfoldable pub shown_lines : ℕ → ℕ → List String → List String
unfolding take drop has_gap
shown_lines head tail content =
    take head content
    ++ ((if has_gap head tail content then "..." ∷ [] else [])
        ++ drop (length content - tail) content)

unfoldable pub unlines : List String → String
unlines [] = ""
unlines (l ∷ ls) = l <> ("\n" <> unlines ls)

-- The last `max_bytes` bytes of a longer text.
unfoldable pub cap_bytes : Option ℕ → String → String
cap_bytes none out = out
cap_bytes (some max_bytes) out =
    if ltb max_bytes (byte_length out) then drop_bytes (byte_length out - max_bytes) out else out

is_capped : Option ℕ → String → Bool
is_capped none out = false
is_capped (some max_bytes) out = ltb max_bytes (byte_length out)

unfoldable pub chunk_of :
    ProcessLogReadRequest → ProcessDetails → LogFile → String → ProcessLogsChunk
unfolding shown_lines unlines cap_bytes is_capped
chunk_of request d file text =
    let head = unwrap_or request.head_lines 0 in
    let tail = unwrap_or request.tail_lines 80 in
    let content = lines text in
    let out = unlines (shown_lines head tail content) in
    let capped = cap_bytes request.max_bytes out in
    record {
      process_id = d.process.process_id;
      stream = file.name;
      content = capped;
      head_lines = head;
      tail_lines = tail;
      truncated = has_gap head tail content || (is_capped request.max_bytes out || file.truncated);
      bytes = byte_length capped;
    }

module _ (env : ProcessEnv) where
  -- A file that cannot be read counts as empty.
  read_file : String → M String
  read_file path m =
      (ok (unwrap_or (env.read_to_string m.tick path) ""), record m { tick = suc m.tick })

  read_stream :
      ProcessLogReadRequest → ProcessDetails → LogFile → Option String → M (List ProcessLogsChunk)
  unfolding read_file chunk_of
  read_stream request d file none = pure []
  read_stream request d file (some path) = do
    text ← read_file path
    pure (chunk_of request d file text ∷ [])

  read_streams : ProcessLogReadRequest → ProcessDetails → List LogFile → M (List ProcessLogsChunk)
  unfolding read_stream
  read_streams request d [] = pure []
  read_streams request d (file ∷ files) = do
    chunks ← read_stream request d file file.path
    rest ← read_streams request d files
    pure (chunks ++ rest)

  lift : {A : Type 0} → Result A → M A
  lift (ok a) = pure a
  lift (err e) = raise e

  unfoldable pub read_process_logs : ProcessLogReadRequest → M (List ProcessLogsChunk)
  unfolding read_streams lift streams_of
  read_process_logs request = do
    p ← process_from_id env request.process_id
    ensure_ownership p request.caller_session_id
    let details = detail_from_process p
    streams ← lift (streams_of request.stream details)
    read_streams request details streams
