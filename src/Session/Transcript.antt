-- ===== src/Session/Transcript.antt =====
-- crates/runtime-core/src/runtime/helpers.rs: the user's and the assistant's text of a turn, and
-- the transcript that a session keeps in its metadata.
use gooselake.Base.{
  ℕ, zero, suc, ◌-◌, String, ◌<>◌, ◌==◌, Bool, true, false, List, [], ◌∷◌, ◌++◌, Option, none, some,
  if◌then◌else◌, or_else, length, ltb,
}
use gooselake.Text.{trim, is_empty}
use gooselake.Json.{
  Value, Fields, str, arr, obj, end, field, of_list, to_list, as_str, get_field, lookup_field,
}
use gooselake.Records.{TurnStatus}

unfoldable pub is_terminal_turn_status : TurnStatus → Bool
is_terminal_turn_status TurnStatus.completed = true
is_terminal_turn_status TurnStatus.interrupted = true
is_terminal_turn_status TurnStatus.failed = true
is_terminal_turn_status s = false

-- `.map(str::trim).filter(|value| !value.is_empty())`.
unfoldable pub trimmed_non_empty : Option String → Option String
trimmed_non_empty none = none
trimmed_non_empty (some s) = if is_empty (trim s) then none else some (trim s)

text_of : Value → Option String
unfolding trimmed_non_empty
text_of item =
    or_else (trimmed_non_empty (as_text (get_field "text" item))) (trimmed_non_empty (as_str item))
  where
    as_text : Option Value → Option String
    as_text none = none
    as_text (some v) = as_str v

push_line : Option String → List String → List String
push_line none lines = lines
push_line (some line) lines = line ∷ lines

user_lines : List Value → List String
unfolding text_of push_line
user_lines [] = []
user_lines (item ∷ items) = push_line (text_of item) (user_lines items)

-- What follows the first line, each with the separator before it.
join : List String → String
join [] = ""
join (l ∷ ls) = "\n\n" <> (l <> join ls)

join_lines : List String → Option String
unfolding join
join_lines [] = none
join_lines (line ∷ []) = some line
join_lines (line ∷ lines) = some (line <> join lines)

unfoldable pub extract_turn_user_text : Option (List Value) → Option String
unfolding user_lines join_lines
extract_turn_user_text none = none
extract_turn_user_text (some input) = join_lines (user_lines input)

text_value : Option Value → Option String
unfolding trimmed_non_empty
text_value none = none
text_value (some v) = trimmed_non_empty (as_str v)

unfoldable pub extract_assistant_text_from_usage : Value → Option String
unfolding text_value
extract_assistant_text_from_usage usage = text_value (
    or_else (get_field "last_message" usage) (
      or_else (get_field "lastMessage" usage)
        (or_else (get_field "assistant_text" usage) (get_field "assistantText" usage))))

-- A JSON object's `insert` and `remove`.
unfoldable pub set_field : String → Value → Fields → Fields
set_field k v end = field k v end
set_field k v (field j u fs) = if j == k then field k v fs else field j u (set_field k v fs)

unfoldable pub remove_field : String → Fields → Fields
remove_field k end = end
remove_field k (field j u fs) = if j == k then fs else field j u (remove_field k fs)

-- Metadata that is no object is replaced by an empty one.
as_fields : Value → Fields
as_fields (obj fs) = fs
as_fields v = end

-- An older session keeps its transcript under `codex_transcript`: it is moved.
migrate : Option Value → Option Value → Fields → Fields
migrate (some current) old fs = fs
migrate none (some existing) fs =
    set_field "session_transcript" existing (remove_field "codex_transcript" fs)
migrate none none fs = fs

rows_of : Option Value → List Value
rows_of (some (arr vs)) = to_list vs
rows_of v = []

abbrev pub transcript_limit : ℕ
transcript_limit = 80

unfoldable pub drop_rows : ℕ → List Value → List Value
drop_rows zero rows = rows
drop_rows (suc n) [] = []
drop_rows (suc n) (row ∷ rows) = drop_rows n rows

unfoldable pub push_row : Value → List Value → List Value
push_row row rows =
    let all = rows ++ row ∷ [] in
    if ltb transcript_limit (length all) then drop_rows (length all - transcript_limit) all else all

unfoldable pub transcript_row : String → String → Value
transcript_row role text = obj (field "role" (str role) (field "text" (str text) end))

-- The rows of the transcript in `metadata`, after the move of an older one.
unfoldable pub transcript_fields : Value → Fields
unfolding as_fields migrate
transcript_fields metadata =
    let fs = as_fields metadata in
    migrate (lookup_field "session_transcript" fs) (lookup_field "codex_transcript" fs) fs

unfoldable pub transcript_rows : Value → List Value
unfolding rows_of
transcript_rows metadata = rows_of (lookup_field "session_transcript" (transcript_fields metadata))

unfoldable pub append_session_transcript : Value → String → String → Value
append_session_transcript metadata role text = obj (
    set_field "session_transcript"
      (arr (of_list (push_row (transcript_row role text) (transcript_rows metadata))))
      (transcript_fields metadata))

-- The transcript entry of one side of a turn, where it has a text.
unfoldable pub append_text : Option String → String → Value → Value
append_text none role metadata = metadata
append_text (some text) role metadata = append_session_transcript metadata role text
