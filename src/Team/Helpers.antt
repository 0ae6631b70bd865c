-- ===== src/Team/Helpers.antt =====
-- crates/runtime-core/src/team_comms/helpers.rs.
use gooselake.Base.{
  ℕ, String, ◌<>◌, ◌==◌, Bool, true, false, ◌||◌, List, [], ◌∷◌, ◌++◌, Option, none, some,
  if◌then◌else◌, is_some,
}
use gooselake.Text.{trim, is_empty, to_ascii_lowercase, parse_u64, last_segment}
use gooselake.Error.{Result, ok, err, invalid_state}
use gooselake.Json.{Value, Fields, str, arr, obj, field, end, nil, cons, to_list, as_str}
use gooselake.Map
use gooselake.Map.{Map}
use gooselake.Records.{DeliveryStatus, TeamMemberRecord, TeamMessageRecord}
use gooselake.Session.Transcript.{trimmed_non_empty}

unfoldable pub has_member : Option (Map TeamMemberRecord) → String → Bool
has_member none agent_id = false
has_member (some members) agent_id = is_some (Map.get agent_id members)

unfoldable pub ensure_member : Option (Map TeamMemberRecord) → String → String → Result (Unit {0})
unfolding has_member
ensure_member members agent_id team_id =
    if has_member members agent_id
    then ok tt
    else err (invalid_state ("agent " <> (agent_id <> (" is not a member of team " <> team_id))))

-- `ids.retain(|candidate| candidate != id)`.
unfoldable pub retain_not : String → List String → List String
retain_not id [] = []
retain_not id (x ∷ xs) = let rest = retain_not id xs in if x == id then rest else x ∷ rest

put_ids : String → List String → Map (List String) → Map (List String)
put_ids key [] m = Map.remove key m
put_ids key (x ∷ xs) m = Map.insert key (x ∷ xs) m

remove_from : String → String → Option (List String) → Map (List String) → Map (List String)
unfolding put_ids retain_not
remove_from key id none m = m
remove_from key id (some ids) m = put_ids key (retain_not id ids) m

unfoldable pub remove_delivery_from_recipient_index :
    Map (List String) → String → String → Map (List String)
unfolding remove_from
remove_delivery_from_recipient_index m recipient delivery_id =
    remove_from recipient delivery_id (Map.get recipient m) m

unfoldable pub normalize_non_empty : String → String → Result String
normalize_non_empty value name =
    let trimmed = trim value in
    if is_empty trimmed then err (invalid_state (name <> " cannot be empty")) else ok trimmed

unfoldable pub normalized_non_empty : Option String → Option String
unfolding trimmed_non_empty
normalized_non_empty value = trimmed_non_empty value

unfoldable pub normalize_non_empty_input : Value → Result Value
normalize_non_empty_input (arr nil) = err (invalid_state "message input cannot be empty")
normalize_non_empty_input (arr (cons v vs)) = ok (arr (cons v vs))
normalize_non_empty_input v = err (invalid_state "message input must be an array")

unfoldable pub normalize_scope : String → Result String
normalize_scope scope =
    let word = to_ascii_lowercase (trim scope) in
    if word == "direct"
    then ok "direct"
    else if word == "broadcast"
    then ok "broadcast"
    else err (invalid_state ("unsupported message scope " <> word))

unfoldable pub normalize_priority : String → String
normalize_priority value =
    let word = to_ascii_lowercase (trim value) in if is_empty word then "normal" else word

unfoldable pub normalize_policy : String → Result String
normalize_policy value =
    let word = to_ascii_lowercase (trim value) in
    if word == "non_interrupting"
      || word == "interrupt_after_tool_boundary"
      || word == "immediate_interrupt"
      || word == "start_new_turn_only"
    then ok word
    else err (invalid_state ("unsupported delivery policy " <> value))

unfoldable pub idempotency_index_key : String → String → String → String → String
idempotency_index_key team_id sender scope key =
    team_id <> ("|" <> (sender <> ("|" <> (scope <> ("|" <> key)))))

unfoldable pub parse_counter : String → Option ℕ
parse_counter value = parse_u64 (last_segment value)

unfoldable pub is_terminal_status : DeliveryStatus → Bool
is_terminal_status DeliveryStatus.injected = true
is_terminal_status DeliveryStatus.failed = true
is_terminal_status DeliveryStatus.cancelled = true
is_terminal_status s = false

-- The table of `is_valid_transition`, by the status that is left.
unfoldable pub is_valid_transition : DeliveryStatus → DeliveryStatus → Bool
is_valid_transition DeliveryStatus.pending DeliveryStatus.pending = true
is_valid_transition DeliveryStatus.pending DeliveryStatus.deferred = true
is_valid_transition DeliveryStatus.pending DeliveryStatus.injecting = true
is_valid_transition DeliveryStatus.pending DeliveryStatus.cancelled = true
is_valid_transition DeliveryStatus.deferred DeliveryStatus.pending = true
is_valid_transition DeliveryStatus.deferred DeliveryStatus.deferred = true
is_valid_transition DeliveryStatus.deferred DeliveryStatus.injecting = true
is_valid_transition DeliveryStatus.deferred DeliveryStatus.cancelled = true
is_valid_transition DeliveryStatus.injecting DeliveryStatus.injected = true
is_valid_transition DeliveryStatus.injecting DeliveryStatus.failed = true
is_valid_transition DeliveryStatus.injecting DeliveryStatus.deferred = true
is_valid_transition current next = false

-- Equality of two statuses.
unfoldable pub same_status : DeliveryStatus → DeliveryStatus → Bool
same_status DeliveryStatus.pending DeliveryStatus.pending = true
same_status DeliveryStatus.deferred DeliveryStatus.deferred = true
same_status DeliveryStatus.injecting DeliveryStatus.injecting = true
same_status DeliveryStatus.injected DeliveryStatus.injected = true
same_status DeliveryStatus.failed DeliveryStatus.failed = true
same_status DeliveryStatus.cancelled DeliveryStatus.cancelled = true
same_status (DeliveryStatus.other s) (DeliveryStatus.other t) = s == t
same_status a b = false

-- `matches!(status, PENDING | DEFERRED)`.
unfoldable pub is_attemptable : DeliveryStatus → Bool
is_attemptable DeliveryStatus.pending = true
is_attemptable DeliveryStatus.deferred = true
is_attemptable s = false

image_item : Option String → List Value
image_item none = []
image_item (some path) = obj (field "type" (str "image") (field "path" (str path) end)) ∷ []

image_items : List Value → List Value
unfolding image_item trimmed_non_empty
image_items [] = []
image_items (v ∷ vs) = image_item (trimmed_non_empty (as_str v)) ++ image_items vs

items_of : Value → List Value
items_of (arr vs) = to_list vs
items_of v = []

text_item : String → Fields → Value
text_item text rest = obj (field "type" (str "text") (field "text" (str text) rest))

unfoldable pub build_injected_input : TeamMessageRecord → String → List Value
unfolding image_items items_of text_item
build_injected_input message recipient =
    text_item prefix end
    ∷ (items_of message.input
        ++ (image_items (items_of message.image_paths)
            ++ text_item "</team_msg>" (field "recipient" (str recipient) end) ∷ []))
  where
    prefix : String
    prefix =
        "<team_msg kind=\""
        <> ((if message.scope == "broadcast" then "broadcast" else "dm")
            <> ("\" sender=\""
                <> (message.sender_agent_id <> ("\" team_id=\"" <> (message.team_id <> "\">")))))
