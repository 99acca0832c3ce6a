-- ===== src/Store/Messages.antt =====
-- The actions on the windows of messages, their previews, reactions and read receipts.
use token_dance_chat.Base.{
  ℕ, ◌+◌, Bool, true, false, not, ◌&&◌, List, [], ◌∷◌, ◌++◌, map, Option, none, some, Text, Dict,
  lit, ◌==◌, lookup, insert, includes, length, take, ltb, eqb, ◌-◌, if◌then◌else◌,
}
use mathlib.Core.Option.{get_or}
use token_dance_chat.Message.{ChatMessage, chat_message}
use token_dance_chat.Merge.{MergeResult, prepend, append, merge_message_window}
use token_dance_chat.Store.{ChatState, Preview, message_cap, history_cap}

abbrev pub system : Text
system = lit "system"

-- `!message.deleted && message.username !== "system" && message.content`
unfoldable pub shows_preview : ChatMessage → Bool
shows_preview m =
    not (get_or m.deleted false) && not (m.username == system) && not (m.content == [])

-- The text of the preview: cut at 50 characters, marked when it is the user's own.
unfoldable pub preview_content : Text → ChatMessage → Text
preview_content username m =
    let content = if ltb 50 (length m.content) then take 47 m.content ++ lit "..." else m.content in
    if m.username == username then lit "You: " ++ content else content

-- `state.lastPreviews.public = ...`, under its guard.
unfoldable pub note_preview : Text → ChatMessage → Dict Preview → Dict Preview
note_preview username m previews =
    if shows_preview m
    then insert (lit "public")
        (record {
          content = preview_content username m;
          timestamp = m.timestamp;
          sender = m.username;
        })
        previews
    else previews

unfoldable pub note_previews : Text → List ChatMessage → Dict Preview → Dict Preview
note_previews username [] previews = previews
note_previews username (m ∷ ms) previews =
    note_previews username ms (note_preview username m previews)

-- `set` with the messages and the revision of a merge; the module's counter is the same number.
abbrev pub set_window : MergeResult → ChatState → ChatState
set_window result s = record s {
  messages = result.messages;
  message_window_revision = result.revision;
  revision_counter = result.revision;
}

unfoldable pub add_message : ChatMessage → ChatState → ChatState
add_message message s =
    if includes s.blocked_users message.username
    then s
    else set_window
        (merge_message_window s.messages (message ∷ []) append message_cap s.revision_counter)
        (record s { last_previews = note_preview s.username message s.last_previews })

-- `messages.filter((m) => m.id !== id)`
unfoldable pub without_id : Text → List ChatMessage → List ChatMessage
without_id id [] = []
without_id id (m ∷ ms) = if m.id == id then without_id id ms else m ∷ without_id id ms

unfoldable pub delete_message : Text → ChatState → ChatState
delete_message id s = record s { messages = without_id id s.messages }

-- `state.messages[state.messages.length - 1]`
unfoldable pub last_message : List ChatMessage → Option ChatMessage
last_message [] = none
last_message (m ∷ []) = some m
last_message (m ∷ m' ∷ ms) = last_message (m' ∷ ms)

-- `dedupeKey && last.dedupeKey === dedupeKey`
unfoldable pub same_key : Option Text → Option Text → Bool
same_key none last_key = false
same_key (some key) none = false
same_key (some key) (some last_key) = not (key == []) && (last_key == key)

-- `slice(0, -1)`, then `push`.
abbrev pub replace_last : ChatMessage → ChatState → ChatState
replace_last m s = record s {
  messages = take (length s.messages - 1) s.messages ++ m ∷ [];
  message_window_revision = s.message_window_revision + 1;
}

-- The line that is new: `id` is the generated one.
unfoldable pub append_system : Text → Text → ℕ → Option Text → ChatState → ChatState
append_system id content timestamp dedupe_key s =
    let line = record (chat_message id system content timestamp) { dedupe_key = dedupe_key } in
    set_window (merge_message_window s.messages (line ∷ []) append message_cap s.revision_counter) s

-- `addSystemMessage` by the line that is last, if there is one.
unfoldable pub add_after :
    Option ChatMessage → Text → Text → ℕ → Option Text → ChatState → ChatState
add_after none id content timestamp dedupe_key s = append_system id content timestamp dedupe_key s
add_after (some last) id content timestamp dedupe_key s =
    if (last.username == system) && same_key dedupe_key last.dedupe_key
    then replace_last (record last { content = content; timestamp = timestamp }) s
    else if (last.username == system) && (last.content == content)
    then replace_last (record last { timestamp = timestamp }) s
    else append_system id content timestamp dedupe_key s

unfoldable pub add_system_message : Text → Text → ℕ → Option Text → ChatState → ChatState
add_system_message id content timestamp dedupe_key s =
    add_after (last_message s.messages) id content timestamp dedupe_key s

unfoldable pub set_history : List ChatMessage → ChatState → ChatState
set_history incoming s =
    set_window (merge_message_window s.messages incoming append message_cap s.revision_counter)
      (record s {
        last_previews = note_previews s.username incoming s.last_previews;
        history_loaded = true;
      })

unfoldable pub set_private_bot_history : List ChatMessage → ChatState → ChatState
set_private_bot_history incoming s =
    let result =
      merge_message_window s.private_bot_messages incoming append message_cap s.revision_counter in
    record s { private_bot_messages = result.messages; revision_counter = result.revision }

unfoldable pub add_private_bot_message : ChatMessage → ChatState → ChatState
add_private_bot_message message = set_private_bot_history (message ∷ [])

unfoldable pub prepend_history : List ChatMessage → ChatState → ChatState
prepend_history incoming s =
    let result = merge_message_window s.messages incoming prepend history_cap s.revision_counter in
    set_window result (record s {
      no_more_history_events =
          if eqb result.added_count 0
          then s.no_more_history_events + 1
          else s.no_more_history_events;
    })

unfoldable pub update_message_reactions : Text → Dict (List Text) → ChatState → ChatState
update_message_reactions message_id reactions s = record s {
  reactions_by_message_id = insert message_id reactions s.reactions_by_message_id;
}

unfoldable pub edit_message : Text → Text → ChatMessage → ChatMessage
edit_message message_id content m =
    if m.id == message_id then record m { content = content; edited = some true } else m

unfoldable pub edit_message_in_place : Text → Text → ChatState → ChatState
edit_message_in_place message_id content s = record s {
  messages = map (edit_message message_id content) s.messages;
}

-- `next[m.id] || m.read_by || []`
unfoldable pub readers : Dict (List Text) → ChatMessage → List Text
readers next m = get_or (lookup m.id next) (get_or m.read_by [])

-- One round of the loop of `markMessagesReadBy`.
unfoldable pub mark_read : Text → Text → Dict (List Text) → ChatMessage → Dict (List Text)
mark_read username reader next m =
    if not (m.username == username)
    then next
    else if includes (readers next m) reader
    then next
    else insert m.id (readers next m ++ reader ∷ []) next

unfoldable pub mark_all_read : Text → Text → Dict (List Text) → List ChatMessage → Dict (List Text)
mark_all_read username reader next [] = next
mark_all_read username reader next (m ∷ ms) =
    mark_all_read username reader (mark_read username reader next m) ms

unfoldable pub mark_messages_read_by : Text → ChatState → ChatState
mark_messages_read_by reader s = record s {
  read_by_message_id = mark_all_read s.username reader s.read_by_message_id s.messages;
}

unfoldable pub set_pinned_messages : List ChatMessage → ChatState → ChatState
set_pinned_messages messages s = record s { pinned_messages = messages }

unfoldable pub set_reply_to : Option ChatMessage → ChatState → ChatState
set_reply_to reply_to s = record s { reply_to = reply_to }
