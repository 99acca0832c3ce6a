-- ===== src/Handlers/Roster.antt =====
-- The handlers of frames about people, lists and polls, and of the three events of a reconnection.
-- The text of a system line is an argument: it is printed by `i18nSys`, which calls the browser's
-- `JSON.stringify`. A list that is absent is `none`.
use token_dance_chat.Base.{
  ℕ, true, false, not, ◌&&◌, ◌||◌, List, [], Option, none, some, Text, Dict, lit, ◌==◌,
  if◌then◌else◌,
}
use mathlib.Core.Option.{get_or}
use token_dance_chat.Message.{ChatMessage, PollData, chat_message}
use token_dance_chat.Store.{ChatState, UserProfile}
use token_dance_chat.Store.Messages.{
  add_message, add_system_message, set_pinned_messages, update_message_reactions,
  mark_messages_read_by,
}
use token_dance_chat.Store.Conversations.{
  set_pinned_conversations, set_muted_conversations, set_archived_conversations,
}
use token_dance_chat.Store.People.{
  set_connected, set_online_users, set_blocked_users, add_blocked_user, remove_blocked_user,
  set_user_profile, update_user_profile_status, set_translation, update_poll,
}
use token_dance_chat.Handlers.Frames.{or_now}

-- A setter that runs where its list is there.
unfoldable pub if_given {ℓ} :
    {A : Type ℓ} → (A → ChatState → ChatState) → Option A → ChatState → ChatState
if_given set none s = s
if_given set (some x) s = set x s

-- `user_joined` and `user_left`: a line about others, none about the user.
unfoldable pub on_presence : Text → Text → Text → Option (List Text) → ℕ → ℕ → ChatState → ChatState
on_presence id line username online timestamp now s =
    let t = if_given set_online_users online s in
    if not (username == []) && not (username == s.username)
    then add_system_message id line (or_now timestamp now) none t
    else t

unfoldable pub on_online_users : Option (List Text) → ChatState → ChatState
on_online_users = if_given set_online_users

unfoldable pub profile_of :
    Text → Option Text → Option Text → Option Text → Option Text → ℕ → UserProfile
profile_of username display_name avatar_url bio status last_seen = record {
  username = username;
  display_name = get_or display_name [];
  avatar_url = get_or avatar_url [];
  bio = get_or bio [];
  status = get_or status [];
  last_seen = last_seen;
  created_at = 0;
}

-- `profile_updated` with `last_seen = now`, `profile_get` with `last_seen ?? 0`.
unfoldable pub on_profile : UserProfile → ChatState → ChatState
on_profile profile s = if profile.username == [] then s else set_user_profile profile s

unfoldable pub on_status_updated : Text → Option Text → ChatState → ChatState
on_status_updated username status s =
    if username == [] then s else update_user_profile_status username (get_or status []) s

-- The key of the lines about the connection.
abbrev pub reconnect_key : Text
reconnect_key = lit "reconnect"

unfoldable pub on_reconnecting : Text → Text → ℕ → ChatState → ChatState
on_reconnecting id line now s =
    add_system_message id line now (some reconnect_key) (set_connected false s)

unfoldable pub on_reconnected : Text → Text → ℕ → ChatState → ChatState
on_reconnected id line now s =
    add_system_message id line now (some reconnect_key) (set_connected true s)

unfoldable pub on_reconnect_failed : Text → Text → ℕ → ChatState → ChatState
on_reconnect_failed id line now = add_system_message id line now none

unfoldable pub on_block_list : Option (List Text) → ChatState → ChatState
on_block_list = if_given set_blocked_users

unfoldable pub on_block : Text → ChatState → ChatState
on_block username s = if username == [] then s else add_blocked_user username s

unfoldable pub on_unblock : Text → ChatState → ChatState
on_unblock username s = if username == [] then s else remove_blocked_user username s

unfoldable pub on_pinned_list : Option (List ChatMessage) → ChatState → ChatState
on_pinned_list = if_given set_pinned_messages

unfoldable pub on_pinned_conversations : Option (List Text) → ChatState → ChatState
on_pinned_conversations = if_given set_pinned_conversations

unfoldable pub on_muted_conversations : Option (List Text) → ChatState → ChatState
on_muted_conversations = if_given set_muted_conversations

unfoldable pub on_archived_conversations : Option (List Text) → ChatState → ChatState
on_archived_conversations = if_given set_archived_conversations

unfoldable pub on_reaction_update : Text → Option (Dict (List Text)) → ChatState → ChatState
on_reaction_update id reactions s =
    if id == [] then s else if_given (update_message_reactions id) reactions s

unfoldable pub on_read_receipt : Text → ChatState → ChatState
on_read_receipt from s = if from == [] then s else mark_messages_read_by from s

unfoldable pub on_translate_result : Text → Text → ChatState → ChatState
on_translate_result message_id content s =
    if (message_id == []) || (content == []) then s else set_translation message_id content s

-- `poll_created`: `username || poll.creator`, `poll.created_at || Date.now()`.
unfoldable pub on_poll_created :
    Text → Text → Option Text → Option PollData → ℕ → ChatState → ChatState
on_poll_created id username room_id none now s = s
on_poll_created id username room_id (some poll) now s =
    let author = if username == [] then poll.creator else username in
    let m = record (chat_message id author poll.question (or_now poll.created_at now)) {
      room_id = room_id;
    } in
    if id == [] then s else update_poll id poll (add_message m s)

-- `poll_vote_update` and `poll_closed`.
unfoldable pub on_poll : Text → Option PollData → ChatState → ChatState
on_poll id poll s = if id == [] then s else if_given (update_poll id) poll s
