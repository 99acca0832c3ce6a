-- ===== src/ChatApi/Commands.antt =====
-- frontend/src/lib/api.ts: the frames that the methods of ChatAPI hand to `send`, by method. Each
-- method is `send` of its frame. A value that is absent is the field `undefined`, which JSON leaves
-- out.
use token_dance_chat.Base.{ℕ, Bool, List, [], ◌∷◌, Option, none, some, Text, lit}
use mathlib.Core.Option.{get_or}
use token_dance_chat.Message.{ChatMessage}
use token_dance_chat.Wire.{
  Fields, end, field, Items, nil, cons, bool, num, str, arr, obj, message, optional,
}
use token_dance_chat.ChatApi.{ReadyState, ChatApi}
use token_dance_chat.ChatApi.Socket.{send}

pub record ProfileUpdate : Type 0 where
  pub display_name : Option Text
  pub avatar_url : Option Text
  pub bio : Option Text
  pub status : Option Text

unfoldable pub texts : List Text → Items
texts [] = nil
texts (t ∷ ts) = cons (str t) (texts ts)

-- `...(to ? { to } : {})`
unfoldable pub to_field : Option Text → Fields
to_field none = end
to_field (some []) = end
to_field (some (c ∷ cs)) = field (lit "to") (str (c ∷ cs)) end

-- The methods with their arguments.
pub data Command : Type 0 where
  send_message : Text → Option ChatMessage → Option Text → Option Text → Command
  send_thread_reply : Text → Text → Command
  request_thread_messages : Text → Command
  delete_message : Text → Command
  send_mark_read : Command
  send_room_leave : Command
  send_typing_start : Option Text → Command
  send_typing_stop : Command
  send_reaction : Text → Text → Command
  send_message_edit : Text → Text → Command
  send_set_topic : Text → Command
  send_block : Text → Command
  send_unblock : Text → Command
  send_block_list : Command
  send_load_history : ℕ → Command
  send_pin_message : Text → Command
  send_unpin_message : Text → Command
  send_set_notification_prefs : Text → ℕ → Bool → Command
  send_get_notification_prefs : Command
  send_poll_create : Text → List Text → Bool → Bool → Command
  send_poll_vote : Text → ℕ → Command
  send_poll_close : Text → Command
  send_profile_update : ProfileUpdate → Command
  send_profile_get : Option Text → Command
  send_status_update : Text → Command
  send_custom_emoji_add : Text → Text → Command
  send_custom_emoji_delete : Text → Command
  send_custom_emoji_list : Command
  send_translate_message : Text → Text → Option Text → Command

-- `sendMessage`
unfoldable pub message_frame : Text → Option ChatMessage → Option Text → Option Text → Fields
message_frame content none client_message_id to = message (lit "message") (
    field (lit "client_message_id") (optional client_message_id)
      (field (lit "content") (str content) (to_field to)))
message_frame content (some reply_to) client_message_id to = message (lit "message") (
    field (lit "client_message_id") (optional client_message_id) (
      field (lit "content") (str content) (
        field (lit "reply_to_id") (str reply_to.id) (
          field (lit "reply_to_content") (str reply_to.content)
            (field (lit "reply_to_user") (str reply_to.username) (to_field to))))))

unfoldable pub send_thread_reply_frame : Text → Text → Fields
send_thread_reply_frame thread_id content =
    message (lit "message")
      (field (lit "content") (str content) (field (lit "thread_id") (str thread_id) end))

unfoldable pub request_thread_messages_frame : Text → Fields
request_thread_messages_frame parent_message_id =
    message (lit "thread_messages") (field (lit "parent_message_id") (str parent_message_id) end)

unfoldable pub delete_message_frame : Text → Fields
delete_message_frame id = message (lit "message_delete") (field (lit "id") (str id) end)

unfoldable pub send_mark_read_frame : Fields
send_mark_read_frame = message (lit "mark_read") (field (lit "context") (str (lit "public")) end)

unfoldable pub send_room_leave_frame : Fields
send_room_leave_frame = message (lit "room_leave") end

unfoldable pub send_typing_start_frame : Option Text → Fields
send_typing_start_frame preview =
    message (lit "typing_start")
      (field (lit "context") (str (lit "public")) (field (lit "preview") (optional preview) end))

unfoldable pub send_typing_stop_frame : Fields
send_typing_stop_frame =
    message (lit "typing_stop") (field (lit "context") (str (lit "public")) end)

unfoldable pub send_reaction_frame : Text → Text → Fields
send_reaction_frame message_id emoji =
    message (lit "reaction")
      (field (lit "message_id") (str message_id) (field (lit "emoji") (str emoji) end))

unfoldable pub send_message_edit_frame : Text → Text → Fields
send_message_edit_frame message_id content =
    message (lit "message_edit")
      (field (lit "id") (str message_id) (field (lit "content") (str content) end))

unfoldable pub send_set_topic_frame : Text → Fields
send_set_topic_frame topic = message (lit "set_topic") (field (lit "topic") (str topic) end)

unfoldable pub send_block_frame : Text → Fields
send_block_frame username = message (lit "block") (field (lit "username") (str username) end)

unfoldable pub send_unblock_frame : Text → Fields
send_unblock_frame username = message (lit "unblock") (field (lit "username") (str username) end)

unfoldable pub send_block_list_frame : Fields
send_block_list_frame = message (lit "block_list") end

unfoldable pub send_load_history_frame : ℕ → Fields
send_load_history_frame before =
    message (lit "load_history") (field (lit "timestamp") (num before) end)

unfoldable pub send_pin_message_frame : Text → Fields
send_pin_message_frame message_id =
    message (lit "pin_message") (field (lit "id") (str message_id) end)

unfoldable pub send_unpin_message_frame : Text → Fields
send_unpin_message_frame message_id =
    message (lit "unpin_message") (field (lit "id") (str message_id) end)

unfoldable pub send_set_notification_prefs_frame : Text → ℕ → Bool → Fields
send_set_notification_prefs_frame key muted_until show_preview =
    message (lit "notification_prefs_set") (
      field (lit "key") (str key) (
        field (lit "muted_until") (num muted_until)
          (field (lit "show_preview") (bool show_preview) end)))

unfoldable pub send_get_notification_prefs_frame : Fields
send_get_notification_prefs_frame = message (lit "notification_prefs_get") end

unfoldable pub send_poll_create_frame : Text → List Text → Bool → Bool → Fields
send_poll_create_frame question options multiple_choice is_anonymous = message (lit "poll_create") (
    field (lit "poll")
      (obj (
        field (lit "question") (str question) (
          field (lit "options") (arr (texts options)) (
            field (lit "multiple_choice") (bool multiple_choice)
              (field (lit "is_anonymous") (bool is_anonymous) end)))))
      end)

unfoldable pub send_poll_vote_frame : Text → ℕ → Fields
send_poll_vote_frame poll_id option_index =
    message (lit "poll_vote")
      (field (lit "id") (str poll_id) (field (lit "option_index") (num option_index) end))

unfoldable pub send_poll_close_frame : Text → Fields
send_poll_close_frame poll_id = message (lit "poll_close") (field (lit "id") (str poll_id) end)

unfoldable pub send_profile_update_frame : ProfileUpdate → Fields
send_profile_update_frame profile = message (lit "profile_update") (
    field (lit "display_name") (optional profile.display_name) (
      field (lit "avatar_url") (optional profile.avatar_url) (
        field (lit "bio") (optional profile.bio)
          (field (lit "status") (optional profile.status) end))))

unfoldable pub send_profile_get_frame : Option Text → Fields
send_profile_get_frame username =
    message (lit "profile_get") (field (lit "username") (optional username) end)

unfoldable pub send_status_update_frame : Text → Fields
send_status_update_frame status =
    message (lit "status_update") (field (lit "status") (str status) end)

unfoldable pub send_custom_emoji_add_frame : Text → Text → Fields
send_custom_emoji_add_frame name url =
    message (lit "custom_emoji_add")
      (field (lit "name") (str name) (field (lit "url") (str url) end))

unfoldable pub send_custom_emoji_delete_frame : Text → Fields
send_custom_emoji_delete_frame name =
    message (lit "custom_emoji_delete") (field (lit "name") (str name) end)

unfoldable pub send_custom_emoji_list_frame : Fields
send_custom_emoji_list_frame = message (lit "custom_emoji_list") end

unfoldable pub send_translate_message_frame : Text → Text → Option Text → Fields
send_translate_message_frame message_id content target_lang = message (lit "translate_message") (
    field (lit "message_id") (str message_id)
      (field (lit "content") (str content) (field (lit "to") (str (get_or target_lang [])) end)))

unfoldable pub frame_of : Command → Fields
frame_of (send_message a b c d) = message_frame a b c d
frame_of (send_thread_reply a b) = send_thread_reply_frame a b
frame_of (request_thread_messages a) = request_thread_messages_frame a
frame_of (delete_message a) = delete_message_frame a
frame_of send_mark_read = send_mark_read_frame
frame_of send_room_leave = send_room_leave_frame
frame_of (send_typing_start a) = send_typing_start_frame a
frame_of send_typing_stop = send_typing_stop_frame
frame_of (send_reaction a b) = send_reaction_frame a b
frame_of (send_message_edit a b) = send_message_edit_frame a b
frame_of (send_set_topic a) = send_set_topic_frame a
frame_of (send_block a) = send_block_frame a
frame_of (send_unblock a) = send_unblock_frame a
frame_of send_block_list = send_block_list_frame
frame_of (send_load_history a) = send_load_history_frame a
frame_of (send_pin_message a) = send_pin_message_frame a
frame_of (send_unpin_message a) = send_unpin_message_frame a
frame_of (send_set_notification_prefs a b c) = send_set_notification_prefs_frame a b c
frame_of send_get_notification_prefs = send_get_notification_prefs_frame
frame_of (send_poll_create a b c d) = send_poll_create_frame a b c d
frame_of (send_poll_vote a b) = send_poll_vote_frame a b
frame_of (send_poll_close a) = send_poll_close_frame a
frame_of (send_profile_update a) = send_profile_update_frame a
frame_of (send_profile_get a) = send_profile_get_frame a
frame_of (send_status_update a) = send_status_update_frame a
frame_of (send_custom_emoji_add a b) = send_custom_emoji_add_frame a b
frame_of (send_custom_emoji_delete a) = send_custom_emoji_delete_frame a
frame_of send_custom_emoji_list = send_custom_emoji_list_frame
frame_of (send_translate_message a b c) = send_translate_message_frame a b c

unfoldable pub perform : (ℕ → ReadyState) → Command → ChatApi → ChatApi
perform ready c = send ready (frame_of c)

-- Commands in a row, each with the `readyState` of the sockets at its time.
unfoldable pub perform_all : List ((ℕ → ReadyState) × Command) → ChatApi → ChatApi
perform_all [] s = s
perform_all ((ready, c) ∷ cs) s = perform_all cs (perform ready c s)
