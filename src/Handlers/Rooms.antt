-- ===== src/Handlers/Rooms.antt =====
-- Messages of the room and of the private thread, and the end of a session by a kick.
use token_dance_chat.Base.{
  ℕ, ◌+◌, ◌≡◌, refl, Bool, true, false, [], none, Text, includes, lookup-insert, arith,
}
use token_dance_chat.Store.{ChatState}
use token_dance_chat.Store.Messages.{add_message, add_private_bot_message, set_private_bot_history}
use token_dance_chat.Store.Conversations.{unread, increment_conversation_unread}
use token_dance_chat.Store.People.{remove_typing_user, reset, reset_fields, set_connected}
use token_dance_chat.ChatApi.{ChatApi}
use token_dance_chat.ChatApi.Socket.{disconnect, close_ws}
use token_dance_chat.Handlers.Frames.{
  ChatFrame, message_of, public_key, is_conversation_muted, count_unread, on_message_frame,
  on_kicked,
}

add_message-private :
    (now : ℕ) (tab_active : Bool) (f : ChatFrame) (s : ChatState)
    → (count_unread now tab_active
        (remove_typing_user f.username (add_message (message_of now f) s))).private_bot_messages
      ≡ s.private_bot_messages
unfolding count_unread remove_typing_user add_message increment_conversation_unread
add_message-private now tab_active f s = ground arith

-- The room and the private thread never mix: a private frame leaves the messages of the room and
-- the unread counts as they are, and a frame of the room leaves the private messages as they are.
pub on_message_frame-apart :
    (now : ℕ) (tab_active : Bool) (f : ChatFrame) (s : ChatState)
    → let private_one = on_message_frame now tab_active (record f { is_private = true }) s in
      let room_one = on_message_frame now tab_active (record f { is_private = false }) s in
      (private_one.messages ≡ s.messages)
      × (private_one.unread_by_conversation ≡ s.unread_by_conversation)
      × (room_one.private_bot_messages ≡ s.private_bot_messages)
unfolding on_message_frame remove_typing_user add_private_bot_message set_private_bot_history
on_message_frame-apart now tab_active f s =
    (refl, refl, add_message-private now tab_active (record f { is_private = false }) s)

-- A message of the room from a blocked user, while the tab is not active and the room is not
-- muted, is not shown, and is counted as unread all the same.
pub on_message_frame-blocked :
    (now : ℕ) (f : ChatFrame) (s : ChatState)
    → f.is_private ≡ false
    → includes s.blocked_users f.username ≡ true
    → is_conversation_muted public_key now s ≡ false
    → let t = on_message_frame now false f s in
      (t.messages ≡ s.messages) × (unread public_key t ≡ unread public_key s + 1)
unfolding on_message_frame count_unread remove_typing_user add_message increment_conversation_unread
    unread is_conversation_muted message_of
on_message_frame-blocked now f s p b m =
    ground (
      arith,
      lookup-insert public_key public_key (unread public_key s + 1) s.unread_by_conversation,
    )

-- After a kick is handled no message of the room is on screen, the notice of the kick among them;
-- the store says that there is no connection, and the connection knows no name to come back under.
pub on_kicked_lem :
    (id content default : Text) (now : ℕ) (s : ChatState) (api : ChatApi)
    → let t = on_kicked id content default now s api in
      (t.0.messages ≡ [])
      × (t.0.connected ≡ false)
      × (t.0.username ≡ [])
      × (t.1.reconnect_username ≡ none)
      × (t.1.ws ≡ none)
unfolding on_kicked reset reset_fields set_connected disconnect close_ws
on_kicked_lem id content default now s api = (refl, refl, refl, ground arith, ground arith)
