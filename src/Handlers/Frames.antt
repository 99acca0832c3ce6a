-- ===== src/Handlers/Frames.antt =====
-- The handlers of single frames: messages, history, deletions, edits, pins, notification
-- preferences and a kick. `now` is `Date.now()`; whether the tab is active is an argument, and the
-- sound and the desktop notification that go with an unread count are not modelled.
use token_dance_chat.Base.{
  ℕ, zero, suc, ◌+◌, Bool, true, false, not, ◌&&◌, ◌||◌, List, [], ◌∷◌, ◌++◌, Option, none, some,
  Text, lit, ◌==◌, lookup, includes, length, ltb, if◌then◌else◌,
}
use mathlib.Core.Option.{get_or}
use token_dance_chat.Message.{ChatMessage, chat_message}
use token_dance_chat.Store.{ChatState, NotificationPref}
use token_dance_chat.Store.Messages.{
  add_message, add_private_bot_message, add_system_message, set_history, prepend_history,
  delete_message, edit_message_in_place, set_pinned_messages, without_id,
}
use token_dance_chat.Store.Conversations.{
  increment_conversation_unread, update_notification_pref, add_muted_conversation,
  remove_muted_conversation,
}
use token_dance_chat.Store.People.{remove_typing_user, remove_poll, reset, set_connected}
use token_dance_chat.ChatApi.{ChatApi}
use token_dance_chat.ChatApi.Socket.{disconnect}

pub record ChatFrame : Type 0 where
  pub id : Text
  pub client_message_id : Option Text
  pub username : Text
  pub content : Text
  pub timestamp : ℕ
  pub reply_to_id : Option Text
  pub reply_to_content : Option Text
  pub reply_to_user : Option Text
  pub is_private : Bool

abbrev pub public_key : Text
public_key = lit "public"

-- `timestamp || Date.now()`
unfoldable pub or_now : ℕ → ℕ → ℕ
or_now zero now = now
or_now (suc t) now = suc t

unfoldable pub message_of : ℕ → ChatFrame → ChatMessage
message_of now f = record (chat_message f.id f.username f.content (or_now f.timestamp now)) {
  client_message_id = f.client_message_id;
  reply_to_id = f.reply_to_id;
  reply_to_content = f.reply_to_content;
  reply_to_user = f.reply_to_user;
}

unfoldable pub pref_mutes : Option NotificationPref → ℕ → Bool
pref_mutes none now = false
pref_mutes (some pref) now = ltb now pref.muted_until

unfoldable pub is_conversation_muted : Text → ℕ → ChatState → Bool
is_conversation_muted key now s =
    includes s.muted_conversations key || pref_mutes (lookup key s.notification_prefs) now

unfoldable pub count_unread : ℕ → Bool → ChatState → ChatState
count_unread now tab_active s =
    if not tab_active && not (is_conversation_muted public_key now s)
    then increment_conversation_unread public_key s
    else s

unfoldable pub on_message_frame : ℕ → Bool → ChatFrame → ChatState → ChatState
on_message_frame now tab_active f s =
    if f.is_private
    then remove_typing_user f.username (add_private_bot_message (message_of now f) s)
    else count_unread now tab_active
        (remove_typing_user f.username (add_message (message_of now f) s))

abbrev fire_no_more_history : ChatState → ChatState
fire_no_more_history s = record s { no_more_history_events = s.no_more_history_events + 1 }

-- An absent list counts as an empty one.
unfoldable pub on_history : List ChatMessage → ChatState → ChatState
on_history messages s =
    let older = prepend_history messages s in
    if s.history_loaded
    then if ltb (length messages) 50 then fire_no_more_history older else older
    else set_history messages s

unfoldable pub on_message_delete : Text → ChatState → ChatState
on_message_delete id s = if id == [] then s else remove_poll id (delete_message id s)

unfoldable pub on_message_edit : Text → Text → Bool → ChatState → ChatState
on_message_edit id content edited s =
    if not (id == []) && not (content == []) && edited
    then edit_message_in_place id content s
    else s

-- `state.messages.find((m) => m.id === id)`
unfoldable pub find_message : Text → List ChatMessage → Option ChatMessage
find_message id [] = none
find_message id (m ∷ ms) = if m.id == id then some m else find_message id ms

unfoldable pub pin : Option ChatMessage → ChatState → ChatState
pin none s = s
pin (some m) s = set_pinned_messages (s.pinned_messages ++ m ∷ []) s

unfoldable pub on_pinned : Text → ChatState → ChatState
on_pinned id s = if id == [] then s else pin (find_message id s.messages) s

unfoldable pub on_unpinned : Text → ChatState → ChatState
on_unpinned id s = if id == [] then s else set_pinned_messages (without_id id s.pinned_messages) s

-- The update of one conversation: `muted_until ?? 0`, `show_preview ?? true`.
unfoldable pub on_notification_pref : Text → Option ℕ → Option Bool → ℕ → ChatState → ChatState
on_notification_pref key muted_until show_preview now s =
    let until = get_or muted_until 0 in
    let t =
      update_notification_pref key
        (record { muted_until = until; show_preview = get_or show_preview true }) s in
    if key == []
    then s
    else if ltb 0 until && ltb now until
    then add_muted_conversation key t
    else remove_muted_conversation key t

-- `kicked`: the notice, whose text is that of the frame or the default one, then the end of the
-- session.
unfoldable pub on_kicked : Text → Text → Text → ℕ → ChatState → ChatApi → ChatState × ChatApi
on_kicked id content default now s api =
    let notice = if content == [] then default else content in
    (set_connected false (reset (add_system_message id notice now none s)), disconnect api)
