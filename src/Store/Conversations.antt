-- ===== src/Store/Conversations.antt =====
-- The actions on conversations: unread counts, the times of last reading, pins, mutes, archives
-- and notification preferences.
use token_dance_chat.Base.{
  ℕ, ◌+◌, Bool, List, [], Option, Text, Dict, lit, lookup, insert, erase, eqb, if◌then◌else◌,
}
use mathlib.Core.Option.{get_or}
use token_dance_chat.Store.{
  ChatState, NotificationPref, MentionNotification, public_chat, last_read_key,
}
use token_dance_chat.Store.Lists.{add_name, remove_name}

-- `nextTimestamps`, and the guarded write to localStorage: a write over quota changes nothing.
unfoldable pub touch : Text → ℕ → Bool → ChatState → ChatState
touch key now storage_ok s =
    let next_timestamps = insert key now s.last_read_timestamps in
    record s {
      last_read_timestamps = next_timestamps;
      local_storage =
          if storage_ok
          then insert (last_read_key s.username) next_timestamps s.local_storage
          else s.local_storage;
    }

unfoldable pub set_current_chat : ℕ → Bool → ChatState → ChatState
set_current_chat now storage_ok s = record (touch (lit "public") now storage_ok s) {
  current_chat = public_chat;
}

unfoldable pub set_unread_count : ℕ → ChatState → ChatState
set_unread_count n s = record s { unread_count = n }

-- `unreadByConversation[key] || 0`
unfoldable pub unread : Text → ChatState → ℕ
unread key s = get_or (lookup key s.unread_by_conversation) 0

unfoldable pub increment_conversation_unread : Text → ChatState → ChatState
increment_conversation_unread key s = record s {
  unread_by_conversation = insert key (unread key s + 1) s.unread_by_conversation;
}

unfoldable pub clear_conversation_unread : Text → ℕ → Bool → ChatState → ChatState
clear_conversation_unread key now storage_ok s =
    if eqb (unread key s) 0 then s else record (touch key now storage_ok s) {
      unread_by_conversation = erase key s.unread_by_conversation;
    }

unfoldable pub clear_all_conversation_unreads : ChatState → ChatState
clear_all_conversation_unreads s = record s { unread_by_conversation = [] }

unfoldable pub mark_conversation_read : Text → ℕ → Bool → ChatState → ChatState
mark_conversation_read key now storage_ok s = record (touch key now storage_ok s) {
  unread_by_conversation = erase key s.unread_by_conversation;
}

unfoldable pub set_latest_mention : Option MentionNotification → ChatState → ChatState
set_latest_mention latest_mention s = record s { latest_mention = latest_mention }

unfoldable pub set_pinned_conversations : List Text → ChatState → ChatState
set_pinned_conversations keys s = record s { pinned_conversations = keys }

unfoldable pub add_pinned_conversation : Text → ChatState → ChatState
add_pinned_conversation key s = record s {
  pinned_conversations = add_name key s.pinned_conversations;
}

unfoldable pub remove_pinned_conversation : Text → ChatState → ChatState
remove_pinned_conversation key s = record s {
  pinned_conversations = remove_name key s.pinned_conversations;
}

unfoldable pub set_muted_conversations : List Text → ChatState → ChatState
set_muted_conversations keys s = record s { muted_conversations = keys }

unfoldable pub add_muted_conversation : Text → ChatState → ChatState
add_muted_conversation key s = record s { muted_conversations = add_name key s.muted_conversations }

unfoldable pub remove_muted_conversation : Text → ChatState → ChatState
remove_muted_conversation key s = record s {
  muted_conversations = remove_name key s.muted_conversations;
}

unfoldable pub set_notification_prefs : Dict NotificationPref → ChatState → ChatState
set_notification_prefs prefs s = record s { notification_prefs = prefs }

unfoldable pub update_notification_pref : Text → NotificationPref → ChatState → ChatState
update_notification_pref key pref s = record s {
  notification_prefs = insert key pref s.notification_prefs;
}

unfoldable pub set_archived_conversations : List Text → ChatState → ChatState
set_archived_conversations keys s = record s { archived_conversations = keys }

unfoldable pub add_archived_conversation : Text → ChatState → ChatState
add_archived_conversation key s = record s {
  archived_conversations = add_name key s.archived_conversations;
}

unfoldable pub remove_archived_conversation : Text → ChatState → ChatState
remove_archived_conversation key s = record s {
  archived_conversations = remove_name key s.archived_conversations;
}
