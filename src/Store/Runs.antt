-- ===== src/Store/Runs.antt =====
-- Runs of the store's actions keep the windows within their caps.
use token_dance_chat.Base.{
  ℕ, refl, Option, none, some, Bool, List, [], ◌∷◌, Text, Dict, lookup, arith, eqb, Bool-cases, inl,
  inr, ◌==◌,
}
use token_dance_chat.Merge.{prepend}
use token_dance_chat.Store.{ChatState, UserProfile, initial, history_cap}
use token_dance_chat.Store.Messages
use token_dance_chat.Store.Conversations
use token_dance_chat.Store.People
use token_dance_chat.Store.Actions.{
  Action, apply, apply_all, add_message, delete_message, add_system_message, set_history,
  set_private_bot_history, add_private_bot_message, prepend_history, update_message_reactions,
  edit_message_in_place, mark_messages_read_by, set_pinned_messages, set_reply_to, set_current_chat,
  set_unread_count, increment_conversation_unread, clear_conversation_unread,
  clear_all_conversation_unreads, mark_conversation_read, set_latest_mention,
  set_pinned_conversations, add_pinned_conversation, remove_pinned_conversation,
  set_muted_conversations, add_muted_conversation, remove_muted_conversation,
  set_notification_prefs, update_notification_pref, set_archived_conversations,
  add_archived_conversation, remove_archived_conversation, set_view, set_username, set_connected,
  set_guest, set_oidc_auth, clear_oidc_auth, set_show_auth_modal, set_online_users,
  set_user_status_list, set_selected_profile_user, set_typing_users, add_typing_user,
  remove_typing_user, set_blocked_users, add_blocked_user, remove_blocked_user, set_lightbox_image,
  set_user_profile, remove_user_profile, update_user_profile_status, set_custom_emojis,
  add_custom_emoji, remove_custom_emoji, update_poll, remove_poll, set_translation, reset,
}
use token_dance_chat.Store.Bounds.{
  merge-length, live-fits, live-private, without_id-length, length-map_edit, IsBounded,
  IsBounded-if, add_after-IsBounded, add_message-IsBounded,
}

clear-IsBounded :
    (key : Text) (now : ℕ) (storage_ok : Bool) (s : ChatState)
    → IsBounded s
    → IsBounded (Conversations.clear_conversation_unread key now storage_ok s)
unfolding Conversations.clear_conversation_unread Conversations.touch
clear-IsBounded key now storage_ok s h = IsBounded-if (eqb (Conversations.unread key s) 0) s _ h h

status-IsBounded :
    (o : Option UserProfile) (username status : Text) (s : ChatState)
    → IsBounded s
    → IsBounded (People.status_of o username status s)
unfolding People.status_of
status-IsBounded none username status s h = h
status-IsBounded (some existing) username status s h = h

reset-IsBounded : (s : ChatState) → IsBounded s → IsBounded (People.reset s)
unfolding People.reset People.reset_fields
reset-IsBounded s h = elim (Bool-cases (s.username == [])) [
  | inl e ↦ rw e (omega arith, h.1)
  | inr e ↦ rw e (omega arith, h.1)
]

apply-IsBounded : (a : Action) (s : ChatState) → IsBounded s → IsBounded (apply a s)
unfolding apply People.update_user_profile_status Messages.delete_message
    Messages.add_system_message Messages.set_history Messages.set_private_bot_history
    Messages.add_private_bot_message Messages.prepend_history Messages.update_message_reactions
    Messages.edit_message_in_place Messages.mark_messages_read_by Messages.set_pinned_messages
    Messages.set_reply_to Conversations.set_current_chat Conversations.set_unread_count
    Conversations.increment_conversation_unread Conversations.clear_all_conversation_unreads
    Conversations.mark_conversation_read Conversations.set_latest_mention
    Conversations.set_pinned_conversations Conversations.add_pinned_conversation
    Conversations.remove_pinned_conversation Conversations.set_muted_conversations
    Conversations.add_muted_conversation Conversations.remove_muted_conversation
    Conversations.set_notification_prefs Conversations.update_notification_pref
    Conversations.set_archived_conversations Conversations.add_archived_conversation
    Conversations.remove_archived_conversation People.set_view People.set_username
    People.set_connected People.set_guest People.set_oidc_auth People.clear_oidc_auth
    People.set_show_auth_modal People.set_online_users People.set_user_status_list
    People.set_selected_profile_user People.set_typing_users People.add_typing_user
    People.remove_typing_user People.set_blocked_users People.add_blocked_user
    People.remove_blocked_user People.set_lightbox_image People.set_user_profile
    People.remove_user_profile People.set_custom_emojis People.add_custom_emoji
    People.remove_custom_emoji People.update_poll People.remove_poll People.set_translation
    Conversations.touch People.reset_fields
apply-IsBounded (add_message a) s h = add_message-IsBounded a s h
apply-IsBounded (delete_message a) s h =
    (let d = without_id-length a s.messages in omega arith, h.1)
apply-IsBounded (add_system_message a b c d) s h = add_after-IsBounded _ a b c d s refl h
apply-IsBounded (set_history a) s h = (live-fits s.messages a s.revision_counter h.0, h.1)
apply-IsBounded (set_private_bot_history a) s h =
    (h.0, live-private s.private_bot_messages a s.revision_counter h.1)
apply-IsBounded (add_private_bot_message a) s h =
    (h.0, live-private s.private_bot_messages (a ∷ []) s.revision_counter h.1)
apply-IsBounded (prepend_history a) s h =
    (let m = merge-length s.messages a prepend history_cap s.revision_counter in omega arith, h.1)
apply-IsBounded (update_message_reactions a b) s h = h
apply-IsBounded (edit_message_in_place a b) s h =
    (let d = length-map_edit a b s.messages in omega arith, h.1)
apply-IsBounded (mark_messages_read_by a) s h = h
apply-IsBounded (set_pinned_messages a) s h = h
apply-IsBounded (set_reply_to a) s h = h
apply-IsBounded (set_current_chat a b) s h = h
apply-IsBounded (set_unread_count a) s h = h
apply-IsBounded (increment_conversation_unread a) s h = h
apply-IsBounded (clear_conversation_unread a b c) s h = clear-IsBounded a b c s h
apply-IsBounded clear_all_conversation_unreads s h = h
apply-IsBounded (mark_conversation_read a b c) s h = h
apply-IsBounded (set_latest_mention a) s h = h
apply-IsBounded (set_pinned_conversations a) s h = h
apply-IsBounded (add_pinned_conversation a) s h = h
apply-IsBounded (remove_pinned_conversation a) s h = h
apply-IsBounded (set_muted_conversations a) s h = h
apply-IsBounded (add_muted_conversation a) s h = h
apply-IsBounded (remove_muted_conversation a) s h = h
apply-IsBounded (set_notification_prefs a) s h = h
apply-IsBounded (update_notification_pref a b) s h = h
apply-IsBounded (set_archived_conversations a) s h = h
apply-IsBounded (add_archived_conversation a) s h = h
apply-IsBounded (remove_archived_conversation a) s h = h
apply-IsBounded (set_view a) s h = h
apply-IsBounded (set_username a) s h = h
apply-IsBounded (set_connected a) s h = h
apply-IsBounded (set_guest a) s h = h
apply-IsBounded (set_oidc_auth a b) s h = h
apply-IsBounded clear_oidc_auth s h = h
apply-IsBounded (set_show_auth_modal a) s h = h
apply-IsBounded (set_online_users a) s h = h
apply-IsBounded (set_user_status_list a) s h = h
apply-IsBounded (set_selected_profile_user a) s h = h
apply-IsBounded (set_typing_users a) s h = h
apply-IsBounded (add_typing_user a) s h = h
apply-IsBounded (remove_typing_user a) s h = h
apply-IsBounded (set_blocked_users a) s h = h
apply-IsBounded (add_blocked_user a) s h = h
apply-IsBounded (remove_blocked_user a) s h = h
apply-IsBounded (set_lightbox_image a) s h = h
apply-IsBounded (set_user_profile a) s h = h
apply-IsBounded (remove_user_profile a) s h = h
apply-IsBounded (update_user_profile_status a b) s h =
    status-IsBounded (lookup a s.user_profiles) a b s h
apply-IsBounded (set_custom_emojis a) s h = h
apply-IsBounded (add_custom_emoji a) s h = h
apply-IsBounded (remove_custom_emoji a) s h = h
apply-IsBounded (update_poll a b) s h = h
apply-IsBounded (remove_poll a) s h = h
apply-IsBounded (set_translation a b) s h = h
apply-IsBounded reset s h = reset-IsBounded s h

run-IsBounded :
    (actions : List Action) (s : ChatState) → IsBounded s → IsBounded (apply_all actions s)
unfolding apply_all
run-IsBounded [] s h = h
run-IsBounded (a ∷ actions) s h = run-IsBounded actions (apply a s) (apply-IsBounded a s h)

-- Whatever actions run from the state in which the page loads, in whatever order, the public
-- window never holds more than 1000 messages and the private one never more than 500.
pub apply_all-initial-IsBounded :
    (storage : Dict (Dict ℕ)) (actions : List Action)
    → IsBounded (apply_all actions (initial storage))
unfolding initial
apply_all-initial-IsBounded storage actions =
    run-IsBounded actions (initial storage) (omega arith, omega arith)
