-- ===== src/Store/Actions.antt =====
-- Every action of the store, and runs of them.
use token_dance_chat.Base.{ℕ, Bool, List, [], ◌∷◌, Option, Text, Dict}
use token_dance_chat.Message.{ChatMessage, UserStatus, CustomEmoji, PollData}
use token_dance_chat.Store.{
  ChatState, ViewState, UserProfile, NotificationPref, MentionNotification,
}
use token_dance_chat.Store.Messages
use token_dance_chat.Store.Conversations
use token_dance_chat.Store.People

pub data Action : Type 0 where
  add_message : ChatMessage → Action
  delete_message : Text → Action
  add_system_message : Text → Text → ℕ → Option Text → Action
  set_history : List ChatMessage → Action
  set_private_bot_history : List ChatMessage → Action
  add_private_bot_message : ChatMessage → Action
  prepend_history : List ChatMessage → Action
  update_message_reactions : Text → Dict (List Text) → Action
  edit_message_in_place : Text → Text → Action
  mark_messages_read_by : Text → Action
  set_pinned_messages : List ChatMessage → Action
  set_reply_to : Option ChatMessage → Action
  set_current_chat : ℕ → Bool → Action
  set_unread_count : ℕ → Action
  increment_conversation_unread : Text → Action
  clear_conversation_unread : Text → ℕ → Bool → Action
  clear_all_conversation_unreads : Action
  mark_conversation_read : Text → ℕ → Bool → Action
  set_latest_mention : Option MentionNotification → Action
  set_pinned_conversations : List Text → Action
  add_pinned_conversation : Text → Action
  remove_pinned_conversation : Text → Action
  set_muted_conversations : List Text → Action
  add_muted_conversation : Text → Action
  remove_muted_conversation : Text → Action
  set_notification_prefs : Dict NotificationPref → Action
  update_notification_pref : Text → NotificationPref → Action
  set_archived_conversations : List Text → Action
  add_archived_conversation : Text → Action
  remove_archived_conversation : Text → Action
  set_view : ViewState → Action
  set_username : Text → Action
  set_connected : Bool → Action
  set_guest : Bool → Action
  set_oidc_auth : Text → Option Text → Action
  clear_oidc_auth : Action
  set_show_auth_modal : Bool → Action
  set_online_users : List Text → Action
  set_user_status_list : List UserStatus → Action
  set_selected_profile_user : Option Text → Action
  set_typing_users : List Text → Action
  add_typing_user : Text → Action
  remove_typing_user : Text → Action
  set_blocked_users : List Text → Action
  add_blocked_user : Text → Action
  remove_blocked_user : Text → Action
  set_lightbox_image : Option Text → Action
  set_user_profile : UserProfile → Action
  remove_user_profile : Text → Action
  update_user_profile_status : Text → Text → Action
  set_custom_emojis : List CustomEmoji → Action
  add_custom_emoji : CustomEmoji → Action
  remove_custom_emoji : Text → Action
  update_poll : Text → PollData → Action
  remove_poll : Text → Action
  set_translation : Text → Text → Action
  reset : Action

unfoldable pub apply : Action → ChatState → ChatState
apply (add_message a) s = Messages.add_message a s
apply (delete_message a) s = Messages.delete_message a s
apply (add_system_message a b c d) s = Messages.add_system_message a b c d s
apply (set_history a) s = Messages.set_history a s
apply (set_private_bot_history a) s = Messages.set_private_bot_history a s
apply (add_private_bot_message a) s = Messages.add_private_bot_message a s
apply (prepend_history a) s = Messages.prepend_history a s
apply (update_message_reactions a b) s = Messages.update_message_reactions a b s
apply (edit_message_in_place a b) s = Messages.edit_message_in_place a b s
apply (mark_messages_read_by a) s = Messages.mark_messages_read_by a s
apply (set_pinned_messages a) s = Messages.set_pinned_messages a s
apply (set_reply_to a) s = Messages.set_reply_to a s
apply (set_current_chat a b) s = Conversations.set_current_chat a b s
apply (set_unread_count a) s = Conversations.set_unread_count a s
apply (increment_conversation_unread a) s = Conversations.increment_conversation_unread a s
apply (clear_conversation_unread a b c) s = Conversations.clear_conversation_unread a b c s
apply clear_all_conversation_unreads s = Conversations.clear_all_conversation_unreads s
apply (mark_conversation_read a b c) s = Conversations.mark_conversation_read a b c s
apply (set_latest_mention a) s = Conversations.set_latest_mention a s
apply (set_pinned_conversations a) s = Conversations.set_pinned_conversations a s
apply (add_pinned_conversation a) s = Conversations.add_pinned_conversation a s
apply (remove_pinned_conversation a) s = Conversations.remove_pinned_conversation a s
apply (set_muted_conversations a) s = Conversations.set_muted_conversations a s
apply (add_muted_conversation a) s = Conversations.add_muted_conversation a s
apply (remove_muted_conversation a) s = Conversations.remove_muted_conversation a s
apply (set_notification_prefs a) s = Conversations.set_notification_prefs a s
apply (update_notification_pref a b) s = Conversations.update_notification_pref a b s
apply (set_archived_conversations a) s = Conversations.set_archived_conversations a s
apply (add_archived_conversation a) s = Conversations.add_archived_conversation a s
apply (remove_archived_conversation a) s = Conversations.remove_archived_conversation a s
apply (set_view a) s = People.set_view a s
apply (set_username a) s = People.set_username a s
apply (set_connected a) s = People.set_connected a s
apply (set_guest a) s = People.set_guest a s
apply (set_oidc_auth a b) s = People.set_oidc_auth a b s
apply clear_oidc_auth s = People.clear_oidc_auth s
apply (set_show_auth_modal a) s = People.set_show_auth_modal a s
apply (set_online_users a) s = People.set_online_users a s
apply (set_user_status_list a) s = People.set_user_status_list a s
apply (set_selected_profile_user a) s = People.set_selected_profile_user a s
apply (set_typing_users a) s = People.set_typing_users a s
apply (add_typing_user a) s = People.add_typing_user a s
apply (remove_typing_user a) s = People.remove_typing_user a s
apply (set_blocked_users a) s = People.set_blocked_users a s
apply (add_blocked_user a) s = People.add_blocked_user a s
apply (remove_blocked_user a) s = People.remove_blocked_user a s
apply (set_lightbox_image a) s = People.set_lightbox_image a s
apply (set_user_profile a) s = People.set_user_profile a s
apply (remove_user_profile a) s = People.remove_user_profile a s
apply (update_user_profile_status a b) s = People.update_user_profile_status a b s
apply (set_custom_emojis a) s = People.set_custom_emojis a s
apply (add_custom_emoji a) s = People.add_custom_emoji a s
apply (remove_custom_emoji a) s = People.remove_custom_emoji a s
apply (update_poll a b) s = People.update_poll a b s
apply (remove_poll a) s = People.remove_poll a s
apply (set_translation a b) s = People.set_translation a b s
apply reset s = People.reset s

-- A run, the first action first.
unfoldable pub apply_all : List Action → ChatState → ChatState
apply_all [] s = s
apply_all (a ∷ actions) s = apply_all actions (apply a s)
