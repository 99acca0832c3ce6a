-- ===== src/Store/People.antt =====
-- The actions on the user and the other people: identity, typing, blocking, profiles, emojis,
-- polls, translations, and `reset`.
use token_dance_chat.Base.{
  Bool, true, false, List, [], ◌∷◌, ◌++◌, Option, none, some, Text, lookup, insert, erase, ◌==◌,
  if◌then◌else◌,
}
use token_dance_chat.Message.{UserStatus, CustomEmoji, PollData}
use token_dance_chat.Store.{
  ChatState, ViewState, chat, UserProfile, public_chat, last_read_key, load_last_read_timestamps,
}
use token_dance_chat.Store.Lists.{add_name, remove_name}

unfoldable pub set_view : ViewState → ChatState → ChatState
set_view view s = record s { view = view }

unfoldable pub set_username : Text → ChatState → ChatState
set_username username s = record s {
  username = username;
  last_read_timestamps = load_last_read_timestamps username s.local_storage;
}

unfoldable pub set_connected : Bool → ChatState → ChatState
set_connected connected s = record s { connected = connected }

unfoldable pub set_guest : Bool → ChatState → ChatState
set_guest is_guest s = record s { is_guest = is_guest }

unfoldable pub set_oidc_auth : Text → Option Text → ChatState → ChatState
set_oidc_auth access_token refresh_token s = record s {
  oidc_authenticated = true;
  oidc_access_token = some access_token;
  oidc_refresh_token = refresh_token;
}

unfoldable pub clear_oidc_auth : ChatState → ChatState
clear_oidc_auth s = record s {
  oidc_authenticated = false;
  oidc_access_token = none;
  oidc_refresh_token = none;
}

unfoldable pub set_show_auth_modal : Bool → ChatState → ChatState
set_show_auth_modal show s = record s { show_auth_modal = show }

unfoldable pub set_online_users : List Text → ChatState → ChatState
set_online_users users s = record s { online_users = users }

unfoldable pub set_user_status_list : List UserStatus → ChatState → ChatState
set_user_status_list users s = record s { user_status_list = users }

unfoldable pub set_selected_profile_user : Option Text → ChatState → ChatState
set_selected_profile_user username s = record s { selected_profile_user = username }

unfoldable pub set_typing_users : List Text → ChatState → ChatState
set_typing_users users s = record s { typing_users = users }

unfoldable pub add_typing_user : Text → ChatState → ChatState
add_typing_user username s = record s { typing_users = add_name username s.typing_users }

unfoldable pub remove_typing_user : Text → ChatState → ChatState
remove_typing_user username s = record s { typing_users = remove_name username s.typing_users }

unfoldable pub set_blocked_users : List Text → ChatState → ChatState
set_blocked_users users s = record s { blocked_users = users }

unfoldable pub add_blocked_user : Text → ChatState → ChatState
add_blocked_user username s = record s { blocked_users = add_name username s.blocked_users }

unfoldable pub remove_blocked_user : Text → ChatState → ChatState
remove_blocked_user username s = record s { blocked_users = remove_name username s.blocked_users }

unfoldable pub set_lightbox_image : Option Text → ChatState → ChatState
set_lightbox_image image s = record s { lightbox_image = image }

unfoldable pub set_user_profile : UserProfile → ChatState → ChatState
set_user_profile profile s = record s {
  user_profiles = insert profile.username profile s.user_profiles;
}

unfoldable pub remove_user_profile : Text → ChatState → ChatState
remove_user_profile username s = record s { user_profiles = erase username s.user_profiles }

-- `updateUserProfileStatus` by the profile that is found.
unfoldable pub status_of : Option UserProfile → Text → Text → ChatState → ChatState
status_of none username status s = s
status_of (some existing) username status s = record s {
  user_profiles = insert username (record existing { status = status }) s.user_profiles;
}

unfoldable pub update_user_profile_status : Text → Text → ChatState → ChatState
update_user_profile_status username status s =
    status_of (lookup username s.user_profiles) username status s

unfoldable pub set_custom_emojis : List CustomEmoji → ChatState → ChatState
set_custom_emojis emojis s = record s { custom_emojis = emojis }

unfoldable pub add_custom_emoji : CustomEmoji → ChatState → ChatState
add_custom_emoji emoji s = record s { custom_emojis = s.custom_emojis ++ emoji ∷ [] }

-- `customEmojis.filter((e) => e.name !== name)`
unfoldable pub without_emoji : Text → List CustomEmoji → List CustomEmoji
without_emoji name [] = []
without_emoji name (e ∷ es) =
    if e.name == name then without_emoji name es else e ∷ without_emoji name es

unfoldable pub remove_custom_emoji : Text → ChatState → ChatState
remove_custom_emoji name s = record s { custom_emojis = without_emoji name s.custom_emojis }

unfoldable pub update_poll : Text → PollData → ChatState → ChatState
update_poll poll_id poll s = record s { polls = insert poll_id poll s.polls }

unfoldable pub remove_poll : Text → ChatState → ChatState
remove_poll poll_id s = record s { polls = erase poll_id s.polls }

unfoldable pub set_translation : Text → Text → ChatState → ChatState
set_translation message_id text s = record s {
  translations = insert message_id text s.translations;
}

-- `set({ ... })` of `reset`: the private messages and what stands beyond the store are not in it.
unfoldable pub reset_fields : ChatState → ChatState
reset_fields s = record s {
  view = chat;
  username = [];
  connected = false;
  is_guest = false;
  show_auth_modal = false;
  oidc_authenticated = false;
  oidc_access_token = none;
  oidc_refresh_token = none;
  messages = [];
  message_window_revision = 0;
  history_loaded = false;
  reactions_by_message_id = [];
  read_by_message_id = [];
  last_previews = [];
  online_users = [];
  user_status_list = [];
  selected_profile_user = none;
  typing_users = [];
  typing_previews = [];
  current_chat = public_chat;
  reply_to = none;
  unread_count = 0;
  unread_by_conversation = [];
  last_read_timestamps = [];
  latest_mention = none;
  blocked_users = [];
  pinned_messages = [];
  pinned_conversations = [];
  muted_conversations = [];
  notification_prefs = [];
  archived_conversations = [];
  lightbox_image = none;
  user_profiles = [];
  custom_emojis = [];
  translations = [];
  polls = [];
}

unfoldable pub reset : ChatState → ChatState
reset s = reset_fields (
    if s.username == []
    then s
    else record s { local_storage = erase (last_read_key s.username) s.local_storage })
