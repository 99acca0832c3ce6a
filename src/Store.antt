-- ===== src/Store.antt =====
-- frontend/src/stores/chatStore.ts: the state of the chat client and its actions.
--
-- An action is a function on the state. The last three fields stand for what the actions reach
-- beyond it: the counter of mergeMessageWindow.ts, the browser's localStorage (one record of
-- timestamps for each user; a text that does not parse counts as absent) and the number of
-- "tdchat:no-more-history" events fired. `Date.now()`, whether a write to localStorage succeeds,
-- and the generated id of a system line are arguments.
pub mod Lists
pub mod Messages
pub mod Conversations
pub mod People
pub mod Actions
pub mod Bounds
pub mod Runs
pub mod Receipts
pub mod Unread
pub mod SystemLines
pub mod Session
pub mod Blocked
mod Tests
use token_dance_chat.Base.{
  ℕ, Bool, true, false, List, [], ◌∷◌, ◌++◌, Option, none, some, Text, Dict, lit, lookup,
  if◌then◌else◌,
}
use mathlib.Core.Option.{get_or}
use token_dance_chat.Message.{ChatMessage, UserStatus, CustomEmoji, PollData}

pub data ViewState : Type 0 where
  chat : ViewState

pub data CurrentChat : Type 0 where
  public_chat : CurrentChat

pub record MentionNotification : Type 0 where
  pub from : Text
  pub content : Text
  pub message_id : Text
  pub room_id : Option Text
  pub group : Option Text
  pub timestamp : ℕ

pub record UserProfile : Type 0 where
  pub username : Text
  pub display_name : Text
  pub avatar_url : Text
  pub bio : Text
  pub status : Text
  pub last_seen : ℕ
  pub created_at : ℕ

pub record NotificationPref : Type 0 where
  pub muted_until : ℕ
  pub show_preview : Bool

pub record Preview : Type 0 where
  pub content : Text
  pub timestamp : ℕ
  pub sender : Text

pub record ChatState : Type 0 where
  pub view : ViewState
  pub username : Text
  pub connected : Bool
  pub is_guest : Bool
  pub messages : List ChatMessage
  pub message_window_revision : ℕ
  pub history_loaded : Bool
  pub private_bot_messages : List ChatMessage
  pub reactions_by_message_id : Dict (Dict (List Text))
  pub read_by_message_id : Dict (List Text)
  pub last_previews : Dict Preview
  pub online_users : List Text
  pub user_status_list : List UserStatus
  pub selected_profile_user : Option Text
  pub typing_users : List Text
  pub typing_previews : Dict Text
  pub current_chat : CurrentChat
  pub reply_to : Option ChatMessage
  pub unread_count : ℕ
  pub unread_by_conversation : Dict ℕ
  pub last_read_timestamps : Dict ℕ
  pub latest_mention : Option MentionNotification
  pub blocked_users : List Text
  pub pinned_messages : List ChatMessage
  pub pinned_conversations : List Text
  pub muted_conversations : List Text
  pub notification_prefs : Dict NotificationPref
  pub archived_conversations : List Text
  pub lightbox_image : Option Text
  pub user_profiles : Dict UserProfile
  pub custom_emojis : List CustomEmoji
  pub translations : Dict Text
  pub polls : Dict PollData
  pub show_auth_modal : Bool
  pub oidc_authenticated : Bool
  pub oidc_access_token : Option Text
  pub oidc_refresh_token : Option Text
  pub revision_counter : ℕ
  pub local_storage : Dict (Dict ℕ)
  pub no_more_history_events : ℕ

abbrev pub message_cap : ℕ
message_cap = 500

abbrev pub history_cap : ℕ
history_cap = 1000

-- `getLSLastReadKey`
abbrev pub last_read_key : Text → Text
last_read_key username = lit "tokendance:lastReadTimestamps:" ++ username

-- `loadLastReadTimestamps`
unfoldable pub load_last_read_timestamps : Text → Dict (Dict ℕ) → Dict ℕ
load_last_read_timestamps username storage = get_or (lookup (last_read_key username) storage) []

-- The state when the page loads.
unfoldable pub initial : Dict (Dict ℕ) → ChatState
initial storage = record {
  view = chat;
  username = [];
  connected = false;
  is_guest = false;
  messages = [];
  message_window_revision = 0;
  history_loaded = false;
  private_bot_messages = [];
  reactions_by_message_id = [];
  read_by_message_id = [];
  last_previews = [];
  online_users = [];
  user_status_list = [];
  selected_profile_user = none;
  typing_users = [];
  typing_previews = [];
  current_chat = public_chat;
  reply_to = none;
  unread_count = 0;
  unread_by_conversation = [];
  last_read_timestamps = load_last_read_timestamps [] storage;
  latest_mention = none;
  blocked_users = [];
  pinned_messages = [];
  pinned_conversations = [];
  muted_conversations = [];
  notification_prefs = [];
  archived_conversations = [];
  lightbox_image = none;
  user_profiles = [];
  custom_emojis = [];
  translations = [];
  polls = [];
  show_auth_modal = false;
  oidc_authenticated = false;
  oidc_access_token = none;
  oidc_refresh_token = none;
  revision_counter = 0;
  local_storage = storage;
  no_more_history_events = 0;
}
