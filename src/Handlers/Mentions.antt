-- ===== src/Handlers/Mentions.antt =====
-- The handlers of mentions and of the full list of notification preferences, the page's count of
-- unread mentions, and `markRead`. The page's title is computed from the count and is not kept.
use token_dance_chat.Base.{
  ℕ, ◌+◌, Bool, not, List, [], ◌∷◌, ◌++◌, Option, none, some, Text, Dict, lit, ◌==◌, insert, take,
  ltb, if◌then◌else◌,
}
use token_dance_chat.Store.{ChatState, NotificationPref, MentionNotification}
use token_dance_chat.Store.Conversations.{
  set_latest_mention, set_notification_prefs, set_muted_conversations, clear_conversation_unread,
  set_unread_count,
}
use token_dance_chat.ChatApi.{ReadyState, ChatApi}
use token_dance_chat.ChatApi.Commands.{send_mark_read, perform}
use token_dance_chat.Handlers.Frames.{public_key}

-- The store, `unreadTitleCount` and `isTabActive`.
pub record Page : Type 0 where
  pub chat : ChatState
  pub unread_title_count : ℕ
  pub is_tab_active : Bool

pub record MentionFrame : Type 0 where
  pub from : Text
  pub content : Text
  pub message_id : Text
  pub room_id : Option Text
  pub group : Option Text

-- `mention_notify`, and `mention_all` with the sender's name marked.
unfoldable pub on_mention : Text → MentionFrame → ℕ → Page → Page
on_mention shown_from f now p =
    let mention : MentionNotification = record {
      from = shown_from;
      content = take 100 f.content;
      message_id = f.message_id;
      room_id = f.room_id;
      group = f.group;
      timestamp = now;
    } in
    if f.from == [] then p else record p {
      chat = set_latest_mention (some mention) p.chat;
      unread_title_count =
          if p.is_tab_active then p.unread_title_count else p.unread_title_count + 1;
    }

unfoldable pub on_mention_notify : MentionFrame → ℕ → Page → Page
on_mention_notify f = on_mention f.from f

unfoldable pub on_mention_all : MentionFrame → ℕ → Page → Page
on_mention_all f = on_mention (f.from ++ lit " (@all)") f

unfoldable pub handle_visibility : Bool → Page → Page
handle_visibility hidden p = record p {
  is_tab_active = not hidden;
  unread_title_count = if hidden then p.unread_title_count else 0;
}

unfoldable pub mark_read_page : (ℕ → ReadyState) → ℕ → Bool → Page → ChatApi → Page × ChatApi
mark_read_page ready now storage_ok p api = (
  record p {
    chat = set_unread_count 0 (clear_conversation_unread public_key now storage_ok p.chat);
    unread_title_count = 0;
  },
  perform ready send_mark_read api,
)

pub record PrefItem : Type 0 where
  pub key : Text
  pub muted_until : ℕ
  pub show_preview : Bool

-- `prefs[p.key] = ...` for each of the list, in turn.
unfoldable pub prefs_of : List PrefItem → Dict NotificationPref → Dict NotificationPref
prefs_of [] prefs = prefs
prefs_of (p ∷ ps) prefs =
    prefs_of ps
      (insert p.key (record { muted_until = p.muted_until; show_preview = p.show_preview }) prefs)

unfoldable pub muted_keys : ℕ → List PrefItem → List Text
muted_keys now [] = []
muted_keys now (p ∷ ps) =
    let rest = muted_keys now ps in if ltb now p.muted_until then p.key ∷ rest else rest

unfoldable pub on_notification_prefs : Option (List PrefItem) → ℕ → ChatState → ChatState
on_notification_prefs none now s = s
on_notification_prefs (some ps) now s =
    set_muted_conversations (muted_keys now ps) (set_notification_prefs (prefs_of ps []) s)
