-- ===== src/Composer.antt =====
-- frontend/src/components/ChatInput.tsx: the text that is being written, its draft, the signs of
-- typing, the suggestions for a mention, and sending.
--
-- A ref and a piece of React state are both fields of the record, and a handler sees their latest
-- values; an effect runs where a value that it names has changed. The browser's `String.trim` and
-- `toLowerCase` and the word characters of the pattern of a mention are arguments. The height of
-- the field, the focus and the markup are not modelled.
pub mod Content
pub mod Send
pub mod Keys
pub mod Steps
pub mod Balance
pub mod Handling
pub mod Typing
pub mod OneSend
pub mod Draft
pub mod Reload
pub mod Editing
pub mod Mention
pub mod Suggest
pub mod Complete
mod Tests
use token_dance_chat.Base.{ℕ, Bool, true, false, List, [], Option, none, some, Text}

-- `draft` is the item of localStorage, `save_pending` the text that the pending timer saves,
-- `connected` the store's, `next_cursor` the position that the next frame puts the cursor at.
pub record Composer : Type 0 where
  pub content : Text
  pub editing_message_id : Option Text
  pub edit_stash : Option Text
  pub draft : Option Text
  pub draft_loaded : Bool
  pub save_pending : Option Text
  pub is_composing : Bool
  pub connected : Bool
  pub typing_sent : Bool
  pub sending : Bool
  pub is_submitting : Bool
  pub disconnect_feedback : Bool
  pub paste_hint : Bool
  pub pulse_button : Bool
  pub had_content : Bool
  pub mention_active : Bool
  pub mention_index : ℕ
  pub next_cursor : Option ℕ
  pub emoji_open : Bool

-- What a handler asks of the rest of the client.
pub data Effect : Type 0 where
  starts_typing stops_typing clears_reply shows_auth : Effect
  sends_text : Text → Effect
  edits_text : Text → Text → Effect

unfoldable pub fresh_composer : Option Text → Bool → Composer
fresh_composer draft connected = record {
  content = [];
  editing_message_id = none;
  edit_stash = none;
  draft = draft;
  draft_loaded = false;
  save_pending = none;
  is_composing = false;
  connected = connected;
  typing_sent = false;
  sending = false;
  is_submitting = false;
  disconnect_feedback = false;
  paste_hint = false;
  pulse_button = false;
  had_content = false;
  mention_active = false;
  mention_index = 0;
  next_cursor = none;
  emoji_open = false;
}
