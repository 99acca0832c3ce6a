-- ===== src/Transcript.antt =====
-- frontend/src/components/MessageTranscript.tsx: what the list of messages shows, and the state
-- that its handlers and effects keep.
--
-- Sizes and positions on the screen are whole pixels. A `Set` of ids is a list without repetition.
-- A ref and a piece of React state are both fields of the record, and a handler sees their latest
-- values.
pub mod Groups
pub mod Grouping
pub mod Paging
pub mod Requests
pub mod Positions
pub mod Display
pub mod Divider
pub mod Badge
pub mod Selection
pub mod Deletion
mod Tests
use token_dance_chat.Base.{ℕ, Bool, true, false, List, [], Option, none, Text, Dict}

pub record View : Type 0 where
  pub should_auto_scroll : Bool
  pub show_all_messages : Bool
  pub is_loading_more : Bool
  pub loading_older : Bool
  pub pagination_error : Bool
  pub has_more : Bool
  pub prev_conversation : Text
  pub pending_scroll_restore : ℕ
  pub first_message_id_before_load : Text
  pub scroll_positions : Dict ℕ
  pub new_message_count : ℕ
  pub last_seen_message_id : Option Text
  pub select_mode : Bool
  pub selected_ids : List Text
  pub drag_select : Bool
  pub prev_msg_count : ℕ
  pub cached_reply_counts : Dict ℕ

unfoldable pub fresh_view : View
fresh_view = record {
  should_auto_scroll = true;
  show_all_messages = false;
  is_loading_more = false;
  loading_older = false;
  pagination_error = false;
  has_more = true;
  prev_conversation = [];
  pending_scroll_restore = 0;
  first_message_id_before_load = [];
  scroll_positions = [];
  new_message_count = 0;
  last_seen_message_id = none;
  select_mode = false;
  selected_ids = [];
  drag_select = false;
  prev_msg_count = 0;
  cached_reply_counts = [];
}
